-- ===== src/Vip/Once.antt =====
-- An order extends its user's time once.
use new1v.Prelude.{ℕ, ◌≡◌, refl, Bool, false, not, some, ◌==◌, if-both}
use new1v.Prelude.Dict.{lookup}
use new1v.Vip.{
  VipOrder, VipTables, VipReply, activated, closed, no_login, is_unpaid, pay_found,
  mark_vip_order_paid, vip_order_callback,
}
use new1v.Vip.Expiry.{vip_order_callback-Activated}

abbrev Untouched : VipTables → VipTables × VipReply → Type 0
Untouched t r = r.0 ≡ t

callback-paid :
    (enabled : Bool) (order_no user_id now : ℕ) (t : VipTables) (order : VipOrder)
    → lookup order_no t.orders ≡ some order
    → is_unpaid order.status ≡ false
    → Untouched t (vip_order_callback enabled order_no user_id now t)
unfolding vip_order_callback mark_vip_order_paid pay_found
callback-paid enabled order_no user_id now t order there s =
    if-both (Untouched t) (not enabled) (t, closed) _ refl
      (if-both (Untouched t) (user_id == 0) (t, no_login) _ refl (rw there (simp s refl)))

-- Once a callback has activated an order, a callback for it by anyone, at any time, changes nothing.
pub activates_once :
    (enabled enabled' : Bool) (order_no user_id user_id' now now' after : ℕ) (t : VipTables)
    → (vip_order_callback enabled order_no user_id now t).1 ≡ activated after
    → (vip_order_callback enabled' order_no user_id' now'
        (vip_order_callback enabled order_no user_id now t).0).0
      ≡ (vip_order_callback enabled order_no user_id now t).0
activates_once enabled enabled' order_no user_id user_id' now now' after t h =
    let a = vip_order_callback-Activated enabled order_no user_id now after t h in
    callback-paid enabled' order_no user_id' now'
      (vip_order_callback enabled order_no user_id now t).0 _ a.marked refl
