-- ===== src/Recharge/Once.antt =====
-- An order that is paid stays as it is.
use new1v.Prelude.{
  ℕ, ◌≡◌, refl, inl, inr, Bool, true, false, not, Option, none, some, ◌&&◌, ◌==◌, if◌then◌else◌,
  Bool-cases, if-both,
}
use new1v.Prelude.Dict.{lookup, lookup-alter_self}
use new1v.Recharge.{
  RechargeOrder, RechargeTables, CallbackEnv, RechargeReply, recharged, is_pending_order, mark_paid,
  pay_order, settle_found, settle_order, recharge_callback, hold_key, closed, in_progress,
  not_found, forbidden, is_held,
}

-- The order is there and paid.
abbrev pub IsPaid : ℕ → RechargeTables → Type 0
IsPaid order_no t =
    (o : RechargeOrder) × (lookup order_no t.orders ≡ some o) × (is_pending_order o.status ≡ false)

-- If the answer is that the order was paid, it is.
abbrev Settles : ℕ → RechargeTables × RechargeReply → Type 0
Settles order_no r = r.1 ≡ recharged → IsPaid order_no r.0

settle_order-Settles :
    (order_no user_id : ℕ) (t : RechargeTables) → Settles order_no (settle_order order_no user_id t)
unfolding settle_order settle_found pay_order
settle_order-Settles order_no user_id t = found (lookup order_no t.orders) refl
  where
    found :
        (o : Option RechargeOrder)
        → lookup order_no t.orders ≡ o
        → Settles order_no (settle_found o order_no user_id t)
    found none _ = λ h. cc
    found (some order) there = elim (Bool-cases (is_pending_order order.status)) [
      | inl e ↦ simp e (
          if-both (Settles order_no) (not (order.user_id == user_id)) (t, forbidden)
            (pay_order order_no order t, recharged) (λ h. cc)
            (λ h.
              (mark_paid order, lookup-alter_self order_no mark_paid t.orders order there, refl)))
      | inr e ↦ simp e (λ (h : not_found ≡ recharged). cc)
    ]

recharge_callback-Settles :
    (env : CallbackEnv) (order_no user_id now : ℕ) (t : RechargeTables)
    → Settles order_no (recharge_callback env order_no user_id now t)
unfolding recharge_callback
recharge_callback-Settles env order_no user_id now t =
    if-both (Settles order_no) (not env.enable_mock_callback) (t, closed) _ (λ h. cc)
      (if-both (Settles order_no) (env.redis_up && is_held order_no now t.idempotent)
        (t, in_progress) _ (λ h. cc)
        (settle_order-Settles order_no user_id
          (if env.redis_up then hold_key order_no now t else t)))

abbrev Untouched : RechargeTables → RechargeTables × RechargeReply → Type 0
Untouched t r = (r.0.users ≡ t.users) × (r.0.orders ≡ t.orders)

settle_order-paid :
    (order_no user_id : ℕ) (t : RechargeTables)
    → IsPaid order_no t
    → Untouched t (settle_order order_no user_id t)
unfolding settle_order settle_found
settle_order-paid order_no user_id t (o, there, s) = rw there (simp s (refl, refl))

callback-paid :
    (env : CallbackEnv) (order_no user_id now : ℕ) (t : RechargeTables)
    → IsPaid order_no t
    → Untouched t (recharge_callback env order_no user_id now t)
unfolding recharge_callback
callback-paid env order_no user_id now t p =
    if-both (Untouched t) (not env.enable_mock_callback) (t, closed) _ (refl, refl)
      (if-both (Untouched t) (env.redis_up && is_held order_no now t.idempotent) (t, in_progress) _
        (refl, refl) (again env.redis_up))
  where
    again :
        (b : Bool)
        → Untouched t (settle_order order_no user_id (if b then hold_key order_no now t else t))
    again true = settle_order-paid order_no user_id (hold_key order_no now t) p
    again false = settle_order-paid order_no user_id t p

-- Once a callback has paid an order, a callback for it by anyone, at any time, whether Redis answers
-- or not, changes no user and no order.
pub credits_once :
    (env env' : CallbackEnv) (order_no user_id user_id' now now' : ℕ) (t : RechargeTables)
    → (recharge_callback env order_no user_id now t).1 ≡ recharged
    → Untouched (recharge_callback env order_no user_id now t).0 (
        recharge_callback env' order_no user_id' now'
          (recharge_callback env order_no user_id now t).0)
credits_once env env' order_no user_id user_id' now now' t h =
    callback-paid env' order_no user_id' now' (recharge_callback env order_no user_id now t).0
      (recharge_callback-Settles env order_no user_id now t h)
