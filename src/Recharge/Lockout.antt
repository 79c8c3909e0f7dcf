-- ===== src/Recharge/Lockout.antt =====
-- The key of an order is taken before the order is looked at, and by whoever calls.
use new1v.Prelude.{ℕ, ◌+◌, ◌<◌, ◌≡◌, ◌≢◌, refl, true, false, some, ◌==◌, arith}
use new1v.Prelude.Dict.{lookup}
use new1v.Recharge.{
  RechargeOrder, RechargeTables, CallbackEnv, in_progress, forbidden, is_pending_order, is_held,
  hold_key, callback_ttl, settle_order, settle_found, recharge_callback,
}

abbrev Working : CallbackEnv → Type 0
Working env = (env.enable_mock_callback ≡ true) × (env.redis_up ≡ true)

module _ (env : CallbackEnv) (order_no stranger now : ℕ) (t : RechargeTables)
    (order : RechargeOrder) (works : Working env) (there : lookup order_no t.orders ≡ some order)
    (unpaid : is_pending_order order.status ≡ true) (foreign : order.user_id ≢ stranger)
    (free : is_held order_no now t.idempotent ≡ false) where
  foreign_callback :
      recharge_callback env order_no stranger now t ≡ (hold_key order_no now t, forbidden)
  unfolding recharge_callback settle_order settle_found
  foreign_callback =
      let other : (order.user_id == stranger) ≡ false = ground (arith, foreign) in
      simp (works.0, works.1, free, there, unpaid, other) refl

  held :
      (now' : ℕ)
      → now' < now + callback_ttl
      → is_held order_no now' (hold_key order_no now t).idempotent ≡ true
  unfolding is_held lookup
  held now' soon = ground arith

  -- The order is unpaid and its key is free. A callback by somebody else is refused, and takes the
  -- key: the callbacks of the order's own user are then turned away for an hour, and the order
  -- stays unpaid.
  pub foreign_callback-blocks :
      (now' : ℕ)
      → now' < now + callback_ttl
      → ((recharge_callback env order_no stranger now t).1 ≡ forbidden)
        × (recharge_callback env order_no order.user_id now'
              (recharge_callback env order_no stranger now t).0
            ≡ (hold_key order_no now t, in_progress))
  foreign_callback-blocks now' soon = rw foreign_callback (refl, turned_away)
    where
      turned_away :
          recharge_callback env order_no order.user_id now' (hold_key order_no now t)
          ≡ (hold_key order_no now t, in_progress)
      turned_away = unfold recharge_callback in simp (works.0, works.1, held now' soon) refl
