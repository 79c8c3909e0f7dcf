-- ===== src/Recharge/Ledger.antt =====
-- What an order brings its user.
use new1v.Prelude.{
  ℕ, ◌+◌, ◌*◌, ◌≡◌, refl, inl, inr, Bool, true, false, not, Option, none, some, ◌&&◌, [], ◌∷◌, ◌==◌,
  if◌then◌else◌, arith, Bool-cases, if-both,
}
use new1v.Prelude.Int.{pos, ◌+ℤ◌, int_eqs}
use new1v.Prelude.Dict.{Dict, lookup, alter}
use new1v.Records.{AppUser}
use new1v.Users.Balance.{coins, credit_coins-coins}
use new1v.Recharge.{
  RechargeOrder, RechargeTables, CallbackEnv, RechargeReply, is_pending_order, mark_paid, pay_order,
  settle_found, settle_order, recharge_callback, hold_key, closed, in_progress, forbidden, is_held,
}

abbrev paid_amount : ℕ → RechargeOrder → ℕ
paid_amount k order =
    if (order.user_id == k) && not (is_pending_order order.status) then order.amount * 100 else 0

-- What user k has paid for, in hundredths of a coin.
unfoldable pub paid_sum : ℕ → Dict RechargeOrder → ℕ
paid_sum k [] = 0
paid_sum k ((order_no, order) ∷ orders) = paid_amount k order + paid_sum k orders

-- Between the two states the coins of user k have grown by what became paid.
abbrev pub Credits : ℕ → RechargeTables → RechargeTables → Type 0
Credits k t r =
    coins k r.users +ℤ pos (paid_sum k t.orders) ≡ coins k t.users +ℤ pos (paid_sum k r.orders)

paid_sum-pay :
    (k order_no : ℕ) (order : RechargeOrder) (orders : Dict RechargeOrder)
    → lookup order_no orders ≡ some order
    → is_pending_order order.status ≡ true
    → paid_sum k (alter order_no mark_paid orders)
      ≡ paid_sum k orders + (if order.user_id == k then order.amount * 100 else 0)
unfolding paid_sum lookup alter
paid_sum-pay k order_no order [] h s = cc
paid_sum-pay k order_no order ((j, d) ∷ orders) h s = elim (Bool-cases (order_no == j)) [
  | inl e ↦ let same : d ≡ order = ground (arith, h, e) in simp e (ground (arith, s, same))
  | inr e ↦ simp e (omega (arith, paid_sum-pay k order_no order orders (ground (arith, h, e)) s))
]

pay_order-Credits :
    (k order_no : ℕ) (order : RechargeOrder) (t : RechargeTables) (u : AppUser)
    → lookup order_no t.orders ≡ some order
    → is_pending_order order.status ≡ true
    → lookup k t.users ≡ some u
    → Credits k t (pay_order order_no order t)
unfolding pay_order
pay_order-Credits k order_no order t u there unpaid row =
    let due = paid_sum-pay k order_no order t.orders there unpaid in
    let got = credit_coins-coins k order.user_id (pos (order.amount * 100)) t.users u row in
    elim (Bool-cases (order.user_id == k)) [
      | inl e ↦ omega (int_eqs, rw e at due, rw e at got)
      | inr e ↦ omega (int_eqs, rw e at due, rw e at got)
    ]

abbrev CreditsReply : ℕ → RechargeTables → RechargeTables × RechargeReply → Type 0
CreditsReply k t r = Credits k t r.0

settle_order-Credits :
    (k order_no user_id : ℕ) (t : RechargeTables) (u : AppUser)
    → lookup k t.users ≡ some u
    → CreditsReply k t (settle_order order_no user_id t)
unfolding settle_order settle_found
settle_order-Credits k order_no user_id t u row = found (lookup order_no t.orders) refl
  where
    found :
        (o : Option RechargeOrder)
        → lookup order_no t.orders ≡ o
        → CreditsReply k t (settle_found o order_no user_id t)
    found none _ = refl
    found (some order) there = elim (Bool-cases (is_pending_order order.status)) [
      | inl e ↦ simp e (
          if-both (CreditsReply k t) (not (order.user_id == user_id)) (t, forbidden) _ refl
            (pay_order-Credits k order_no order t u there e row))
      | inr e ↦ simp e refl
    ]

-- A callback, whatever it answers: the coins of a user who has a row grow by exactly the amounts of
-- that user's orders that became paid.
pub recharge_callback-Credits :
    (env : CallbackEnv) (order_no user_id now k : ℕ) (t : RechargeTables) (u : AppUser)
    → lookup k t.users ≡ some u
    → Credits k t (recharge_callback env order_no user_id now t).0
unfolding recharge_callback
recharge_callback-Credits env order_no user_id now k t u row =
    if-both (CreditsReply k t) (not env.enable_mock_callback) (t, closed) _ refl
      (if-both (CreditsReply k t) (env.redis_up && is_held order_no now t.idempotent)
        (t, in_progress) _ refl (settled env.redis_up))
  where
    settled :
        (b : Bool)
        → CreditsReply k t
            (settle_order order_no user_id (if b then hold_key order_no now t else t))
    settled true = settle_order-Credits k order_no user_id (hold_key order_no now t) u row
    settled false = settle_order-Credits k order_no user_id t u row
