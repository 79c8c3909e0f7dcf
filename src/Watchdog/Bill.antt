-- ===== src/Watchdog/Bill.antt =====
-- The top-up and the refund: what is booked on the call is what the payer has paid.
use new1v.Prelude.{ℕ, ◌<◌, ◌≡◌, inl, inr, some, Bool-cases, lt→ltb}
use new1v.Prelude.Int.{ℤ, ◌-ℤ◌, ltb_ℤ, int_laws, int_eqs}
use new1v.Prelude.Dict.{lookup}
use new1v.Records.{AppUser}
use new1v.Users.{Users}
use new1v.Users.Balance.{Pays, Pays-refl, Pays-eq, credit_coins-Pays, charge_coins_lem}
use new1v.Fee.{cents}
use new1v.Fee.Rounding.{cents_parts}
use new1v.Watchdog.Finish.{top_up, refund, bill_payer, bill_difference}

ruleset money = (int_eqs, cents_parts)

module _ (p : ℕ) (us : Users) (u : AppUser) (there : lookup p us ≡ some u) where
  top_up-Pays :
      (amount base : ℤ)
      → Pays p
          (cents (top_up p amount base us).charged_amount -ℤ cents base)
          us
          (top_up p amount base us).users
  unfolding top_up
  top_up-Pays amount base = elim (charge_coins_lem p (cents amount) us u there) [
    | inl (paid, _, s) ↦ rw paid (Pays-eq (omega (int_eqs, cents_parts)) s)
    | inr (same, _) ↦ rw same (Pays-eq (omega (int_eqs, cents_parts)) (Pays-refl p us))
  ]

  refund-Pays :
      (amount base : ℤ)
      → Pays p
          (cents (refund p amount base us).charged_amount -ℤ cents base)
          us
          (refund p amount base us).users
  unfolding refund
  refund-Pays amount base =
      Pays-eq (omega (int_eqs, cents_parts)) (credit_coins-Pays p (cents amount) us u there)

  bill_payer-Pays :
      (actual deducted base : ℤ)
      → let b = bill_payer p actual deducted base us in
        Pays p (cents b.charged_amount -ℤ cents base) us b.users
  unfolding bill_payer
  bill_payer-Pays actual deducted base = elim (Bool-cases (ltb_ℤ deducted actual)) [
    | inl e ↦ rw e (top_up-Pays (actual -ℤ deducted) base)
    | inr e ↦ elim (Bool-cases (ltb_ℤ actual deducted)) [
      | inl e' ↦ rw (e, e') (refund-Pays (deducted -ℤ actual) base)
      | inr e' ↦ rw (e, e') (Pays-eq (omega int_laws) (Pays-refl p us))
    ]
  ]

  -- With the payer's row there, the change of the amount booked on the call is what the payer pays
  -- beyond what was taken before.
  pub bill_difference-Pays :
      0 < p
      → (actual deducted base : ℤ)
      → let b = bill_difference (some p) actual deducted base us in
        Pays p (cents b.charged_amount -ℤ cents base) us b.users
  unfolding bill_difference
  bill_difference-Pays key actual deducted base =
      rw (lt→ltb 0 p key) (bill_payer-Pays actual deducted base)
