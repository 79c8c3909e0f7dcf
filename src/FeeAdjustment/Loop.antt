-- ===== src/FeeAdjustment/Loop.antt =====
-- Laws of the loop that charges the fee minute by minute.
use new1v.Prelude.{ℕ, zero, suc, ◌≡◌, ◌∙◌, refl, Bool, false, arith}
use new1v.Prelude.Int.{ℤ, pos, ◌≤ℤ◌, ◌+ℤ◌, ◌*ℤ◌, int_laws, int_eqs}
use new1v.Fee.Rounding.{*ℤ_zero, *ℤ-suc}
use new1v.FeeAdjustment.{FeeLoop, charge_fee_minute, charge_fee_minutes}

-- From `s` to `t` coins move from the balance to the amount taken, or nothing moves.
pub record Charges (s : FeeLoop) (t : FeeLoop) : Type 0 where
  pub conserved : t.payer_balance +ℤ t.payer_actual ≡ s.payer_balance +ℤ s.payer_actual
  pub additional : t.charged_additional +ℤ s.payer_actual ≡ s.charged_additional +ℤ t.payer_actual
  pub grows : s.payer_actual ≤ℤ t.payer_actual
  pub solvent : pos 0 ≤ℤ s.payer_balance → pos 0 ≤ℤ t.payer_balance
  pub unchanged : t.balance_changed ≡ false → t.payer_actual ≡ s.payer_actual
  pub kept : t.balance_changed ≡ false → s.balance_changed ≡ false

charge_fee_minute-Charges :
    (has : Bool) (fee income_fee : ℤ) (s : FeeLoop)
    → Charges s (charge_fee_minute has fee income_fee s)
unfolding charge_fee_minute
charge_fee_minute-Charges has fee income_fee s = grind int_laws

Charges-trans : {s t u : FeeLoop} → Charges s t → Charges t u → Charges s u
Charges-trans a b = record {
  conserved = b.conserved ∙ a.conserved;
  additional = omega (int_eqs, a.additional, b.additional);
  grows = omega (arith, a.grows, b.grows);
  solvent = λ h. b.solvent (a.solvent h);
  unchanged = λ h. b.unchanged h ∙ a.unchanged (b.kept h);
  kept = λ h. a.kept (b.kept h);
}

pub charge_fee_minutes-Charges :
    (has : Bool) (fee income_fee : ℤ) (n : ℕ) (s : FeeLoop)
    → Charges s (charge_fee_minutes has fee income_fee n s)
unfolding charge_fee_minutes
charge_fee_minutes-Charges has fee income_fee zero s = grind int_laws
charge_fee_minutes-Charges has fee income_fee (suc n) s =
    Charges-trans (charge_fee_minute-Charges has fee income_fee s)
      (charge_fee_minutes-Charges has fee income_fee n (charge_fee_minute has fee income_fee s))

expected_step :
    (has : Bool) (fee income_fee : ℤ) (s : FeeLoop)
    → ((charge_fee_minute has fee income_fee s).payer_expected ≡ s.payer_expected +ℤ fee)
      × ((charge_fee_minute has fee income_fee s).income_expected ≡ s.income_expected +ℤ income_fee)
unfolding charge_fee_minute
expected_step has fee income_fee s = ground arith

-- After `n` minutes the running fees have grown by `n` times the fee of a minute, whether or not
-- the payer could pay.
pub charge_fee_minutes_expected :
    (has : Bool) (fee income_fee : ℤ) (n : ℕ) (s : FeeLoop)
    → let t = charge_fee_minutes has fee income_fee n s in
      (t.payer_expected ≡ s.payer_expected +ℤ fee *ℤ pos n)
      × (t.income_expected ≡ s.income_expected +ℤ income_fee *ℤ pos n)
unfolding charge_fee_minutes
charge_fee_minutes_expected has fee income_fee zero s =
    (rw *ℤ_zero (omega int_laws), rw *ℤ_zero (omega int_laws))
charge_fee_minutes_expected has fee income_fee (suc n) s =
    let t = charge_fee_minute has fee income_fee s in
    let (p, i) = charge_fee_minutes_expected has fee income_fee n t in
    let (ps, is) = expected_step has fee income_fee s in
    (rw (p, ps, *ℤ-suc fee n) (omega int_laws), rw (i, is, *ℤ-suc income_fee n) (omega int_laws))

no_payer_minute :
    (fee income_fee : ℤ) (s : FeeLoop)
    → (charge_fee_minute false fee income_fee s).balance_changed ≡ s.balance_changed
unfolding charge_fee_minute
no_payer_minute fee income_fee s = ground arith

-- With no payer's row nothing is ever charged.
pub no_payer_minutes :
    (fee income_fee : ℤ) (n : ℕ) (s : FeeLoop)
    → (charge_fee_minutes false fee income_fee n s).balance_changed ≡ s.balance_changed
unfolding charge_fee_minutes
no_payer_minutes fee income_fee zero s = refl
no_payer_minutes fee income_fee (suc n) s =
    no_payer_minutes fee income_fee n (charge_fee_minute false fee income_fee s)
    ∙ no_payer_minute fee income_fee s
