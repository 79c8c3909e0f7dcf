-- ===== src/Watchdog/Incremental/Paid.antt =====
-- The incremental service fee takes from the payer what it books, and adds up to the fee due.
use new1v.Prelude.{ℕ, ◌≡◌, true, some, inl, inr, Bool-cases, if-both}
use new1v.Prelude.Int.{ℤ, pos, pos_part, ◌-ℤ◌, ◌≤ℤ◌, int_laws, int_eqs}
use new1v.Prelude.Dict.{lookup}
use new1v.Records.{AppUser, CallRecord, ServiceFee}
use new1v.Users.{Users}
use new1v.Users.Balance.{Pays, Pays-refl, Pays-eq, save_coins-Pays}
use new1v.FeeAdjustment.{Payer, charge_fee_minutes, fee_loop_start}
use new1v.FeeAdjustment.Loop.{charge_fee_minutes-Charges}
use new1v.Watchdog.Incremental.{
  Incremental, charge_new_minutes, apply_incremental_call_service_fee, no_new_minutes,
}

-- What a payer at row `u` pays for the fee, and that the amount taken stays above nothing.
pub record PaysFee (p : ℕ) (fee : ServiceFee) (us : Users) (r : Incremental) : Type 0 where
  pub paid : Pays p (r.fee.payer_actual_coins -ℤ fee.payer_actual_coins) us r.users
  pub nonneg : pos 0 ≤ℤ fee.payer_actual_coins → pos 0 ≤ℤ r.fee.payer_actual_coins

module _ (p : ℕ) (us : Users) (u : AppUser) (there : lookup p us ≡ some u) where
  no_new_minutes-PaysFee : (fee : ServiceFee) → PaysFee p fee us (no_new_minutes fee us)
  no_new_minutes-PaysFee fee = record {
    paid = Pays-eq (omega int_laws) (Pays-refl p us);
    nonneg = λ h. h;
  }

  charge_new_minutes-PaysFee :
      (fee : ServiceFee) (payer_fee income_fee minutes : ℤ) (payer : Payer) (now : ℕ)
      → payer.id ≡ p
      → payer.coins ≡ u.coins
      → PaysFee p fee us (charge_new_minutes fee payer_fee income_fee minutes payer now us)
  unfolding charge_new_minutes
  charge_new_minutes-PaysFee fee payer_fee income_fee minutes payer now id c =
      let start = fee_loop_start fee payer.coins in
      let s = charge_fee_minutes true payer_fee income_fee (pos_part minutes) start in
      let k = charge_fee_minutes-Charges true payer_fee income_fee (pos_part minutes) start in
      elim (Bool-cases s.balance_changed) [
        | inl changed ↦ record {
          paid =
              simp (changed, id)
                (Pays-eq (omega (int_eqs, k.conserved, c))
                  (save_coins-Pays p s.payer_balance us u there));
          nonneg = λ h. omega (int_eqs, k.grows, h);
        }
        | inr same ↦ record {
          paid = simp same (Pays-eq (omega (int_eqs, k.unchanged same)) (Pays-refl p us));
          nonneg = λ h. omega (int_eqs, k.grows, h);
        }
      ]

  pub incremental-PaysFee :
      (call : CallRecord) (payer : Payer) (now : ℕ)
      → payer.id ≡ p
      → payer.coins ≡ u.coins
      → PaysFee p call.fee us (apply_incremental_call_service_fee call payer now us)
  unfolding apply_incremental_call_service_fee
  incremental-PaysFee call payer now id c =
      if-both (PaysFee p call.fee us) _ (no_new_minutes call.fee us) _
        (no_new_minutes-PaysFee call.fee)
        (if-both (PaysFee p call.fee us) _ (no_new_minutes call.fee us) _
          (no_new_minutes-PaysFee call.fee)
          (charge_new_minutes-PaysFee call.fee _ _ _ payer now id c))
