-- ===== src/FeeAdjustment/Conserved.antt =====
-- The final adjustment neither makes nor loses coins: what leaves the payer's balance is what the
-- call's record says that the payer has paid.
use new1v.Prelude.{
  ℕ, ◌<◌, ◌≡◌, inl, inr, refl, ◌∙◌, true, false, Option, none, some, arith, Bool-cases, is_some,
  lt→ltb, if-both, if◌then◌else◌, Bool,
}
use new1v.Prelude.Int.{ℤ, pos, ◌+ℤ◌, ◌-ℤ◌, ◌≤ℤ◌, ltb_ℤ, int_laws, int_eqs}
use new1v.Prelude.Dict.{lookup, lookup-alter_self}
use new1v.Records.{AppUser, CallRecord, ServiceFee}
use new1v.Users.{Users, save_coins}
use new1v.Users.Balance.{Pays, Pays-refl, Pays-trans, Pays-eq, save_coins-Pays}
use new1v.FeeAdjustment.{
  Payer, FeeLoop, Remaining, charge_fee_minutes, fetch_payer, payer_or_fetch, balance_of, save_loop,
  no_fee_minutes, final_of, fee_loop_start, run_fee_loop, charge_remaining_fee, refund_payer,
  apply_call_service_fee_final_adjustment,
}
use new1v.Fee.Final.{final_state_splits}
use new1v.FeeAdjustment.Loop.{Charges, charge_fee_minutes-Charges, no_payer_minutes}

-- The row in memory, if there is one, is the payer's, with the balance of the table.
abbrev pub Holds : ℕ → AppUser → Option Payer → Type 0
Holds p u none = Unit {0}
Holds p u (some row) = (row.id ≡ p) × (row.coins ≡ u.coins)

lookup-save_coins :
    (p : ℕ) (z : ℤ) (us : Users) (u : AppUser)
    → lookup p us ≡ some u
    → lookup p (save_coins p z us) ≡ some (record u { coins = z })
unfolding save_coins
lookup-save_coins p z us u h = lookup-alter_self p (λ v. record v { coins = z }) us u h

zero_refund :
    (refund : ℤ) → pos 0 ≤ℤ refund → ltb_ℤ (pos 0) refund ≡ false → pos 0 ≡ pos 0 -ℤ refund
unfolding ◌-ℤ◌
zero_refund refund h e = ground arith

module _ (p : ℕ) (us : Users) (u : AppUser) (there : lookup p us ≡ some u) where
  save_loop-Pays :
      (payer locked : Option Payer) (fee : ServiceFee) (s : FeeLoop)
      → Holds p u locked
      → Charges (fee_loop_start fee (balance_of locked)) s
      → (locked ≡ none → s.balance_changed ≡ false)
      → Pays p (s.payer_actual -ℤ fee.payer_actual_coins) us (save_loop payer locked s us).users
  unfolding save_loop
  save_loop-Pays payer none fee s held c idle =
      let same = c.unchanged (idle refl) in Pays-eq (omega (int_eqs, same)) (Pays-refl p us)
  save_loop-Pays payer (some row) fee s held c idle = elim (Bool-cases s.balance_changed) [
    | inl changed ↦
        simp (changed, held.0)
          (Pays-eq (omega (int_eqs, c.conserved, held.1))
            (save_coins-Pays p s.payer_balance us u there))
    | inr same ↦ simp same (Pays-eq (omega (int_eqs, c.unchanged same)) (Pays-refl p us))
  ]

  save_loop-Holds :
      (payer locked : Option Payer) (fee : ServiceFee) (s : FeeLoop)
      → Holds p u payer
      → Holds p u locked
      → let r = save_loop payer locked s us in
        (v : AppUser) × (lookup p r.users ≡ some v) × Holds p v r.payer
  unfolding save_loop
  save_loop-Holds payer none fee s held held' = (u, there, held)
  save_loop-Holds payer (some row) fee s held held' = elim (Bool-cases s.balance_changed) [
    | inl changed ↦
        simp (changed, held'.0)
          (
            record u { coins = s.payer_balance },
            lookup-save_coins p s.payer_balance us u there,
            (refl, refl),
          )
    | inr same ↦ simp same (u, there, held)
  ]

  fetch-Holds : 0 < p → Holds p u (fetch_payer (some p) us)
  unfolding fetch_payer
  fetch-Holds h = simp (lt→ltb 0 p h, there) (refl, refl)

  payer_or_fetch-Holds :
      (payer : Option Payer)
      → 0 < p
      → Holds p u payer
      → (row : Payer) × (payer_or_fetch payer (some p) us ≡ some row)
        × (row.id ≡ p)
        × (row.coins ≡ u.coins)
  unfolding fetch_payer
  payer_or_fetch-Holds none h held =
      (record { id = p; coins = u.coins }, simp (lt→ltb 0 p h, there), refl, refl)
  payer_or_fetch-Holds (some row) h held = (row, refl, held.0, held.1)

  refund_payer-Pays :
      (refund : ℤ) (payer : Option Payer)
      → 0 < p
      → pos 0 ≤ℤ refund
      → Holds p u payer
      → Pays p (pos 0 -ℤ refund) us (refund_payer refund (some p) payer us).0
  unfolding refund_payer
  refund_payer-Pays refund payer h nonneg held =
      let (row, e, id, c) = payer_or_fetch-Holds payer h held in
      elim (Bool-cases (ltb_ℤ (pos 0) refund)) [
        | inl due ↦
            rw (e, due, lt→ltb 0 p h, id)
              (Pays-eq (omega (int_eqs, c)) (save_coins-Pays p (row.coins +ℤ refund) us u there))
        | inr nothing ↦ rw nothing (Pays-eq (zero_refund refund nonneg nothing) (Pays-refl p us))
      ]

-- What the remaining minutes do: the payer pays what the amount taken grows by.
record Charged (p : ℕ) (fee : ServiceFee) (us : Users) (r : Remaining) : Type 0 where
  paid : Pays p (r.loop.payer_actual -ℤ fee.payer_actual_coins) us r.users
  grows : fee.payer_actual_coins ≤ℤ r.loop.payer_actual
  row : (v : AppUser) × (lookup p r.users ≡ some v) × Holds p v r.payer

module _ (p : ℕ) (us : Users) (u : AppUser) (there : lookup p us ≡ some u) (key : 0 < p) where
  locked-Holds :
      (payer : Option Payer) (b : Bool)
      → Holds p u payer
      → Holds p u (if b then payer_or_fetch payer (some p) us else payer)
  locked-Holds none true held = fetch-Holds p us u there key
  locked-Holds (some row) true held = held
  locked-Holds payer false held = held

  idle :
      (payer_fee income_fee : ℤ) (minutes : ℕ) (locked : Option Payer) (start : FeeLoop)
      → start.balance_changed ≡ false
      → locked ≡ none
      → (charge_fee_minutes (is_some locked) payer_fee income_fee minutes start).balance_changed
        ≡ false
  idle payer_fee income_fee minutes none start fresh e =
      no_payer_minutes payer_fee income_fee minutes start ∙ fresh
  idle payer_fee income_fee minutes (some row) start fresh e = cc

  run_fee_loop-Charged :
      (fee : ServiceFee) (payer_fee income_fee : ℤ) (minutes : ℕ) (payer : Option Payer)
      → Holds p u payer
      → Charged p fee us (run_fee_loop fee payer_fee income_fee minutes (some p) payer us)
  unfolding run_fee_loop save_loop
  run_fee_loop-Charged fee payer_fee income_fee minutes payer held =
      let locked = if ltb_ℤ (pos 0) payer_fee then payer_or_fetch payer (some p) us else payer in
      let start = fee_loop_start fee (balance_of locked) in
      let s = charge_fee_minutes (is_some locked) payer_fee income_fee minutes start in
      let held' = locked-Holds payer (ltb_ℤ (pos 0) payer_fee) held in
      let c = charge_fee_minutes-Charges (is_some locked) payer_fee income_fee minutes start in
      record {
        paid =
            save_loop-Pays p us u there payer locked fee s held' c
              (idle payer_fee income_fee minutes locked start refl);
        grows = c.grows;
        row = save_loop-Holds p us u there payer locked fee s held held';
      }

  charge_remaining_fee-Charged :
      (call : CallRecord) (payer : Option Payer)
      → Holds p u payer
      → Charged p call.fee us (charge_remaining_fee call (some p) payer us)
  unfolding charge_remaining_fee
  charge_remaining_fee-Charged call payer held =
      if-both (Charged p call.fee us) _ _ (no_fee_minutes call.fee payer us)
        (run_fee_loop-Charged call.fee _ _ _ payer held)
        (record {
          paid = Pays-eq (omega int_laws) (Pays-refl p us);
          grows = omega arith;
          row = (u, there, held);
        })

final_of_splits :
    (call : CallRecord) (raw : ℤ)
    → pos 0 ≤ℤ raw
    → let s = final_of call raw in
      (pos 0 ≤ℤ s.payer_actual_coins)
      × (s.payer_actual_coins ≤ℤ s.payer_expected_coins)
      × (pos 0 ≤ℤ s.payer_refund_coins)
      × (s.payer_actual_coins +ℤ s.payer_refund_coins ≡ raw)
final_of_splits call raw h = final_state_splits _ _ _ _ raw _ _ h

-- With the payer's row there, and an amount taken so far that is not negative, the final
-- adjustment moves exactly the change of the recorded amount from the payer's balance, touches
-- nobody else's coins and nobody's diamonds, and leaves the recorded amount between nothing and
-- the fee due.
pub fee_adjustment_conserves :
    (p : ℕ) (call : CallRecord) (payer : Option Payer) (now : ℕ) (us : Users) (u : AppUser)
    → 0 < p
    → lookup p us ≡ some u
    → Holds p u payer
    → pos 0 ≤ℤ call.fee.payer_actual_coins
    → let r = apply_call_service_fee_final_adjustment call (some p) payer now us in
      let fee = r.call.fee in
      Pays p (fee.payer_actual_coins -ℤ call.fee.payer_actual_coins) us r.users
      × (pos 0 ≤ℤ fee.payer_actual_coins)
      × (fee.payer_actual_coins ≤ℤ fee.payer_expected_coins)
unfolding apply_call_service_fee_final_adjustment
fee_adjustment_conserves p call payer now us u key there held nonneg =
    let r = charge_remaining_fee call (some p) payer us in
    let c = charge_remaining_fee-Charged p us u there key call payer held in
    let (kept, due, refund, total) =
      final_of_splits call r.loop.payer_actual (omega (arith, c.grows)) in
    let (v, there', held') = c.row in
    let back = refund_payer-Pays p r.users v there' _ r.payer key refund held' in
    (Pays-eq (omega (int_eqs, total)) (Pays-trans c.paid back), kept, due)
