-- ===== src/Watchdog/Minute.antt =====
-- A minute of a running call is charged once.
use new1v.Prelude.{
  ℕ, ◌≤◌, ◌≡◌, ◌≢◌, inl, inr, refl, Bool, true, false, Option, none, some, [], if-both, arith,
  Option-cases,
}
use new1v.Prelude.Int.{ℤ, pos, ◌-ℤ◌, ◌*ℤ◌, ltb_ℤ, leb_ℤ}
use new1v.Prelude.Dict.{lookup}
use new1v.Records.{AppUser, CallRecord}
use new1v.Users.{Users, charge_coins}
use new1v.Billing.{calc_due_minutes}
use new1v.Fee.{cents}
use new1v.FeeAdjustment.{Payer}
use new1v.Watchdog.Config.{WatchdogConfig}
use new1v.Watchdog.Finish.{Outcome, finish_call}
use new1v.Watchdog.{
  watchdog_payer_id, connected_since, unchanged, balance_empty_call, charge_call, try_charge,
  renew_call, bill_call,
}

-- A run of `bill_call` that charged somebody and did not end the call has booked the minutes due.
record Books (due : ℕ) (o : Outcome) : Type 0 where
  booked : o.has_ended ≡ false → o.charged ≢ [] → o.call.deducted_minutes ≡ pos due

module _ (certified : ℕ → Bool) (due now : ℕ) (call : CallRecord) where
  unchanged-Books : (call' : CallRecord) (us : Users) → Books due (unchanged call' us)
  unchanged-Books call' us = record { booked = λ _ h. absurd (h refl) }

  balance_empty-Books :
      (p : ℕ) (payer : Option Payer) (duration : ℕ) (us : Users)
      → Books due (balance_empty_call certified p payer duration now call us)
  unfolding balance_empty_call finish_call
  balance_empty-Books p payer duration us = record { booked = λ h _. absurd (ground (arith, h)) }

  try_charge-Books :
      (p : ℕ) (u : AppUser) (amount : ℤ) (duration : ℕ) (us : Users)
      → Books due (try_charge certified p u amount due duration now call us)
  unfolding try_charge charge_call
  try_charge-Books p u amount duration us =
      let (users', paid) = charge_coins p (cents amount) us in
      if-both (Books due) paid (charge_call p u.coins amount due now call users') _
        (record { booked = λ _ _. refl }) (balance_empty-Books p none duration users')

  renew-Books :
      (p duration : ℕ) (us : Users) → Books due (renew_call certified p due duration now call us)
  unfolding renew_call
  renew-Books p duration us =
      let amount = (pos due -ℤ call.deducted_minutes) *ℤ call.call_price in
      elim (Option-cases (lookup p us)) [
        | inl e ↦ rw (e, renew_call) (balance_empty-Books p none duration us)
        | inr (u, e) ↦
            let payer : Payer = record { id = p; coins = u.coins } in
            rw (e, renew_call)
              (if-both (Books due) (ltb_ℤ u.coins (cents amount))
                (balance_empty_call certified p (some payer) duration now call us) _
                (balance_empty-Books p (some payer) duration us)
                (try_charge-Books p u amount duration us))
      ]

bill-Books :
    (config : WatchdogConfig) (free : ℕ) (certified : ℕ → Bool) (connected now : ℕ)
    (call : CallRecord) (us : Users)
    → Books
        (calc_due_minutes (connected_since now connected) free)
        (bill_call config free certified connected now call us)
unfolding bill_call
bill-Books config free certified connected now call us =
    let due = calc_due_minutes (connected_since now connected) free in
    if-both (Books due) _ (unchanged call us) _ (unchanged-Books certified due now call call us) (
      if-both (Books due) _ (unchanged call us) _ (unchanged-Books certified due now call call us)
        (payer_cases (watchdog_payer_id certified call)))
  where
    payer_cases :
        (o : Option ℕ)
        → Books (calc_due_minutes (connected_since now connected) free) (elim o [
          | none ↦ unchanged (record call { last_renew_at = some now; updated_at = now }) us
          | some p ↦
              renew_call certified p
                (calc_due_minutes (connected_since now connected) free)
                (connected_since now connected)
                now
                call
                us
        ])
    payer_cases none = record { booked = λ _ h. absurd (h refl) }
    payer_cases (some p) =
        renew-Books certified (calc_due_minutes (connected_since now connected) free) now call p
          (connected_since now connected) us

not_due-unchanged :
    (config : WatchdogConfig) (free : ℕ) (certified : ℕ → Bool) (connected now : ℕ)
    (call : CallRecord) (us : Users)
    → leb_ℤ (pos (calc_due_minutes (connected_since now connected) free)) call.deducted_minutes
      ≡ true
    → bill_call config free certified connected now call us ≡ unchanged call us
unfolding bill_call
not_due-unchanged config free certified connected now call us h = simp h refl

-- Where `bill_call`, which a pass of the watchdog runs on a call that it does not end for a party that
-- has left, has charged the payer and not ended the call: run again, at any reading of the clock at
-- which no more minutes are due, it charges nothing and leaves the call and the users as they are.
pub minute_charged_once :
    (config : WatchdogConfig) (free : ℕ) (certified : ℕ → Bool) (connected now later : ℕ)
    (call : CallRecord) (us : Users)
    → let o = bill_call config free certified connected now call us in
      o.has_ended ≡ false
      → o.charged ≢ []
      → calc_due_minutes (connected_since later connected) free
        ≤ calc_due_minutes (connected_since now connected) free
      → bill_call config free certified connected later o.call o.users ≡ unchanged o.call o.users
minute_charged_once config free certified connected now later call us goes paid same =
    let o = bill_call config free certified connected now call us in
    let booked = (bill-Books config free certified connected now call us).booked goes paid in
    let no_more : leb_ℤ (pos (calc_due_minutes (connected_since later connected) free))
          o.call.deducted_minutes
        ≡ true =
      ground (arith, booked, same) in
    not_due-unchanged config free certified connected later o.call o.users no_more
