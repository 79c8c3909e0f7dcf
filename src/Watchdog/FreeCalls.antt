-- ===== src/Watchdog/FreeCalls.antt =====
-- A call between two users who are not certified costs nothing, and `accept_call` stores 0 as its
-- payer. The watchdog takes only a missing payer for a free call.
use new1v.Prelude.{ℕ, ◌≡◌, refl, Bool, false, Option, none, some, arith}
use new1v.Prelude.Int.{ℤ, pos, ◌-ℤ◌, leb_ℤ, ltb_ℤ}
use new1v.Prelude.Dict.{lookup}
use new1v.Records.{CallRecord, ongoing, ended, balance_empty}
use new1v.Users.{Users}
use new1v.Billing.{calc_due_minutes, next_due_second}
use new1v.FeeAdjustment.{Payer, apply_call_service_fee_final_adjustment}
use new1v.Presence.{CallPresence}
use new1v.Watchdog.Config.{WatchdogConfig}
use new1v.Watchdog.Finish.{finish_call, fill_income_receiver}
use new1v.Watchdog.{
  watchdog_payer_id, balance_empty_call, renew_call, bill_call, act_on, process_connected,
  process_call, decision_for, free_seconds_of, connected_since,
}

-- The minutes due, and by how much they are overdue.
abbrev due_of : WatchdogConfig → (connected now : ℕ) → CallRecord → ℕ
due_of config connected now call =
    calc_due_minutes (connected_since now connected) (free_seconds_of config call)

abbrev overdue_of : WatchdogConfig → (connected now : ℕ) → CallRecord → ℤ
overdue_of config connected now call =
    pos (connected_since now connected)
    -ℤ next_due_second call.deducted_minutes (free_seconds_of config call)

-- A further minute is due, and the grace after it fell due is over.
pub record IsBillable (config : WatchdogConfig) (connected now : ℕ) (call : CallRecord)
    : Type 0 where
  pub due : leb_ℤ (pos (due_of config connected now call)) call.deducted_minutes ≡ false
  pub late : ltb_ℤ (overdue_of config connected now call) (pos config.renew_grace_seconds) ≡ false

abbrev pub IsCut : CallRecord → Type 0
IsCut call = (call.status ≡ ended) × (call.end_reason ≡ some balance_empty)

fill_keeps_end :
    (certified : ℕ → Bool) (payer_id : Option ℕ) (call : CallRecord)
    → IsCut call
    → IsCut (fill_income_receiver certified payer_id call)
unfolding fill_income_receiver
fill_keeps_end certified payer_id call h = ground arith

balance_empty_call_cuts :
    (certified : ℕ → Bool) (p : ℕ) (payer : Option Payer) (duration now : ℕ) (call : CallRecord)
    (us : Users)
    → IsCut (balance_empty_call certified p payer duration now call us).call
unfolding balance_empty_call finish_call apply_call_service_fee_final_adjustment
balance_empty_call_cuts certified p payer duration now call us =
    fill_keeps_end certified (some p) _ (refl, refl)

stored_payer :
    (certified : ℕ → Bool) (call : CallRecord) (p : ℕ)
    → call.payer_user_id ≡ some p
    → watchdog_payer_id certified call ≡ some p
unfolding watchdog_payer_id
stored_payer certified call p h = ground (arith, h)

renew_without_row :
    (certified : ℕ → Bool) (p due duration now : ℕ) (call : CallRecord) (us : Users)
    → lookup p us ≡ none
    → renew_call certified p due duration now call us
      ≡ balance_empty_call certified p none duration now call us
unfolding renew_call
renew_without_row certified p due duration now call us h = rw (h, renew_call) refl

bill_reaches_renewal :
    (config : WatchdogConfig) (certified : ℕ → Bool) (connected now p : ℕ) (call : CallRecord)
    (us : Users)
    → watchdog_payer_id certified call ≡ some p
    → IsBillable config connected now call
    → bill_call config (free_seconds_of config call) certified connected now call us
      ≡ renew_call certified p
          (due_of config connected now call)
          (connected_since now connected)
          now
          call
          us
unfolding bill_call
bill_reaches_renewal config certified connected now p call us who b =
    rw (who, bill_call) (rw b.due (rw b.late refl))

-- A running call whose stored payer is 0, the key of no user, is ended by the watchdog as out of
-- balance as soon as a minute is due and the grace is over, while nobody has left it.
pub free_call-IsCut :
    (config : WatchdogConfig) (certified : ℕ → Bool) (connected now : ℕ) (presence : CallPresence)
    (call : CallRecord) (us : Users)
    → call.status ≡ ongoing
    → call.connected_at ≡ some connected
    → call.payer_user_id ≡ some 0
    → lookup 0 us ≡ none
    → (decision_for config connected now presence call).forced_end ≡ none
    → IsBillable config connected now call
    → IsCut (process_call config certified now presence call us).0.call
unfolding process_call process_connected act_on
free_call-IsCut config certified connected now presence call us running at free nobody stay bill =
    let who = stored_payer certified call 0 free in
    let duration = connected_since now connected in
    let due = due_of config connected now call in
    simp
      (
        running,
        at,
        stay,
        bill_reaches_renewal config certified connected now 0 call us who bill,
        renew_without_row certified 0 due duration now call us nobody,
      )
      (balance_empty_call_cuts certified 0 none duration now call us)
