-- ===== src/Watchdog.antt =====
-- backend/app/core/call_watchdog.py: one pass over a running call, `_process_stale_batch`, on the
-- call's row, the user table and the call's heartbeats. One reading of the clock, in microseconds,
-- serves the whole pass over a call.
pub mod Config
pub mod Finish
pub mod Incremental
pub mod Bill
pub mod Conserved
pub mod Pass
pub mod FreeCalls
pub mod Parties
pub mod Minute
use new1v.Prelude.{
  ℕ, ◌+◌, ◌-◌, ◌*◌, ◌/◌, Bool, true, false, not, ◌&&◌, ◌||◌, Option, none, some, List, [], ◌∷◌,
  ◌++◌, ltb, leb, ◌==◌, if◌then◌else◌, is_some,
}
use new1v.Prelude.Int.{ℤ, pos, pos_part, ltb_ℤ, leb_ℤ, ◌+ℤ◌, ◌-ℤ◌, ◌*ℤ◌, ◌//ℤ◌}
use new1v.Prelude.Dict.{lookup}
use new1v.Records.{
  AppUser, CallRecord, CallStatus, pending, ongoing, ended, EndReason, EndBasis, balance_empty,
  force_exit, balance_empty_end, force_exit_end,
}
use new1v.Users.{Users, charge_coins, credit_coins}
use new1v.Billing.{
  calc_due_minutes, next_due_second, resolve_billing_free_seconds, resolve_payer_id,
}
use new1v.Fee.{cents}
use new1v.FeeAdjustment.{Payer}
use new1v.Presence.{
  CallPresence, ForcedEnd, ForceExitDecision, resolve_force_exit_decision, apply_decision,
}
use Config.{WatchdogConfig}
use Finish.{Outcome, fill_income_receiver, bill_difference, settled_minutes, finish_call}
use Incremental.{apply_incremental_call_service_fee}

-- The payer: the snapshot on the call, which may be 0, else by the set of certified users.
unfoldable pub watchdog_payer_id : (ℕ → Bool) → CallRecord → Option ℕ
watchdog_payer_id certified call = elim call.payer_user_id [
  | some p ↦ some p
  | none ↦
      if certified call.caller_id && not (certified call.callee_id)
      then some call.callee_id
      else if certified call.callee_id && not (certified call.caller_id)
      then some call.caller_id
      else if certified call.caller_id && certified call.callee_id
      then some call.caller_id
      else none
]

abbrev pub connected_since : ℕ → ℕ → ℕ
connected_since now connected = (now - connected) / 1000000

abbrev pub unchanged : CallRecord → Users → Outcome
unchanged call users = record {
  call = call;
  users = users;
  has_ended = false;
  charged = [];
  income_pushes = [];
}

abbrev pub charged_if : Bool → Option ℕ → List ℕ
charged_if true (some p) = p ∷ []
charged_if _ _ = []

-- The call ends at the departed party's last sign of life, and is billed up to that moment.
unfoldable pub force_exit_call :
    (free_seconds : ℕ) → (ℕ → Bool) → ForcedEnd → ℕ → ℕ → CallRecord → Users → Outcome
force_exit_call free_seconds certified e connected now call users =
    let payer_id = watchdog_payer_id certified call in
    let ended_at = e.effective_ended_at_ms * 1000 in
    let duration = connected_since ended_at connected in
    let due_minutes = calc_due_minutes duration free_seconds in
    let actual_fee = pos due_minutes *ℤ call.call_price in
    let bill =
      bill_difference payer_id actual_fee call.deducted_amount call.deducted_amount users in
    let call' = record call {
      status = ended;
      end_reason = some force_exit;
      duration = duration;
      deducted_minutes = settled_minutes payer_id call.call_price bill.charged_amount due_minutes;
      deducted_amount = bill.charged_amount;
      total_fee = bill.charged_amount;
      ended_at = some ended_at;
      effective_ended_at = some ended_at;
      end_basis = some force_exit_end;
      force_exit_user_id = some e.user_id;
    } in
    finish_call (fill_income_receiver certified payer_id call') payer_id none bill.charged_amount
      none now bill.users (charged_if bill.changed payer_id)

-- The payer cannot pay the minutes due: what was deducted is the fee.
unfoldable pub balance_empty_call :
    (ℕ → Bool) → ℕ → Option Payer → (duration now : ℕ) → CallRecord → Users → Outcome
balance_empty_call certified p payer duration now call users =
    let call' = record call {
      status = ended;
      end_reason = some balance_empty;
      duration = duration;
      total_fee = call.deducted_amount;
      ended_at = some now;
      effective_ended_at = some now;
      end_basis = some balance_empty_end;
      force_exit_user_id = none;
    } in
    finish_call (fill_income_receiver certified (some p) call') (some p) payer call.deducted_amount
      none now users []

-- The minutes due are paid: they are booked, and their service fee is taken.
unfoldable pub charge_call : ℕ → ℤ → ℤ → ℕ → ℕ → CallRecord → Users → Outcome
charge_call p coins charge_amount due_minutes now call users =
    let call' = record call {
      deducted_minutes = pos due_minutes;
      deducted_amount = call.deducted_amount +ℤ charge_amount;
      last_renew_at = some now;
    } in
    let payer : Payer = record { id = p; coins = coins -ℤ cents charge_amount } in
    let r = apply_incremental_call_service_fee call' payer now users in
    record {
      call = record call' { fee = r.fee; updated_at = now };
      users = r.users;
      has_ended = false;
      charged = p ∷ [];
      income_pushes = [];
    }

-- The conditional update, after the balance was read under the row's lock.
unfoldable pub try_charge :
    (ℕ → Bool) → ℕ → AppUser → ℤ → (due_minutes duration now : ℕ) → CallRecord → Users → Outcome
try_charge certified p u charge_amount due_minutes duration now call users =
    let (users', paid) = charge_coins p (cents charge_amount) users in
    if paid
    then charge_call p u.coins charge_amount due_minutes now call users'
    else balance_empty_call certified p none duration now call users'

unfoldable pub renew_call :
    (ℕ → Bool) → ℕ → (due_minutes duration now : ℕ) → CallRecord → Users → Outcome
renew_call certified p due_minutes duration now call users =
    let charge_amount = (pos due_minutes -ℤ call.deducted_minutes) *ℤ call.call_price in
    elim (lookup p users) [
      | none ↦ balance_empty_call certified p none duration now call users
      | some u ↦
          if ltb_ℤ u.coins (cents charge_amount)
          then balance_empty_call certified p (some (record { id = p; coins = u.coins })) duration
              now call users
          else try_charge certified p u charge_amount due_minutes duration now call users
    ]

-- Nobody is gone: the minutes that have fallen due are charged, after the grace.
unfoldable pub bill_call :
    WatchdogConfig → ℕ → (ℕ → Bool) → (connected now : ℕ) → CallRecord → Users → Outcome
bill_call config free_seconds certified connected now call users =
    let duration = connected_since now connected in
    let due_minutes = calc_due_minutes duration free_seconds in
    let overdue = pos duration -ℤ next_due_second call.deducted_minutes free_seconds in
    if leb_ℤ (pos due_minutes) call.deducted_minutes
    then unchanged call users
    else if ltb_ℤ overdue (pos config.renew_grace_seconds)
    then unchanged call users
    else elim (watchdog_payer_id certified call) [
      | none ↦ unchanged (record call { last_renew_at = some now; updated_at = now }) users
      | some p ↦ renew_call certified p due_minutes duration now call users
    ]

unfoldable pub act_on :
    Option ForcedEnd
    → WatchdogConfig
    → ℕ
    → (ℕ → Bool)
    → (connected now : ℕ) → CallRecord
    → Users
    → Outcome
act_on (some e) config free_seconds certified connected now call users =
    force_exit_call free_seconds certified e connected now call users
act_on none config free_seconds certified connected now call users =
    bill_call config free_seconds certified connected now call users

abbrev pub decision_for :
    WatchdogConfig → (connected now : ℕ) → CallPresence → CallRecord → ForceExitDecision
decision_for config connected now presence call =
    resolve_force_exit_decision (connected / 1000) call.caller_id call.callee_id presence
      (now / 1000) config.presence_offline_detect_seconds config.presence_settle_grace_seconds

abbrev pub free_seconds_of : WatchdogConfig → CallRecord → ℕ
free_seconds_of config call =
    resolve_billing_free_seconds call.billing_free_seconds (pos config.free_seconds_before_billing)

unfoldable pub process_connected :
    WatchdogConfig
    → (ℕ → Bool)
    → (connected now : ℕ) → CallPresence
    → CallRecord
    → Users
    → Outcome × CallPresence
process_connected config certified connected now presence call users =
    let decision = decision_for config connected now presence call in
    (
      act_on decision.forced_end config (free_seconds_of config call) certified connected now call
          users,
      apply_decision decision (now / 1000) presence,
    )

-- Only a running, connected call is looked at.
unfoldable pub process_by_state :
    CallStatus
    → Option ℕ
    → WatchdogConfig
    → (ℕ → Bool)
    → ℕ
    → CallPresence
    → CallRecord
    → Users
    → Outcome × CallPresence
process_by_state ongoing (some connected) config certified now presence call users =
    process_connected config certified connected now presence call users
process_by_state ongoing none config certified now presence call users =
    (unchanged call users, presence)
process_by_state pending _ config certified now presence call users =
    (unchanged call users, presence)
process_by_state ended _ config certified now presence call users = (unchanged call users, presence)

-- One call of the batch.
unfoldable pub process_call :
    WatchdogConfig → (ℕ → Bool) → ℕ → CallPresence → CallRecord → Users → Outcome × CallPresence
unfolding process_by_state
process_call config certified now presence call users =
    process_by_state call.status call.connected_at config certified now presence call users
