-- ===== src/CallApi/End.antt =====
-- `call_end`: a party hangs up. A running call is billed to the second of the request, and its
-- service fee and income are settled; a call that has ended is left alone. Also
-- `_close_timeout_pending` of backend/app/core/call_watchdog.py, which ends calls nobody answered.
pub mod Conserved
pub mod Twice
pub mod Parties
pub mod Expired
use new1v.Prelude.{
  ℕ, zero, suc, ◌+◌, ◌-◌, ◌*◌, ◌/◌, Bool, true, false, not, ◌&&◌, ◌||◌, Option, none, some, List,
  [], ◌∷◌, ltb, ◌==◌, if◌then◌else◌,
}
use new1v.Prelude.Int.{ℤ, pos, ltb_ℤ, ◌*ℤ◌}
use new1v.Prelude.Dict.{Dict, lookup}
use new1v.Records.{
  AppUser, CallRecord, CallStatus, pending, ongoing, ended, EndReason, normal_end, timeout,
  balance_empty, EndBasis, manual_end, timeout_end,
}
use new1v.Users.{Users}
use new1v.Billing.{clamp_int, calc_due_minutes, resolve_billing_free_seconds}
use new1v.IncomeSettlement.{resolve_income_certified_user_id_for_call, id_or_zero, id_or_none}
use new1v.Watchdog.Finish.{Outcome, bill_difference, settled_minutes, finish_call}
use new1v.Presence.{CallPresence}
use new1v.Watchdog.Config.{WatchdogConfig}
use new1v.Watchdog.{charged_if, process_call}
use new1v.Database.{Database, is_ongoing, takes_part, save_call}
use new1v.CallApi.Reply.{not_found, not_party, Reply, success, fail}
use new1v.CallApi.Answer.{is_pending, put_call, payer_of, on_call}

abbrev seconds_connected : ℕ → Option ℕ → ℕ → ℕ
seconds_connected now none duration = duration
seconds_connected now (some connected) duration = (now - connected) / 1000000

unfoldable pub calc_duration_seconds : ℕ → CallRecord → ℕ
calc_duration_seconds now call =
    if is_ongoing call.status
    then seconds_connected now call.connected_at call.duration
    else call.duration

-- The payer that the call names, else the one by the certification marks; 0 if nobody pays.
unfoldable pub resolve_payer_id_with_snapshot : CallRecord → Users → ℕ
resolve_payer_id_with_snapshot call users = elim call.payer_user_id [
  | some p ↦ p
  | none ↦ payer_of call users
]

-- `filter(id__in=[caller_id, callee_id])`
unfoldable pub participants_of : CallRecord → Users → List (ℕ × AppUser)
participants_of call [] = []
participants_of call ((id, u) ∷ users) =
    let rest = participants_of call users in if takes_part id call then (id, u) ∷ rest else rest

unfoldable pub receive_income : List (ℕ × AppUser) → ℕ → CallRecord → CallRecord
receive_income participants payer_id call =
    let found =
      resolve_income_certified_user_id_for_call participants (some payer_id) call.caller_id
        call.callee_id in
    if id_or_zero call.income.income_certified_user_id == 0
    then record call { income = record call.income { income_certified_user_id = id_or_none found } }
    else call

abbrev pub due_at_end : ℤ → ℕ → CallRecord → ℕ
due_at_end free_seconds now call =
    if is_ongoing call.status
    then calc_due_minutes (calc_duration_seconds now call) (
        resolve_billing_free_seconds call.billing_free_seconds
          (clamp_int free_seconds (pos 0) (pos 600)))
    else 0

-- A booked amount below zero counts as zero.
abbrev pub charged_before : ℤ → ℤ
charged_before deducted = if ltb_ℤ deducted (pos 0) then pos 0 else deducted

abbrev reason_at_end : Bool → Option EndReason → Option EndReason
reason_at_end true reason = some balance_empty
reason_at_end false none = some normal_end
reason_at_end false (some reason) = some reason

-- The ending of a call that has not ended.
unfoldable pub settle_end : ℤ → ℕ → CallRecord → Users → Outcome
settle_end free_seconds now call users =
    let due_minutes = due_at_end free_seconds now call in
    let payer_id = resolve_payer_id_with_snapshot call users in
    let participants = participants_of call users in
    let bill =
      bill_difference (some payer_id) (pos due_minutes *ℤ call.call_price) call.deducted_amount
        (charged_before call.deducted_amount) users in
    let call' = record call {
      duration = calc_duration_seconds now call;
      deducted_minutes =
          settled_minutes (some payer_id) call.call_price bill.charged_amount due_minutes;
      deducted_amount = bill.charged_amount;
      total_fee = bill.charged_amount;
      status = ended;
      end_reason = reason_at_end bill.short call.end_reason;
      ended_at = some now;
      effective_ended_at = some now;
      end_basis = some manual_end;
      force_exit_user_id = none;
    } in
    finish_call (receive_income participants payer_id call') (some payer_id) none
      bill.charged_amount (some participants) now bill.users
      (charged_if bill.changed (some payer_id))

abbrev pub is_ended : CallStatus → Bool
is_ended ended = true
is_ended _ = false

unfoldable pub end_found : ℤ → ℕ → ℕ → ℕ → CallRecord → Database → Database × Reply
end_found free_seconds now user_id id call db =
    let o = settle_end free_seconds now call db.users in
    if not (takes_part user_id call)
    then (db, fail not_party)
    else if is_ended call.status
    then (db, success)
    else (put_call id o.call (record db { users = o.users }), success)

unfoldable pub call_end : ℤ → ℕ → ℕ → ℕ → Database → Database × Reply
call_end free_seconds now user_id id db = on_call id (end_found free_seconds now user_id id) db

-- The keys of the calls that rang too long, the first 100 of them.
unfoldable pub overdue_calls : ℕ → ℕ → ℕ → Dict CallRecord → List ℕ
overdue_calls zero ring_timeout_seconds now calls = []
overdue_calls (suc limit) ring_timeout_seconds now [] = []
overdue_calls (suc limit) ring_timeout_seconds now ((id, c) ∷ calls) =
    if is_pending c.status && ltb (c.created_at + ring_timeout_seconds * 1000000) now
    then id ∷ overdue_calls limit ring_timeout_seconds now calls
    else overdue_calls (suc limit) ring_timeout_seconds now calls

-- The update of one row, which writes no `updated_at`.
abbrev pub expired_call : ℕ → CallRecord → CallRecord
expired_call now c = record c {
  status = ended;
  end_reason = some timeout;
  ended_at = some now;
  effective_ended_at = some now;
  end_basis = some timeout_end;
  force_exit_user_id = none;
}

unfoldable pub close_pending : ℕ → ℕ → Dict CallRecord → Dict CallRecord
close_pending now id calls = elim (lookup id calls) [
  | some c ↦ if is_pending c.status then save_call id (expired_call now c) calls else calls
  | none ↦ calls
]

unfoldable pub close_each : ℕ → List ℕ → Dict CallRecord → Dict CallRecord
close_each now [] calls = calls
close_each now (id ∷ ids) calls = close_each now ids (close_pending now id calls)

unfoldable pub close_timeout_pending : ℕ → ℕ → Dict CallRecord → Dict CallRecord
unfolding overdue_calls close_each
close_timeout_pending ring_timeout_seconds now calls =
    close_each now (overdue_calls 100 ring_timeout_seconds now calls) calls

-- A running call of the watchdog's batch, by its key; the row and the balances are saved.
abbrev pub watch_found :
    WatchdogConfig → (ℕ → Bool) → ℕ → CallPresence → ℕ → CallRecord → Database → Database
watch_found config certified now presence id call db =
    let (o, _) = process_call config certified now presence call db.users in
    if is_ongoing call.status then put_call id o.call (record db { users = o.users }) else db

unfoldable pub watch_call : WatchdogConfig → (ℕ → Bool) → ℕ → CallPresence → ℕ → Database → Database
watch_call config certified now presence id db = elim (lookup id db.calls) [
  | some call ↦ watch_found config certified now presence id call db
  | none ↦ db
]
