-- ===== src/CallApi/Answer.antt =====
-- `accept_call`, `reject_call` and `cancel_call`, and the timeout of a ringing call that
-- `accept_call` writes before it looks at anything else.
use new1v.Prelude.{
  ℕ, ◌+◌, ◌*◌, Bool, true, false, not, ◌&&◌, none, some, ltb, ◌==◌, if◌then◌else◌, ◌≡◌, refl,
}
use new1v.Prelude.Int.{ℤ, pos, ltb_ℤ}
use new1v.Prelude.Dict.{Dict, lookup}
use new1v.Records.{
  CallRecord, CallStatus, pending, ongoing, ended, EndReason, timeout, rejected, cancelled,
  balance_empty, EndBasis, manual_end, timeout_end, balance_empty_end,
}
use new1v.Users.{Users}
use new1v.Billing.{clamp_int, resolve_payer_id}
use new1v.Fee.{cents, CallServiceFeeConfig, apply_call_service_fee_config_snapshot}
use new1v.Database.{Database, is_ongoing, exists_call, save_call}
use new1v.CallApi.Reply.{
  insufficient_coins, not_found, not_callee, not_caller, ring_timeout, not_pending, other_ongoing,
  caller_ongoing, Reply, success, fail, Checked, ok, stop, ◌>>◌, stop_if,
}
use new1v.CallApi.Dialing.{normal_user}

-- What answering reads besides the tables: the two settings it takes a snapshot of, and the clock.
pub record AnswerEnv : Type 0 where
  pub billing_free_seconds : ℤ
  pub service_fee : CallServiceFeeConfig
  pub now : ℕ

abbrev call_ring_timeout_seconds : ℕ
call_ring_timeout_seconds = 30

abbrev pub is_pending : CallStatus → Bool
is_pending pending = true
is_pending _ = false

unfoldable pub is_ring_timeout : ℕ → CallRecord → Bool
is_ring_timeout now call = ltb (call.created_at + call_ring_timeout_seconds * 1000000) now

-- The columns that every ending without a bill writes, and `updated_at` by the save.
unfoldable pub close_call : EndReason → EndBasis → ℕ → CallRecord → CallRecord
close_call reason basis now call = record call {
  status = ended;
  end_reason = some reason;
  ended_at = some now;
  effective_ended_at = some now;
  end_basis = some basis;
  force_exit_user_id = none;
  updated_at = now;
}

abbrev pub put_call : ℕ → CallRecord → Database → Database
put_call id call db = record db { calls = save_call id call db.calls }

abbrev pub certified_in : Users → ℕ → Bool
certified_in users id = elim (lookup id users) [ some u ↦ u.is_certified_user | none ↦ false ]

-- `_resolve_payer_id`: the marks are read from the user table.
unfoldable pub payer_of : CallRecord → Users → ℕ
payer_of call users =
    resolve_payer_id call.caller_id call.callee_id (certified_in users call.caller_id)
      (certified_in users call.callee_id)

-- The payer has no row, is banned, or cannot pay one minute.
unfoldable pub payer_is_short : ℕ → ℤ → Users → Bool
payer_is_short payer_id price users =
    ltb 0 payer_id
    && (ltb_ℤ (pos 0) price
        && elim (normal_user payer_id users) [ some u ↦ ltb_ℤ u.coins (cents price) | none ↦ true ])

unfoldable pub check_accept : ℕ → ℕ → CallRecord → Dict CallRecord → Checked (Unit {0})
check_accept user_id id call calls = do
  stop_if (not (is_pending call.status)) not_pending
  stop_if
      (exists_call (λ j c. (c.callee_id == user_id) && is_ongoing c.status && not (j == id)) calls)
      other_ongoing
  stop_if
      (exists_call (λ j c. (c.caller_id == call.caller_id) && is_ongoing c.status && not (j == id))
        calls)
      caller_ongoing

unfoldable pub connect_call : AnswerEnv → ℕ → CallRecord → CallRecord
connect_call env payer_id call = record call {
  status = ongoing;
  end_reason = none;
  connected_at = some env.now;
  duration = 0;
  deducted_amount = pos 0;
  deducted_minutes = pos 0;
  last_renew_at = none;
  billing_free_seconds = some (clamp_int env.billing_free_seconds (pos 0) (pos 600));
  payer_user_id = some payer_id;
  ended_at = none;
  effective_ended_at = none;
  end_basis = none;
  force_exit_user_id = none;
  fee = apply_call_service_fee_config_snapshot env.service_fee;
  updated_at = env.now;
}

unfoldable pub refuse_unpaid : ℕ → ℕ → CallRecord → CallRecord
refuse_unpaid payer_id now call = record (close_call balance_empty balance_empty_end now call) {
  payer_user_id = some payer_id;
}

-- The pending call of a callee with no other call: it is connected if its payer can pay.
unfoldable pub answer_call : AnswerEnv → ℕ → CallRecord → Database → Database × Reply
answer_call env id call db =
    let payer_id = payer_of call db.users in
    if payer_is_short payer_id call.call_price db.users
    then (put_call id (refuse_unpaid payer_id env.now call) db, fail insufficient_coins)
    else (put_call id (connect_call env payer_id call) db, success)

abbrev pub answer_checked :
    Checked (Unit {0}) → AnswerEnv → ℕ → CallRecord → Database → Database × Reply
answer_checked (stop e) env id call db = (db, fail e)
answer_checked (ok _) env id call db = answer_call env id call db

unfoldable pub accept_found : AnswerEnv → ℕ → ℕ → CallRecord → Database → Database × Reply
accept_found env user_id id call db =
    if not (call.callee_id == user_id)
    then (db, fail not_callee)
    else if is_pending call.status && is_ring_timeout env.now call
    then (put_call id (close_call timeout timeout_end env.now call) db, fail ring_timeout)
    else answer_checked (check_accept user_id id call db.calls) env id call db

-- A handler on a call that is not there.
abbrev pub on_call : ℕ → (CallRecord → Database → Database × Reply) → Database → Database × Reply
on_call id handler db = elim (lookup id db.calls) [
  | some call ↦ handler call db
  | none ↦ (db, fail not_found)
]

pub on_call-there :
    (id : ℕ) (handler : CallRecord → Database → Database × Reply) (db : Database) (c : CallRecord)
    → lookup id db.calls ≡ some c
    → on_call id handler db ≡ handler c db
on_call-there id handler db c there = rw (there, on_call) refl

unfoldable pub accept_call : AnswerEnv → ℕ → ℕ → Database → Database × Reply
accept_call env user_id id db = on_call id (accept_found env user_id id) db

unfoldable pub reject_found : ℕ → ℕ → ℕ → CallRecord → Database → Database × Reply
reject_found now user_id id call db =
    if not (call.callee_id == user_id)
    then (db, fail not_callee)
    else if not (is_pending call.status)
    then (db, fail not_pending)
    else (put_call id (close_call rejected manual_end now call) db, success)

unfoldable pub reject_call : ℕ → ℕ → ℕ → Database → Database × Reply
reject_call now user_id id db = on_call id (reject_found now user_id id) db

unfoldable pub cancel_found : ℕ → ℕ → ℕ → CallRecord → Database → Database × Reply
cancel_found now user_id id call db =
    if not (call.caller_id == user_id)
    then (db, fail not_caller)
    else if not (is_pending call.status)
    then (db, fail not_pending)
    else (put_call id (close_call cancelled manual_end now call) db, success)

unfoldable pub cancel_call : ℕ → ℕ → ℕ → Database → Database × Reply
cancel_call now user_id id db = on_call id (cancel_found now user_id id) db
