-- ===== src/Tests/Calls.antt =====
-- The theorems on the life of a call, applied to a call that Ann dials.
use new1v.Prelude.{arith, false, ◌∷◌, ◌≡◌, ◌≤◌, refl, some, []}
use mathlib.Core.Option
use new1v.Prelude.Int.{pos, ◌*ℤ◌}
use new1v.Prelude.Dict.{lookup, alter}
use new1v.Records.{CallRecord, cancelled, manual_end, pending}
use new1v.Fee.{cents}
use new1v.Interaction.{
  interaction_blocked, has_block, ensure_interaction_allowed, is_customer_service_participant,
  is_opposite_gender, is_certified_mix,
}
use new1v.Database.{Database, exists_call, is_busy, save_call}
use new1v.Database.Busy.{active_calls}
use new1v.CallApi.Reply.{◌>>=◌, ◌>>◌, stop_if, or_stop, stop_with}
use new1v.CallApi.Dialing.{
  dialing, check_dial, check_target, check_lines, normal_user, is_protected, caller_is_short,
  resolve_call_price, new_call, resolve_income_user,
}
use new1v.CallApi.Answer.{accept_call, cancel_call, cancel_found, close_call, is_ring_timeout}
use new1v.CallApi.End.{
  call_end, expired_call, overdue_calls, close_pending, close_each, close_timeout_pending,
}
use new1v.CallApi.End.Expired.{is_overdue, count_overdue, close_timeout_pending_lem}
use new1v.CallApi.Lifecycle.{start, next, dial, cancel, hang_up, done, more}
use new1v.CallApi.Lifecycle.OneCall.{one_call}
use new1v.CallApi.Lifecycle.Ended.{ended_stays}
use new1v.CallApi.Lifecycle.Answered.{IsAnswered}
use new1v.CallApi.Lifecycle.Accepts.{accept_call_lem}
use new1v.Tests.Data.{ann, bea, users, dial_env, answer_env, running}

abbrev empty : Database
empty = record { users = users; calls = []; next_call_id = 1 }

-- Ann calls Bea.
abbrev dialled : Database
dialled = (dialing dial_env 1 2 empty).0

abbrev ringing : CallRecord
ringing = new_call dial_env 1 ann 2 bea

one_call_example : active_calls 1 dialled.calls ≤ 1
one_call_example = one_call (next (start users) (dial dial_env 1 2)) 1

accept_call_lem_example :
    IsAnswered answer_env 1 ringing dialled (accept_call answer_env 2 1 dialled)
unfolding dialing check_dial check_target check_lines normal_user is_protected caller_is_short
    resolve_call_price new_call resolve_income_user interaction_blocked has_block
    ensure_interaction_allowed is_customer_service_participant is_opposite_gender is_certified_mix
    is_busy exists_call cents lookup ◌>>=◌ ◌>>◌ stop_if or_stop stop_with is_ring_timeout
    Option.bind ◌*ℤ◌
accept_call_lem_example =
    accept_call_lem answer_env 1 ringing (next (start users) (dial dial_env 1 2)) refl refl refl

abbrev cancelled_call : CallRecord
cancelled_call = close_call cancelled manual_end 995000000 ringing

-- Ann takes the call back, and Bea then hangs up on it.
abbrev given_up : Database
given_up = (cancel_call 995000000 1 1 dialled).0

ended_stays_example :
    lookup 1 (call_end (pos 10) 1000000000 2 1 given_up).0.calls ≡ some cancelled_call
unfolding dialing check_dial check_target check_lines normal_user is_protected caller_is_short
    resolve_call_price new_call resolve_income_user interaction_blocked has_block
    ensure_interaction_allowed is_customer_service_participant is_opposite_gender is_certified_mix
    is_busy exists_call cents lookup ◌>>=◌ ◌>>◌ stop_if or_stop stop_with cancel_call cancel_found
    close_call save_call alter Option.bind ◌*ℤ◌
ended_stays_example =
    ended_stays 1 cancelled_call
      (next (next (start users) (dial dial_env 1 2)) (cancel 995000000 1 1))
      (more done (hang_up (pos 10) 1000000000 2 1)) refl refl

-- Nobody has answered for ten seconds more than the timeout.
abbrev unanswered : CallRecord
unanswered = record running { status = pending }

close_timeout_pending_lem_example :
    is_overdue 30 1030000000 (expired_call 1030000000 unanswered) ≡ false
unfolding count_overdue close_timeout_pending overdue_calls close_each close_pending save_call
    lookup alter
close_timeout_pending_lem_example =
    close_timeout_pending_lem 30 1030000000 7 (expired_call 1030000000 unanswered)
      ((7, unanswered) ∷ []) (omega arith) refl
