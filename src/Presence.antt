-- ===== src/Presence.antt =====
-- backend/app/core/call_presence.py, the heartbeats of a call's two parties, and
-- `_resolve_force_exit_decision` of backend/app/core/call_watchdog.py, which reads them.
-- The hash of a call in Redis is a record; its expiry is `expire`. Times are in milliseconds.
pub mod Decision
use new1v.Prelude.{
  ℕ, ◌+◌, ◌*◌, ◌/◌, Bool, true, false, Option, none, some, List, [], ◌∷◌, ◌++◌, ltb, leb, ◌==◌,
  if◌then◌else◌, is_some,
}

pub data Role : Type 0 where
  caller callee : Role

pub record CallPresence : Type 0 where
  pub caller_last_seen_ms : Option ℕ
  pub callee_last_seen_ms : Option ℕ
  pub caller_left_candidate_ms : Option ℕ
  pub callee_left_candidate_ms : Option ℕ

-- An expired or unwritten hash reads as four missing fields.
abbrev pub expire : CallPresence
expire = record {
  caller_last_seen_ms = none;
  callee_last_seen_ms = none;
  caller_left_candidate_ms = none;
  callee_left_candidate_ms = none;
}

abbrev last_seen_ms : Role → CallPresence → Option ℕ
last_seen_ms caller p = p.caller_last_seen_ms
last_seen_ms callee p = p.callee_last_seen_ms

abbrev left_candidate_ms : Role → CallPresence → Option ℕ
left_candidate_ms caller p = p.caller_left_candidate_ms
left_candidate_ms callee p = p.callee_left_candidate_ms

-- A heartbeat also clears the party's mark of having left.
unfoldable pub update_last_seen : Role → ℕ → CallPresence → CallPresence
update_last_seen caller now_ms p = record p {
  caller_last_seen_ms = some now_ms;
  caller_left_candidate_ms = none;
}
update_last_seen callee now_ms p = record p {
  callee_last_seen_ms = some now_ms;
  callee_left_candidate_ms = none;
}

unfoldable pub mark_left_candidate : Role → ℕ → CallPresence → CallPresence
mark_left_candidate caller now_ms p = record p { caller_left_candidate_ms = some now_ms }
mark_left_candidate callee now_ms p = record p { callee_left_candidate_ms = some now_ms }

unfoldable pub clear_left_candidate : Role → CallPresence → CallPresence
clear_left_candidate caller p = record p { caller_left_candidate_ms = none }
clear_left_candidate callee p = record p { callee_left_candidate_ms = none }

-- What the watchdog makes of one party.
pub data Verdict : Type 0 where
  present returned newly_missing missing : Verdict
  gone : ℕ → Verdict

-- `last_seen or connected_ms`
unfoldable pub effective_last_seen : Option ℕ → ℕ → ℕ
effective_last_seen none connected_ms = connected_ms
effective_last_seen (some seen) connected_ms = if seen == 0 then connected_ms else seen

-- `_eval_role`. The differences are compared as sums, since a clock may lag behind a heartbeat.
unfoldable pub eval_role :
    (connected_ms now_ms detect_ms settle_ms : ℕ) → Option ℕ → Option ℕ → Verdict
eval_role connected_ms now_ms detect_ms settle_ms last_seen left_candidate =
    let seen = effective_last_seen last_seen connected_ms in
    if ltb (seen + detect_ms) now_ms
    then elim left_candidate [
      | none ↦ newly_missing
      | some left ↦ if leb (left + settle_ms) now_ms then gone seen else missing
    ]
    else if is_some left_candidate
    then returned
    else present

pub record ForcedEnd : Type 0 where
  pub effective_ended_at_ms : ℕ
  pub user_id : ℕ

pub record ForceExitDecision : Type 0 where
  pub forced_end : Option ForcedEnd
  pub mark_candidate_roles : List Role
  pub clear_candidate_roles : List Role

abbrev mark_of : Role → Verdict → List Role
mark_of role newly_missing = role ∷ []
mark_of role _ = []

abbrev clear_of : Role → Verdict → List Role
clear_of role returned = role ∷ []
clear_of role _ = []

-- The earliest last sign of life decides; a tie falls to the caller, whom the stable sort keeps
-- first.
unfoldable pub earliest_gone : Verdict → ℕ → Verdict → ℕ → Option ForcedEnd
earliest_gone (gone a) caller_id (gone b) callee_id =
    if ltb b a
    then some (record { effective_ended_at_ms = b; user_id = callee_id })
    else some (record { effective_ended_at_ms = a; user_id = caller_id })
earliest_gone (gone a) caller_id _ callee_id =
    some (record { effective_ended_at_ms = a; user_id = caller_id })
earliest_gone _ caller_id (gone b) callee_id =
    some (record { effective_ended_at_ms = b; user_id = callee_id })
earliest_gone _ caller_id _ callee_id = none

abbrev pub verdict_of : (connected_ms now_ms detect_s settle_s : ℕ) → Role → CallPresence → Verdict
verdict_of connected_ms now_ms detect_s settle_s role p =
    eval_role connected_ms now_ms (detect_s * 1000) (settle_s * 1000) (last_seen_ms role p)
      (left_candidate_ms role p)

unfoldable pub resolve_force_exit_decision :
    (connected_ms caller_id callee_id : ℕ)
    → CallPresence
    → (now_ms offline_detect_seconds settle_grace_seconds : ℕ) → ForceExitDecision
resolve_force_exit_decision connected_ms caller_id callee_id p now_ms detect_s settle_s =
    let v = verdict_of connected_ms now_ms detect_s settle_s caller p in
    let w = verdict_of connected_ms now_ms detect_s settle_s callee p in
    record {
      forced_end = earliest_gone v caller_id w callee_id;
      mark_candidate_roles = mark_of caller v ++ mark_of callee w;
      clear_candidate_roles = clear_of caller v ++ clear_of callee w;
    }

-- The watchdog clears first, then marks.
unfoldable pub clear_roles : List Role → CallPresence → CallPresence
clear_roles [] p = p
clear_roles (role ∷ rest) p = clear_roles rest (clear_left_candidate role p)

unfoldable pub mark_roles : List Role → ℕ → CallPresence → CallPresence
mark_roles [] now_ms p = p
mark_roles (role ∷ rest) now_ms p = mark_roles rest now_ms (mark_left_candidate role now_ms p)

unfoldable pub apply_decision : ForceExitDecision → ℕ → CallPresence → CallPresence
unfolding clear_roles mark_roles clear_left_candidate mark_left_candidate
apply_decision d now_ms p =
    mark_roles d.mark_candidate_roles now_ms (clear_roles d.clear_candidate_roles p)
