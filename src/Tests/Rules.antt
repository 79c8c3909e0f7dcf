-- ===== src/Tests/Rules.antt =====
-- The theorems on minutes, rates, heartbeats, settings and permissions, at numbers of their own.
use new1v.Prelude.{ℕ, ◌≡◌, ◌↔◌, ◌≤◌, ◌<◌, ◌+◌, ◌*◌, some, none}
use new1v.Billing.{calc_due_minutes}
use new1v.Billing.Minutes.{calc_due_minutes_iff}
use new1v.Presence.{gone, eval_role, CallPresence}
use new1v.Presence.Decision.{IsLastSign, eval_role_gone}

calc_due_minutes_iff_example : (1 < calc_due_minutes 85 10) ↔ ((10 ≤ 85) × (60 * 1 < 85))
calc_due_minutes_iff_example = calc_due_minutes_iff 85 10 1

-- A party that was never heard of.
eval_role_gone_example : (eval_role 1000 60000 15000 5000 none (some 40000) ≡ gone 1000) ↔ (
    IsLastSign none 1000 1000
    × (1000 + 15000 < 60000)
    × ((m : ℕ) × (some 40000 ≡ some m) × (m + 5000 ≤ 60000)))
eval_role_gone_example = eval_role_gone 1000 60000 15000 5000 none (some 40000) 1000

-- Both parties have left; the callee's last heartbeat is the earlier one.
abbrev both_left : CallPresence
both_left = record {
  caller_last_seen_ms = some 1085000;
  callee_last_seen_ms = some 1084000;
  caller_left_candidate_ms = some 1101000;
  callee_left_candidate_ms = some 1100000;
}
