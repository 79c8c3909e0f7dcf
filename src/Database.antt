-- ===== src/Database.antt =====
-- The tables that the call handlers share, and their queries on calls.
pub mod Busy
use new1v.Prelude.{
  ℕ, ◌+◌, Bool, true, false, not, ◌&&◌, ◌||◌, Option, List, [], ◌∷◌, ◌==◌, if◌then◌else◌,
}
use new1v.Prelude.Dict.{Dict, alter}
use new1v.Records.{CallRecord, CallStatus, pending, ongoing, ended}
use new1v.Users.{Users}

-- New rows get the keys from `next_call_id` on.
pub record Database : Type 0 where
  pub users : Users
  pub calls : Dict CallRecord
  pub next_call_id : ℕ

-- `status__in=["pending", "ongoing"]`
abbrev pub is_active : CallStatus → Bool
is_active pending = true
is_active ongoing = true
is_active ended = false

abbrev pub is_ongoing : CallStatus → Bool
is_ongoing ongoing = true
is_ongoing _ = false

abbrev pub takes_part : ℕ → CallRecord → Bool
takes_part k c = (c.caller_id == k) || (c.callee_id == k)

-- `filter(…).exists()`
unfoldable pub exists_call : (ℕ → CallRecord → Bool) → Dict CallRecord → Bool
exists_call test [] = false
exists_call test ((id, c) ∷ calls) = test id c || exists_call test calls

abbrev pub busy_test : ℕ → ℕ → CallRecord → Bool
busy_test k id c = takes_part k c && is_active c.status

unfoldable pub is_busy : ℕ → Dict CallRecord → Bool
unfolding exists_call
is_busy k calls = exists_call (busy_test k) calls

-- `call_record.save()`
unfoldable pub save_call : ℕ → CallRecord → Dict CallRecord → Dict CallRecord
save_call id c calls = alter id (λ _. c) calls
