-- ===== src/Billing.antt =====
-- backend/app/utils/parse.py (`clamp_int`) and backend/app/utils/billing.py: minutes due for a
-- duration, the second of the next charge, and who pays for a call. The same three rules stand
-- again in backend/app/core/call_watchdog.py and backend/app/api/v1/app/call.py.
pub mod Minutes
use new1v.Prelude.{
  ℕ, ◌+◌, ◌/◌, Bool, true, false, not, ◌&&◌, Option, none, some, ltb, if◌then◌else◌,
}
use new1v.Prelude.Int.{ℤ, pos, pos_part, ltb_ℤ, is_zero, max_zero, ◌*ℤ◌}

unfoldable pub clamp_int : ℤ → ℤ → ℤ → ℤ
clamp_int value min_value max_value =
    if ltb_ℤ value min_value then min_value else if ltb_ℤ max_value value then max_value else value

unfoldable pub calc_due_minutes : ℕ → ℕ → ℕ
calc_due_minutes duration_seconds free_seconds =
    if ltb duration_seconds free_seconds then 0 else (duration_seconds + 59) / 60

unfoldable pub next_due_second : ℤ → ℕ → ℤ
next_due_second deducted_minutes free_seconds =
    if is_zero (max_zero deducted_minutes)
    then pos free_seconds
    else max_zero deducted_minutes *ℤ pos 60

-- The snapshot taken when the call was accepted, or the configured default.
unfoldable pub resolve_billing_free_seconds : Option ℤ → ℤ → ℕ
resolve_billing_free_seconds none default_seconds = pos_part default_seconds
resolve_billing_free_seconds (some snapshot) _ = pos_part snapshot

-- The payer by the two certification marks: 0 when nobody pays.
unfoldable pub resolve_payer_id : ℕ → ℕ → Bool → Bool → ℕ
resolve_payer_id caller_id callee_id caller_certified callee_certified =
    if caller_certified && not callee_certified
    then callee_id
    else if callee_certified && not caller_certified
    then caller_id
    else if caller_certified && callee_certified
    then caller_id
    else 0
