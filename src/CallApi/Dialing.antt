-- ===== src/CallApi/Dialing.antt =====
-- `dialing`: the checks before a call rings, and the row that it creates. The recent rejections are
-- those of backend/app/core/call_reject_protect.py.
use new1v.Prelude.{
  ℕ, ◌+◌, ◌-◌, ◌*◌, ◌/◌, Bool, true, false, not, ◌&&◌, Option, none, some, List, ◌∷◌, ltb, leb,
  ◌==◌, if◌then◌else◌,
}
use mathlib.Core.Option
use new1v.Prelude.Int.{ℤ, pos, ltb_ℤ}
use new1v.Prelude.Dict.{Dict, lookup}
use new1v.Records.{AppUser, normal, banned, CallRecord, pending, ended, rejected, ServiceFee}
use new1v.Users.{Users}
use new1v.Fee.{cents}
use new1v.Interaction.{
  InteractionRelationRuntime, call, ensure_interaction_allowed, interaction_blocked,
}
use new1v.Database.{Database, exists_call, is_busy}
use new1v.CallApi.Reply.{
  bad_target, target_unavailable, self_call, do_not_disturb, target_offline, account_abnormal,
  blocked, insufficient_coins, caller_busy, callee_busy, inbound_protected, pair_protected,
  not_allowed, Reply, success, fail, Checked, ok, stop, ◌>>=◌, ◌>>◌, stop_if, or_stop, stop_with,
}

-- What the handler reads besides the tables: who is online, the block rows, the interaction rules,
-- the two protection times and the income share from the settings, and the clock.
pub record DialEnv : Type 0 where
  pub online : ℕ → Bool
  pub blocks : List (ℕ × ℕ)
  pub runtime : InteractionRelationRuntime
  pub inbound_protect_seconds : ℕ
  pub pair_protect_seconds : ℕ
  pub certified_user_share_bps : ℤ
  pub now : ℕ

abbrev pub keep_normal : AppUser → Option AppUser
keep_normal u = elim u.status [ normal ↦ some u | banned ↦ none ]

-- `filter(id=…, status="normal").first()`
unfoldable pub normal_user : ℕ → Users → Option AppUser
normal_user id users = Option.bind (lookup id users) keep_normal

-- Seconds left of the protection, rounded up.
unfoldable pub calc_left_seconds : ℕ → ℕ → ℕ → ℕ
calc_left_seconds event_time protect_seconds now =
    if protect_seconds == 0
    then 0
    else (protect_seconds * 1000000 + event_time - now + 999999) / 1000000

unfoldable pub should_block_rejected_call : ℕ → ℕ → ℕ → Bool
unfolding calc_left_seconds
should_block_rejected_call event_time protect_seconds now =
    ltb 0 (calc_left_seconds event_time protect_seconds now)

abbrev is_rejected : CallRecord → Bool
is_rejected c = elim c.status [
  | ended ↦ elim c.end_reason [ some r ↦ elim r [ rejected ↦ true | _ ↦ false ] | none ↦ false ]
  | _ ↦ false
]

-- The query of rejected calls in the window, and the loop over its rows.
abbrev protected_test : (CallRecord → Bool) → ℕ → ℕ → ℕ → CallRecord → Bool
protected_test matches protect_seconds now id c =
    (matches c && is_rejected c)
    && (leb now (c.updated_at + protect_seconds * 1000000)
        && should_block_rejected_call c.updated_at protect_seconds now)

unfoldable pub is_protected : (CallRecord → Bool) → ℕ → ℕ → Dict CallRecord → Bool
is_protected matches protect_seconds now calls =
    ltb 0 protect_seconds && exists_call (protected_test matches protect_seconds now) calls

-- The price is the certified party's; the callee's if both are.
unfoldable pub resolve_call_price : AppUser → AppUser → ℤ
resolve_call_price caller callee =
    if caller.is_certified_user && not callee.is_certified_user
    then caller.certified_call_price
    else if callee.is_certified_user && not caller.is_certified_user
    then callee.certified_call_price
    else if caller.is_certified_user && callee.is_certified_user
    then callee.certified_call_price
    else pos 0

unfoldable pub resolve_income_user : ℕ → AppUser → ℕ → AppUser → Option ℕ
resolve_income_user caller_id caller callee_id callee =
    if caller.is_certified_user && not callee.is_certified_user
    then some caller_id
    else if callee.is_certified_user && not caller.is_certified_user
    then some callee_id
    else if caller.is_certified_user && callee.is_certified_user
    then some callee_id
    else none

-- Only a caller who would be the payer is asked for one minute's price.
unfoldable pub caller_is_short : AppUser → AppUser → ℤ → Bool
caller_is_short caller callee price = callee.is_certified_user && ltb_ℤ caller.coins (cents price)

abbrev pub no_fee : ServiceFee
no_fee = record {
  threshold_minutes = pos 0;
  rate_bps = pos 0;
  payer_rate_bps = pos 0;
  income_rate_bps = pos 0;
  processed_chargeable_minutes = pos 0;
  payer_expected_coins = pos 0;
  payer_actual_coins = pos 0;
  payer_status = none;
  payer_settled_at = none;
  income_expected_diamonds = pos 0;
  income_actual_diamonds = pos 0;
  income_status = none;
  income_settled_at = none;
}

-- The created row; the columns not given have the model's defaults.
unfoldable pub new_call : DialEnv → ℕ → AppUser → ℕ → AppUser → CallRecord
new_call env caller_id caller callee_id callee = record {
  caller_id = caller_id;
  callee_id = callee_id;
  call_price = resolve_call_price caller callee;
  status = pending;
  duration = 0;
  total_fee = pos 0;
  end_reason = none;
  connected_at = none;
  ended_at = none;
  effective_ended_at = none;
  end_basis = none;
  force_exit_user_id = none;
  deducted_amount = pos 0;
  deducted_minutes = pos 0;
  last_renew_at = none;
  billing_free_seconds = some (pos 10);
  payer_user_id = none;
  created_at = env.now;
  updated_at = env.now;
  income = record {
    income_certified_user_id = resolve_income_user caller_id caller callee_id callee;
    certified_user_share_bps = some env.certified_user_share_bps;
    certified_user_income_diamonds = pos 0;
    income_settled_at = none;
  };
  fee = no_fee;
}

-- The checks on the target that come before the transaction.
unfoldable pub check_target : DialEnv → ℕ → ℕ → Database → Checked (Unit {0})
check_target env caller_id target_id db = do
  stop_if (not (ltb 0 target_id)) bad_target
  target ← or_stop (normal_user target_id db.users) target_unavailable
  stop_if (caller_id == target_id) self_call
  stop_if target.video_dnd_enabled do_not_disturb
  stop_if (not (env.online target_id)) target_offline

-- The checks on the two calls that the parties may be in, and on recent rejections.
unfoldable pub check_lines : DialEnv → ℕ → ℕ → Database → Checked (Unit {0})
check_lines env caller_id target_id db = do
  stop_if (is_busy caller_id db.calls) caller_busy
  stop_if (is_busy target_id db.calls) callee_busy
  stop_if
      (is_protected (λ c. c.callee_id == target_id) env.inbound_protect_seconds env.now db.calls)
      inbound_protected
  stop_if
      (is_protected (λ c. (c.caller_id == caller_id) && (c.callee_id == target_id))
        env.pair_protect_seconds env.now db.calls)
      pair_protected

unfoldable pub check_dial : DialEnv → ℕ → ℕ → Database → Checked CallRecord
check_dial env caller_id target_id db = do
  check_target env caller_id target_id db
  caller ← or_stop (normal_user caller_id db.users) account_abnormal
  target ← or_stop (normal_user target_id db.users) target_unavailable
  stop_if (interaction_blocked caller_id target_id env.blocks) blocked
  stop_with (
      Option.map not_allowed
        (ensure_interaction_allowed call caller_id caller target_id target false env.runtime))
  stop_if (caller_is_short caller target (resolve_call_price caller target)) insufficient_coins
  check_lines env caller_id target_id db
  ok (new_call env caller_id caller target_id target)

abbrev pub create_call : CallRecord → Database → Database
create_call c db = record db {
  calls = (db.next_call_id, c) ∷ db.calls;
  next_call_id = db.next_call_id + 1;
}

abbrev pub dial_checked : Checked CallRecord → Database → Database × Reply
dial_checked (ok c) db = (create_call c db, success)
dial_checked (stop e) db = (db, fail e)

unfoldable pub dialing : DialEnv → ℕ → ℕ → Database → Database × Reply
dialing env caller_id target_id db = dial_checked (check_dial env caller_id target_id db) db
