-- ===== src/FeeAdjustment.antt =====
-- `apply_call_service_fee_final_adjustment` of backend/app/services/service_fee_service.py: the fee
-- of the minutes that were not charged while the call ran, and the refund of what was taken beyond
-- the fee due, with the user rows that it reads and writes.
pub mod Loop
pub mod Conserved
use new1v.Prelude.{
  ℕ, zero, suc, Bool, true, false, ◌&&◌, ◌||◌, Option, none, some, ltb, is_some, if◌then◌else◌,
}
use mathlib.Core.Option
use new1v.Prelude.Int.{ℤ, pos, pos_part, ltb_ℤ, leb_ℤ, max_zero, or_int, ◌+ℤ◌, ◌-ℤ◌}
use new1v.Prelude.Dict.{lookup}
use new1v.Records.{AppUser, CallRecord, ServiceFee}
use new1v.Users.{Users, save_coins}
use new1v.Billing.{clamp_int}
use new1v.Fee.{
  max_rate_bps, calc_call_chargeable_minutes, calc_call_service_fee_for_minutes,
  calc_call_income_service_fee_for_minutes, build_call_service_fee_final_state,
  CallServiceFeeFinalState,
}

-- The payer's row as the caller holds it in memory.
pub record Payer : Type 0 where
  pub id : ℕ
  pub coins : ℤ

-- The variables of the loop that charges the fee minute by minute.
pub record FeeLoop : Type 0 where
  pub payer_expected : ℤ
  pub income_expected : ℤ
  pub payer_balance : ℤ
  pub payer_actual : ℤ
  pub charged_additional : ℤ
  pub balance_changed : Bool

unfoldable pub charge_fee_minute : Bool → ℤ → ℤ → FeeLoop → FeeLoop
charge_fee_minute has_payer payer_fee income_fee s =
    let t = record s {
      payer_expected = s.payer_expected +ℤ payer_fee;
      income_expected = s.income_expected +ℤ income_fee;
    } in
    if (ltb_ℤ (pos 0) payer_fee && has_payer) && leb_ℤ payer_fee s.payer_balance
    then record t {
      payer_balance = s.payer_balance -ℤ payer_fee;
      payer_actual = s.payer_actual +ℤ payer_fee;
      charged_additional = s.charged_additional +ℤ payer_fee;
      balance_changed = true;
    }
    else t

-- `for _ in range(minutes)`
unfoldable pub charge_fee_minutes : Bool → ℤ → ℤ → ℕ → FeeLoop → FeeLoop
charge_fee_minutes has_payer payer_fee income_fee zero s = s
charge_fee_minutes has_payer payer_fee income_fee (suc n) s =
    charge_fee_minutes has_payer payer_fee income_fee n
      (charge_fee_minute has_payer payer_fee income_fee s)

abbrev payer_of_row : ℕ → AppUser → Payer
payer_of_row p u = record { id = p; coins = u.coins }

-- `filter(id=payer_id).select_for_update().first()`, if there is a payer's key.
unfoldable pub fetch_payer : Option ℕ → Users → Option Payer
fetch_payer none users = none
fetch_payer (some p) users = if ltb 0 p then Option.map (payer_of_row p) (lookup p users) else none

abbrev pub payer_or_fetch : Option Payer → Option ℕ → Users → Option Payer
payer_or_fetch (some row) payer_id users = some row
payer_or_fetch none payer_id users = fetch_payer payer_id users

abbrev pub balance_of : Option Payer → ℤ
balance_of none = pos 0
balance_of (some row) = row.coins

-- `locked_payer.coins = coins`, then `locked_payer.save(update_fields=["coins"])`.
abbrev pub save_payer : Option Payer → ℤ → Users → Users
save_payer none amount users = users
save_payer (some row) amount users = save_coins row.id amount users

abbrev pub with_coins : ℤ → Option Payer → Option Payer
with_coins amount none = none
with_coins amount (some row) = some (record row { coins = amount })

unfoldable pub legacy_rate : ServiceFee → ℤ
unfolding clamp_int
legacy_rate fee = clamp_int fee.rate_bps (pos 0) max_rate_bps

unfoldable pub payer_rate : ServiceFee → ℤ
unfolding clamp_int
payer_rate fee = clamp_int (or_int fee.payer_rate_bps (legacy_rate fee)) (pos 0) max_rate_bps

unfoldable pub income_rate : ServiceFee → ℤ
unfolding clamp_int
income_rate fee = clamp_int (or_int fee.income_rate_bps (legacy_rate fee)) (pos 0) max_rate_bps

-- `safe_parse_int(share, 0)`, clamped.
unfoldable pub fee_share_bps : Option ℤ → ℤ
unfolding clamp_int
fee_share_bps none = clamp_int (pos 0) (pos 0) max_rate_bps
fee_share_bps (some share) = clamp_int share (pos 0) max_rate_bps

pub record Remaining : Type 0 where
  pub loop : FeeLoop
  pub users : Users
  pub payer : Option Payer

abbrev pub fee_loop_start : ServiceFee → ℤ → FeeLoop
fee_loop_start fee balance = record {
  payer_expected = fee.payer_expected_coins;
  income_expected = fee.income_expected_diamonds;
  payer_balance = balance;
  payer_actual = fee.payer_actual_coins;
  charged_additional = pos 0;
  balance_changed = false;
}

-- The saved row is also the one that the rest of the function holds, if anything was charged.
unfoldable pub save_loop : Option Payer → Option Payer → FeeLoop → Users → Remaining
save_loop payer locked s users =
    let saved = is_some locked && s.balance_changed in
    record {
      loop = s;
      users = if saved then save_payer locked s.payer_balance users else users;
      payer = if saved then with_coins s.payer_balance locked else payer;
    }

-- The loop, on the payer's locked row.
unfoldable pub run_fee_loop : ServiceFee → ℤ → ℤ → ℕ → Option ℕ → Option Payer → Users → Remaining
run_fee_loop fee payer_fee income_fee minutes payer_id payer users =
    let locked = if ltb_ℤ (pos 0) payer_fee then payer_or_fetch payer payer_id users else payer in
    save_loop payer locked
      (charge_fee_minutes (is_some locked) payer_fee income_fee minutes
        (fee_loop_start fee (balance_of locked)))
      users

abbrev no_fee_minutes : ServiceFee → Option Payer → Users → Remaining
no_fee_minutes fee payer users = record {
  loop = fee_loop_start fee (pos 0);
  users = users;
  payer = payer;
}

-- The minutes whose fee was not charged while the call ran.
unfoldable pub charge_remaining_fee : CallRecord → Option ℕ → Option Payer → Users → Remaining
charge_remaining_fee call payer_id payer users =
    let fee = call.fee in
    let chargeable =
      calc_call_chargeable_minutes (max_zero call.deducted_minutes)
        (max_zero fee.threshold_minutes) in
    let processed = max_zero fee.processed_chargeable_minutes in
    let payer_fee =
      calc_call_service_fee_for_minutes (max_zero call.call_price) (pos 1) (payer_rate fee) in
    let income_fee =
      calc_call_income_service_fee_for_minutes (max_zero call.call_price)
        (fee_share_bps call.income.certified_user_share_bps) (pos 1) (income_rate fee) in
    let minutes = pos_part (chargeable -ℤ processed) in
    if (ltb_ℤ (pos 0) (payer_rate fee) || ltb_ℤ (pos 0) (income_rate fee))
      && ltb_ℤ processed chargeable
    then run_fee_loop fee payer_fee income_fee minutes payer_id payer users
    else no_fee_minutes fee payer users

pub record Adjustment : Type 0 where
  pub payer_balance_changed : Bool
  pub payer_charged_additional_coins : ℤ
  pub payer_refund_coins : ℤ

pub record Adjusted : Type 0 where
  pub call : CallRecord
  pub users : Users
  pub result : Adjustment

abbrev pub is_payer : Option ℕ → Bool
is_payer none = false
is_payer (some p) = ltb 0 p

abbrev final_of : CallRecord → ℤ → CallServiceFeeFinalState
final_of call payer_actual =
    build_call_service_fee_final_state (max_zero call.call_price)
      (fee_share_bps call.income.certified_user_share_bps) (max_zero call.deducted_minutes)
      (max_zero call.fee.threshold_minutes) payer_actual (payer_rate call.fee)
      (income_rate call.fee)

abbrev final_fee : ServiceFee → CallServiceFeeFinalState → ℕ → ServiceFee
final_fee fee final now = record fee {
  processed_chargeable_minutes = final.chargeable_minutes;
  payer_expected_coins = final.payer_expected_coins;
  payer_actual_coins = final.payer_actual_coins;
  payer_status = final.payer_status;
  payer_settled_at = if is_some final.payer_status then some now else none;
  income_expected_diamonds = final.income_expected_diamonds;
  income_actual_diamonds = final.income_actual_diamonds;
  income_status = final.income_status;
  income_settled_at = if is_some final.income_status then some now else none;
}

-- What was taken beyond the fee due goes back to the payer, if the row is there.
unfoldable pub refund_payer : ℤ → Option ℕ → Option Payer → Users → Users × Bool
refund_payer refund payer_id payer users =
    let locked = payer_or_fetch payer payer_id users in
    if (ltb_ℤ (pos 0) refund && is_payer payer_id) && is_some locked
    then (save_payer locked (balance_of locked +ℤ refund) users, true)
    else (users, false)

unfoldable pub apply_call_service_fee_final_adjustment :
    CallRecord → Option ℕ → Option Payer → ℕ → Users → Adjusted
apply_call_service_fee_final_adjustment call payer_id payer now users =
    let r = charge_remaining_fee call payer_id payer users in
    let final = final_of call r.loop.payer_actual in
    let (users', refunded) = refund_payer final.payer_refund_coins payer_id r.payer r.users in
    record {
      call = record call { fee = final_fee call.fee final now };
      users = users';
      result = record {
        payer_balance_changed = r.loop.balance_changed || refunded;
        payer_charged_additional_coins = r.loop.charged_additional;
        payer_refund_coins = final.payer_refund_coins;
      };
    }
