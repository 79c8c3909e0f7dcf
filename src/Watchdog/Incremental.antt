-- ===== src/Watchdog/Incremental.antt =====
-- `_apply_incremental_call_service_fee` of backend/app/core/call_watchdog.py: the service fee of
-- the minutes that a charge has just paid for. Its loop is the loop of the final adjustment.
pub mod Paid
use new1v.Prelude.{ℕ, Bool, true, false, ◌&&◌, Option, none, some, is_some, if◌then◌else◌}
use new1v.Prelude.Int.{ℤ, pos, pos_part, ltb_ℤ, leb_ℤ, or_int, ◌+ℤ◌}
use new1v.Records.{CallRecord, ServiceFee}
use new1v.Users.{Users, save_coins}
use new1v.Fee.{
  calc_incremental_chargeable_minutes, calc_call_service_fee_for_minutes,
  calc_call_income_service_fee_for_minutes, resolve_call_service_fee_payer_status,
}
use new1v.FeeAdjustment.{Payer, FeeLoop, charge_fee_minutes, fee_loop_start}

pub record Incremental : Type 0 where
  pub fee : ServiceFee
  pub users : Users

-- `int(share or 0)`
abbrev share_or_zero : Option ℤ → ℤ
share_or_zero none = pos 0
share_or_zero (some share) = share

abbrev fee_after : ServiceFee → ℤ → FeeLoop → ℕ → ServiceFee
fee_after fee processed s now =
    let status = resolve_call_service_fee_payer_status s.payer_expected s.payer_actual in
    record fee {
      processed_chargeable_minutes = processed;
      payer_expected_coins = s.payer_expected;
      payer_actual_coins = s.payer_actual;
      payer_status = status;
      payer_settled_at = if is_some status then some now else none;
      income_expected_diamonds = s.income_expected;
    }

-- The loop over the new minutes, and the writes after it.
unfoldable pub charge_new_minutes : ServiceFee → ℤ → ℤ → ℤ → Payer → ℕ → Users → Incremental
charge_new_minutes fee payer_fee income_fee minutes payer now users =
    let s =
      charge_fee_minutes true payer_fee income_fee (pos_part minutes)
        (fee_loop_start fee payer.coins) in
    record {
      fee = fee_after fee (fee.processed_chargeable_minutes +ℤ minutes) s now;
      users = if s.balance_changed then save_coins payer.id s.payer_balance users else users;
    }

abbrev no_new_minutes : ServiceFee → Users → Incremental
no_new_minutes fee users = record { fee = fee; users = users }

unfoldable pub apply_incremental_call_service_fee : CallRecord → Payer → ℕ → Users → Incremental
apply_incremental_call_service_fee call payer now users =
    let fee = call.fee in
    let payer_rate = or_int fee.payer_rate_bps fee.rate_bps in
    let income_rate = or_int fee.income_rate_bps fee.rate_bps in
    let minutes =
      calc_incremental_chargeable_minutes fee.processed_chargeable_minutes call.deducted_minutes
        fee.threshold_minutes in
    let payer_fee = calc_call_service_fee_for_minutes call.call_price (pos 1) payer_rate in
    let income_fee =
      calc_call_income_service_fee_for_minutes call.call_price
        (share_or_zero call.income.certified_user_share_bps) (pos 1) income_rate in
    if leb_ℤ payer_rate (pos 0) && leb_ℤ income_rate (pos 0)
    then no_new_minutes fee users
    else if leb_ℤ minutes (pos 0)
    then no_new_minutes fee users
    else charge_new_minutes fee payer_fee income_fee minutes payer now users
