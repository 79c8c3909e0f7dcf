-- ===== src/Fee.antt =====
-- The service fee on call minutes, backend/app/services/service_fee_service.py, with the share
-- arithmetic of backend/app/services/call_income_service.py that it calls.
-- A `Decimal` with two places is an integer of hundredths, so that `quantize_decimal_2` is the
-- identity on it and is written only where it rounds: on an exact product of hundredths and basis
-- points, which is an integer of millionths.
pub mod Rounding
pub mod Final
use new1v.Prelude.{ℕ, suc, ◌+◌, ◌/◌, Bool, ◌||◌, ◌&&◌, Option, none, some, if◌then◌else◌}
use new1v.Prelude.Int.{
  ℤ, pos, negsuc, sub_ℕ, ltb_ℤ, leb_ℤ, max_zero, or_int, ◌+ℤ◌, ◌-ℤ◌, ◌*ℤ◌, ◌//ℤ◌,
}
use new1v.Billing.{clamp_int}
use new1v.Records.{
  CallRecord, ServiceFee, PayerFeeStatus, skipped_insufficient, charged_partial, charged_full,
  IncomeFeeStatus, charged,
}

abbrev pub max_rate_bps : ℤ
max_rate_bps = pos 10000

-- Whole coins as hundredths.
unfoldable pub cents : ℤ → ℤ
cents z = z *ℤ pos 100

-- ROUND_HALF_UP, from millionths to hundredths: a tie goes away from zero.
unfoldable pub quantize_decimal_2 : ℤ → ℤ
quantize_decimal_2 (pos n) = pos ((n + 5000) / 10000)
quantize_decimal_2 (negsuc n) = sub_ℕ 0 ((n + 5001) / 10000)

unfoldable pub calc_incremental_chargeable_minutes : ℤ → ℤ → ℤ → ℤ
calc_incremental_chargeable_minutes previous_processed deducted_minutes threshold_minutes =
    let total_chargeable = max_zero (max_zero deducted_minutes -ℤ max_zero threshold_minutes) in
    max_zero (total_chargeable -ℤ max_zero previous_processed)

-- The base amount is in hundredths.
unfoldable pub calc_service_fee_decimal : ℤ → ℤ → ℤ
unfolding clamp_int
calc_service_fee_decimal amount rate_bps =
    let bps = clamp_int rate_bps (pos 0) max_rate_bps in
    if leb_ℤ amount (pos 0)
    then pos 0
    else if leb_ℤ bps (pos 0)
    then pos 0
    else quantize_decimal_2 (amount *ℤ bps)

unfoldable pub calc_call_chargeable_minutes : ℤ → ℤ → ℤ
calc_call_chargeable_minutes deducted_minutes threshold_minutes =
    max_zero (max_zero deducted_minutes -ℤ max_zero threshold_minutes)

unfoldable pub calc_call_service_fee_for_minutes : ℤ → ℤ → ℤ → ℤ
calc_call_service_fee_for_minutes call_price chargeable_minutes rate_bps =
    let minutes = max_zero chargeable_minutes in
    let per_minute_fee = calc_service_fee_decimal (cents (max_zero call_price)) rate_bps in
    if leb_ℤ minutes (pos 0)
    then pos 0
    else if leb_ℤ per_minute_fee (pos 0)
    then pos 0
    else per_minute_fee *ℤ minutes

-- Whole diamonds: the share is rounded down.
unfoldable pub calc_certified_user_income_diamonds : ℤ → ℤ → ℤ
unfolding clamp_int
calc_certified_user_income_diamonds total_fee certified_user_share_bps =
    (max_zero total_fee *ℤ clamp_int certified_user_share_bps (pos 0) max_rate_bps) //ℤ 10000

unfoldable pub calc_call_income_service_fee_for_minutes : ℤ → ℤ → ℤ → ℤ → ℤ
calc_call_income_service_fee_for_minutes call_price share_bps chargeable_minutes rate_bps =
    let per_minute_income =
      cents (calc_certified_user_income_diamonds (max_zero call_price) share_bps) in
    let minutes = max_zero chargeable_minutes in
    let per_minute_fee = calc_service_fee_decimal per_minute_income rate_bps in
    if leb_ℤ per_minute_income (pos 0) || leb_ℤ minutes (pos 0)
    then pos 0
    else if leb_ℤ per_minute_fee (pos 0)
    then pos 0
    else per_minute_fee *ℤ minutes

unfoldable pub resolve_call_service_fee_payer_status : ℤ → ℤ → Option PayerFeeStatus
resolve_call_service_fee_payer_status expected actual =
    if leb_ℤ expected (pos 0)
    then none
    else if leb_ℤ actual (pos 0)
    then some skipped_insufficient
    else if ltb_ℤ actual expected
    then some charged_partial
    else some charged_full

-- Both in hundredths.
unfoldable pub calc_net_call_income_diamonds : ℤ → ℤ → ℤ
calc_net_call_income_diamonds gross fee =
    let net = gross -ℤ fee in if leb_ℤ net (pos 0) then pos 0 else net

pub record CallServiceFeeConfig : Type 0 where
  pub enabled : Bool
  pub threshold_minutes : ℤ
  pub payer_rate_bps : ℤ
  pub income_rate_bps : ℤ

-- The snapshot that a call takes of the configuration when it is accepted.
unfoldable pub apply_call_service_fee_config_snapshot : CallServiceFeeConfig → ServiceFee
unfolding clamp_int
apply_call_service_fee_config_snapshot config =
    let payer_rate = clamp_int config.payer_rate_bps (pos 0) max_rate_bps in
    let income_rate = clamp_int config.income_rate_bps (pos 0) max_rate_bps in
    let enabled = config.enabled && (ltb_ℤ (pos 0) payer_rate || ltb_ℤ (pos 0) income_rate) in
    record {
      threshold_minutes = if enabled then config.threshold_minutes else pos 0;
      rate_bps = if enabled then payer_rate else pos 0;
      payer_rate_bps = if enabled then payer_rate else pos 0;
      income_rate_bps = if enabled then income_rate else pos 0;
      processed_chargeable_minutes = pos 0;
      payer_expected_coins = pos 0;
      payer_actual_coins = pos 0;
      payer_status = none;
      payer_settled_at = none;
      income_expected_diamonds = pos 0;
      income_actual_diamonds = pos 0;
      income_status = none;
      income_settled_at = none;
    }

pub record CallServiceFeeFinalState : Type 0 where
  pub chargeable_minutes : ℤ
  pub payer_expected_coins : ℤ
  pub payer_actual_coins : ℤ
  pub payer_refund_coins : ℤ
  pub payer_status : Option PayerFeeStatus
  pub income_expected_diamonds : ℤ
  pub income_actual_diamonds : ℤ
  pub income_status : Option IncomeFeeStatus

-- What the payer keeps paying of what was taken: nothing if no fee is due, else at most the fee.
unfoldable pub cap_payer_actual : ℤ → ℤ → ℤ
cap_payer_actual expected raw_actual =
    if leb_ℤ expected (pos 0)
    then pos 0
    else if ltb_ℤ expected raw_actual
    then expected
    else raw_actual

-- The two rates are given, as the callers give them.
unfoldable pub build_call_service_fee_final_state :
    (call_price share_bps deducted_minutes threshold_minutes payer_actual payer_rate
      income_rate : ℤ)
    → CallServiceFeeFinalState
unfolding clamp_int cap_payer_actual
build_call_service_fee_final_state price share_bps deducted threshold raw_actual payer_rate
      income_rate =
    let payer_rate' = clamp_int payer_rate (pos 0) max_rate_bps in
    let income_rate' = clamp_int income_rate (pos 0) max_rate_bps in
    let chargeable = calc_call_chargeable_minutes deducted threshold in
    let expected = calc_call_service_fee_for_minutes price chargeable payer_rate' in
    let income_expected =
      calc_call_income_service_fee_for_minutes price share_bps chargeable income_rate' in
    let actual = cap_payer_actual expected raw_actual in
    let refund = raw_actual -ℤ actual in
    let income_actual = if ltb_ℤ (pos 0) income_expected then income_expected else pos 0 in
    record {
      chargeable_minutes = chargeable;
      payer_expected_coins = expected;
      payer_actual_coins = actual;
      payer_refund_coins = if ltb_ℤ refund (pos 0) then pos 0 else refund;
      payer_status = resolve_call_service_fee_payer_status expected actual;
      income_expected_diamonds = income_expected;
      income_actual_diamonds = income_actual;
      income_status = if ltb_ℤ (pos 0) income_actual then some charged else none;
    }
