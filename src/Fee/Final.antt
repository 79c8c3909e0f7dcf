-- ===== src/Fee/Final.antt =====
-- The final state of a call's service fee.
use new1v.Prelude.{◌≡◌, ◌↔◌, none, some, arith, if◌then◌else◌}
use new1v.Prelude.Int.{ℤ, pos, ◌≤ℤ◌, ◌+ℤ◌, ltb_ℤ, ◌-ℤ◌}
use new1v.Records.{skipped_insufficient, charged_full}
use new1v.Billing.{clamp_int}
use new1v.Fee.{
  cap_payer_actual, build_call_service_fee_final_state, resolve_call_service_fee_payer_status,
  calc_call_service_fee_for_minutes, calc_call_chargeable_minutes, max_rate_bps,
}
use new1v.Fee.Rounding.{payer_fee_nonneg}

cap_payer_actual_bounds :
    (expected raw : ℤ)
    → pos 0 ≤ℤ expected
    → pos 0 ≤ℤ raw
    → (pos 0 ≤ℤ cap_payer_actual expected raw)
      × (cap_payer_actual expected raw ≤ℤ expected)
      × (cap_payer_actual expected raw ≤ℤ raw)
unfolding cap_payer_actual
cap_payer_actual_bounds expected raw h k = ground arith

refund_splits :
    (raw kept : ℤ)
    → kept ≤ℤ raw
    → let refund = raw -ℤ kept in
      let paid_back = if ltb_ℤ refund (pos 0) then pos 0 else refund in
      (pos 0 ≤ℤ paid_back) × (kept +ℤ paid_back ≡ raw)
unfolding ◌-ℤ◌ ◌+ℤ◌
refund_splits raw kept h = ground arith

-- For an amount taken that is not negative: what the payer keeps paying lies between nothing and
-- the fee due, and with the refund it makes up what was taken.
pub final_state_splits :
    (price share deducted threshold raw payer_rate income_rate : ℤ)
    → pos 0 ≤ℤ raw
    → let s =
        build_call_service_fee_final_state price share deducted threshold raw payer_rate
          income_rate in
      (pos 0 ≤ℤ s.payer_actual_coins)
      × (s.payer_actual_coins ≤ℤ s.payer_expected_coins)
      × (pos 0 ≤ℤ s.payer_refund_coins)
      × (s.payer_actual_coins +ℤ s.payer_refund_coins ≡ raw)
unfolding build_call_service_fee_final_state
final_state_splits price share deducted threshold raw payer_rate income_rate h =
    let chargeable = calc_call_chargeable_minutes deducted threshold in
    let rate = clamp_int payer_rate (pos 0) max_rate_bps in
    let expected = calc_call_service_fee_for_minutes price chargeable rate in
    let (nonneg, due, taken) =
      cap_payer_actual_bounds expected raw (payer_fee_nonneg price chargeable rate) h in
    let (refund, total) = refund_splits raw (cap_payer_actual expected raw) taken in
    (nonneg, due, refund, total)

-- The status says exactly how the amount taken compares with the fee due.
pub payer_status_iff :
    (expected actual : ℤ)
    → let s = resolve_call_service_fee_payer_status expected actual in
      ((s ≡ none) ↔ (expected ≤ℤ pos 0))
      × ((s ≡ some skipped_insufficient) ↔ ((pos 1 ≤ℤ expected) × (actual ≤ℤ pos 0)))
      × ((s ≡ some charged_full) ↔ ((pos 1 ≤ℤ expected) × (expected ≤ℤ actual)))
unfolding resolve_call_service_fee_payer_status
payer_status_iff expected actual = ground arith
