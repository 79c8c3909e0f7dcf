-- ===== src/Fee/Rounding.antt =====
-- Laws of the fee arithmetic: rounding, signs, and the range of a fee.
use new1v.Prelude.{ℕ, suc, ◌+◌, ◌*◌, ◌/◌, ◌≤◌, ◌<◌, ◌≡◌, refl, arith}
use new1v.Prelude.Int.{
  ℤ, pos, negsuc, ◌≤ℤ◌, ◌*ℤ◌, ◌+ℤ◌, ◌//ℤ◌, *ℤ_nonneg, pos-*ℤ-pos, pos_part, neg_part, max_zero,
}
use new1v.Billing.{clamp_int}
use new1v.Fee.{
  max_rate_bps, cents, quantize_decimal_2, calc_service_fee_decimal,
  calc_call_service_fee_for_minutes, calc_certified_user_income_diamonds,
  calc_call_income_service_fee_for_minutes,
}

-- Hundredths for omega.
pub cents_parts :
    (z : ℤ) → (pos_part (cents z) ≡ 100 * pos_part z) × (neg_part (cents z) ≡ 100 * neg_part z)
unfolding cents ◌*ℤ◌
cents_parts (pos n) = ground arith
cents_parts (negsuc n) = ground arith

-- Of a value that is not negative, the rounding is within half a hundredth.
pub quantize_decimal_2_near :
    (n : ℕ)
    → (m : ℕ) × (quantize_decimal_2 (pos n) ≡ pos m)
      × (10000 * m ≤ n + 5000)
      × (n < 10000 * m + 5000)
unfolding quantize_decimal_2
quantize_decimal_2_near n = (_, refl, omega arith, omega arith)

quantize_decimal_2_nonneg : (z : ℤ) → pos 0 ≤ℤ z → pos 0 ≤ℤ quantize_decimal_2 z
unfolding quantize_decimal_2
quantize_decimal_2_nonneg (pos n) h = omega arith
quantize_decimal_2_nonneg (negsuc n) h = absurd (omega arith)

mul-le : (m b : ℕ) → b ≤ 10000 → m * b ≤ 10000 * m
mul-le m b h = grind arith

quantize-le : (m b : ℕ) → b ≤ 10000 → quantize_decimal_2 (pos m *ℤ pos b) ≤ℤ pos m
unfolding quantize_decimal_2
quantize-le m b h = rw pos-*ℤ-pos (omega (arith, mul-le m b h))

-- A rounded share of an amount, at a rate within its bounds.
pub quantize_share_bounds :
    (a : ℕ) (rate : ℤ)
    → let share = quantize_decimal_2 (pos a *ℤ clamp_int rate (pos 0) max_rate_bps) in
      (pos 0 ≤ℤ share) × (share ≤ℤ pos a)
unfolding clamp_int
quantize_share_bounds a (negsuc r) =
    ground (
      arith,
      quantize-le a 0,
      quantize_decimal_2_nonneg (pos a *ℤ pos 0),
      *ℤ_nonneg (pos a) (pos 0),
    )
quantize_share_bounds a (pos r) = ground (
  arith,
  quantize-le a r,
  quantize-le a 10000,
  quantize_decimal_2_nonneg (pos a *ℤ pos r),
  quantize_decimal_2_nonneg (pos a *ℤ pos 10000),
  *ℤ_nonneg (pos a) (pos r),
  *ℤ_nonneg (pos a) (pos 10000),
)

-- A fee is never negative and never more than the amount, itself not negative, that it is taken on.
pub calc_service_fee_decimal_bounds :
    (amount rate : ℤ)
    → pos 0 ≤ℤ amount
    → (pos 0 ≤ℤ calc_service_fee_decimal amount rate)
      × (calc_service_fee_decimal amount rate ≤ℤ amount)
unfolding calc_service_fee_decimal
calc_service_fee_decimal_bounds (negsuc a) rate h = absurd (omega arith)
calc_service_fee_decimal_bounds (pos a) (negsuc r) h = ground arith
calc_service_fee_decimal_bounds (pos a) (pos r) h = ground (
  arith,
  quantize-le a r,
  quantize-le a 10000,
  quantize_decimal_2_nonneg (pos a *ℤ pos r),
  quantize_decimal_2_nonneg (pos a *ℤ pos 10000),
  *ℤ_nonneg (pos a) (pos r),
  *ℤ_nonneg (pos a) (pos 10000),
)

mul-suc' : (m n : ℕ) → m * suc n ≡ m * n + m
mul-suc' m n = omega arith

zero-*ℤ : (n : ℕ) → pos 0 *ℤ pos n ≡ pos 0
zero-*ℤ n = ground (arith, pos-*ℤ-pos 0 n)

*ℤ_one : (a : ℤ) → a *ℤ pos 1 ≡ a
unfolding ◌*ℤ◌
*ℤ_one (pos n) = ground arith
*ℤ_one (negsuc n) = ground arith

pub *ℤ_zero : (a : ℤ) → a *ℤ pos 0 ≡ pos 0
unfolding ◌*ℤ◌
*ℤ_zero (pos n) = ground arith
*ℤ_zero (negsuc n) = ground arith

pub *ℤ-suc : (a : ℤ) (n : ℕ) → a *ℤ pos (suc n) ≡ a *ℤ pos n +ℤ a
unfolding ◌*ℤ◌ ◌+ℤ◌
*ℤ-suc (pos m) n = ground (arith, mul-suc' m n)
*ℤ-suc (negsuc m) n = ground (arith, mul-suc' (suc m) n)

-- The fee on a price that is not negative is not negative.
pub payer_fee_nonneg :
    (price minutes rate : ℤ) → pos 0 ≤ℤ calc_call_service_fee_for_minutes price minutes rate
unfolding calc_call_service_fee_for_minutes
payer_fee_nonneg price minutes rate =
    let fee = calc_service_fee_decimal (cents (max_zero price)) rate in
    ground (arith, *ℤ_nonneg fee (max_zero minutes))

-- The payer's fee for some minutes is the fee for one minute, times the minutes.
pub payer_fee_linear :
    (price rate : ℤ) (n : ℕ)
    → calc_call_service_fee_for_minutes price (pos n) rate
      ≡ calc_call_service_fee_for_minutes price (pos 1) rate *ℤ pos n
unfolding calc_call_service_fee_for_minutes
payer_fee_linear price rate n =
    let fee = calc_service_fee_decimal (cents (max_zero price)) rate in
    ground (arith, *ℤ_one fee, *ℤ_zero fee, *ℤ_zero (pos n), zero-*ℤ n)

-- The fee on the income of some minutes is the one for one minute, times the minutes.
pub income_fee_linear :
    (price share rate : ℤ) (n : ℕ)
    → calc_call_income_service_fee_for_minutes price share (pos n) rate
      ≡ calc_call_income_service_fee_for_minutes price share (pos 1) rate *ℤ pos n
unfolding calc_call_income_service_fee_for_minutes
income_fee_linear price share rate n =
    let income = cents (calc_certified_user_income_diamonds (max_zero price) share) in
    let fee = calc_service_fee_decimal income rate in
    ground (arith, *ℤ_one fee, *ℤ_zero fee, zero-*ℤ n)

income_step : (m b : ℕ) → b ≤ 10000 → (m * b) / 10000 ≤ m
income_step m b h = omega (arith, mul-le m b h)

-- The share of a fee is never negative and never more than the fee, if that is not negative.
pub calc_certified_user_income_diamonds_bounds :
    (fee share : ℤ)
    → (pos 0 ≤ℤ calc_certified_user_income_diamonds fee share)
      × (calc_certified_user_income_diamonds fee share ≤ℤ max_zero fee)
unfolding calc_certified_user_income_diamonds ◌//ℤ◌
calc_certified_user_income_diamonds_bounds fee (negsuc s) =
    ground (arith, pos-*ℤ-pos (pos_part fee) 0)
calc_certified_user_income_diamonds_bounds fee (pos s) = ground (
  arith,
  pos-*ℤ-pos (pos_part fee) s,
  pos-*ℤ-pos (pos_part fee) 10000,
  income_step (pos_part fee) s,
  income_step (pos_part fee) 10000,
)
