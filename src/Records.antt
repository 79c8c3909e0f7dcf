-- ===== src/Records.antt =====
-- The rows that the call service reads and writes: backend/app/models/app_user.py (the columns
-- that calls and money touch) and `CallRecord` of backend/app/models/admin.py. A date and time is
-- an instant in microseconds; keys are positive, and 0 stands for no user where the code uses it.
use new1v.Prelude.{ℕ, Bool, Option}
use new1v.Prelude.Int.{ℤ}

pub data UserStatus : Type 0 where
  normal banned : UserStatus

-- As `_gender` reads the column: whatever is not `female` counts as `male`.
pub data Gender : Type 0 where
  male female : Gender

-- `coins`, `diamonds` and `frozen_diamonds` are in hundredths.
pub record AppUser : Type 0 where
  pub status : UserStatus
  pub gender : Gender
  pub is_certified_user : Bool
  pub certified_call_price : ℤ
  pub coins : ℤ
  pub diamonds : ℤ
  pub frozen_diamonds : ℤ
  pub video_dnd_enabled : Bool
  pub vip_expires_at : Option ℕ

pub data CallStatus : Type 0 where
  pending ongoing ended : CallStatus

pub data EndReason : Type 0 where
  normal_end timeout rejected cancelled balance_empty force_exit : EndReason

pub data EndBasis : Type 0 where
  manual_end timeout_end balance_empty_end force_exit_end : EndBasis

pub data PayerFeeStatus : Type 0 where
  skipped_insufficient charged_partial charged_full : PayerFeeStatus

pub data IncomeFeeStatus : Type 0 where
  charged : IncomeFeeStatus

-- The columns `service_fee_*` of a call.
pub record ServiceFee : Type 0 where
  pub threshold_minutes : ℤ
  pub rate_bps : ℤ
  pub payer_rate_bps : ℤ
  pub income_rate_bps : ℤ
  pub processed_chargeable_minutes : ℤ
  pub payer_expected_coins : ℤ
  pub payer_actual_coins : ℤ
  pub payer_status : Option PayerFeeStatus
  pub payer_settled_at : Option ℕ
  pub income_expected_diamonds : ℤ
  pub income_actual_diamonds : ℤ
  pub income_status : Option IncomeFeeStatus
  pub income_settled_at : Option ℕ

-- The columns of a call that its income settlement writes.
pub record Income : Type 0 where
  pub income_certified_user_id : Option ℕ
  pub certified_user_share_bps : Option ℤ
  pub certified_user_income_diamonds : ℤ
  pub income_settled_at : Option ℕ

pub record CallRecord : Type 0 where
  pub caller_id : ℕ
  pub callee_id : ℕ
  pub call_price : ℤ
  pub status : CallStatus
  pub duration : ℕ
  pub total_fee : ℤ
  pub end_reason : Option EndReason
  pub connected_at : Option ℕ
  pub ended_at : Option ℕ
  pub effective_ended_at : Option ℕ
  pub end_basis : Option EndBasis
  pub force_exit_user_id : Option ℕ
  pub deducted_amount : ℤ
  pub deducted_minutes : ℤ
  pub last_renew_at : Option ℕ
  pub billing_free_seconds : Option ℤ
  pub payer_user_id : Option ℕ
  pub created_at : ℕ
  pub updated_at : ℕ
  pub income : Income
  pub fee : ServiceFee
