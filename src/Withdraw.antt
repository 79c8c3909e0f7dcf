-- ===== src/Withdraw.antt =====
-- Withdrawals of diamonds: `withdraw_apply` of backend/app/api/v1/app/wallet.py, which freezes
-- diamonds, and `withdraw_review` of backend/app/api/v1/withdraw/withdraw.py, which pays them out
-- or gives them back. The review reads the application without a lock, so that its reading and its
-- writing are two functions here.
pub mod Backed
pub mod Conserved
pub mod Race
use new1v.Prelude.{
  ℕ, ◌+◌, ◌*◌, Bool, true, false, not, Option, none, some, List, [], ◌∷◌, ◌||◌, ◌==◌, if◌then◌else◌,
}
use new1v.Prelude.Int.{ℤ, pos, pos_part, ltb_ℤ, leb_ℤ, ◌+ℤ◌, ◌-ℤ◌}
use new1v.Prelude.Dict.{Dict, lookup, alter}
use new1v.Records.{AppUser}
use new1v.Users.{Users}

pub data WithdrawStatus : Type 0 where
  pending paid rejected : WithdrawStatus

-- `amount` is whole diamonds, and positive in every row that is created.
pub record WithdrawApply : Type 0 where
  pub user_id : ℕ
  pub amount : ℕ
  pub status : WithdrawStatus
  pub processed_at : Option ℕ
  pub processed_by : Option ℕ

pub record WithdrawTables : Type 0 where
  pub users : Users
  pub applies : Dict WithdrawApply
  pub next_apply_id : ℕ

-- What applying reads besides: the diamonds of the configured packages, whether the user has an
-- approved account, and whether Redis has a request of the last minute.
pub record ApplyEnv : Type 0 where
  pub packages : List ℕ
  pub account_approved : Bool
  pub requested_recently : Bool

pub data ApplyReply : Type 0 where
  applied bad_amount no_packages bad_package no_account too_often no_user short : ApplyReply

unfoldable pub is_package : ℕ → List ℕ → Bool
is_package amount [] = false
is_package amount (p ∷ packages) = (p == amount) || is_package amount packages

abbrev pub is_empty : List ℕ → Bool
is_empty [] = true
is_empty (p ∷ packages) = false

-- Whole diamonds in hundredths.
abbrev pub hundredths : ℕ → ℤ
hundredths amount = pos (amount * 100)

abbrev pub freeze : ℕ → AppUser → AppUser
freeze amount u = record u {
  diamonds = u.diamonds -ℤ hundredths amount;
  frozen_diamonds = u.frozen_diamonds +ℤ hundredths amount;
}

abbrev pub new_apply : ℕ → ℕ → WithdrawApply
new_apply user_id amount = record {
  user_id = user_id;
  amount = amount;
  status = pending;
  processed_at = none;
  processed_by = none;
}

abbrev pub create_apply : ℕ → ℕ → WithdrawTables → WithdrawTables
create_apply user_id amount t = record {
  users = alter user_id (freeze amount) t.users;
  applies = (t.next_apply_id, new_apply user_id amount) ∷ t.applies;
  next_apply_id = t.next_apply_id + 1;
}

-- The transaction: the balance is read under the row's lock.
unfoldable pub freeze_diamonds : ℕ → ℕ → WithdrawTables → WithdrawTables × ApplyReply
freeze_diamonds user_id amount t = elim (lookup user_id t.users) [
  | none ↦ (t, no_user)
  | some u ↦
      if ltb_ℤ u.diamonds (hundredths amount)
      then (t, short)
      else (create_apply user_id amount t, applied)
]

unfoldable pub withdraw_apply : ApplyEnv → ℕ → ℤ → WithdrawTables → WithdrawTables × ApplyReply
withdraw_apply env user_id amount t =
    if leb_ℤ amount (pos 0)
    then (t, bad_amount)
    else if is_empty env.packages
    then (t, no_packages)
    else if not (is_package (pos_part amount) env.packages)
    then (t, bad_package)
    else if not env.account_approved
    then (t, no_account)
    else if env.requested_recently
    then (t, too_often)
    else freeze_diamonds user_id (pos_part amount) t

pub data ReviewAction : Type 0 where
  approve reject : ReviewAction

pub data ReviewReply : Type 0 where
  done missing_remark not_found already_processed : ReviewReply

-- Paid out, or given back.
abbrev pub unfreeze : ReviewAction → ℕ → AppUser → AppUser
unfreeze approve amount u = record u { frozen_diamonds = u.frozen_diamonds -ℤ hundredths amount }
unfreeze reject amount u = record u {
  diamonds = u.diamonds +ℤ hundredths amount;
  frozen_diamonds = u.frozen_diamonds -ℤ hundredths amount;
}

-- The second update, if the frozen balance went below zero.
abbrev pub no_debt : AppUser → AppUser
no_debt u = record u {
  frozen_diamonds = if ltb_ℤ u.frozen_diamonds (pos 0) then pos 0 else u.frozen_diamonds;
}

abbrev pub status_after : ReviewAction → WithdrawStatus
status_after approve = paid
status_after reject = rejected

abbrev pub mark_processed : ReviewAction → ℕ → ℕ → WithdrawApply → WithdrawApply
mark_processed action reviewer now w = record w {
  status = status_after action;
  processed_at = some now;
  processed_by = some reviewer;
}

-- The writes for the row `w` that was read under the key.
unfoldable pub review_write :
    ReviewAction → (reviewer now id : ℕ) → WithdrawApply → WithdrawTables → WithdrawTables
review_write action reviewer now id w t = record t {
  users = alter w.user_id no_debt (alter w.user_id (unfreeze action w.amount) t.users);
  applies = alter id (mark_processed action reviewer now) t.applies;
}

abbrev pub is_pending_apply : WithdrawStatus → Bool
is_pending_apply pending = true
is_pending_apply _ = false

abbrev pub lacks_remark : ReviewAction → Bool → Bool
lacks_remark approve has_remark = false
lacks_remark reject has_remark = not has_remark

-- The row as it is read: it must still be there to be reviewed.
unfoldable pub review_row :
    Option WithdrawApply
    → ReviewAction
    → (reviewer now id : ℕ) → WithdrawTables
    → WithdrawTables × ReviewReply
review_row none action reviewer now id t = (t, not_found)
review_row (some w) action reviewer now id t =
    if is_pending_apply w.status
    then (review_write action reviewer now id w t, done)
    else (t, already_processed)

-- A review that no other one runs into.
unfoldable pub withdraw_review :
    ReviewAction
    → (has_remark : Bool) → (reviewer now id : ℕ) → WithdrawTables
    → WithdrawTables × ReviewReply
withdraw_review action has_remark reviewer now id t =
    if lacks_remark action has_remark
    then (t, missing_remark)
    else review_row (lookup id t.applies) action reviewer now id t
