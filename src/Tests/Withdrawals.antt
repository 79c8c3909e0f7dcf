-- ===== src/Tests/Withdrawals.antt =====
-- The theorems on withdrawals, applied to an application of Cai's for 30 diamonds.
use new1v.Prelude.{zero, suc, ◌≡◌, refl, true, false, none, [], ◌∷◌, arith}
use new1v.Prelude.Int.{pos, ◌+ℤ◌}
use new1v.Prelude.Dict.{lookup}
use new1v.Records.{AppUser}
use new1v.Users.Balance.{diamonds}
use new1v.Withdraw.{
  WithdrawApply, WithdrawTables, ApplyEnv, pending, approve, reject, hundredths, withdraw_apply,
  withdraw_review,
}
use new1v.Withdraw.Backed.{IsBacked, pending_sum, withdraw_review-IsBacked}
use new1v.Withdraw.Conserved.{wealth, withdraw_apply-wealth, withdraw_review-wealth}
use new1v.Withdraw.Race.{concurrent_reviews, concurrent_reviews_lem}
use new1v.Tests.Data.{bea}

abbrev cai : AppUser
cai = record bea { diamonds = pos 7050; frozen_diamonds = pos 3000 }

abbrev application : WithdrawApply
application = record {
  user_id = 1;
  amount = 30;
  status = pending;
  processed_at = none;
  processed_by = none;
}

abbrev tables : WithdrawTables
tables = record { users = (1, cai) ∷ []; applies = (5, application) ∷ []; next_apply_id = 6 }

abbrev env : ApplyEnv
env = record { packages = 30 ∷ 50 ∷ []; account_approved = true; requested_recently = false }

backed : IsBacked tables
unfolding pending_sum lookup
backed zero = ground arith
backed (suc zero) = ground arith
backed (suc (suc k)) = ground arith

withdraw_review-IsBacked_example : IsBacked (withdraw_review approve false 77 1000 5 tables).0
withdraw_review-IsBacked_example = withdraw_review-IsBacked approve false 77 1000 5 tables backed

withdraw_apply-wealth_example : wealth 1 (withdraw_apply env 1 (pos 50) tables).0 ≡ wealth 1 tables
withdraw_apply-wealth_example = withdraw_apply-wealth env 1 (pos 50) 1 tables

withdraw_review-wealth_example :
    wealth 1 (withdraw_review approve false 77 1000 5 tables).0 ≡ wealth 1 tables
withdraw_review-wealth_example = withdraw_review-wealth approve false 77 1000 5 1 tables backed

concurrent_reviews_lem_example :
    diamonds 1 (concurrent_reviews reject reject 77 78 1000 1001 5 tables).users
    ≡ pos 7050 +ℤ hundredths 30 +ℤ hundredths 30
unfolding lookup
concurrent_reviews_lem_example =
    concurrent_reviews_lem 77 78 1000 1001 5 application cai tables refl refl refl
