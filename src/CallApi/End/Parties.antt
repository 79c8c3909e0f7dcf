-- ===== src/CallApi/End/Parties.antt =====
-- The end of a call keeps its parties.
use new1v.Prelude.{ℕ, refl, List, arith}
use new1v.Prelude.Int.{ℤ}
use new1v.Records.{AppUser, CallRecord}
use new1v.Users.{Users}
use new1v.Watchdog.Parties.{SameParties, SameParties-trans, finish_call-SameParties}
use new1v.CallApi.End.{settle_end, receive_income}

receive-SameParties :
    (participants : List (ℕ × AppUser)) (payer_id : ℕ) (call : CallRecord)
    → SameParties call (receive_income participants payer_id call)
unfolding receive_income
receive-SameParties participants payer_id call = record {
  caller = ground arith;
  callee = ground arith;
}

pub settle_end-SameParties :
    (free_seconds : ℤ) (now : ℕ) (call : CallRecord) (us : Users)
    → SameParties call (settle_end free_seconds now call us).call
unfolding settle_end
settle_end-SameParties free_seconds now call us =
    SameParties-trans
      (SameParties-trans (record { caller = refl; callee = refl }) (receive-SameParties _ _ _))
      (finish_call-SameParties _ _ _ _ _ now _ _)
