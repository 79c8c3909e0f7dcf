-- ===== src/CallApi/End/Twice.antt =====
-- Hanging up twice, or both parties hanging up.
use new1v.Prelude.{ℕ, ◌≡◌, inl, inr, refl, true, some, arith, Bool-cases}
use new1v.Prelude.Int.{ℤ}
use new1v.Prelude.Dict.{lookup, lookup-alter_self}
use new1v.Records.{CallRecord}
use new1v.FeeAdjustment.{apply_call_service_fee_final_adjustment}
use new1v.Users.{Users}
use new1v.Watchdog.Finish.{finish_call}
use new1v.Database.{Database, takes_part, save_call}
use new1v.CallApi.Answer.{on_call-there}
use new1v.CallApi.End.{settle_end, receive_income, end_found, call_end, is_ended}

settle_end-ended :
    (free_seconds : ℤ) (now : ℕ) (call : CallRecord) (us : Users)
    → is_ended (settle_end free_seconds now call us).call.status ≡ true
unfolding settle_end finish_call apply_call_service_fee_final_adjustment receive_income
settle_end-ended free_seconds now call us = ground arith

-- A party's hanging up leaves the call ended, under the same key.
end_found-ended :
    (free_seconds : ℤ) (now user_id id : ℕ) (c : CallRecord) (db : Database)
    → lookup id db.calls ≡ some c
    → takes_part user_id c ≡ true
    → (d : CallRecord) × (lookup id (end_found free_seconds now user_id id c db).0.calls ≡ some d)
      × (is_ended d.status ≡ true)
unfolding end_found save_call
end_found-ended free_seconds now user_id id c db there party =
    elim (Bool-cases (is_ended c.status)) [
      | inl e ↦ (c, simp (party, e) there, e)
      | inr e ↦ (
        (settle_end free_seconds now c db.users).call,
        simp (party, e) (lookup-alter_self id _ db.calls c there),
        settle_end-ended free_seconds now c db.users,
      )
    ]

found-unchanged :
    (free_seconds : ℤ) (now user_id id : ℕ) (d : CallRecord) (db : Database)
    → is_ended d.status ≡ true
    → (end_found free_seconds now user_id id d db).0 ≡ db
unfolding end_found
found-unchanged free_seconds now user_id id d db over = elim (Bool-cases (takes_part user_id d)) [
  | inl e ↦ simp (e, over) refl
  | inr e ↦ simp e refl
]

pub call_end-there :
    (free_seconds : ℤ) (now user_id id : ℕ) (c : CallRecord) (db : Database)
    → lookup id db.calls ≡ some c
    → call_end free_seconds now user_id id db ≡ end_found free_seconds now user_id id c db
unfolding call_end
call_end-there free_seconds now user_id id c db there =
    on_call-there id (end_found free_seconds now user_id id) db c there

-- On an ended call, `call_end` changes nothing, whoever asks.
ended-unchanged :
    (free_seconds : ℤ) (now user_id id : ℕ) (d : CallRecord) (db : Database)
    → lookup id db.calls ≡ some d
    → is_ended d.status ≡ true
    → (call_end free_seconds now user_id id db).0 ≡ db
ended-unchanged free_seconds now user_id id d db there over =
    rw (call_end-there free_seconds now user_id id d db there)
      (found-unchanged free_seconds now user_id id d db over)

-- Hanging up again, by either party or anybody else, at any reading of the clock, changes neither a
-- call nor a balance: the settlement runs once.
pub call_end_idempotent :
    (free_seconds free_seconds' : ℤ) (now now' user_id user_id' id : ℕ) (c : CallRecord)
    (db : Database)
    → lookup id db.calls ≡ some c
    → takes_part user_id c ≡ true
    → (call_end free_seconds' now' user_id' id (call_end free_seconds now user_id id db).0).0
      ≡ (call_end free_seconds now user_id id db).0
call_end_idempotent free_seconds free_seconds' now now' user_id user_id' id c db there party =
    let (d, at, over) = end_found-ended free_seconds now user_id id c db there party in
    ended-unchanged free_seconds' now' user_id' id d (call_end free_seconds now user_id id db).0
      (rw (call_end-there free_seconds now user_id id c db there) at) over
