-- ===== src/CallApi/Lifecycle/OneCall.antt =====
-- Nobody takes part in two calls that ring or run.
use new1v.Prelude.{ℕ, ◌≤◌, ◌≡◌, inl, inr, true, false, ◌==◌, arith, Bool-cases, subst, ==_iff}
use new1v.Prelude.Dict.{Dict}
use new1v.Records.{CallRecord, CallStatus}
use new1v.Database.{Database, is_active, is_busy}
use new1v.Database.Busy.{active_calls, not_busy-active_calls, active_calls-save_call}
use new1v.CallApi.Dialing.{create_call}
use new1v.CallApi.End.{is_ended}
use new1v.CallApi.Edits.{Edits, same, saved, also}
use new1v.CallApi.Lifecycle.Shape.{Dialled, Shape, handled, rings, Step-Shape}
use new1v.CallApi.Lifecycle.{Reach, start, next}

is_active-not_ended : (s : CallStatus) → is_ended s ≡ false → is_active s ≡ true
is_active-not_ended s h = ground arith

Edits-active_calls :
    {cs ds : Dict CallRecord} (k : ℕ) → Edits cs ds → active_calls k ds ≤ active_calls k cs
Edits-active_calls k same = omega arith
Edits-active_calls k (saved id c c' there live parties) =
    active_calls-save_call k id c c' _ there parties.caller parties.callee
      (inr (is_active-not_ended c.status live))
Edits-active_calls k (also e e') = omega (arith, Edits-active_calls k e, Edits-active_calls k e')

party_free :
    (k j : ℕ) (calls : Dict CallRecord)
    → (j == k) ≡ true
    → is_busy j calls ≡ false
    → active_calls k calls ≡ 0
party_free k j calls e h =
    subst (λ x. active_calls x calls ≡ 0) ((==_iff j k).0 e) (not_busy-active_calls j calls h)

create_call-one :
    (k : ℕ) (caller_id target_id : ℕ) (db : Database) (c : CallRecord)
    → Dialled caller_id target_id db c
    → active_calls k db.calls ≤ 1
    → active_calls k (create_call c db).calls ≤ 1
unfolding active_calls
create_call-one k caller_id target_id db c d h = elim (Bool-cases (caller_id == k)) [
  | inl e ↦ ground (arith, party_free k caller_id db.calls e d.caller_free)
  | inr e ↦ elim (Bool-cases (target_id == k)) [
    | inl e' ↦ ground (arith, party_free k target_id db.calls e' d.callee_free)
    | inr e' ↦ ground (arith, h, e, e', d.caller, d.callee)
  ]
]

Shape-one :
    {db db' : Database} (k : ℕ)
    → active_calls k db.calls ≤ 1
    → Shape db db'
    → active_calls k db'.calls ≤ 1
Shape-one k h (handled (e, _)) = omega (arith, h, Edits-active_calls k e)
Shape-one {db = db} k h (rings caller_id target_id c d) =
    create_call-one k caller_id target_id db c d h

-- In every state that the service reaches from an empty table of calls, each user takes part, as
-- caller or as callee, in at most one call that rings or runs.
pub one_call : {db : Database} → Reach db → (k : ℕ) → active_calls k db.calls ≤ 1
unfolding active_calls
one_call (start users) k = omega arith
one_call (next r s) k = Shape-one k (one_call r k) (Step-Shape s)
