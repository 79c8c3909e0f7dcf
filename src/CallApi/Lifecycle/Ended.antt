-- ===== src/CallApi/Lifecycle/Ended.antt =====
-- A call that has ended is never written again.
use new1v.Prelude.{
  ℕ, ◌≤◌, ◌≡◌, inl, inr, refl, ap, true, none, some, ◌==◌, arith, Bool-cases, ==_iff, subst,
}
use new1v.Prelude.Dict.{Dict, lookup, lookup-alter}
use new1v.Records.{CallRecord}
use new1v.Database.{Database, save_call}
use new1v.CallApi.End.{is_ended}
use new1v.CallApi.Edits.{Edits, same, saved, also}
use new1v.CallApi.Lifecycle.Shape.{Shape, handled, rings, Step-Shape}
use new1v.CallApi.Lifecycle.{Reach, start, next, Steps, done, more}

-- The keys from the next one on are free.
abbrev IsFresh : Database → Type 0
IsFresh db = (k : ℕ) → db.next_call_id ≤ k → lookup k db.calls ≡ none

save_call-none :
    (j id : ℕ) (c : CallRecord) (cs : Dict CallRecord)
    → lookup j cs ≡ none
    → lookup j (save_call id c cs) ≡ none
unfolding save_call
save_call-none j id c cs h = ground (arith, lookup-alter j id (λ _. c) cs, h)

Edits-none :
    {cs ds : Dict CallRecord} (j : ℕ) → Edits cs ds → lookup j cs ≡ none → lookup j ds ≡ none
Edits-none j same h = h
Edits-none j (saved id c c' there live parties) h = save_call-none j id c' _ h
Edits-none j (also e e') h = Edits-none j e' (Edits-none j e h)

Edits-ended :
    {cs ds : Dict CallRecord} (j : ℕ) (d : CallRecord)
    → Edits cs ds
    → is_ended d.status ≡ true
    → lookup j cs ≡ some d
    → lookup j ds ≡ some d
unfolding save_call
Edits-ended j d same over h = h
Edits-ended {cs = cs} j d (saved id c c' there live parties) over h = elim (Bool-cases (id == j)) [
  | inr e ↦ ground (arith, lookup-alter j id (λ _. c') cs, h, e)
  | inl e ↦
      let at : lookup j cs ≡ some c = subst (λ x. lookup x cs ≡ some c) ((==_iff id j).0 e) there in
      let one : c ≡ d = ground (arith, at, h) in
      ground (arith, ap (λ (x : CallRecord). is_ended x.status) one, over, live)
]
Edits-ended j d (also e e') over h = Edits-ended j d e' over (Edits-ended j d e over h)

Shape-IsFresh : {db db' : Database} → Shape db db' → IsFresh db → IsFresh db'
unfolding lookup
Shape-IsFresh (handled (e, n)) fresh k h = Edits-none k e (fresh k (omega (arith, h, n)))
Shape-IsFresh {db = db} (rings caller_id target_id c d) fresh k h =
    ground (arith, h, fresh k (omega (arith, h)))

Reach-IsFresh : {db : Database} → Reach db → IsFresh db
unfolding lookup
Reach-IsFresh (start users) k h = refl
Reach-IsFresh (next r s) k h = Shape-IsFresh (Step-Shape s) (Reach-IsFresh r) k h

Shape-ended :
    {db db' : Database} (j : ℕ) (d : CallRecord)
    → Shape db db'
    → IsFresh db
    → is_ended d.status ≡ true
    → lookup j db.calls ≡ some d
    → lookup j db'.calls ≡ some d
unfolding lookup
Shape-ended j d (handled (e, _)) fresh over h = Edits-ended j d e over h
Shape-ended {db = db} j d (rings caller_id target_id c _) fresh over h =
    elim (Bool-cases (j == db.next_call_id)) [
      | inr e ↦ simp (e) h
      | inl e ↦ ground (arith, fresh j (ground (arith, e)), h)
    ]

Steps-Reach : {db db' : Database} → Reach db → Steps db db' → Reach db'
Steps-Reach r done = r
Steps-Reach r (more ss s) = next (Steps-Reach r ss) s

-- In every state that the service reaches from an empty table of calls, a call that has ended has
-- its row for good: after any further steps, by anyone, the row under its key is the same, with the
-- fee, the income and the reason that were written when it ended.
pub ended_stays :
    {db db' : Database} (id : ℕ) (c : CallRecord)
    → Reach db
    → Steps db db'
    → lookup id db.calls ≡ some c
    → is_ended c.status ≡ true
    → lookup id db'.calls ≡ some c
ended_stays id c r done h over = h
ended_stays id c r (more ss s) h over =
    Shape-ended id c (Step-Shape s) (Reach-IsFresh (Steps-Reach r ss)) over
      (ended_stays id c r ss h over)
