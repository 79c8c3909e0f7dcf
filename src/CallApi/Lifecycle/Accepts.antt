-- ===== src/CallApi/Lifecycle/Accepts.antt =====
-- `accept_call` in the states that the service reaches: its two refusals for another running call
-- never come up.
use new1v.Prelude.{
  ℕ, ◌≤◌, ◌≡◌, inl, inr, refl, sym, subst, ◌∙◌, Bool, true, false, not, ◌&&◌, some, [], ◌∷◌, ◌==◌,
  arith, Bool-cases,
}
use new1v.Prelude.Dict.{Dict, lookup}
use new1v.Records.{CallRecord}
use new1v.Database.{Database, is_ongoing, exists_call, busy_test}
use new1v.Database.Busy.{active_calls, active_weight}
use new1v.CallApi.Reply.{stop_if, ◌>>◌, ◌>>=◌}
use new1v.CallApi.Answer.{
  AnswerEnv, is_pending, is_ring_timeout, check_accept, answer_call, accept_found, accept_call,
  on_call-there,
}
use new1v.CallApi.Lifecycle.OneCall.{one_call}
use new1v.CallApi.Lifecycle.{Reach}
use new1v.CallApi.Lifecycle.Answered.{IsAnswered, answer_call-IsAnswered}

module _ (k id : ℕ) (test : ℕ → CallRecord → Bool)
    (other : (j : ℕ) (d : CallRecord)
      → test j d ≡ true
      → (busy_test k 0 d ≡ true) × ((j == id) ≡ false)) where
  test-active : (j : ℕ) (d : CallRecord) → active_weight k d ≤ 0 → test j d ≡ false
  test-active j d h = elim (Bool-cases (test j d)) [
    | inr e ↦ e
    | inl e ↦ ground (arith, (other j d e).0, h)
  ]

  none-exists :
      (calls : Dict CallRecord) → active_calls k calls ≤ 0 → exists_call test calls ≡ false
  unfolding active_calls exists_call
  none-exists [] h = refl
  none-exists ((j, d) ∷ calls) h =
      let this = test-active j d (omega (arith, h)) in
      let rest = none-exists calls (omega (arith, h)) in rw (this, rest) refl

  found-active :
      (c : CallRecord) (calls : Dict CallRecord)
      → lookup id calls ≡ some c
      → busy_test k 0 c ≡ true
      → 1 ≤ active_calls k calls
  unfolding lookup active_calls
  found-active c [] h busy = cc
  found-active c ((j, d) ∷ calls) h busy = elim (Bool-cases (id == j)) [
    | inl e ↦
        let same : d ≡ c = ground (arith, h, e) in
        let w : active_weight k d ≡ 1 = rw same (rw busy refl) in omega (arith, w)
    | inr e ↦ omega (arith, found-active c calls (ground (arith, h, e)) busy)
  ]

  -- A user with at most one active call has no other one.
  other-exists :
      (c : CallRecord) (calls : Dict CallRecord)
      → lookup id calls ≡ some c
      → busy_test k 0 c ≡ true
      → active_calls k calls ≤ 1
      → exists_call test calls ≡ false
  unfolding lookup active_calls exists_call
  other-exists c [] h busy one = refl
  other-exists c ((j, d) ∷ calls) h busy one = elim (Bool-cases (id == j)) [
    | inl e ↦
        let same : d ≡ c = ground (arith, h, e) in
        let w : active_weight k d ≡ 1 = rw same (rw busy refl) in
        rw (test_here j d e, none-exists calls (omega (arith, w, one))) refl
    | inr e ↦
        let at : lookup id calls ≡ some c = ground (arith, h, e) in
        let first = test-active j d (omega (arith, one, found-active c calls at busy)) in
        rw (first, other-exists c calls at busy (omega (arith, one))) refl
  ]
    where
      test_here : (j : ℕ) (d : CallRecord) → (id == j) ≡ true → test j d ≡ false
      test_here j d e = elim (Bool-cases (test j d)) [
        | inr e' ↦ e'
        | inl e' ↦ ground (arith, e, (other j d e').1)
      ]

accept_call-answers :
    {db : Database} (env : AnswerEnv) (id : ℕ) (c : CallRecord)
    → Reach db
    → lookup id db.calls ≡ some c
    → is_pending c.status ≡ true
    → is_ring_timeout env.now c ≡ false
    → accept_call env c.callee_id id db ≡ answer_call env id c db
unfolding accept_call accept_found check_accept stop_if ◌>>◌ ◌>>=◌
accept_call-answers {db = db} env id c r there ringing intime =
    let callee =
      other-exists c.callee_id id _ callee_other c db.calls there (ground arith)
        (one_call r c.callee_id) in
    let caller =
      other-exists c.caller_id id _ caller_other c db.calls there (ground arith)
        (one_call r c.caller_id) in
    on_call-there id (accept_found env c.callee_id id) db c there
    ∙ simp (self c.callee_id, ringing, intime, callee, caller) refl
  where
    self : (k : ℕ) → (k == k) ≡ true
    self k = ground arith

    callee_other :
        (j : ℕ) (d : CallRecord)
        → ((d.callee_id == c.callee_id) && is_ongoing d.status && not (j == id)) ≡ true
        → (busy_test c.callee_id 0 d ≡ true) × ((j == id) ≡ false)
    callee_other j d h = ground (arith, h)

    caller_other :
        (j : ℕ) (d : CallRecord)
        → ((d.caller_id == c.caller_id) && is_ongoing d.status && not (j == id)) ≡ true
        → (busy_test c.caller_id 0 d ≡ true) × ((j == id) ≡ false)
    caller_other j d h = ground (arith, h)

-- In a state that the service reaches from an empty table of calls, the callee answers a call that
-- rings for 30 seconds at most. Then only the call's row is written, with its payer: the other party
-- of the only certified one, the caller of two, nobody of none. The call connects, with nothing
-- charged yet, exactly if nobody pays, the call has no price, or the payer is a normal user with
-- coins for a minute; else it ends as `balance_empty` with that reply. Neither party is ever refused
-- for another call.
pub accept_call_lem :
    {db : Database} (env : AnswerEnv) (id : ℕ) (c : CallRecord)
    → Reach db
    → lookup id db.calls ≡ some c
    → is_pending c.status ≡ true
    → is_ring_timeout env.now c ≡ false
    → IsAnswered env id c db (accept_call env c.callee_id id db)
accept_call_lem {db = db} env id c r there ringing intime =
    subst (IsAnswered env id c db) (sym (accept_call-answers env id c r there ringing intime))
      (answer_call-IsAnswered env id c db)
