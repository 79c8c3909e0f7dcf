-- ===== src/CallApi/End/Expired.antt =====
-- `_close_timeout_pending` leaves no call ringing too long, unless more calls than its limit are.
use new1v.Prelude.{
  ℕ, zero, suc, ◌+◌, ◌*◌, ◌≤◌, ◌≡◌, inl, inr, refl, sym, ◌∙◌, ap, Bool, true, false, ◌&&◌, Option,
  none, some, List, [], ◌∷◌, ltb, ◌==◌, if◌then◌else◌, arith, Bool-cases, Option-cases, ==_iff,
}
use new1v.Prelude.Dict.{Dict, lookup, alter, lookup-alter, lookup-alter_self}
use new1v.Records.{CallRecord}
use new1v.Database.{save_call}
use new1v.CallApi.Answer.{is_pending}
use new1v.CallApi.End.{
  overdue_calls, expired_call, close_pending, close_each, close_timeout_pending,
}

-- A call that has rung longer than the timeout.
abbrev pub is_overdue : ℕ → ℕ → CallRecord → Bool
is_overdue ring_timeout_seconds now c =
    is_pending c.status && ltb (c.created_at + ring_timeout_seconds * 1000000) now

unfoldable pub count_overdue : ℕ → ℕ → Dict CallRecord → ℕ
count_overdue ring_timeout_seconds now [] = 0
count_overdue ring_timeout_seconds now ((id, c) ∷ calls) =
    (if is_overdue ring_timeout_seconds now c then 1 else 0)
    + count_overdue ring_timeout_seconds now calls

unfoldable is_in : ℕ → List ℕ → Bool
is_in id [] = false
is_in id (x ∷ xs) = if x == id then true else is_in id xs

module _ (ring now : ℕ) where
  listed :
      (limit id : ℕ) (c : CallRecord) (calls : Dict CallRecord)
      → count_overdue ring now calls ≤ limit
      → lookup id calls ≡ some c
      → is_overdue ring now c ≡ true
      → is_in id (overdue_calls limit ring now calls) ≡ true
  unfolding count_overdue overdue_calls is_in lookup
  listed limit id c [] few h late = cc
  listed zero id c ((j, d) ∷ calls) few h late = elim (Bool-cases (id == j)) [
    | inl e ↦
        let same : d ≡ c = ground (arith, h, e) in
        let over : is_overdue ring now d ≡ true = ap (is_overdue ring now) same ∙ late in
        absurd (ground (arith, few, over))
    | inr e ↦ listed zero id c calls (omega (arith, few)) (ground (arith, h, e)) late
  ]
  listed (suc limit) id c ((j, d) ∷ calls) few h late = elim (Bool-cases (id == j)) [
    | inl e ↦
        let same : d ≡ c = ground (arith, h, e) in
        let over : is_overdue ring now d ≡ true = ap (is_overdue ring now) same ∙ late in
        simp over (ground (arith, e))
    | inr e ↦
        let at : lookup id calls ≡ some c = ground (arith, h, e) in
        elim (Bool-cases (is_overdue ring now d)) [
          | inl o ↦
              let rest = listed limit id c calls (ground (arith, few, o)) at late in
              simp o (ground (arith, e, rest))
          | inr o ↦
              let rest = listed (suc limit) id c calls (ground (arith, few, o)) at late in
              simp o rest
        ]
  ]

  close_pending-missing :
      (id : ℕ) (calls : Dict CallRecord)
      → lookup id calls ≡ none
      → close_pending now id calls ≡ calls
  unfolding close_pending
  close_pending-missing id calls e = rw (e, close_pending) refl

  close_pending-other :
      (id : ℕ) (d : CallRecord) (calls : Dict CallRecord)
      → lookup id calls ≡ some d
      → is_pending d.status ≡ false
      → close_pending now id calls ≡ calls
  unfolding close_pending
  close_pending-other id d calls e s = rw (e, close_pending) (simp s refl)

  close_pending-closed :
      (id : ℕ) (d : CallRecord) (calls : Dict CallRecord)
      → lookup id calls ≡ some d
      → is_pending d.status ≡ true
      → close_pending now id calls ≡ save_call id (expired_call now d) calls
  unfolding close_pending
  close_pending-closed id d calls e s = rw (e, close_pending) (simp s refl)

  same_row :
      (id j : ℕ) (calls : Dict CallRecord) → (id == j) ≡ true → lookup id calls ≡ lookup j calls
  same_row id j calls e = ap (λ x. lookup x calls) ((==_iff id j).0 e)

  -- Of what is pending after an update nothing has been updated.
  close_pending-pending :
      (j id : ℕ) (c : CallRecord) (calls : Dict CallRecord)
      → lookup j (close_pending now id calls) ≡ some c
      → is_pending c.status ≡ true
      → (lookup j calls ≡ some c) × ((id == j) ≡ false)
  unfolding save_call
  close_pending-pending j id c calls h p = elim (Option-cases (lookup id calls)) [
    | inl e ↦ kept (close_pending-missing id calls e) (λ d e' q. ground (arith, e, e'))
    | inr (d, e) ↦ elim (Bool-cases (is_pending d.status)) [
      | inr s ↦ kept (close_pending-other id d calls e s) (λ d' e' q.
          ground (arith, s, q, ap (λ (x : CallRecord). is_pending x.status) (row d d' e e')))
      | inl s ↦
          let h' : lookup j (alter id (λ _. expired_call now d) calls) ≡ some c =
            sym (ap (lookup j) (close_pending-closed id d calls e s)) ∙ h in
          elim (Bool-cases (id == j)) [
            | inr ne ↦
                (ground (arith, lookup-alter j id (λ _. expired_call now d) calls, ne, h'), ne)
            | inl eq ↦
                let there : lookup j calls ≡ some d = sym (same_row id j calls eq) ∙ e in
                let new : some (expired_call now d) ≡ some c =
                  sym (lookup-alter_self j (λ _. expired_call now d) calls d there)
                  ∙ ap (λ x. lookup j (alter x (λ _. expired_call now d) calls))
                      (sym ((==_iff id j).0 eq))
                  ∙ h' in
                absurd (ground (arith, p, ap (λ (o : Option CallRecord). pending_row o) new))
          ]
    ]
  ]
    where
      row : (d d' : CallRecord) → lookup id calls ≡ some d → lookup id calls ≡ some d' → d ≡ d'
      row d d' e e' = ground (arith, sym e ∙ e')

      pending_row : Option CallRecord → Bool
      pending_row none = false
      pending_row (some x) = is_pending x.status

      kept :
          close_pending now id calls ≡ calls
          → ((d : CallRecord) → lookup id calls ≡ some d → is_pending d.status ≡ true → ⊥)
          → (lookup j calls ≡ some c) × ((id == j) ≡ false)
      kept same never =
          let h' : lookup j calls ≡ some c = sym (ap (lookup j) same) ∙ h in
          elim (Bool-cases (id == j)) [
            | inr ne ↦ (h', ne)
            | inl eq ↦ absurd (never c (same_row id j calls eq ∙ h') p)
          ]

  close_each-pending :
      (j : ℕ) (ids : List ℕ) (c : CallRecord) (calls : Dict CallRecord)
      → lookup j (close_each now ids calls) ≡ some c
      → is_pending c.status ≡ true
      → (lookup j calls ≡ some c) × (is_in j ids ≡ false)
  unfolding close_each is_in
  close_each-pending j [] c calls h p = (h, refl)
  close_each-pending j (id ∷ ids) c calls h p =
      let (h', out) = close_each-pending j ids c (close_pending now id calls) h p in
      let (h'', ne) = close_pending-pending j id c calls h' p in (h'', simp ne out)

-- Where at most 100 calls ring longer than the timeout, the task ends them all: of the calls that
-- are there afterwards none rings longer than the timeout.
pub close_timeout_pending_lem :
    (ring now id : ℕ) (c : CallRecord) (calls : Dict CallRecord)
    → count_overdue ring now calls ≤ 100
    → lookup id (close_timeout_pending ring now calls) ≡ some c
    → is_overdue ring now c ≡ false
unfolding close_timeout_pending
close_timeout_pending_lem ring now id c calls few h = elim (Bool-cases (is_overdue ring now c)) [
  | inr e ↦ e
  | inl e ↦
      let p : is_pending c.status ≡ true = ground (arith, e) in
      let (there, out) =
        close_each-pending ring now id (overdue_calls 100 ring now calls) c calls h p in
      ground (arith, out, listed ring now 100 id c calls few there e)
]
