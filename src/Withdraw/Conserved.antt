-- ===== src/Withdraw/Conserved.antt =====
-- What a user has in diamonds, free, frozen and paid out, over applications and reviews.
use new1v.Prelude.{
  ℕ, ◌+◌, ◌≤◌, ◌≡◌, inl, inr, refl, sym, ap, ◌∙◌, subst, Bool, true, false, not, ◌&&◌, Option, none,
  some, [], ◌∷◌, ◌==◌, if◌then◌else◌, arith, Bool-cases, Option-cases, if-both, ==_iff,
}
use new1v.Prelude.Int.{ℤ, pos, pos_part, leb_ℤ, ◌+ℤ◌, int_eqs}
use new1v.Prelude.Dict.{Dict, lookup, alter, lookup-alter, lookup-alter_self}
use new1v.Records.{AppUser}
use new1v.Users.{Users}
use new1v.Withdraw.{
  WithdrawStatus, paid, WithdrawApply, WithdrawTables, ApplyEnv, hundredths, ReviewAction, approve,
  reject, unfreeze, no_debt, mark_processed, status_after, is_pending_apply, review_write,
  review_row, ApplyReply, short, is_package, is_empty, freeze, new_apply, create_apply,
  freeze_diamonds, withdraw_apply, withdraw_review, ReviewReply, missing_remark, lacks_remark,
}
use new1v.Withdraw.Backed.{
  IsBacked, pending_sum, settled_applies, settled_frozen, own_sum, frozen_of, lookup-alter-none,
}

abbrev total_of : Option AppUser → ℤ
total_of none = pos 0
total_of (some u) = u.diamonds +ℤ u.frozen_diamonds

-- Free and frozen diamonds.
abbrev pub total : ℕ → Users → ℤ
total k users = total_of (lookup k users)

abbrev is_paid : WithdrawStatus → Bool
is_paid paid = true
is_paid _ = false

abbrev paid_amount : ℕ → WithdrawApply → ℕ
paid_amount k w = if (w.user_id == k) && is_paid w.status then w.amount else 0

unfoldable pub paid_sum : ℕ → Dict WithdrawApply → ℕ
paid_sum k [] = 0
paid_sum k ((id, w) ∷ applies) = paid_amount k w + paid_sum k applies

-- What user k has, and has been paid, in hundredths.
abbrev pub wealth : ℕ → WithdrawTables → ℤ
wealth k t = total k t.users +ℤ hundredths (paid_sum k t.applies)

paid_sum-settle :
    (k id : ℕ) (w : WithdrawApply) (f : WithdrawApply → WithdrawApply)
    (applies : Dict WithdrawApply)
    → lookup id applies ≡ some w
    → is_pending_apply w.status ≡ true
    → paid_sum k (alter id f applies) ≡ paid_sum k applies + paid_amount k (f w)
unfolding paid_sum lookup alter
paid_sum-settle k id w f [] h s = cc
paid_sum-settle k id w f ((j, d) ∷ applies) h s = elim (Bool-cases (id == j)) [
  | inl e ↦
      let same : d ≡ w = ground (arith, h, e) in
      let unpaid : paid_amount k w ≡ 0 = ground (arith, s) in
      simp e (omega (arith, unpaid, ap (paid_amount k) same, ap (λ x. paid_amount k (f x)) same))
  | inr e ↦ simp e (omega (arith, paid_sum-settle k id w f applies (ground (arith, h, e)) s))
]

-- What the two updates of a review make of the user's row, with the amount frozen.
settled_total :
    (action : ReviewAction) (amount n : ℕ) (u : AppUser)
    → u.frozen_diamonds ≡ hundredths (n + amount)
    → total_of (some (no_debt (unfreeze action amount u)))
        +ℤ hundredths (if is_paid (status_after action) then amount else 0)
      ≡ total_of (some u)
settled_total approve amount n u h = omega (int_eqs, h, settled_frozen approve amount n u h)
settled_total reject amount n u h = omega (int_eqs, h, settled_frozen reject amount n u h)

module _ (action : ReviewAction) (reviewer now id : ℕ) (w : WithdrawApply) (t : WithdrawTables)
    (there : lookup id t.applies ≡ some w) (unreviewed : is_pending_apply w.status ≡ true)
    (backed : IsBacked t) where
  settled_paid :
      (k : ℕ)
      → paid_sum k (settled_applies action reviewer now id t.applies)
        ≡ paid_sum k t.applies + paid_amount k (mark_processed action reviewer now w)
  settled_paid k =
      paid_sum-settle k id w (mark_processed action reviewer now) t.applies there unreviewed

  own_wealth : wealth w.user_id (review_write action reviewer now id w t) ≡ wealth w.user_id t
  unfolding review_write
  own_wealth =
      let p = w.user_id in
      let n = pending_sum p (settled_applies action reviewer now id t.applies) in
      let due = own_sum action reviewer now id w t there unreviewed backed in
      let mine : paid_amount p (mark_processed action reviewer now w)
          ≡ (if is_paid (status_after action) then w.amount else 0) =
        ground arith in
      elim (Option-cases (lookup p t.users)) [
        | inl e ↦
            let gone =
              lookup-alter-none p no_debt (alter p (unfreeze action w.amount) t.users)
                (lookup-alter-none p (unfreeze action w.amount) t.users e) in
            let none_left = sym (ap frozen_of e) ∙ backed p in
            let few : paid_amount p (mark_processed action reviewer now w) ≤ w.amount =
              ground arith in
            omega (int_eqs, ap total_of gone, ap total_of e, none_left, due, few, settled_paid p)
        | inr (u, e) ↦
            let first = lookup-alter_self p (unfreeze action w.amount) t.users u e in
            let second =
              lookup-alter_self p no_debt (alter p (unfreeze action w.amount) t.users)
                (unfreeze action w.amount u) first in
            let held = sym (ap frozen_of e) ∙ backed p ∙ ap hundredths due in
            omega (
              int_eqs,
              ap total_of second,
              ap total_of e,
              settled_paid p,
              mine,
              settled_total action w.amount n u held,
            )
      ]

  other_wealth :
      (k : ℕ)
      → (w.user_id == k) ≡ false
      → wealth k (review_write action reviewer now id w t) ≡ wealth k t
  unfolding review_write
  other_wealth k e =
      let users' = alter w.user_id (unfreeze action w.amount) t.users in
      let first : lookup k users' ≡ lookup k t.users =
        ground (arith, lookup-alter k w.user_id (unfreeze action w.amount) t.users, e) in
      let second : lookup k (alter w.user_id no_debt users') ≡ lookup k users' =
        ground (arith, lookup-alter k w.user_id no_debt users', e) in
      let unpaid : paid_amount k (mark_processed action reviewer now w) ≡ 0 = ground (arith, e) in
      let same = ap total_of (second ∙ first) in omega (int_eqs, same, unpaid, settled_paid k)

  review_write-wealth : (k : ℕ) → wealth k (review_write action reviewer now id w t) ≡ wealth k t
  review_write-wealth k = elim (Bool-cases (w.user_id == k)) [
    | inl e ↦
        subst (λ x. wealth x (review_write action reviewer now id w t) ≡ wealth x t)
          ((==_iff w.user_id k).0 e) own_wealth
    | inr e ↦ other_wealth k e
  ]

abbrev KeepsWealth : ℕ → WithdrawTables → WithdrawTables × ReviewReply → Type 0
KeepsWealth k t r = wealth k r.0 ≡ wealth k t

-- Where frozen diamonds are those of the applications to be reviewed, a review, whatever is asked
-- and whatever the row holds, keeps for every user the sum of free, frozen and paid out diamonds.
pub withdraw_review-wealth :
    (action : ReviewAction) (has_remark : Bool) (reviewer now id k : ℕ) (t : WithdrawTables)
    → IsBacked t
    → wealth k (withdraw_review action has_remark reviewer now id t).0 ≡ wealth k t
unfolding withdraw_review review_row
withdraw_review-wealth action has_remark reviewer now id k t backed =
    if-both (KeepsWealth k t) (lacks_remark action has_remark) (t, missing_remark) _ refl
      (row (lookup id t.applies) refl)
  where
    row :
        (o : Option WithdrawApply)
        → lookup id t.applies ≡ o
        → KeepsWealth k t (review_row o action reviewer now id t)
    row none _ = refl
    row (some w) there = elim (Bool-cases (is_pending_apply w.status)) [
      | inl e ↦ simp e (review_write-wealth action reviewer now id w t there e backed k)
      | inr e ↦ simp e refl
    ]

create_apply-wealth :
    (user_id amount k : ℕ) (t : WithdrawTables) (u : AppUser)
    → lookup user_id t.users ≡ some u
    → wealth k (create_apply user_id amount t) ≡ wealth k t
unfolding paid_sum
create_apply-wealth user_id amount k t u there = elim (Bool-cases (user_id == k)) [
  | inl e ↦
      let own : lookup k t.users ≡ some u =
        subst (λ x. lookup x t.users ≡ some u) ((==_iff user_id k).0 e) there in
      let frozen : lookup k (alter user_id (freeze amount) t.users) ≡ some (freeze amount u) =
        ground (arith, lookup-alter k user_id (freeze amount) t.users, e, own) in
      let unpaid : paid_amount k (new_apply user_id amount) ≡ 0 = ground arith in
      omega (int_eqs, ap total_of frozen, ap total_of own, unpaid)
  | inr e ↦
      let same : lookup k (alter user_id (freeze amount) t.users) ≡ lookup k t.users =
        ground (arith, lookup-alter k user_id (freeze amount) t.users, e) in
      let unpaid : paid_amount k (new_apply user_id amount) ≡ 0 = ground arith in
      omega (int_eqs, ap total_of same, unpaid)
]

abbrev AppliesKeep : ℕ → WithdrawTables → WithdrawTables × ApplyReply → Type 0
AppliesKeep k t r = wealth k r.0 ≡ wealth k t

freeze_diamonds-wealth :
    (user_id amount k : ℕ) (t : WithdrawTables) → AppliesKeep k t (freeze_diamonds user_id amount t)
unfolding freeze_diamonds
freeze_diamonds-wealth user_id amount k t = elim (Option-cases (lookup user_id t.users)) [
  | inl e ↦ rw (e, freeze_diamonds) refl
  | inr (u, e) ↦
      rw (e, freeze_diamonds)
        (if-both (AppliesKeep k t) _ (t, short) _ refl (create_apply-wealth user_id amount k t u e))
]

-- An application, granted or refused on any ground, keeps for every user the sum of free, frozen
-- and paid out diamonds.
pub withdraw_apply-wealth :
    (env : ApplyEnv) (user_id : ℕ) (amount : ℤ) (k : ℕ) (t : WithdrawTables)
    → wealth k (withdraw_apply env user_id amount t).0 ≡ wealth k t
unfolding withdraw_apply
withdraw_apply-wealth env user_id amount k t = refused (leb_ℤ amount (pos 0)) _ _ (
    refused (is_empty env.packages) _ _ (
      refused (not (is_package (pos_part amount) env.packages)) _ _ (
        refused (not env.account_approved) _ _ (
          refused env.requested_recently _ _
            (freeze_diamonds-wealth user_id (pos_part amount) k t)))))
  where
    refused :
        (b : Bool) (e : ApplyReply) (r : WithdrawTables × ApplyReply)
        → AppliesKeep k t r
        → AppliesKeep k t (if b then (t, e) else r)
    refused true e r h = refl
    refused false e r h = h
