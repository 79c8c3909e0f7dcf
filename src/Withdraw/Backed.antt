-- ===== src/Withdraw/Backed.antt =====
-- The frozen diamonds of every user are those of the applications still to be reviewed.
use new1v.Prelude.{
  ℕ, ◌+◌, ◌≡◌, inl, inr, refl, Bool, true, false, not, ◌&&◌, Option, none, some, [], ◌∷◌, ◌==◌,
  if◌then◌else◌, arith, Bool-cases, Option-cases, if-both, ap, ◌∙◌, sym, subst, ==_iff,
}
use new1v.Prelude.Int.{ℤ, pos, pos_part, leb_ℤ, ◌-ℤ◌, int_eqs}
use new1v.Prelude.Dict.{Dict, lookup, alter, lookup-alter, lookup-alter_self}
use new1v.Records.{AppUser}
use new1v.Users.{Users}
use new1v.Withdraw.{
  WithdrawApply, WithdrawTables, ApplyEnv, ApplyReply, short, is_package, is_empty, hundredths,
  freeze, create_apply, freeze_diamonds, withdraw_apply, ReviewAction, approve, reject, unfreeze,
  no_debt, mark_processed, review_write, is_pending_apply, ReviewReply, missing_remark, review_row,
  withdraw_review, status_after, lacks_remark, new_apply,
}

abbrev pub frozen_of : Option AppUser → ℤ
frozen_of none = pos 0
frozen_of (some u) = u.frozen_diamonds

abbrev pub frozen : ℕ → Users → ℤ
frozen k users = frozen_of (lookup k users)

abbrev pub pending_amount : ℕ → WithdrawApply → ℕ
pending_amount k w = if (w.user_id == k) && is_pending_apply w.status then w.amount else 0

-- What user k has applied for and is still to be reviewed, in diamonds.
unfoldable pub pending_sum : ℕ → Dict WithdrawApply → ℕ
pending_sum k [] = 0
pending_sum k ((id, w) ∷ applies) = pending_amount k w + pending_sum k applies

abbrev BackedReview : ℕ → WithdrawTables × ReviewReply → Type 0
BackedReview k r = frozen k r.0.users ≡ hundredths (pending_sum k r.0.applies)

abbrev pub IsBacked : WithdrawTables → Type 0
IsBacked t = (k : ℕ) → frozen k t.users ≡ hundredths (pending_sum k t.applies)

frozen-alter_self :
    (k : ℕ) (f : AppUser → AppUser) (users : Users) (u : AppUser)
    → lookup k users ≡ some u
    → frozen k (alter k f users) ≡ (f u).frozen_diamonds
frozen-alter_self k f users u h = ap frozen_of (lookup-alter_self k f users u h)

frozen-alter_ne :
    (j k : ℕ) (f : AppUser → AppUser) (users : Users)
    → (k == j) ≡ false
    → frozen j (alter k f users) ≡ frozen j users
frozen-alter_ne j k f users e =
    let same : lookup j (alter k f users) ≡ lookup j users =
      ground (arith, lookup-alter j k f users, e) in
    ap frozen_of same

pub lookup-alter-none :
    (k : ℕ) (f : AppUser → AppUser) (users : Users)
    → lookup k users ≡ none
    → lookup k (alter k f users) ≡ none
lookup-alter-none k f users h = ground (arith, lookup-alter k k f users, h)

-- Settling an application takes it out of the sum.
pending_sum-settle :
    (k id : ℕ) (w : WithdrawApply) (f : WithdrawApply → WithdrawApply)
    (applies : Dict WithdrawApply)
    → lookup id applies ≡ some w
    → is_pending_apply (f w).status ≡ false
    → pending_sum k (alter id f applies) + pending_amount k w ≡ pending_sum k applies
unfolding pending_sum lookup alter
pending_sum-settle k id w f [] h s = cc
pending_sum-settle k id w f ((j, d) ∷ applies) h s = elim (Bool-cases (id == j)) [
  | inl e ↦ let same : d ≡ w = ground (arith, h, e) in simp e (ground (arith, s, same))
  | inr e ↦ simp e (omega (arith, pending_sum-settle k id w f applies (ground (arith, h, e)) s))
]

-- With the amount frozen, the second update of a review finds nothing to correct.
pub settled_frozen :
    (action : ReviewAction) (amount n : ℕ) (u : AppUser)
    → u.frozen_diamonds ≡ hundredths (n + amount)
    → (no_debt (unfreeze action amount u)).frozen_diamonds ≡ hundredths n
unfolding ◌-ℤ◌
settled_frozen approve amount n u h = ground (arith, h)
settled_frozen reject amount n u h = ground (arith, h)

abbrev pub settled_applies :
    ReviewAction → (reviewer now id : ℕ) → Dict WithdrawApply → Dict WithdrawApply
settled_applies action reviewer now id applies =
    alter id (mark_processed action reviewer now) applies

module _ (action : ReviewAction) (reviewer now id : ℕ) (w : WithdrawApply) (t : WithdrawTables)
    (there : lookup id t.applies ≡ some w) (unreviewed : is_pending_apply w.status ≡ true)
    (backed : IsBacked t) where
  settled_sum :
      (k : ℕ)
      → pending_sum k (settled_applies action reviewer now id t.applies) + pending_amount k w
        ≡ pending_sum k t.applies
  settled_sum k =
      pending_sum-settle k id w (mark_processed action reviewer now) t.applies there (closed action)
    where
      closed : (a : ReviewAction) → is_pending_apply (status_after a) ≡ false
      closed approve = refl
      closed reject = refl

  pub own_sum :
      pending_sum w.user_id t.applies
      ≡ pending_sum w.user_id (settled_applies action reviewer now id t.applies) + w.amount
  own_sum =
      let own : pending_amount w.user_id w ≡ w.amount = ground (arith, unreviewed) in
      omega (arith, settled_sum w.user_id, own)

  -- The user of the application itself, with a row or without.
  own_backed :
      frozen w.user_id (review_write action reviewer now id w t).users
      ≡ hundredths (pending_sum w.user_id (settled_applies action reviewer now id t.applies))
  unfolding review_write
  own_backed = elim (Option-cases (lookup w.user_id t.users)) [
    | inl e ↦
        let gone =
          lookup-alter-none w.user_id no_debt (alter w.user_id (unfreeze action w.amount) t.users)
            (lookup-alter-none w.user_id (unfreeze action w.amount) t.users e) in
        let none_left = sym (ap frozen_of e) ∙ backed w.user_id in
        ap frozen_of gone ∙ omega (int_eqs, none_left, own_sum)
    | inr (u, e) ↦
        let first = lookup-alter_self w.user_id (unfreeze action w.amount) t.users u e in
        frozen-alter_self w.user_id no_debt (alter w.user_id (unfreeze action w.amount) t.users)
          (unfreeze action w.amount u) first
        ∙ settled_frozen action w.amount
            (pending_sum w.user_id (settled_applies action reviewer now id t.applies)) u
            (sym (ap frozen_of e) ∙ backed w.user_id ∙ ap hundredths own_sum)
  ]

  other_backed :
      (k : ℕ)
      → (w.user_id == k) ≡ false
      → frozen k (review_write action reviewer now id w t).users
        ≡ hundredths (pending_sum k (settled_applies action reviewer now id t.applies))
  unfolding review_write
  other_backed k e =
      let none_own : pending_amount k w ≡ 0 = ground (arith, e) in
      frozen-alter_ne k w.user_id no_debt (alter w.user_id (unfreeze action w.amount) t.users) e
      ∙ frozen-alter_ne k w.user_id (unfreeze action w.amount) t.users e
      ∙ backed k
      ∙ ap hundredths (omega (arith, settled_sum k, none_own))

  -- The writes of a review, for the row that is there.
  review_write-IsBacked : IsBacked (review_write action reviewer now id w t)
  unfolding review_write
  review_write-IsBacked k = elim (Bool-cases (w.user_id == k)) [
    | inl e ↦
        subst
          (λ x.
            frozen x (review_write action reviewer now id w t).users
            ≡ hundredths (pending_sum x (settled_applies action reviewer now id t.applies)))
          ((==_iff w.user_id k).0 e) own_backed
    | inr e ↦ other_backed k e
  ]

-- A review, whatever is asked and whatever the row holds, keeps every user's frozen diamonds equal
-- to the amounts that the user has applied for and that are still to be reviewed.
pub withdraw_review-IsBacked :
    (action : ReviewAction) (has_remark : Bool) (reviewer now id : ℕ) (t : WithdrawTables)
    → IsBacked t
    → IsBacked (withdraw_review action has_remark reviewer now id t).0
unfolding withdraw_review review_row
withdraw_review-IsBacked action has_remark reviewer now id t backed k =
    if-both (BackedReview k) (lacks_remark action has_remark) (t, missing_remark) _ (backed k)
      (row (lookup id t.applies) refl)
  where
    row :
        (o : Option WithdrawApply)
        → lookup id t.applies ≡ o
        → BackedReview k (review_row o action reviewer now id t)
    row none _ = backed k
    row (some w) there = elim (Bool-cases (is_pending_apply w.status)) [
      | inl e ↦ simp e (review_write-IsBacked action reviewer now id w t there e backed k)
      | inr e ↦ simp e (backed k)
    ]

abbrev BackedAt : ℕ → WithdrawTables × ApplyReply → Type 0
BackedAt k r = frozen k r.0.users ≡ hundredths (pending_sum k r.0.applies)

create_apply-IsBacked :
    (user_id amount : ℕ) (t : WithdrawTables) (u : AppUser)
    → lookup user_id t.users ≡ some u
    → IsBacked t
    → IsBacked (create_apply user_id amount t)
unfolding pending_sum
create_apply-IsBacked user_id amount t u there backed k =
    let own : pending_amount user_id (new_apply user_id amount) ≡ amount = ground arith in
    let held : u.frozen_diamonds ≡ hundredths (pending_sum user_id t.applies) =
      sym (ap frozen_of there) ∙ backed user_id in
    elim (Bool-cases (user_id == k)) [
      | inl e ↦
          subst
            (λ x.
              frozen x (create_apply user_id amount t).users
              ≡ hundredths (pending_sum x (create_apply user_id amount t).applies))
            ((==_iff user_id k).0 e)
            (frozen-alter_self user_id (freeze amount) t.users u there ∙ omega (int_eqs, own, held))
      | inr e ↦
          frozen-alter_ne k user_id (freeze amount) t.users e
          ∙ backed k
          ∙ ap hundredths (ground (arith, e))
    ]

freeze_diamonds-IsBacked :
    (user_id amount : ℕ) (t : WithdrawTables)
    → IsBacked t
    → (k : ℕ) → BackedAt k (freeze_diamonds user_id amount t)
unfolding freeze_diamonds
freeze_diamonds-IsBacked user_id amount t backed k = elim (Option-cases (lookup user_id t.users)) [
  | inl e ↦ rw (e, freeze_diamonds) (backed k)
  | inr (u, e) ↦
      rw (e, freeze_diamonds)
        (if-both (BackedAt k) _ (t, short) _ (backed k)
          (create_apply-IsBacked user_id amount t u e backed k))
]

-- An application, granted or refused on any ground, keeps every user's frozen diamonds equal to the
-- amounts that the user has applied for and that are still to be reviewed.
pub withdraw_apply-IsBacked :
    (env : ApplyEnv) (user_id : ℕ) (amount : ℤ) (t : WithdrawTables)
    → IsBacked t
    → IsBacked (withdraw_apply env user_id amount t).0
unfolding withdraw_apply freeze_diamonds
withdraw_apply-IsBacked env user_id amount t backed k = refused (leb_ℤ amount (pos 0)) _ _ (
    refused (is_empty env.packages) _ _ (
      refused (not (is_package (pos_part amount) env.packages)) _ _ (
        refused (not env.account_approved) _ _ (
          refused env.requested_recently _ _
            (freeze_diamonds-IsBacked user_id (pos_part amount) t backed k)))))
  where
    refused :
        (b : Bool) (e : ApplyReply) (r : WithdrawTables × ApplyReply)
        → BackedAt k r
        → BackedAt k (if b then (t, e) else r)
    refused true e r h = backed k
    refused false e r h = h
