-- ===== src/Withdraw/Race.antt =====
-- Two reviews of one application at the same time. Each reads the row without a lock, and each
-- writes by the row that it has read.
use new1v.Prelude.{ℕ, ◌≡◌, ◌∙◌, ap, refl, true, Option, some}
use new1v.Prelude.Int.{◌+ℤ◌}
use new1v.Prelude.Dict.{lookup, lookup-alter_self}
use new1v.Records.{AppUser}
use new1v.Users.Balance.{diamonds, diamonds_of}
use new1v.Withdraw.{
  WithdrawApply, WithdrawTables, ReviewAction, reject, hundredths, unfreeze, no_debt,
  is_pending_apply, review_write, review_row,
}

abbrev both_write :
    Option WithdrawApply
    → (action action' : ReviewAction) → (reviewer reviewer' now now' id : ℕ) → WithdrawTables
    → WithdrawTables
both_write row action action' reviewer reviewer' now now' id t =
    (review_row row action' reviewer' now' id (review_row row action reviewer now id t).0).0

-- Both read before either writes.
unfoldable pub concurrent_reviews :
    (action action' : ReviewAction)
    → (reviewer reviewer' now now' id : ℕ) → WithdrawTables
    → WithdrawTables
concurrent_reviews action action' reviewer reviewer' now now' id t =
    both_write (lookup id t.applies) action action' reviewer reviewer' now now' id t

review_row-pending :
    (action : ReviewAction) (reviewer now id : ℕ) (w : WithdrawApply) (t : WithdrawTables)
    → is_pending_apply w.status ≡ true
    → (review_row (some w) action reviewer now id t).0 ≡ review_write action reviewer now id w t
unfolding review_row
review_row-pending action reviewer now id w t h = simp h refl

both_write-pending :
    (action action' : ReviewAction) (reviewer reviewer' now now' id : ℕ) (w : WithdrawApply)
    (t : WithdrawTables)
    → is_pending_apply w.status ≡ true
    → both_write (some w) action action' reviewer reviewer' now now' id t
      ≡ review_write action' reviewer' now' id w (review_write action reviewer now id w t)
both_write-pending action action' reviewer reviewer' now now' id w t h =
    review_row-pending action' reviewer' now' id w _ h
    ∙ ap (review_write action' reviewer' now' id w)
        (review_row-pending action reviewer now id w t h)

-- Two reviewers reject an application that both have read while it was to be reviewed: its user,
-- who has a row, is given the diamonds back twice.
pub concurrent_reviews_lem :
    (reviewer reviewer' now now' id : ℕ) (w : WithdrawApply) (u : AppUser) (t : WithdrawTables)
    → lookup id t.applies ≡ some w
    → is_pending_apply w.status ≡ true
    → lookup w.user_id t.users ≡ some u
    → diamonds w.user_id (concurrent_reviews reject reject reviewer reviewer' now now' id t).users
      ≡ u.diamonds +ℤ hundredths w.amount +ℤ hundredths w.amount
unfolding concurrent_reviews review_write
concurrent_reviews_lem reviewer reviewer' now now' id w u t there unreviewed row =
    let give = unfreeze reject w.amount in
    let one =
      lookup-alter_self w.user_id no_debt _ _ (lookup-alter_self w.user_id give t.users u row) in
    let two = lookup-alter_self w.user_id no_debt _ _ (lookup-alter_self w.user_id give _ _ one) in
    rw (there, concurrent_reviews)
      (ap (λ (x : WithdrawTables). diamonds w.user_id x.users)
          (both_write-pending reject reject reviewer reviewer' now now' id w t unreviewed)
        ∙ ap diamonds_of two)
