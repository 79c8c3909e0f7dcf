-- ===== src/ProfileReview/Reopened.antt =====
-- A reviewer who has read the application before another one completes it.
use new1v.Prelude.{ℕ, ◌≡◌, refl, Bool, true, false, Option, none, some, List, if◌then◌else◌}
use new1v.Prelude.Dict.{lookup, lookup-alter_self}
use new1v.ProfileReview.{
  Snapshot, ItemId, ItemStatus, ReviewItem, Applied, ok, refused, review_items_have_pending,
  update_review_item_status, apply_approved_profile_review_items,
}
use new1v.ProfileReview.Handlers.{
  ProfileReviewApply, ReviewTables, ReviewReply, done, reviewing, is_completed, put_items,
  close_apply, items_pending, write_applied, for_user, review_item_after, complete_profile_review,
}

-- A completion that is done has closed the row.
abbrev Closes : (id now : ℕ) → Option ℕ → ProfileReviewApply → ReviewTables × ReviewReply → Type 0
Closes id now r a u = u.1 ≡ done → lookup id u.0.applies ≡ some (close_apply now r a)

module _ (id now : ℕ) (r : Option ℕ) (a : ProfileReviewApply) (t : ReviewTables)
    (there : lookup id t.applies ≡ some a) where
  write_applied-Closes : (x : Applied) → Closes id now r a (write_applied x id now r a t)
  unfolding write_applied
  write_applied-Closes (refused e) h = cc
  write_applied-Closes (ok update) h = lookup-alter_self id (close_apply now r) t.applies a there

  for_user-Closes : (o : Option Snapshot) → Closes id now r a (for_user o id now r a t)
  for_user-Closes none h = cc
  for_user-Closes (some p) h =
      write_applied-Closes
        (apply_approved_profile_review_items a.before_snapshot a.after_snapshot a.review_items) h

  complete-Closes :
      is_completed a.status ≡ false → Closes id now r a (complete_profile_review id now r t)
  unfolding complete_profile_review
  complete-Closes open_still =
      rw (there, open_still) (pending (review_items_have_pending a.review_items))
    where
      pending :
          (b : Bool)
          → Closes id now r a (
              if b then (t, items_pending) else for_user (lookup a.user_id t.profiles) id now r a t)
      pending true h = cc
      pending false h = for_user-Closes (lookup a.user_id t.profiles) h

-- A reviewer reads an open application, to review one of its items; another reviewer completes it;
-- then the first one's request writes. The application was completed, and is no longer: it is under
-- review again, with the items of the first reviewer.
pub review_reopens :
    (id now : ℕ) (item_id : ItemId) (status : ItemStatus) (r r' : Option ℕ) (t : ReviewTables)
    (a : ProfileReviewApply) (items : List ReviewItem)
    → lookup id t.applies ≡ some a
    → is_completed a.status ≡ false
    → update_review_item_status item_id status r a.review_items ≡ some items
    → (complete_profile_review id now r' t).1 ≡ done
    → let u = (complete_profile_review id now r' t).0 in
      ((c : ProfileReviewApply) × (lookup id u.applies ≡ some c) × (is_completed c.status ≡ true))
      × ((d : ProfileReviewApply) × (lookup id
              (review_item_after (some a) id item_id status r u).0.applies
            ≡ some d)
          × (d.status ≡ reviewing)
          × (d.review_items ≡ items))
review_reopens id now item_id status r r' t a items there open_still found finished =
    let closed = complete-Closes id now r' a t there open_still finished in
    let u = (complete_profile_review id now r' t).0 in
    (
      (close_apply now r' a, closed, refl),
      (
        put_items items (close_apply now r' a),
        rw (open_still, found)
            (lookup-alter_self id (put_items items) u.applies (close_apply now r' a) closed),
        refl,
        refl,
      ),
    )
