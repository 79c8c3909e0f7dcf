-- ===== src/ProfileReview/Completed.antt =====
-- Completing a review, and what may happen to it afterwards where requests run one by one.
use new1v.Prelude.{
  ℕ, ◌≡◌, refl, true, false, Option, none, some, List, ◌==◌, arith, ap, sym, ◌∙◌, inl, inr,
  Bool-cases, ==_iff, if-both,
}
use new1v.Prelude.Dict.{Dict, lookup, alter, lookup-alter, lookup-alter_self}
use new1v.ProfileReview.{
  Snapshot, ItemId, ItemStatus, ReviewItem, ProfileUpdate, Applied, ok, refused,
  review_items_have_pending, apply_approved_profile_review_items, update_review_item_status,
  mark_all_review_items,
}
use new1v.ProfileReview.Handlers.{
  ProfileReviewApply, ReviewTables, ReviewReply, on_open, is_completed, items_pending, put_items,
  close_apply, save_items, write_profile, write_applied, for_user, review_profile_review_item,
  mark_all_profile_review_items, complete_profile_review,
}

-- An open application all of whose items are reviewed is applied to its user's profile and closed.
pub complete_lem :
    (id now : ℕ) (r : Option ℕ) (t : ReviewTables) (a : ProfileReviewApply) (p : Snapshot)
    (update : ProfileUpdate)
    → lookup id t.applies ≡ some a
    → is_completed a.status ≡ false
    → review_items_have_pending a.review_items ≡ false
    → lookup a.user_id t.profiles ≡ some p
    → apply_approved_profile_review_items a.before_snapshot a.after_snapshot a.review_items
      ≡ ok update
    → (lookup a.user_id (complete_profile_review id now r t).0.profiles
        ≡ some (write_profile update p))
      × (lookup id (complete_profile_review id now r t).0.applies ≡ some (close_apply now r a))
unfolding complete_profile_review write_applied
complete_lem id now r t a p update there open_still reviewed row applied = rw there (
    simp (open_still, reviewed, row, applied)
      (
        lookup-alter_self a.user_id (write_profile update) t.profiles p row,
        lookup-alter_self id (close_apply now r) t.applies a there,
      ))

-- A request's step on the tables, where no other request runs between its read and its write.
pub data Step (t : ReviewTables) : ReviewTables → Type 0 where
  review_item :
      (id : ℕ) (item_id : ItemId) (status : ItemStatus) (r : Option ℕ)
      → Step t (review_profile_review_item id item_id status r t).0
  mark_all :
      (id : ℕ) (status : ItemStatus) (r : Option ℕ)
      → Step t (mark_all_profile_review_items id status r t).0
  complete : (id now : ℕ) (r : Option ℕ) → Step t (complete_profile_review id now r t).0

pub data Steps (t : ReviewTables) : ReviewTables → Type 0 where
  here : Steps t t
  next : {u v : ReviewTables} → Steps t u → Step u v → Steps t v

-- Only the application `j` may have been written.
abbrev Only : ℕ → ReviewTables → ReviewTables × ReviewReply → Type 0
Only j t r = (k : ℕ) → (k == j) ≡ false → lookup k r.0.applies ≡ lookup k t.applies

-- The application `k` is there, completed, as it was.
abbrev Keeps : (k : ℕ) → ProfileReviewApply → ReviewTables × ReviewReply → Type 0
Keeps k a r = lookup k r.0.applies ≡ some a

alter-Only :
    (j k : ℕ) (f : ProfileReviewApply → ProfileReviewApply) (d : Dict ProfileReviewApply)
    → (k == j) ≡ false
    → lookup k (alter j f d) ≡ lookup k d
alter-Only j k f d ne = ground (arith, lookup-alter k j f d, ne)

-- A handler that writes only the application that it has found open.
on_open-Keeps :
    (j k : ℕ) (a : ProfileReviewApply) (write : ProfileReviewApply → ReviewTables × ReviewReply)
    (t : ReviewTables)
    → ((b : ProfileReviewApply) → Only j t (write b))
    → lookup k t.applies ≡ some a
    → is_completed a.status ≡ true
    → Keeps k a (on_open (lookup j t.applies) write t)
on_open-Keeps j k a write t only there closed = found (lookup j t.applies) refl
  where
    found : (o : Option ProfileReviewApply) → lookup j t.applies ≡ o → Keeps k a (on_open o write t)
    found none e = there
    found (some b) e = elim (Bool-cases (is_completed b.status)) [
      | inl f ↦ rw f there
      | inr f ↦ elim (Bool-cases (k == j)) [
        | inl same ↦ absurd (clash same e f)
        | inr ne ↦ rw f (only b k ne ∙ there)
      ]
    ]
      where
        clash : (k == j) ≡ true → lookup j t.applies ≡ some b → is_completed b.status ≡ false → ⊥
        clash same e f =
            let equal : some a ≡ some b =
              sym there ∙ ap (λ x. lookup x t.applies) ((==_iff k j).0 same) ∙ e in
            ground (arith, equal, closed, f)

save_items-Only :
    (o : Option (List ReviewItem)) (j : ℕ) (t : ReviewTables) → Only j t (save_items o j t)
save_items-Only none j t = λ k ne. refl
save_items-Only (some items) j t = λ k ne. alter-Only j k (put_items items) t.applies ne

write_applied-Only :
    (x : Applied) (j now : ℕ) (r : Option ℕ) (a : ProfileReviewApply) (t : ReviewTables)
    → Only j t (write_applied x j now r a t)
unfolding write_applied
write_applied-Only (refused e) j now r a t = λ k ne. refl
write_applied-Only (ok update) j now r a t = λ k ne. alter-Only j k (close_apply now r) t.applies ne

for_user-Only :
    (o : Option Snapshot) (j now : ℕ) (r : Option ℕ) (a : ProfileReviewApply) (t : ReviewTables)
    → Only j t (for_user o j now r a t)
for_user-Only none j now r a t = λ k ne. refl
for_user-Only (some p) j now r a t = write_applied-Only _ j now r a t

Step-Keeps :
    (k : ℕ) (a : ProfileReviewApply) {t u : ReviewTables}
    → Step t u
    → lookup k t.applies ≡ some a
    → is_completed a.status ≡ true
    → lookup k u.applies ≡ some a
unfolding review_profile_review_item mark_all_profile_review_items complete_profile_review
Step-Keeps k a {t} (review_item j item_id status r) there closed =
    on_open-Keeps j k a
      (λ b. save_items (update_review_item_status item_id status r b.review_items) j t) t
      (λ b. save_items-Only (update_review_item_status item_id status r b.review_items) j t) there
      closed
Step-Keeps k a {t} (mark_all j status r) there closed =
    on_open-Keeps j k a (λ b. save_items (some (mark_all_review_items status r b.review_items)) j t)
      t (λ b. save_items-Only (some (mark_all_review_items status r b.review_items)) j t) there
      closed
Step-Keeps k a {t} (complete j now r) there closed =
    on_open-Keeps j k a _ t
      (λ b.
        if-both (Only j t) (review_items_have_pending b.review_items) (t, items_pending) _
          (λ i ne. refl) (for_user-Only _ j now r b t))
      there closed

-- Where each request ends before the next one begins, a review that is completed is never written
-- again: its row stays the same.
completed_stays :
    (k : ℕ) (a : ProfileReviewApply) {t u : ReviewTables}
    → Steps t u
    → lookup k t.applies ≡ some a
    → is_completed a.status ≡ true
    → lookup k u.applies ≡ some a
completed_stays k a here there closed = there
completed_stays k a (next steps step) there closed =
    Step-Keeps k a step (completed_stays k a steps there closed) closed
