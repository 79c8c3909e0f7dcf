-- ===== src/Tests/Profiles.antt =====
-- The theorems on profile reviews, applied to an edit of Ann's: a new signature, one photo removed
-- and one added, which becomes the cover.
use new1v.Prelude.{◌≡◌, refl, none, some, true, List, [], ◌∷◌, arith}
use new1v.Prelude.Dict.{lookup}
use new1v.ProfileReview.{
  signature_item, set_item, has_item, update_review_item_status, review_items_have_pending,
  Snapshot, ProfileUpdate, ReviewItem, ok, approved, rejected, mem, keep_new, normalize_snapshot,
  album_items, build_profile_review_payload, mark_all_review_items, approved_after,
  approved_additions, final_album, longer_than_six, apply_approved_profile_review_items,
}
use new1v.ProfileReview.Approved.{approve_all_lem}
use new1v.ProfileReview.Rejected.{IsApprovedOnly, apply_approved-IsApprovedOnly}
use new1v.ProfileReview.Reopened.{review_reopens}
use new1v.ProfileReview.Handlers.{
  ProfileReviewApply, ReviewTables, submitted, reviewing, done, is_completed,
  complete_profile_review, mark_all_profile_review_items, write_applied, review_item_after,
}

abbrev current : Snapshot
current = record {
  nickname = 11;
  avatar = 12;
  signature = 13;
  album_photos = 21 ∷ (22 ∷ []);
  cover_url = 21;
}

abbrev target : Snapshot
target = record current { signature = 14; album_photos = 22 ∷ (23 ∷ (23 ∷ [])); cover_url = 23 }

abbrev tables : ReviewTables
tables = record {
  profiles = (1, current) ∷ [];
  applies = (5, submitted 1 (build_profile_review_payload current target)) ∷ [];
}

approve_all_lem_example :
    lookup 1
      (complete_profile_review 5 1000 none
        (mark_all_profile_review_items 5 approved (some 9) tables).0).0.profiles
    ≡ some (normalize_snapshot target)
unfolding lookup normalize_snapshot keep_new mem longer_than_six
approve_all_lem_example =
    approve_all_lem 5 1 1000 (some 9) none current target current tables refl refl refl refl refl
      refl (omega arith) refl

-- All items are rejected: the album loses a photo all the same.
abbrev kept : ProfileUpdate
kept = record {
  nickname = none;
  avatar = none;
  signature = none;
  album_photos = 22 ∷ [];
  cover_url = some 22;
}

abbrev rejected_items : List ReviewItem
rejected_items =
    mark_all_review_items rejected none (build_profile_review_payload current target).review_items

rejects_all : apply_approved_profile_review_items current target rejected_items ≡ ok kept
unfolding apply_approved_profile_review_items normalize_snapshot keep_new mem album_items
    build_profile_review_payload mark_all_review_items approved_after approved_additions final_album
    longer_than_six
rejects_all = refl

apply_approved-IsApprovedOnly_example : IsApprovedOnly current rejected_items kept
apply_approved-IsApprovedOnly_example =
    apply_approved-IsApprovedOnly current target rejected_items kept rejects_all

-- All items are rejected, and the application is about to be completed.
abbrev reviewed : ReviewTables
reviewed = record {
  profiles = (1, current) ∷ [];
  applies =
      (
        5,
        record (submitted 1 (build_profile_review_payload current target)) {
          status = reviewing;
          review_items = rejected_items;
        },
      )
      ∷ [];
}

completes : (complete_profile_review 5 2000 none reviewed).1 ≡ done
unfolding complete_profile_review write_applied lookup review_items_have_pending
    apply_approved_profile_review_items normalize_snapshot keep_new mem album_items
    build_profile_review_payload mark_all_review_items approved_after approved_additions final_album
    longer_than_six
completes = refl

review_reopens_example :
    let u = (complete_profile_review 5 2000 none reviewed).0 in
    ((c : ProfileReviewApply) × (lookup 5 u.applies ≡ some c) × (is_completed c.status ≡ true))
    × ((d : ProfileReviewApply) × (lookup 5
            (review_item_after
              (some (record (submitted 1 (build_profile_review_payload current target)) {
                status = reviewing;
                review_items = rejected_items;
              }))
              5
              signature_item
              approved
              (some 9)
              u).0.applies
          ≡ some d)
        × (d.status ≡ reviewing)
        × (d.review_items ≡ set_item signature_item approved (some 9) rejected_items))
unfolding lookup update_review_item_status has_item build_profile_review_payload album_items
    mark_all_review_items normalize_snapshot keep_new mem set_item
review_reopens_example =
    review_reopens 5 2000 signature_item approved (some 9) none reviewed _ _ refl refl refl
      completes
