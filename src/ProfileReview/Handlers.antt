-- ===== src/ProfileReview/Handlers.antt =====
-- The handlers of backend/app/api/v1/app_users/app_users.py on an application. A profile is the
-- part of a user's row that an application may write.
use new1v.Prelude.{ℕ, Bool, true, false, Option, none, some, List, if◌then◌else◌}
use new1v.Prelude.Dict.{Dict, lookup, alter}
use new1v.ProfileReview.{
  Snapshot, ItemId, ItemStatus, ReviewItem, ProfileUpdate, ProfileError, Payload, Applied, ok,
  refused, review_items_have_pending, update_review_item_status, mark_all_review_items,
  apply_approved_profile_review_items,
}

pub data ApplyStatus : Type 0 where
  waiting reviewing completed cancelled : ApplyStatus

pub record ProfileReviewApply : Type 0 where
  pub user_id : ℕ
  pub status : ApplyStatus
  pub before_snapshot : Snapshot
  pub after_snapshot : Snapshot
  pub review_items : List ReviewItem
  pub completed_at : Option ℕ
  pub completed_by : Option ℕ

-- What `update_user_profile` stores for an edit that needs a review.
abbrev pub submitted : ℕ → Payload → ProfileReviewApply
submitted user_id payload = record {
  user_id = user_id;
  status = waiting;
  before_snapshot = payload.before_snapshot;
  after_snapshot = payload.after_snapshot;
  review_items = payload.review_items;
  completed_at = none;
  completed_by = none;
}

pub record ReviewTables : Type 0 where
  pub profiles : Dict Snapshot
  pub applies : Dict ProfileReviewApply

pub data ReviewReply : Type 0 where
  done not_found already_completed no_item items_pending no_user : ReviewReply
  not_applied : ProfileError → ReviewReply

abbrev pub is_completed : ApplyStatus → Bool
is_completed completed = true
is_completed _ = false

abbrev pub put_items : List ReviewItem → ProfileReviewApply → ProfileReviewApply
put_items items a = record a { review_items = items; status = reviewing }

abbrev pub save_items : Option (List ReviewItem) → ℕ → ReviewTables → ReviewTables × ReviewReply
save_items none id t = (t, no_item)
save_items (some items) id t = (record t { applies = alter id (put_items items) t.applies }, done)

-- An application that may still be written.
abbrev pub on_open :
    Option ProfileReviewApply
    → (ProfileReviewApply → ReviewTables × ReviewReply)
    → ReviewTables
    → ReviewTables × ReviewReply
on_open none next t = (t, not_found)
on_open (some a) next t = if is_completed a.status then (t, already_completed) else next a

-- What a handler does with the row that it has read; nothing locks the row in between.
abbrev pub review_item_after :
    Option ProfileReviewApply
    → (id : ℕ) → ItemId
    → ItemStatus
    → (reviewer : Option ℕ) → ReviewTables
    → ReviewTables × ReviewReply
review_item_after row id item_id status reviewer t =
    on_open row
      (λ a. save_items (update_review_item_status item_id status reviewer a.review_items) id t) t

unfoldable pub review_profile_review_item :
    (id : ℕ)
    → ItemId
    → ItemStatus
    → (reviewer : Option ℕ) → ReviewTables
    → ReviewTables × ReviewReply
review_profile_review_item id item_id status reviewer t =
    review_item_after (lookup id t.applies) id item_id status reviewer t

abbrev pub mark_all_after :
    Option ProfileReviewApply
    → (id : ℕ) → ItemStatus
    → (reviewer : Option ℕ) → ReviewTables
    → ReviewTables × ReviewReply
mark_all_after row id status reviewer t =
    on_open row (λ a. save_items (some (mark_all_review_items status reviewer a.review_items)) id t)
      t

-- `approve_all_profile_review_items` and `reject_all_profile_review_items`
unfoldable pub mark_all_profile_review_items :
    (id : ℕ) → ItemStatus → (reviewer : Option ℕ) → ReviewTables → ReviewTables × ReviewReply
mark_all_profile_review_items id status reviewer t =
    mark_all_after (lookup id t.applies) id status reviewer t

abbrev pub or_kept : Option ℕ → ℕ → ℕ
or_kept none kept = kept
or_kept (some new) kept = new

-- A missing cover is the empty text.
abbrev pub write_profile : ProfileUpdate → Snapshot → Snapshot
write_profile update p = record {
  nickname = or_kept update.nickname p.nickname;
  avatar = or_kept update.avatar p.avatar;
  signature = or_kept update.signature p.signature;
  album_photos = update.album_photos;
  cover_url = or_kept update.cover_url 0;
}

abbrev pub close_apply : ℕ → Option ℕ → ProfileReviewApply → ProfileReviewApply
close_apply now reviewer a = record a {
  status = completed;
  completed_at = some now;
  completed_by = reviewer;
}

unfoldable pub write_applied :
    Applied
    → (id now : ℕ) → Option ℕ
    → ProfileReviewApply
    → ReviewTables
    → ReviewTables × ReviewReply
write_applied (refused e) id now reviewer a t = (t, not_applied e)
write_applied (ok update) id now reviewer a t = (
  record {
    profiles = alter a.user_id (write_profile update) t.profiles;
    applies = alter id (close_apply now reviewer) t.applies;
  },
  done,
)

abbrev pub for_user :
    Option Snapshot
    → (id now : ℕ) → Option ℕ
    → ProfileReviewApply
    → ReviewTables
    → ReviewTables × ReviewReply
for_user none id now reviewer a t = (t, no_user)
for_user (some p) id now reviewer a t =
    write_applied
      (apply_approved_profile_review_items a.before_snapshot a.after_snapshot a.review_items) id now
      reviewer a t

abbrev pub complete_after :
    Option ProfileReviewApply → (id now : ℕ) → Option ℕ → ReviewTables → ReviewTables × ReviewReply
complete_after row id now reviewer t =
    on_open row
      (λ a.
        if review_items_have_pending a.review_items
        then (t, items_pending)
        else for_user (lookup a.user_id t.profiles) id now reviewer a t)
      t

unfoldable pub complete_profile_review :
    (id now : ℕ) → Option ℕ → ReviewTables → ReviewTables × ReviewReply
complete_profile_review id now reviewer t = complete_after (lookup id t.applies) id now reviewer t
