-- ===== src/ProfileReview.antt =====
-- The review of profile edits: backend/app/services/profile_review_service.py and its handlers in
-- backend/app/api/v1/app_users/app_users.py. Texts and addresses are keys, 0 the empty text; they
-- are taken as trimmed and relative, as the code's normalisation leaves them.
pub mod Album
pub mod Approved
pub mod Rejected
pub mod Handlers
pub mod Completed
pub mod Reopened
use new1v.Prelude.{
  ℕ, zero, suc, ◌+◌, Bool, true, false, not, ◌&&◌, ◌||◌, Option, none, some, List, [], ◌∷◌, ◌++◌,
  ltb, ◌==◌, if◌then◌else◌,
}
use new1v.Prelude.Dict.{Dict, lookup, alter}

pub record Snapshot : Type 0 where
  pub nickname : ℕ
  pub avatar : ℕ
  pub signature : ℕ
  pub album_photos : List ℕ
  pub cover_url : ℕ

pub data ItemStatus : Type 0 where
  pending approved rejected : ItemStatus

-- `album_photos:add:{idx}` keeps its index.
pub data ItemId : Type 0 where
  nickname_item avatar_item signature_item : ItemId
  album_item : ℕ → ItemId

pub record ReviewItem : Type 0 where
  pub item_id : ItemId
  pub before : Option ℕ
  pub after : ℕ
  pub status : ItemStatus
  pub reviewed_by : Option ℕ

unfoldable pub mem : ℕ → List ℕ → Bool
mem x [] = false
mem x (y ∷ ys) = (x == y) || mem x ys

-- `normalize_media_list`: the empty text and repetitions are dropped.
unfoldable pub keep_new : List ℕ → List ℕ → List ℕ
keep_new seen [] = []
keep_new seen (x ∷ xs) =
    let rest = keep_new (x ∷ seen) xs in
    let skipped = keep_new seen xs in if (x == 0) || mem x seen then skipped else x ∷ rest

unfoldable pub normalize_snapshot : Snapshot → Snapshot
unfolding keep_new
normalize_snapshot s = record s { album_photos = keep_new [] s.album_photos }

abbrev pub new_item : ItemId → Option ℕ → ℕ → ReviewItem
new_item item_id before after = record {
  item_id = item_id;
  before = before;
  after = after;
  status = pending;
  reviewed_by = none;
}

abbrev pub simple_item : ItemId → ℕ → ℕ → List ReviewItem
simple_item item_id before after =
    if before == after then [] else new_item item_id (some before) after ∷ []

-- The photos of the new album, from index `i` on, that the old one does not have.
unfoldable pub album_items : ℕ → List ℕ → List ℕ → List ReviewItem
album_items i current [] = []
album_items i current (photo ∷ photos) =
    let rest = album_items (i + 1) current photos in
    if mem photo current then rest else new_item (album_item i) none photo ∷ rest

pub record Payload : Type 0 where
  pub before_snapshot : Snapshot
  pub after_snapshot : Snapshot
  pub review_items : List ReviewItem

abbrev pub items_between : Snapshot → Snapshot → List ReviewItem
items_between before after =
    simple_item nickname_item before.nickname after.nickname
    ++ (simple_item avatar_item before.avatar after.avatar
        ++ (simple_item signature_item before.signature after.signature
            ++ album_items 0 before.album_photos after.album_photos))

unfoldable pub build_profile_review_payload : Snapshot → Snapshot → Payload
build_profile_review_payload current target =
    let before = normalize_snapshot current in
    let after = normalize_snapshot target in
    record {
      before_snapshot = before;
      after_snapshot = after;
      review_items = items_between before after;
    }

abbrev pub is_pending : ItemStatus → Bool
is_pending pending = true
is_pending _ = false

abbrev pub is_approved : ItemStatus → Bool
is_approved approved = true
is_approved _ = false

unfoldable pub review_items_have_pending : List ReviewItem → Bool
review_items_have_pending [] = false
review_items_have_pending (item ∷ items) = is_pending item.status || review_items_have_pending items

abbrev pub same_id : ItemId → ItemId → Bool
same_id nickname_item nickname_item = true
same_id avatar_item avatar_item = true
same_id signature_item signature_item = true
same_id (album_item i) (album_item j) = i == j
same_id _ _ = false

unfoldable pub has_item : ItemId → List ReviewItem → Bool
has_item item_id [] = false
has_item item_id (item ∷ items) = same_id item.item_id item_id || has_item item_id items

abbrev pub set_status : ItemStatus → Option ℕ → ReviewItem → ReviewItem
set_status status reviewer item = record item { status = status; reviewed_by = reviewer }

unfoldable pub set_item : ItemId → ItemStatus → Option ℕ → List ReviewItem → List ReviewItem
set_item item_id status reviewer [] = []
set_item item_id status reviewer (item ∷ items) =
    (if same_id item.item_id item_id then set_status status reviewer item else item)
    ∷ set_item item_id status reviewer items

-- `none` where no item has the key.
unfoldable pub update_review_item_status :
    ItemId → ItemStatus → Option ℕ → List ReviewItem → Option (List ReviewItem)
update_review_item_status item_id status reviewer items =
    if has_item item_id items then some (set_item item_id status reviewer items) else none

unfoldable pub mark_all_review_items : ItemStatus → Option ℕ → List ReviewItem → List ReviewItem
mark_all_review_items status reviewer [] = []
mark_all_review_items status reviewer (item ∷ items) =
    (if is_pending item.status then set_status status reviewer item else item)
    ∷ mark_all_review_items status reviewer items

-- `approved_map.get(item_id)`: of items with one key the last counts.
unfoldable pub approved_after : ItemId → List ReviewItem → Option ℕ
approved_after item_id [] = none
approved_after item_id (item ∷ items) = elim (approved_after item_id items) [
  | some after ↦ some after
  | none ↦ if is_approved item.status && same_id item.item_id item_id then some item.after else none
]

abbrev pub is_album : ItemId → Bool
is_album (album_item i) = true
is_album _ = false

unfoldable pub approved_additions : List ReviewItem → List ℕ
approved_additions [] = []
approved_additions (item ∷ items) =
    if is_album item.item_id && is_approved item.status
    then item.after ∷ approved_additions items
    else approved_additions items

-- The loop over the new album with what it has kept.
unfoldable pub final_album : (allowed : ℕ → Bool) → (seen : List ℕ) → List ℕ → List ℕ
final_album allowed seen [] = []
final_album allowed seen (photo ∷ photos) =
    let taken = final_album allowed (photo ∷ seen) photos in
    let skipped = final_album allowed seen photos in
    if allowed photo && not (mem photo seen) then photo ∷ taken else skipped

pub record ProfileUpdate : Type 0 where
  pub nickname : Option ℕ
  pub avatar : Option ℕ
  pub signature : Option ℕ
  pub album_photos : List ℕ
  pub cover_url : Option ℕ

pub data ProfileError : Type 0 where
  too_many_photos cover_not_in_album : ProfileError

pub data Applied : Type 0 where
  ok : ProfileUpdate → Applied
  refused : ProfileError → Applied

unfoldable pub longer_than_six : List ℕ → Bool
longer_than_six (a ∷ (b ∷ (c ∷ (d ∷ (e ∷ (f ∷ (g ∷ rest))))))) = true
longer_than_six _ = false

abbrev pub first_of : List ℕ → Option ℕ
first_of [] = none
first_of (x ∷ xs) = some x

abbrev pub final_cover : (target current : ℕ) → List ℕ → Option ℕ
final_cover target current album =
    if not (target == 0) && mem target album
    then some target
    else if not (current == 0) && mem current album
    then some current
    else first_of album

abbrev pub cover_missing : Option ℕ → List ℕ → Bool
cover_missing none album = false
cover_missing (some cover) album = not (cover == 0) && not (mem cover album)

unfoldable pub apply_approved_profile_review_items : Snapshot → Snapshot → List ReviewItem → Applied
apply_approved_profile_review_items before after items =
    let before' = normalize_snapshot before in
    let after' = normalize_snapshot after in
    let additions = approved_additions items in
    let album =
      final_album (λ photo. mem photo before'.album_photos || mem photo additions) []
        after'.album_photos in
    let cover = final_cover after'.cover_url before'.cover_url album in
    if longer_than_six album
    then refused too_many_photos
    else if cover_missing cover album
    then refused cover_not_in_album
    else ok (record {
      nickname = approved_after nickname_item items;
      avatar = approved_after avatar_item items;
      signature = approved_after signature_item items;
      album_photos = album;
      cover_url = cover;
    })
