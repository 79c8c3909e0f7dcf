-- ===== src/ProfileReview/Approved.antt =====
-- Approving everything that an edit asks for.
use new1v.Prelude.{
  ℕ, ◌+◌, ◌≡◌, ◌≢◌, refl, true, false, ◌&&◌, ◌||◌, Option, none, some, List, [], ◌∷◌, ◌++◌, ◌==◌,
  if◌then◌else◌, arith, inl, inr, Bool-cases, ap, ◌∙◌, ==_iff,
}
use new1v.Prelude.Dict.{lookup, alter, lookup-alter_self}
use new1v.ProfileReview.{
  Snapshot, ItemId, nickname_item, avatar_item, signature_item, approved, ReviewItem, ProfileUpdate,
  ok, mem, keep_new, normalize_snapshot, simple_item, album_items, items_between,
  build_profile_review_payload, mark_all_review_items, approved_after, approved_additions,
  final_album, longer_than_six, apply_approved_profile_review_items, is_album, same_id, album_item,
  review_items_have_pending,
}
use new1v.ProfileReview.Album.{IsFresh, keep_new-IsFresh, keep_new-fresh, final_album-fresh}
use new1v.ProfileReview.Completed.{complete_lem}
use new1v.ProfileReview.Handlers.{
  ProfileReviewApply, ReviewTables, is_completed, or_kept, write_profile,
  mark_all_profile_review_items, complete_profile_review, put_items, submitted,
}

abbrev all_approved : Option ℕ → List ReviewItem → List ReviewItem
all_approved r items = mark_all_review_items approved r items

-- Every new photo is among the approved additions.
album_approved :
    (r : Option ℕ) (i : ℕ) (current ys : List ℕ) (x : ℕ)
    → mem x ys ≡ true
    → (mem x current || mem x (approved_additions (all_approved r (album_items i current ys))))
      ≡ true
unfolding mem album_items mark_all_review_items approved_additions
album_approved r i current [] x m = cc
album_approved r i current (y ∷ ys) x m = elim (Bool-cases (mem y current)) [
  | inl e ↦ elim (Bool-cases (x == y)) [
    | inl same ↦
        let equal : x ≡ y = (==_iff x y).0 same in
        let there : mem x current ≡ true = rw equal e in rw there refl
    | inr other ↦ rw e (album_approved r (i + 1) current ys x (ground (arith, m, other)))
  ]
  | inr e ↦ rw e (ground (arith, m, album_approved r (i + 1) current ys x))
]

album_no_field :
    (r : Option ℕ) (id : ItemId) (i : ℕ) (current ys : List ℕ)
    → is_album id ≡ false
    → approved_after id (all_approved r (album_items i current ys)) ≡ none
unfolding album_items mark_all_review_items approved_after
album_no_field r id i current [] h = refl
album_no_field r id i current (y ∷ ys) h =
    let rest = album_no_field r id (i + 1) current ys h in
    elim (Bool-cases (mem y current)) [ inl e ↦ rw e rest | inr e ↦ rw e (rw rest (other id h)) ]
  where
    other :
        (id : ItemId)
        → is_album id ≡ false
        → (if true && same_id (album_item i) id then some y else none) ≡ none
    other nickname_item h = refl
    other avatar_item h = refl
    other signature_item h = refl
    other (album_item j) h = cc

-- The three fields: an approved change is the new value, and an unchanged field has no item.
module _ (r : Option ℕ) (a a' b b' c c' : ℕ) (rest : List ReviewItem) where
  abbrev simple_items : List ReviewItem
  simple_items =
      simple_item nickname_item a a'
      ++ (simple_item avatar_item b b' ++ (simple_item signature_item c c' ++ rest))

  nickname_approved :
      approved_after nickname_item (all_approved r rest) ≡ none
      → or_kept (approved_after nickname_item (all_approved r simple_items)) a ≡ a'
  unfolding approved_after mark_all_review_items
  nickname_approved h = ground (arith, h)

  avatar_approved :
      approved_after avatar_item (all_approved r rest) ≡ none
      → or_kept (approved_after avatar_item (all_approved r simple_items)) b ≡ b'
  unfolding approved_after mark_all_review_items
  avatar_approved h = ground (arith, h)

  signature_approved :
      approved_after signature_item (all_approved r rest) ≡ none
      → or_kept (approved_after signature_item (all_approved r simple_items)) c ≡ c'
  unfolding approved_after mark_all_review_items
  signature_approved h = ground (arith, h)

  -- They bring no photo.
  simple_items_photos :
      approved_additions (all_approved r simple_items) ≡ approved_additions (all_approved r rest)
  unfolding approved_additions mark_all_review_items
  simple_items_photos = ground arith

normalize_twice : (s : Snapshot) → normalize_snapshot (normalize_snapshot s) ≡ normalize_snapshot s
unfolding normalize_snapshot
normalize_twice s =
    ap (λ x. record s { album_photos = x })
      (keep_new-fresh [] (keep_new [] s.album_photos) (keep_new-IsFresh [] s.album_photos))

no_pending :
    (r : Option ℕ) (items : List ReviewItem)
    → review_items_have_pending (all_approved r items) ≡ false
unfolding review_items_have_pending mark_all_review_items
no_pending r [] = refl
no_pending r (item ∷ items) = ground (arith, no_pending r items)

module _ (r : Option ℕ) (current target : Snapshot) where
  abbrev before : Snapshot
  before = normalize_snapshot current

  abbrev after : Snapshot
  after = normalize_snapshot target

  abbrev items' : List ReviewItem
  items' = all_approved r (items_between before after)

  after-IsFresh : IsFresh [] after.album_photos
  unfolding normalize_snapshot
  after-IsFresh = keep_new-IsFresh [] target.album_photos

  kept_album :
      final_album
        (λ x. mem x before.album_photos || mem x (approved_additions items'))
        []
        after.album_photos
      ≡ after.album_photos
  kept_album = final_album-fresh _ [] after.album_photos after-IsFresh (λ x m.
      rw
        (simple_items_photos r before.nickname after.nickname before.avatar after.avatar
          before.signature after.signature (album_items 0 before.album_photos after.album_photos))
        (album_approved r 0 before.album_photos after.album_photos x m))

  module _ (few : longer_than_six after.album_photos ≡ false)
      (cover : (after.cover_url == 0) ≡ false)
      (chosen : mem after.cover_url after.album_photos ≡ true) where
    abbrev update : ProfileUpdate
    update = record {
      nickname = approved_after nickname_item items';
      avatar = approved_after avatar_item items';
      signature = approved_after signature_item items';
      album_photos = after.album_photos;
      cover_url = some after.cover_url;
    }

    applied : apply_approved_profile_review_items before after items' ≡ ok update
    unfolding apply_approved_profile_review_items
    applied = simp (normalize_twice, kept_album, few, cover, chosen) refl

    written :
        (p : Snapshot)
        → p.nickname ≡ current.nickname
        → p.avatar ≡ current.avatar
        → p.signature ≡ current.signature
        → write_profile update p ≡ after
    unfolding normalize_snapshot
    written p n a s = λ i. record {
      nickname = nickname i;
      avatar = avatar i;
      signature = signature i;
      album_photos = after.album_photos;
      cover_url = target.cover_url;
    }
      where
        rest : List ReviewItem
        rest = album_items 0 before.album_photos after.album_photos

        nickname : or_kept (approved_after nickname_item items') p.nickname ≡ target.nickname
        nickname = rw n (
            nickname_approved r current.nickname target.nickname current.avatar target.avatar
              current.signature target.signature rest
              (album_no_field r nickname_item 0 before.album_photos after.album_photos refl))

        avatar : or_kept (approved_after avatar_item items') p.avatar ≡ target.avatar
        avatar = rw a (
            avatar_approved r current.nickname target.nickname current.avatar target.avatar
              current.signature target.signature rest
              (album_no_field r avatar_item 0 before.album_photos after.album_photos refl))

        signature : or_kept (approved_after signature_item items') p.signature ≡ target.signature
        signature = rw s (
            signature_approved r current.nickname target.nickname current.avatar target.avatar
              current.signature target.signature rest
              (album_no_field r signature_item 0 before.album_photos after.album_photos refl))

-- The tables after all items were approved.
marked :
    (id : ℕ) (r : Option ℕ) (t : ReviewTables) (a : ProfileReviewApply)
    → lookup id t.applies ≡ some a
    → is_completed a.status ≡ false
    → (mark_all_profile_review_items id approved r t).0
      ≡ record t { applies = alter id (put_items (all_approved r a.review_items)) t.applies }
unfolding mark_all_profile_review_items
marked id r t a there open_still = rw there (simp open_still refl)

module _ (id user_id now : ℕ) (r r' : Option ℕ) (current target p : Snapshot) (t : ReviewTables)
    (there : lookup id t.applies
      ≡ some (submitted user_id (build_profile_review_payload current target)))
    (row : lookup user_id t.profiles ≡ some p) (n : p.nickname ≡ current.nickname)
    (a : p.avatar ≡ current.avatar) (s : p.signature ≡ current.signature)
    (few : longer_than_six (after r current target).album_photos ≡ false)
    (cover : ((after r current target).cover_url == 0) ≡ false)
    (chosen : mem (after r current target).cover_url (after r current target).album_photos
      ≡ true) where
  completed_profile :
      lookup user_id
        (complete_profile_review id now r' (record t {
          applies =
              alter id
                (put_items
                  (all_approved r (build_profile_review_payload current target).review_items))
                t.applies;
        })).0.profiles
      ≡ some (normalize_snapshot target)
  unfolding build_profile_review_payload
  completed_profile =
      let a' = submitted user_id (build_profile_review_payload current target) in
      (complete_lem id now r' _ (put_items (items' r current target) a') p
        (update r current target few cover chosen)
        (lookup-alter_self id (put_items (items' r current target)) t.applies a' there) refl
        (no_pending r (items_between (before r current target) (after r current target))) row
        (applied r current target few cover chosen)).0
      ∙ ap some (written r current target few cover chosen p n a s)

-- An edit is submitted, all its items are approved and its review is completed, while the user's
-- nickname, avatar and signature are still those of before: the user's profile is then the one that
-- the edit asked for, its album without empty entries and repetitions. The album has six photos at
-- most, and the cover is one of them.
pub approve_all_lem :
    (id user_id now : ℕ) (r r' : Option ℕ) (current target p : Snapshot) (t : ReviewTables)
    → lookup id t.applies ≡ some (submitted user_id (build_profile_review_payload current target))
    → lookup user_id t.profiles ≡ some p
    → p.nickname ≡ current.nickname
    → p.avatar ≡ current.avatar
    → p.signature ≡ current.signature
    → longer_than_six (normalize_snapshot target).album_photos ≡ false
    → target.cover_url ≢ 0
    → mem target.cover_url (normalize_snapshot target).album_photos ≡ true
    → lookup user_id
        (complete_profile_review id now r'
          (mark_all_profile_review_items id approved r t).0).0.profiles
      ≡ some (normalize_snapshot target)
approve_all_lem id user_id now r r' current target p t there row n a s few cover chosen =
    rw (marked id r t (submitted user_id (build_profile_review_payload current target)) there refl)
      (completed_profile id user_id now r r' current target p t there row n a s few no_cover
        chosen')
  where
    no_cover : ((normalize_snapshot target).cover_url == 0) ≡ false
    no_cover = unfold normalize_snapshot in ground (arith, cover)

    chosen' :
        mem (normalize_snapshot target).cover_url (normalize_snapshot target).album_photos ≡ true
    chosen' = unfold normalize_snapshot in chosen
