-- ===== src/ProfileReview/Rejected.antt =====
-- What is not approved does not get in.
use new1v.Prelude.{
  ℕ, ◌≡◌, ◌⊎◌, Bool, true, not, ◌&&◌, ◌||◌, Option, some, List, [], ◌∷◌, ◌==◌, arith, inl, inr,
  Bool-cases, Option-cases, ◌∙◌, if-both, subst,
}
use new1v.ProfileReview.{
  Snapshot, ItemId, nickname_item, avatar_item, signature_item, ReviewItem, ProfileUpdate, Applied,
  ok, refused, too_many_photos, cover_not_in_album, mem, normalize_snapshot, is_approved, is_album,
  same_id, approved_after, approved_additions, final_album, final_cover, longer_than_six,
  cover_missing, first_of, apply_approved_profile_review_items,
}
use new1v.ProfileReview.Album.{final_album-allowed}

-- An approved item that asks for `value`, with a key of the kind that `test` accepts, is among the
-- items.
abbrev pub Approves : (test : ItemId → Bool) → (value : ℕ) → List ReviewItem → Type 0
Approves test value [] = ⊥
Approves test value (item ∷ items) =
    ((test item.item_id ≡ true) × (is_approved item.status ≡ true) × (item.after ≡ value))
    ⊎ Approves test value items

abbrev pub is_for : ItemId → ItemId → Bool
is_for id other = same_id other id

approved_after-Approves :
    (id : ItemId) (value : ℕ) (items : List ReviewItem)
    → approved_after id items ≡ some value
    → Approves (is_for id) value items
unfolding approved_after
approved_after-Approves id value [] h = cc
approved_after-Approves id value (item ∷ items) h = elim (Option-cases (approved_after id items)) [
  | inr (v, e) ↦
      inr (approved_after-Approves id value items (e ∙ ground (arith, rw (e, approved_after) at h)))
  | inl e ↦ inl (ground (arith, e, h))
]

approved_additions-Approves :
    (photo : ℕ) (items : List ReviewItem)
    → mem photo (approved_additions items) ≡ true
    → Approves is_album photo items
unfolding approved_additions mem
approved_additions-Approves photo [] h = cc
approved_additions-Approves photo (item ∷ items) h =
    elim (Bool-cases (is_album item.item_id && is_approved item.status)) [
      | inr e ↦ inr (approved_additions-Approves photo items (rw e at h))
      | inl e ↦ elim (Bool-cases (photo == item.after)) [
        | inl same ↦ inl (ground (arith, e), ground (arith, e), ground (arith, same))
        | inr other ↦
            inr (approved_additions-Approves photo items (ground (arith, rw e at h, other)))
      ]
    ]

-- Every change of the update is asked for by an approved item; the cover is a photo of the album.
pub record IsApprovedOnly (before : Snapshot) (items : List ReviewItem) (update : ProfileUpdate)
    : Type 0 where
  pub nickname :
      (value : ℕ) → update.nickname ≡ some value → Approves (is_for nickname_item) value items
  pub avatar : (value : ℕ) → update.avatar ≡ some value → Approves (is_for avatar_item) value items
  pub signature :
      (value : ℕ) → update.signature ≡ some value → Approves (is_for signature_item) value items
  pub photos :
      (photo : ℕ)
      → mem photo update.album_photos ≡ true
      → (mem photo (normalize_snapshot before).album_photos ≡ true) ⊎ Approves is_album photo items
  pub cover : (value : ℕ) → update.cover_url ≡ some value → mem value update.album_photos ≡ true

-- The cover is a photo of the final album.
final_cover-mem :
    (target current value : ℕ) (album : List ℕ)
    → final_cover target current album ≡ some value
    → mem value album ≡ true
unfolding mem
final_cover-mem target current value album =
    elim (Bool-cases (not (target == 0) && mem target album)) [
      | inl e ↦ rw e (λ h. ground (arith, e, h))
      | inr e ↦ elim (Bool-cases (not (current == 0) && mem current album)) [
        | inl f ↦ rw (e, f) (λ h. ground (arith, f, h))
        | inr f ↦ rw (e, f) (first album)
      ]
    ]
  where
    first : (xs : List ℕ) → first_of xs ≡ some value → mem value xs ≡ true
    first [] h = cc
    first (x ∷ xs) h = ground (arith, h)

abbrev OnlyApproved : Snapshot → List ReviewItem → Applied → Type 0
OnlyApproved before items x =
    (update : ProfileUpdate) → x ≡ ok update → IsApprovedOnly before items update

ok-eq : {a b : ProfileUpdate} → ok a ≡ ok b → a ≡ b
ok-eq h = cc

-- Whatever was reviewed, and however: the update that a review leads to sets the nickname, the avatar
-- or the signature only to what an approved item for that field asks for; its album holds only
-- photos of the album before and photos that an approved item adds; and its cover, if any, is a
-- photo of that album.
pub apply_approved-IsApprovedOnly :
    (before after : Snapshot) (items : List ReviewItem) (update : ProfileUpdate)
    → apply_approved_profile_review_items before after items ≡ ok update
    → IsApprovedOnly before items update
unfolding apply_approved_profile_review_items
apply_approved-IsApprovedOnly before after items update =
    if-both (OnlyApproved before items) (longer_than_six album) (refused too_many_photos) _
      (λ u h. cc)
      (if-both (OnlyApproved before items) (cover_missing cover album) (refused cover_not_in_album)
        (ok made) (λ u h. cc) (λ u h. subst (IsApprovedOnly before items) (ok-eq h) granted))
      update
  where
    allowed : ℕ → Bool
    allowed photo =
        mem photo (normalize_snapshot before).album_photos || mem photo (approved_additions items)

    album : List ℕ
    album = final_album allowed [] (normalize_snapshot after).album_photos

    cover : Option ℕ
    cover =
        final_cover (normalize_snapshot after).cover_url (normalize_snapshot before).cover_url album

    made : ProfileUpdate
    made = record {
      nickname = approved_after nickname_item items;
      avatar = approved_after avatar_item items;
      signature = approved_after signature_item items;
      album_photos = album;
      cover_url = cover;
    }

    granted : IsApprovedOnly before items made
    granted = record {
      nickname = λ v h. approved_after-Approves nickname_item v items h;
      avatar = λ v h. approved_after-Approves avatar_item v items h;
      signature = λ v h. approved_after-Approves signature_item v items h;
      photos = λ photo m. elim (Bool-cases (mem photo (normalize_snapshot before).album_photos)) [
        | inl e ↦ inl e
        | inr e ↦
            let a =
              final_album-allowed allowed [] (normalize_snapshot after).album_photos photo m in
            inr (approved_additions-Approves photo items (ground (arith, a, e)))
      ];
      cover = λ v h.
          final_cover-mem (normalize_snapshot after).cover_url (normalize_snapshot before).cover_url
            v album h;
    }
