-- ===== src/ProfileReview/Album.antt =====
-- Albums: what normalising leaves, and what the final album keeps of it.
use new1v.Prelude.{
  ℕ, ◌≡◌, refl, Bool, true, false, not, ◌&&◌, ◌||◌, List, [], ◌∷◌, ◌==◌, arith, inl, inr,
  Bool-cases, ap, ==_iff,
}
use new1v.ProfileReview.{mem, keep_new, final_album}

-- No empty text, nothing of `seen`, and nothing twice.
abbrev pub IsFresh : List ℕ → List ℕ → Type 0
IsFresh seen [] = Unit
IsFresh seen (x ∷ xs) = (((x == 0) || mem x seen) ≡ false) × IsFresh (x ∷ seen) xs

pub keep_new-IsFresh : (seen xs : List ℕ) → IsFresh seen (keep_new seen xs)
unfolding keep_new
keep_new-IsFresh seen [] = tt
keep_new-IsFresh seen (x ∷ xs) = elim (Bool-cases ((x == 0) || mem x seen)) [
  | inl e ↦ rw e (keep_new-IsFresh seen xs)
  | inr e ↦ rw e (e, keep_new-IsFresh (x ∷ seen) xs)
]

pub keep_new-fresh : (seen xs : List ℕ) → IsFresh seen xs → keep_new seen xs ≡ xs
unfolding keep_new
keep_new-fresh seen [] f = refl
keep_new-fresh seen (x ∷ xs) f = rw f.0 (ap (λ r. x ∷ r) (keep_new-fresh (x ∷ seen) xs f.1))

-- A fresh album all of whose photos are allowed is kept as it is.
pub final_album-fresh :
    (allowed : ℕ → Bool) (seen xs : List ℕ)
    → IsFresh seen xs
    → ((x : ℕ) → mem x xs ≡ true → allowed x ≡ true)
    → final_album allowed seen xs ≡ xs
unfolding final_album mem
final_album-fresh allowed seen [] f h = refl
final_album-fresh allowed seen (x ∷ xs) f h =
    let here : allowed x ≡ true = h x (ground arith) in
    let new : mem x seen ≡ false = ground (arith, f.0) in
    rw (here, new)
      (ap (λ r. x ∷ r)
        (final_album-fresh allowed (x ∷ seen) xs f.1 (λ y m. h y (ground (arith, m)))))

-- Whatever the final album holds was allowed.
pub final_album-allowed :
    (allowed : ℕ → Bool) (seen xs : List ℕ) (x : ℕ)
    → mem x (final_album allowed seen xs) ≡ true
    → allowed x ≡ true
unfolding final_album mem
final_album-allowed allowed seen [] x m = cc
final_album-allowed allowed seen (y ∷ ys) x m = elim (Bool-cases (allowed y && not (mem y seen))) [
  | inr e ↦ final_album-allowed allowed seen ys x (rw e at m)
  | inl e ↦ elim (Bool-cases (x == y)) [
    | inl same ↦
        let here : allowed y ≡ true = ground (arith, e) in
        let equal : x ≡ y = (==_iff x y).0 same in rw equal here
    | inr other ↦ final_album-allowed allowed (y ∷ seen) ys x (ground (arith, rw e at m, other))
  ]
]
