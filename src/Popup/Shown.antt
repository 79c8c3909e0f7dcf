-- ===== src/Popup/Shown.antt =====
-- What a user who asks for popups is shown.
use new1v.Prelude.{
  ℕ, zero, suc, ◌≤◌, ◌≡◌, refl, sym, subst, Bool, true, false, not, ◌||◌, ◌&&◌, Option, none, some,
  List, [], ◌∷◌, ◌==◌, is_some, arith, inl, inr, Bool-cases, if-both,
}
use new1v.Prelude.Dict.{lookup}
use new1v.Calendar.{DateTime}
use new1v.Schedule.{Result, ok, err, ◌>>=◌, no_launch_id}
use new1v.Popup.{
  PopupTask, SystemPopup, PopupReceipt, PopupTables, PullMode, startup, pending, is_user_targeted,
}
use new1v.Popup.Pull.{is_receipt_of, materialize_due_popups_for_user}
use new1v.Popup.Fetch.{
  Shown, popup_matches_pull_mode, if_targeted, of_task, of_popup, candidate_of, is_unacked,
  add_found, candidates, is_newer, insert_newest, sort_newest, first, fetch_user_unacked_popups,
  first_found, then_fetch, fetch_startup_popups_for_user, fetch_pending_popups_for_user,
}

abbrev pub All : (Shown → Type 0) → List Shown → Type 0
All P [] = Unit
All P (x ∷ xs) = P x × All P xs

abbrev pub count : List Shown → ℕ
count [] = 0
count (x ∷ xs) = suc (count xs)

module _ (P : Shown → Type 0) where
  insert_newest-All : (x : Shown) (xs : List Shown) → P x → All P xs → All P (insert_newest x xs)
  unfolding insert_newest
  insert_newest-All x [] p ps = (p, tt)
  insert_newest-All x (y ∷ ys) p ps =
      if-both (All P) (is_newer y x) (y ∷ insert_newest x ys) (x ∷ (y ∷ ys))
        (ps.0, insert_newest-All x ys p ps.1) (p, ps)

  sort_newest-All : (xs : List Shown) → All P xs → All P (sort_newest xs)
  unfolding sort_newest
  sort_newest-All [] ps = tt
  sort_newest-All (x ∷ xs) ps = insert_newest-All x (sort_newest xs) ps.0 (sort_newest-All xs ps.1)

  first-All : (n : ℕ) (xs : List Shown) → All P xs → All P (first n xs)
  unfolding first
  first-All zero xs ps = tt
  first-All (suc n) [] ps = tt
  first-All (suc n) (x ∷ xs) ps = (ps.0, first-All n xs ps.1)

All-map : (P Q : Shown → Type 0) (xs : List Shown) → ((x : Shown) → P x → Q x) → All P xs → All Q xs
All-map P Q [] f ps = tt
All-map P Q (x ∷ xs) f ps = (f x ps.0, All-map P Q xs f ps.1)

count-first : (n : ℕ) (xs : List Shown) → count (first n xs) ≤ n
unfolding first
count-first zero xs = omega arith
count-first (suc n) [] = omega arith
count-first (suc n) (x ∷ xs) = omega (arith, count-first n xs)

-- The user has a receipt for the popup that is not acknowledged.
abbrev pub has_unacked : (popup_id user_id : ℕ) → List PopupReceipt → Bool
has_unacked popup_id user_id [] = false
has_unacked popup_id user_id (r ∷ rs) =
    (is_receipt_of popup_id user_id r && not (is_some r.ack_at)) || has_unacked popup_id user_id rs

-- The popup belongs to a task that runs, is sent in this mode and is meant for the user.
pub record IsLive (user_id : ℕ) (mode : PullMode) (t : PopupTables) (popup_id : ℕ) : Type 0 where
  pub popup : SystemPopup
  pub found : lookup popup_id t.popups ≡ some popup
  pub task : PopupTask
  pub of_it : lookup popup.task_id t.tasks ≡ some task
  pub sent : popup_matches_pull_mode task mode ≡ true
  pub targeted : is_user_targeted user_id task t.users ≡ ok true

pub record IsShown (user_id : ℕ) (mode : PullMode) (t : PopupTables) (rs : List PopupReceipt)
    (s : Shown) : Type 0 where
  pub unacked : has_unacked s.0 user_id rs ≡ true
  pub live : IsLive user_id mode t s.0

module _ (user_id : ℕ) (mode : PullMode) (t : PopupTables) where
  abbrev IsOf : ℕ → Result (Option Shown) → Type 0
  IsOf id (err e) = Unit
  IsOf id (ok none) = Unit
  IsOf id (ok (some s)) = (s.0 ≡ id) × IsLive user_id mode t id

  of_task-IsOf :
      (id : ℕ) (popup : SystemPopup) (found : Option PopupTask)
      → lookup id t.popups ≡ some popup
      → lookup popup.task_id t.tasks ≡ found
      → IsOf id (of_task user_id mode t (id, popup.published_at) found)
  of_task-IsOf id popup none e f = tt
  of_task-IsOf id popup (some task) e f = elim (Bool-cases (popup_matches_pull_mode task mode)) [
    | inr g ↦ rw g tt
    | inl g ↦ rw g (by_target (is_user_targeted user_id task t.users) g refl)
  ]
    where
      by_target :
          (r : Result Bool)
          → popup_matches_pull_mode task mode ≡ true
          → is_user_targeted user_id task t.users ≡ r
          → IsOf id (r >>= if_targeted (id, popup.published_at))
      by_target (err x) g h = tt
      by_target (ok false) g h = tt
      by_target (ok true) g h = (
        refl,
        record { popup = popup; found = e; task = task; of_it = f; sent = g; targeted = h },
      )

  candidate_of-IsOf : (r : PopupReceipt) → IsOf r.popup_id (candidate_of user_id mode t r)
  unfolding candidate_of
  candidate_of-IsOf r = by_popup (lookup r.popup_id t.popups) refl
    where
      by_popup :
          (o : Option SystemPopup)
          → lookup r.popup_id t.popups ≡ o
          → IsOf r.popup_id (of_popup user_id mode t r.popup_id o)
      by_popup none e = tt
      by_popup (some popup) e = of_task-IsOf r.popup_id popup (lookup popup.task_id t.tasks) e refl

  abbrev AllShown : List PopupReceipt → Result (List Shown) → Type 0
  AllShown rs (err e) = Unit
  AllShown rs (ok found) = All (IsShown user_id mode t rs) found

  more :
      (r : PopupReceipt) (rs : List PopupReceipt) (found : Result (List Shown))
      → AllShown rs found
      → AllShown (r ∷ rs) found
  more r rs (err e) ps = tt
  more r rs (ok found) ps =
      All-map (IsShown user_id mode t rs) (IsShown user_id mode t (r ∷ rs)) found
        (λ s p. record { unacked = ground (arith, p.unacked); live = p.live }) ps

  add_found-All :
      (r : PopupReceipt) (rs : List PopupReceipt) (c : Result (Option Shown))
      (found : Result (List Shown))
      → is_unacked user_id r ≡ true
      → IsOf r.popup_id c
      → AllShown rs found
      → AllShown (r ∷ rs) (c >>= add_found found)
  add_found-All r rs (err e) found u p ps = tt
  add_found-All r rs (ok c) (err e) u p ps = tt
  add_found-All r rs (ok none) (ok found) u p ps = more r rs (ok found) ps
  add_found-All r rs (ok (some s)) (ok found) u p ps = (
    record { unacked = ground (arith, u, p.0); live = subst (IsLive user_id mode t) (sym p.0) p.1 },
    more r rs (ok found) ps,
  )

  candidates-All : (rs : List PopupReceipt) → AllShown rs (candidates user_id mode t rs)
  unfolding candidates
  candidates-All [] = tt
  candidates-All (r ∷ rs) = elim (Bool-cases (is_unacked user_id r)) [
    | inl u ↦ rw u (
        add_found-All r rs (candidate_of user_id mode t r) (candidates user_id mode t rs) u
          (candidate_of-IsOf r) (candidates-All rs))
    | inr u ↦ rw u (more r rs (candidates user_id mode t rs) (candidates-All rs))
  ]

-- What an answer to a pull may list.
abbrev pub IsAnswer :
    (user_id : ℕ) → PullMode → (limit : ℕ) → PopupTables × Result (List Shown) → Type 0
IsAnswer user_id mode limit (t, err e) = Unit
IsAnswer user_id mode limit (t, ok found) =
    (count found ≤ limit) × All (IsShown user_id mode t t.receipts) found

fetch-IsAnswer :
    (user_id : ℕ) (mode : PullMode) (limit : ℕ) (t : PopupTables)
    → IsAnswer user_id mode limit (t, fetch_user_unacked_popups user_id mode limit t)
unfolding fetch_user_unacked_popups
fetch-IsAnswer user_id mode limit t =
    limited (candidates user_id mode t t.receipts) (candidates-All user_id mode t t.receipts)
  where
    limited :
        (c : Result (List Shown))
        → AllShown user_id mode t t.receipts c
        → IsAnswer user_id mode limit (t, c >>= first_found limit)
    limited (err e) ps = tt
    limited (ok found) ps =
        let P = IsShown user_id mode t t.receipts in
        (
          count-first limit (sort_newest found),
          first-All P limit (sort_newest found) (sort_newest-All P found ps),
        )

then_fetch-IsAnswer :
    (user_id : ℕ) (mode : PullMode) (limit : ℕ) (r : PopupTables × Result ℕ)
    → IsAnswer user_id mode limit (then_fetch user_id mode limit r)
then_fetch-IsAnswer user_id mode limit (t, err e) = tt
then_fetch-IsAnswer user_id mode limit (t, ok n) = fetch-IsAnswer user_id mode limit t

-- A user who starts the app gets at most three popups, and one who asks for pending popups at most
-- ten. Each of them has, after the request, an unacknowledged receipt of this user, and belongs to
-- a task that is running, is sent in this way and is meant for this user: a task that is a draft,
-- paused, completed or cancelled shows nothing.
pub pulls-IsAnswer :
    (user_id launch_id : ℕ) (now : DateTime) (t : PopupTables)
    → IsAnswer user_id startup 3 (fetch_startup_popups_for_user user_id launch_id now t)
      × IsAnswer user_id pending 10 (fetch_pending_popups_for_user user_id now t)
unfolding fetch_startup_popups_for_user fetch_pending_popups_for_user
pulls-IsAnswer user_id launch_id now t = (
  if-both (IsAnswer user_id startup 3) (launch_id == 0) (t, err no_launch_id) _ tt
      (then_fetch-IsAnswer user_id startup 3
        (materialize_due_popups_for_user user_id startup now t)),
  then_fetch-IsAnswer user_id pending 10 (materialize_due_popups_for_user user_id pending now t),
)
