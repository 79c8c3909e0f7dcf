-- ===== src/Popup/Fetch.antt =====
-- What the app gets when it asks for popups: `_fetch_user_unacked_popups` of
-- backend/app/services/system_popup_service.py and the two requests that use it. The launch id is
-- the length of its text.
use new1v.Prelude.{
  ℕ, zero, suc, Bool, not, ◌||◌, ◌&&◌, Option, none, some, List, [], ◌∷◌, ltb, ◌==◌, is_some,
  if◌then◌else◌,
}
use new1v.Prelude.Dict.{lookup}
use new1v.Calendar.{DateTime, later}
use new1v.Schedule.{Result, ok, err, ◌>>=◌, no_launch_id}
use new1v.Popup.{
  PopupTask, SystemPopup, PopupReceipt, PopupTables, PullMode, startup, pending, is_running,
  is_sent_in, is_user_targeted,
}
use new1v.Popup.Pull.{materialize_due_popups_for_user}

-- A popup by its key and `published_at`.
abbrev pub Shown : Type 0
Shown = ℕ × DateTime

abbrev pub popup_matches_pull_mode : PopupTask → PullMode → Bool
popup_matches_pull_mode task mode = is_running task.status && is_sent_in mode task.send_mode

abbrev pub if_targeted : Shown → Bool → Result (Option Shown)
if_targeted popup targeted = ok (if targeted then some popup else none)

abbrev pub of_task :
    (user_id : ℕ) → PullMode → PopupTables → Shown → Option PopupTask → Result (Option Shown)
of_task user_id mode t popup none = ok none
of_task user_id mode t popup (some task) =
    if not (popup_matches_pull_mode task mode)
    then ok none
    else (is_user_targeted user_id task t.users >>= if_targeted popup)

abbrev pub of_popup :
    (user_id : ℕ) → PullMode → PopupTables → ℕ → Option SystemPopup → Result (Option Shown)
of_popup user_id mode t id none = ok none
of_popup user_id mode t id (some popup) =
    of_task user_id mode t (id, popup.published_at) (lookup popup.task_id t.tasks)

unfoldable pub candidate_of :
    (user_id : ℕ) → PullMode → PopupTables → PopupReceipt → Result (Option Shown)
candidate_of user_id mode t r = of_popup user_id mode t r.popup_id (lookup r.popup_id t.popups)

abbrev pub is_unacked : ℕ → PopupReceipt → Bool
is_unacked user_id r = (r.user_id == user_id) && not (is_some r.ack_at)

abbrev add_candidate : Option Shown → List Shown → List Shown
add_candidate none found = found
add_candidate (some popup) found = popup ∷ found

abbrev pub add_found : Result (List Shown) → Option Shown → Result (List Shown)
add_found (err e) c = err e
add_found (ok found) c = ok (add_candidate c found)

unfoldable pub candidates :
    (user_id : ℕ) → PullMode → PopupTables → List PopupReceipt → Result (List Shown)
candidates user_id mode t [] = ok []
candidates user_id mode t (r ∷ rs) =
    let rest = candidates user_id mode t rs in
    if is_unacked user_id r then (candidate_of user_id mode t r >>= add_found rest) else rest

-- The key of the sort: `published_at`, then the popup's key.
abbrev pub is_newer : Shown → Shown → Bool
is_newer (i, a) (j, b) = later a b || (not (later b a) && ltb j i)

unfoldable pub insert_newest : Shown → List Shown → List Shown
insert_newest x [] = x ∷ []
insert_newest x (y ∷ ys) =
    let rest = insert_newest x ys in if is_newer y x then y ∷ rest else x ∷ (y ∷ ys)

unfoldable pub sort_newest : List Shown → List Shown
sort_newest [] = []
sort_newest (x ∷ xs) = insert_newest x (sort_newest xs)

unfoldable pub first : ℕ → List Shown → List Shown
first zero xs = []
first (suc n) [] = []
first (suc n) (x ∷ xs) = x ∷ first n xs

abbrev pub first_found : ℕ → List Shown → Result (List Shown)
first_found limit found = ok (first limit (sort_newest found))

unfoldable pub fetch_user_unacked_popups :
    (user_id : ℕ) → PullMode → (limit : ℕ) → PopupTables → Result (List Shown)
fetch_user_unacked_popups user_id mode limit t =
    candidates user_id mode t t.receipts >>= first_found limit

abbrev pub startup_popup_return_limit : ℕ
startup_popup_return_limit = 3

abbrev pending_popup_return_limit : ℕ
pending_popup_return_limit = 10

abbrev pub then_fetch :
    (user_id : ℕ)
    → PullMode
    → (limit : ℕ) → PopupTables × Result ℕ
    → PopupTables × Result (List Shown)
then_fetch user_id mode limit (t, err e) = (t, err e)
then_fetch user_id mode limit (t, ok n) = (t, fetch_user_unacked_popups user_id mode limit t)

unfoldable pub fetch_startup_popups_for_user :
    (user_id launch_id : ℕ) → DateTime → PopupTables → PopupTables × Result (List Shown)
fetch_startup_popups_for_user user_id launch_id now t =
    if launch_id == 0
    then (t, err no_launch_id)
    else then_fetch user_id startup startup_popup_return_limit
        (materialize_due_popups_for_user user_id startup now t)

unfoldable pub fetch_pending_popups_for_user :
    (user_id : ℕ) → DateTime → PopupTables → PopupTables × Result (List Shown)
fetch_pending_popups_for_user user_id now t =
    then_fetch user_id pending pending_popup_return_limit
      (materialize_due_popups_for_user user_id pending now t)
