-- ===== src/Popup/Acked.antt =====
-- A popup that its user has acknowledged is not shown to that user again.
use new1v.Prelude.{
  ℕ, ◌≡◌, ◌∙◌, refl, sym, Bool, true, false, ◌||◌, none, List, [], ◌∷◌, ◌==◌, is_some, arith, inl,
  inr, Bool-cases,
}
use new1v.Calendar.{DateTime}
use new1v.Schedule.{Result, ok, err}
use new1v.Popup.{PopupReceipt, PopupTables, PullMode, startup, pending}
use new1v.Popup.Pull.{is_receipt_of, find_receipt, new_receipt, ack_in, ack_user_popup}
use new1v.Popup.Fetch.{Shown, fetch_startup_popups_for_user, fetch_pending_popups_for_user}
use new1v.Popup.Grows.{ReceiptEdits, here, added, acked}
use new1v.Popup.Steps.{start_app, pull, Steps, next, Steps-Grows}
use new1v.Popup.Unique.{UniqueReceipts, IsUnique}
use new1v.Popup.Shown.{All, has_unacked, IsShown, IsAnswer, pulls-IsAnswer}

-- The user has a receipt for the popup, and none that is not acknowledged.
record IsAcked (p u : ℕ) (rs : List PopupReceipt) : Type 0 where
  there : is_some (find_receipt p u rs) ≡ true
  read : has_unacked p u rs ≡ false

none-has_unacked :
    (p u : ℕ) (rs : List PopupReceipt) → find_receipt p u rs ≡ none → has_unacked p u rs ≡ false
unfolding find_receipt
none-has_unacked p u [] e = refl
none-has_unacked p u (r ∷ rs) e = ground (arith, e, none-has_unacked p u rs)

-- Two receipts for the same popup and user are found together.
find-same :
    (r : PopupReceipt) (p u : ℕ) (rs : List PopupReceipt)
    → is_receipt_of p u r ≡ true
    → find_receipt r.popup_id r.user_id rs ≡ find_receipt p u rs
find-same r p u rs e = grind (arith, e)

ack_in-IsAcked :
    (p u : ℕ) (now : DateTime) (rs : List PopupReceipt)
    → UniqueReceipts rs
    → is_some (find_receipt p u rs) ≡ true
    → IsAcked p u (ack_in p u now rs)
unfolding find_receipt ack_in
ack_in-IsAcked p u now [] w e = absurd (ground (arith, e))
ack_in-IsAcked p u now (r ∷ rs) w e = elim (Bool-cases (is_receipt_of p u r)) [
  | inl f ↦
      let clear = none-has_unacked p u rs (sym (find-same r p u rs f) ∙ w.0) in
      elim (Bool-cases (is_some r.ack_at)) [
        | inl g ↦ record { there = ground (arith, f, g); read = ground (arith, f, g, clear) }
        | inr g ↦ record { there = ground (arith, f, g); read = ground (arith, f, g, clear) }
      ]
  | inr f ↦
      let rest = ack_in-IsAcked p u now rs w.1 (ground (arith, f, e)) in
      record { there = ground (arith, f, rest.there); read = ground (arith, f, rest.read) }
]

added-IsAcked :
    (p u q v : ℕ) (now : DateTime) (rs : List PopupReceipt)
    → find_receipt q v rs ≡ none
    → IsAcked p u rs
    → IsAcked p u (new_receipt q v now ∷ rs)
unfolding find_receipt
added-IsAcked p u q v now rs n a = elim (Bool-cases (is_receipt_of p u (new_receipt q v now))) [
  | inl f ↦ absurd (clash (find-same (new_receipt q v now) p u rs f))
  | inr f ↦ record { there = ground (arith, f, a.there); read = ground (arith, f, a.read) }
]
  where
    clash : find_receipt q v rs ≡ find_receipt p u rs → ⊥
    clash e = ground (arith, e, n, a.there)

pub find-ack_in :
    (p u q v : ℕ) (now : DateTime) (rs : List PopupReceipt)
    → is_some (find_receipt p u rs) ≡ true
    → is_some (find_receipt p u (ack_in q v now rs)) ≡ true
unfolding find_receipt ack_in
find-ack_in p u q v now [] e = e
find-ack_in p u q v now (r ∷ rs) e = ground (arith, e, find-ack_in p u q v now rs)

has_unacked-ack_in :
    (p u q v : ℕ) (now : DateTime) (rs : List PopupReceipt)
    → has_unacked p u rs ≡ false
    → has_unacked p u (ack_in q v now rs) ≡ false
unfolding ack_in
has_unacked-ack_in p u q v now [] e = refl
has_unacked-ack_in p u q v now (r ∷ rs) e = ground (arith, e, has_unacked-ack_in p u q v now rs)

ReceiptEdits-IsAcked :
    (p u : ℕ) {rs ss : List PopupReceipt} → ReceiptEdits rs ss → IsAcked p u rs → IsAcked p u ss
ReceiptEdits-IsAcked p u here a = a
ReceiptEdits-IsAcked p u (added e q v now n) a =
    added-IsAcked p u q v now _ n (ReceiptEdits-IsAcked p u e a)
ReceiptEdits-IsAcked p u (acked e q v now) a =
    let b = ReceiptEdits-IsAcked p u e a in
    record {
      there = find-ack_in p u q v now _ b.there;
      read = has_unacked-ack_in p u q v now _ b.read;
    }

abbrev lists : ℕ → List Shown → Bool
lists p [] = false
lists p ((id, at) ∷ found) = (p == id) || lists p found

-- The answer lists the popup.
abbrev pub shows : ℕ → Result (List Shown) → Bool
shows p (err e) = false
shows p (ok found) = lists p found

not_listed :
    (p u : ℕ) (mode : PullMode) (t : PopupTables) (found : List Shown)
    → has_unacked p u t.receipts ≡ false
    → All (IsShown u mode t t.receipts) found
    → lists p found ≡ false
not_listed p u mode t [] e ps = refl
not_listed p u mode t ((id, at) ∷ found) e ps =
    let rest = not_listed p u mode t found e ps.1 in
    elim (Bool-cases (p == id)) [
      | inl f ↦ absurd (clash f ps.0.unacked)
      | inr f ↦ ground (arith, f, rest)
    ]
  where
    clash : (p == id) ≡ true → has_unacked id u t.receipts ≡ true → ⊥
    clash f g = grind (arith, e, f, g)

answer_not_shows :
    (p u : ℕ) (mode : PullMode) (limit : ℕ) (r : PopupTables × Result (List Shown))
    → IsAcked p u r.0.receipts
    → IsAnswer u mode limit r
    → shows p r.1 ≡ false
answer_not_shows p u mode limit (t, err e) a s = refl
answer_not_shows p u mode limit (t, ok found) a s = not_listed p u mode t found a.read s.1

-- No two receipts are for the same popup and user, and a user acknowledges a popup. Then, whatever
-- the users and the administrators ask for in between, neither starting the app nor asking for
-- pending popups shows that popup to that user again.
pub acked_not_shown :
    (user_id popup_id launch_id : ℕ) (now later : DateTime) {t u : PopupTables}
    → IsUnique t
    → (ack_user_popup user_id popup_id now t).1 ≡ true
    → Steps (ack_user_popup user_id popup_id now t).0 u
    → (shows popup_id (fetch_startup_popups_for_user user_id launch_id later u).1 ≡ false)
      × (shows popup_id (fetch_pending_popups_for_user user_id later u).1 ≡ false)
unfolding ack_user_popup
acked_not_shown user_id popup_id launch_id now later {t} {u} w found steps =
    let start = ack_in-IsAcked popup_id user_id now t.receipts w.receipts found in
    let answers = pulls-IsAnswer user_id launch_id later u in
    (
      answer_not_shows popup_id user_id startup 3 _
          (after (next steps (start_app user_id launch_id later)) start) answers.0,
      answer_not_shows popup_id user_id pending 10 _ (after (next steps (pull user_id later)) start)
          answers.1,
    )
  where
    after :
        {v : PopupTables}
        → Steps (ack_user_popup user_id popup_id now t).0 v
        → IsAcked popup_id user_id (ack_in popup_id user_id now t.receipts)
        → IsAcked popup_id user_id v.receipts
    after s = ReceiptEdits-IsAcked popup_id user_id (Steps-Grows s).receipts
