-- ===== src/Popup/Unique.antt =====
-- No popup and no receipt is made twice: what the unique columns of the two tables ask for.
use new1v.Prelude.{ℕ, ◌≡◌, refl, none, List, [], ◌∷◌, is_some, arith, inl, inr, Bool-cases}
use new1v.Prelude.Dict.{Dict}
use new1v.Calendar.{DateTime}
use new1v.Popup.{SystemPopup, PopupReceipt, PopupTables}
use new1v.Popup.Pull.{find_popup, is_receipt_of, find_receipt, ack_in}
use new1v.Popup.Grows.{ReceiptEdits, PopupEdits, here, added, acked}
use new1v.Popup.Steps.{Steps, Steps-Grows}

-- No two popups have a run key in common.
abbrev pub UniqueRuns : Dict SystemPopup → Type 0
UniqueRuns [] = Unit
UniqueRuns ((id, p) ∷ ps) = (find_popup p.task_id p.scheduled_run_at ps ≡ none) × UniqueRuns ps

-- No two receipts are for the same popup and user.
abbrev pub UniqueReceipts : List PopupReceipt → Type 0
UniqueReceipts [] = Unit
UniqueReceipts (r ∷ rs) = (find_receipt r.popup_id r.user_id rs ≡ none) × UniqueReceipts rs

pub record IsUnique (t : PopupTables) : Type 0 where
  pub runs : UniqueRuns t.popups
  pub receipts : UniqueReceipts t.receipts

find_receipt-ack_in :
    (p u q v : ℕ) (now : DateTime) (rs : List PopupReceipt)
    → find_receipt p u rs ≡ none
    → find_receipt p u (ack_in q v now rs) ≡ none
unfolding find_receipt ack_in
find_receipt-ack_in p u q v now [] e = refl
find_receipt-ack_in p u q v now (r ∷ rs) e = ground (arith, e, find_receipt-ack_in p u q v now rs)

ack_in-UniqueReceipts :
    (q v : ℕ) (now : DateTime) (rs : List PopupReceipt)
    → UniqueReceipts rs
    → UniqueReceipts (ack_in q v now rs)
unfolding ack_in
ack_in-UniqueReceipts q v now [] w = tt
ack_in-UniqueReceipts q v now (r ∷ rs) w = elim (Bool-cases (is_receipt_of q v r)) [
  | inl e ↦ rw e (elim (Bool-cases (is_some r.ack_at)) [ inl f ↦ rw f w | inr f ↦ rw f w ])
  | inr e ↦ rw e (
    find_receipt-ack_in r.popup_id r.user_id q v now rs w.0,
    ack_in-UniqueReceipts q v now rs w.1,
  )
]

ReceiptEdits-UniqueReceipts :
    {rs ss : List PopupReceipt} → ReceiptEdits rs ss → UniqueReceipts rs → UniqueReceipts ss
ReceiptEdits-UniqueReceipts here w = w
ReceiptEdits-UniqueReceipts (added e p u now n) w = (n, ReceiptEdits-UniqueReceipts e w)
ReceiptEdits-UniqueReceipts (acked e p u now) w =
    ack_in-UniqueReceipts p u now _ (ReceiptEdits-UniqueReceipts e w)

PopupEdits-UniqueRuns :
    {ps qs : Dict SystemPopup} → PopupEdits ps qs → UniqueRuns ps → UniqueRuns qs
PopupEdits-UniqueRuns here w = w
PopupEdits-UniqueRuns (added e id task_id at now n) w = (n, PopupEdits-UniqueRuns e w)

-- Whatever the app's users and the administrators ask for, in any order: if no two popups have the
-- same run key and no two receipts are for the same popup and user, that stays so. So a user gets
-- at most one receipt for an occurrence of a task, however often the app asks.
pub Steps-IsUnique : {t u : PopupTables} → Steps t u → IsUnique t → IsUnique u
Steps-IsUnique steps w =
    let g = Steps-Grows steps in
    record {
      runs = PopupEdits-UniqueRuns g.popups w.runs;
      receipts = ReceiptEdits-UniqueReceipts g.receipts w.receipts;
    }
