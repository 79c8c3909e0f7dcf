-- ===== src/Popup/Grows.antt =====
-- What pulls and acknowledgements do to the popups and the receipts.
use new1v.Prelude.{
  ℕ, ◌≡◌, refl, Bool, true, false, ◌&&◌, Option, none, some, List, [], ◌∷◌, if-both,
}
use new1v.Prelude.Dict.{Dict}
use new1v.Calendar.{DateTime}
use new1v.Schedule.{Result, ok, err}
use new1v.Popup.{
  PopupTask, SystemPopup, PopupReceipt, PopupTables, PullMode, due_occurrence, is_user_targeted,
  is_running, is_sent_in,
}
use new1v.Popup.Pull.{
  find_popup, occurrence_popup, popup_or_new, get_or_create_popup, find_receipt, new_receipt,
  receipt_or_new, deliver_receipt, deliver_due, deliver_targeted, deliver_task, deliver_tasks,
  continue_with, ack_in,
}

-- How the receipts grow: a receipt is added where none is found, and receipts are acknowledged.
pub data ReceiptEdits (rs : List PopupReceipt) : List PopupReceipt → Type 0 where
  here : ReceiptEdits rs rs
  added :
      {ss : List PopupReceipt}
      → ReceiptEdits rs ss
      → (popup_id user_id : ℕ) (now : DateTime) → find_receipt popup_id user_id ss ≡ none
      → ReceiptEdits rs (new_receipt popup_id user_id now ∷ ss)
  acked :
      {ss : List PopupReceipt}
      → ReceiptEdits rs ss
      → (popup_id user_id : ℕ) (now : DateTime) → ReceiptEdits rs (ack_in popup_id user_id now ss)

-- How the popups grow: an occurrence is added where none with its run key is found.
pub data PopupEdits (ps : Dict SystemPopup) : Dict SystemPopup → Type 0 where
  here : PopupEdits ps ps
  added :
      {qs : Dict SystemPopup}
      → PopupEdits ps qs
      → (id task_id : ℕ) (at now : DateTime) → find_popup task_id at qs ≡ none
      → PopupEdits ps ((id, occurrence_popup task_id at now) ∷ qs)

ReceiptEdits-trans :
    {rs ss us : List PopupReceipt} → ReceiptEdits rs ss → ReceiptEdits ss us → ReceiptEdits rs us
ReceiptEdits-trans e here = e
ReceiptEdits-trans e (added f p u now n) = added (ReceiptEdits-trans e f) p u now n
ReceiptEdits-trans e (acked f p u now) = acked (ReceiptEdits-trans e f) p u now

PopupEdits-trans :
    {ps qs us : Dict SystemPopup} → PopupEdits ps qs → PopupEdits qs us → PopupEdits ps us
PopupEdits-trans e here = e
PopupEdits-trans e (added f id task_id at now n) = added (PopupEdits-trans e f) id task_id at now n

pub record Grows (t u : PopupTables) : Type 0 where
  pub popups : PopupEdits t.popups u.popups
  pub receipts : ReceiptEdits t.receipts u.receipts

pub Grows-refl : (t : PopupTables) → Grows t t
Grows-refl t = record { popups = here; receipts = here }

pub Grows-trans : {t u v : PopupTables} → Grows t u → Grows u v → Grows t v
Grows-trans g h = record {
  popups = PopupEdits-trans g.popups h.popups;
  receipts = ReceiptEdits-trans g.receipts h.receipts;
}

get_or_create_popup-Grows :
    (task_id : ℕ) (at now : DateTime) (t : PopupTables)
    → Grows t (get_or_create_popup task_id at now t).0
unfolding get_or_create_popup
get_or_create_popup-Grows task_id at now t = by_found (find_popup task_id at t.popups) refl
  where
    by_found :
        (o : Option ℕ)
        → find_popup task_id at t.popups ≡ o
        → Grows t (popup_or_new o task_id at now t).0
    by_found none e = record { popups = added here t.next_id task_id at now e; receipts = here }
    by_found (some id) e = Grows-refl t

deliver_receipt-Grows :
    (t : PopupTables) (id user_id : ℕ) (now : DateTime)
    → Grows t (deliver_receipt (t, id) user_id now).0
deliver_receipt-Grows t id user_id now = by_found (find_receipt id user_id t.receipts) refl
  where
    by_found :
        (o : Option PopupReceipt)
        → find_receipt id user_id t.receipts ≡ o
        → Grows t (record t { receipts = (receipt_or_new o id user_id now t.receipts).0 })
    by_found none e = record { popups = here; receipts = added here id user_id now e }
    by_found (some r) e = record { popups = here; receipts = here }

deliver_due-Grows :
    (user_id task_id : ℕ) (now : DateTime) (due : Result (Option DateTime)) (t : PopupTables)
    → Grows t (deliver_due user_id task_id now due t).0
unfolding deliver_due
deliver_due-Grows user_id task_id now (err e) t = Grows-refl t
deliver_due-Grows user_id task_id now (ok none) t = Grows-refl t
deliver_due-Grows user_id task_id now (ok (some at)) t =
    Grows-trans (get_or_create_popup-Grows task_id at now t) (
      deliver_receipt-Grows (get_or_create_popup task_id at now t).0
        (get_or_create_popup task_id at now t).1 user_id now)

deliver_targeted-Grows :
    (user_id : ℕ) (mode : PullMode) (now : DateTime) (id : ℕ) (task : PopupTask)
    (targeted : Result Bool) (t : PopupTables)
    → Grows t (deliver_targeted user_id mode now (id, task) targeted t).0
deliver_targeted-Grows user_id mode now id task (err e) t = Grows-refl t
deliver_targeted-Grows user_id mode now id task (ok false) t = Grows-refl t
deliver_targeted-Grows user_id mode now id task (ok true) t =
    deliver_due-Grows user_id id now (due_occurrence mode task now) t

-- From t to the tables of a result.
abbrev pub GrowsTo : PopupTables → PopupTables × Result ℕ → Type 0
GrowsTo t r = Grows t r.0

deliver_task-Grows :
    (user_id : ℕ) (mode : PullMode) (now : DateTime) (task : ℕ × PopupTask) (t : PopupTables)
    → GrowsTo t (deliver_task user_id mode now task t)
unfolding deliver_task
deliver_task-Grows user_id mode now (id, task) t =
    if-both (GrowsTo t) (is_running task.status && is_sent_in mode task.send_mode) _ (t, ok 0)
      (deliver_targeted-Grows user_id mode now id task (is_user_targeted user_id task t.users) t)
      (Grows-refl t)

continue-Grows :
    (t : PopupTables) (r : PopupTables × Result ℕ) (next : PopupTables → PopupTables × Result ℕ)
    → GrowsTo t r
    → ((u : PopupTables) → GrowsTo u (next u))
    → GrowsTo t (continue_with r next)
continue-Grows t (u, err e) next g h = g
continue-Grows t (u, ok n) next g h = Grows-trans g (same (next u) (h u))
  where
    same : (r : PopupTables × Result ℕ) → GrowsTo u r → GrowsTo u (continue_with (u, ok n) (λ _. r))
    same (v, err e) k = k
    same (v, ok m) k = k

pub deliver_tasks-Grows :
    (user_id : ℕ) (mode : PullMode) (now : DateTime) (tasks : Dict PopupTask) (t : PopupTables)
    → GrowsTo t (deliver_tasks user_id mode now tasks t)
unfolding deliver_tasks
deliver_tasks-Grows user_id mode now [] t = Grows-refl t
deliver_tasks-Grows user_id mode now (task ∷ tasks) t =
    continue-Grows t (deliver_task user_id mode now task t) (deliver_tasks user_id mode now tasks)
      (deliver_task-Grows user_id mode now task t) (deliver_tasks-Grows user_id mode now tasks)
