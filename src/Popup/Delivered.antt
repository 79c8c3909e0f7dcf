-- ===== src/Popup/Delivered.antt =====
-- Every task that is due reaches the users for whom it is meant.
use new1v.Prelude.{
  ℕ, ◌≡◌, ◌∙◌, refl, sym, ap, subst, Bool, true, false, ◌&&◌, Option, none, some, List, [], ◌∷◌,
  ◌==◌, is_some, if◌then◌else◌, arith, inl, inr, Bool-cases, ==_iff, if-both, ◌⊎◌,
}
use new1v.Prelude.Dict.{Dict, lookup}
use new1v.Calendar.{DateTime}
use new1v.Schedule.{Result, ok, err}
use new1v.Popup.{
  PopupUser, PopupTask, SystemPopup, PopupReceipt, PopupTables, PullMode, due_occurrence,
  is_user_targeted, is_running, is_sent_in,
}
use new1v.Popup.Pull.{
  has_run_key, find_popup, occurrence_popup, get_or_create_popup, find_receipt, deliver_receipt,
  deliver_due, deliver_targeted, deliver_task, deliver_tasks, continue_with,
  materialize_due_popups_for_user,
}
use new1v.Popup.Grows.{
  ReceiptEdits, PopupEdits, here, added, acked, Grows, GrowsTo, deliver_tasks-Grows,
}
use new1v.Popup.Acked.{find-ack_in}
use new1v.Popup.Due.{IsDue, IsDue-sent, IsDue-targeted, IsDue-due}

find_popup-same :
    (task_id other : ℕ) (at time now : DateTime) (ps : Dict SystemPopup)
    → has_run_key task_id at (occurrence_popup other time now) ≡ true
    → find_popup other time ps ≡ find_popup task_id at ps
unfolding find_popup
find_popup-same task_id other at time now [] e = refl
find_popup-same task_id other at time now ((id, p) ∷ ps) e =
    let rest = find_popup-same task_id other at time now ps e in grind (arith, e, rest)

PopupEdits-find :
    (task_id : ℕ) (at : DateTime) (id : ℕ) {ps qs : Dict SystemPopup}
    → PopupEdits ps qs
    → find_popup task_id at ps ≡ some id
    → find_popup task_id at qs ≡ some id
unfolding find_popup
PopupEdits-find task_id at id here e = e
PopupEdits-find task_id at id (added {qs} p j other time now n) e =
    let before = PopupEdits-find task_id at id p e in
    elim (Bool-cases (has_run_key task_id at (occurrence_popup other time now))) [
      | inl f ↦ absurd (clash before (find_popup-same task_id other at time now qs f))
      | inr f ↦ rw f before
    ]
  where
    clash :
        find_popup task_id at qs ≡ some id → find_popup other time qs ≡ find_popup task_id at qs → ⊥
    clash b s = ground (arith, b, s, n)

ReceiptEdits-find :
    (p u : ℕ) {rs ss : List PopupReceipt}
    → ReceiptEdits rs ss
    → is_some (find_receipt p u rs) ≡ true
    → is_some (find_receipt p u ss) ≡ true
unfolding find_receipt
ReceiptEdits-find p u here e = e
ReceiptEdits-find p u (added f q v now n) e = ground (arith, ReceiptEdits-find p u f e)
ReceiptEdits-find p u (acked f q v now) e = find-ack_in p u q v now _ (ReceiptEdits-find p u f e)

-- The occurrence of the task has a popup, for which the user has a receipt.
pub record IsDelivered (user_id task_id : ℕ) (at : DateTime) (t : PopupTables) : Type 0 where
  pub popup_id : ℕ
  pub found : find_popup task_id at t.popups ≡ some popup_id
  pub receipt : is_some (find_receipt popup_id user_id t.receipts) ≡ true

Grows-IsDelivered :
    (user_id task_id : ℕ) (at : DateTime) {t u : PopupTables}
    → Grows t u
    → IsDelivered user_id task_id at t
    → IsDelivered user_id task_id at u
Grows-IsDelivered user_id task_id at g d = record {
  popup_id = d.popup_id;
  found = PopupEdits-find task_id at d.popup_id g.popups d.found;
  receipt = ReceiptEdits-find d.popup_id user_id g.receipts d.receipt;
}

get_or_create_popup-found :
    (task_id : ℕ) (at now : DateTime) (t : PopupTables)
    → find_popup task_id at (get_or_create_popup task_id at now t).0.popups
      ≡ some (get_or_create_popup task_id at now t).1
unfolding get_or_create_popup find_popup
get_or_create_popup-found task_id at now t = ground arith

deliver_receipt-found :
    (t : PopupTables) (id user_id : ℕ) (now : DateTime)
    → is_some (find_receipt id user_id (deliver_receipt (t, id) user_id now).0.receipts) ≡ true
unfolding find_receipt
deliver_receipt-found t id user_id now = ground arith

abbrev SameUsers : Dict PopupUser → PopupTables × Result ℕ → Type 0
SameUsers users r = r.0.users ≡ users

deliver_due-users :
    (user_id task_id : ℕ) (now : DateTime) (due : Result (Option DateTime)) (t : PopupTables)
    → SameUsers t.users (deliver_due user_id task_id now due t)
unfolding deliver_due get_or_create_popup
deliver_due-users user_id task_id now (err e) t = refl
deliver_due-users user_id task_id now (ok none) t = refl
deliver_due-users user_id task_id now (ok (some at)) t = ground arith

deliver_targeted-users :
    (user_id : ℕ) (mode : PullMode) (now : DateTime) (id : ℕ) (task : PopupTask)
    (targeted : Result Bool) (t : PopupTables)
    → SameUsers t.users (deliver_targeted user_id mode now (id, task) targeted t)
deliver_targeted-users user_id mode now id task (err e) t = refl
deliver_targeted-users user_id mode now id task (ok false) t = refl
deliver_targeted-users user_id mode now id task (ok true) t =
    deliver_due-users user_id id now (due_occurrence mode task now) t

deliver_task-users :
    (user_id : ℕ) (mode : PullMode) (now : DateTime) (task : ℕ × PopupTask) (t : PopupTables)
    → SameUsers t.users (deliver_task user_id mode now task t)
unfolding deliver_task
deliver_task-users user_id mode now (id, task) t =
    if-both (SameUsers t.users) (is_running task.status && is_sent_in mode task.send_mode) _
      (t, ok 0)
      (deliver_targeted-users user_id mode now id task (is_user_targeted user_id task t.users) t)
      refl

abbrev is_ok : PopupTables × Result ℕ → Bool
is_ok (t, err e) = false
is_ok (t, ok n) = true

module _ (user_id : ℕ) (mode : PullMode) (now : DateTime) (users : Dict PopupUser) (id : ℕ)
    (task : PopupTask) (at : DateTime) (is_due : IsDue user_id mode now users task at) where
  abbrev Delivers : PopupTables × Result ℕ → Type 0
  Delivers r = IsDelivered user_id id at r.0

  deliver_task-Delivers :
      (t : PopupTables) → t.users ≡ users → Delivers (deliver_task user_id mode now (id, task) t)
  unfolding deliver_task deliver_due
  deliver_task-Delivers t e =
      let (u, popup_id) = get_or_create_popup id at now t in
      let targeted = ap (is_user_targeted user_id task) e ∙ IsDue-targeted is_due in
      rw (IsDue-sent is_due, targeted)
        (rw (IsDue-due is_due) (record {
          popup_id = popup_id;
          found = get_or_create_popup-found id at now t;
          receipt = deliver_receipt-found u popup_id user_id now;
        }))

  continue-Delivers :
      (r : PopupTables × Result ℕ) (next : PopupTables → PopupTables × Result ℕ)
      → is_ok (continue_with r next) ≡ true
      → Delivers r ⊎ (is_ok (next r.0) ≡ true → Delivers (next r.0))
      → ((u : PopupTables) → GrowsTo u (next u))
      → Delivers (continue_with r next)
  continue-Delivers (t, err e) next k d g = absurd (ground (arith, k))
  continue-Delivers (t, ok n) next k d g = by_next (next t) k d (g t)
    where
      by_next :
          (r : PopupTables × Result ℕ)
          → is_ok (continue_with (t, ok n) (λ _. r)) ≡ true
          → Delivers (t, ok n) ⊎ (is_ok r ≡ true → Delivers r)
          → GrowsTo t r
          → Delivers (continue_with (t, ok n) (λ _. r))
      by_next (v, err e) k d g = absurd (ground (arith, k))
      by_next (v, ok m) k (inl d) g = Grows-IsDelivered user_id id at g d
      by_next (v, ok m) k (inr d) g = d refl

  deliver_tasks-Delivers :
      (tasks : Dict PopupTask) (t : PopupTables)
      → t.users ≡ users
      → lookup id tasks ≡ some task
      → is_ok (deliver_tasks user_id mode now tasks t) ≡ true
      → Delivers (deliver_tasks user_id mode now tasks t)
  unfolding deliver_tasks lookup
  deliver_tasks-Delivers [] t e f k = absurd (ground (arith, f))
  deliver_tasks-Delivers ((j, x) ∷ tasks) t e f k =
      continue-Delivers (deliver_task user_id mode now (j, x) t)
        (deliver_tasks user_id mode now tasks) k
        (elim (Bool-cases (id == j)) [
          | inl g ↦ inl (head g f)
          | inr g ↦ inr (
              deliver_tasks-Delivers tasks (deliver_task user_id mode now (j, x) t).0
                (deliver_task-users user_id mode now (j, x) t ∙ e) (ground (arith, f, g)))
        ])
        (deliver_tasks-Grows user_id mode now tasks)
    where
      head :
          (id == j) ≡ true
          → (if id == j then some x else lookup id tasks) ≡ some task
          → Delivers (deliver_task user_id mode now (j, x) t)
      head g f =
          let same : x ≡ task = ground (arith, f, g) in
          subst (λ k. Delivers (deliver_task user_id mode now (k, x) t)) ((==_iff id j).0 g)
            (subst (λ y. Delivers (deliver_task user_id mode now (id, y) t)) (sym same)
              (deliver_task-Delivers t e))

-- Where a user's pull is not refused: every task that is running, sent in this way, meant for the
-- user (it is for all, lists the user, or filters by gender or certification and the user's row fits)
-- and due (created, for a task sent at once or at the start of the app; at its time of publication,
-- no later than now; or at the run that `latest_repeat_run_at` finds) has a popup for that time
-- afterwards, and the user has a receipt for it.
pub materialize-IsDelivered :
    (user_id : ℕ) (mode : PullMode) (now : DateTime) (t : PopupTables) (visible id : ℕ)
    (task : PopupTask) (at : DateTime)
    → (materialize_due_popups_for_user user_id mode now t).1 ≡ ok visible
    → lookup id t.tasks ≡ some task
    → IsDue user_id mode now t.users task at
    → IsDelivered user_id id at (materialize_due_popups_for_user user_id mode now t).0
unfolding materialize_due_popups_for_user
materialize-IsDelivered user_id mode now t visible id task at k f is_due =
    deliver_tasks-Delivers user_id mode now t.users id task at is_due t.tasks t refl f
      (succeeded (deliver_tasks user_id mode now t.tasks t) k)
  where
    succeeded : (r : PopupTables × Result ℕ) → r.1 ≡ ok visible → is_ok r ≡ true
    succeeded (u, err e) k = absurd (ground (arith, k))
    succeeded (u, ok n) k = refl
