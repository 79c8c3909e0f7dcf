-- ===== src/Popup/Pull.antt =====
-- A user's pull: `materialize_due_popups_for_user` and `ack_user_popup` of
-- backend/app/services/system_popup_service.py.
use new1v.Prelude.{
  ℕ, ◌+◌, ◌/◌, Bool, true, false, not, ◌&&◌, Option, none, some, List, [], ◌∷◌, ◌==◌, is_some,
  if◌then◌else◌,
}
use new1v.Prelude.Dict.{Dict}
use new1v.Calendar.{DateTime, second}
use new1v.Schedule.{Result, ok, err}
use new1v.Popup.{
  PopupTask, SystemPopup, PopupReceipt, PopupTables, PullMode, is_running, is_sent_in,
  is_user_targeted, due_occurrence,
}

-- `run_key` keeps the seconds of the time.
abbrev same_second : DateTime → DateTime → Bool
same_second a b =
    (a.year == b.year)
    && ((a.month == b.month) && ((a.day == b.day) && (a.time / second == b.time / second)))

abbrev pub has_run_key : ℕ → DateTime → SystemPopup → Bool
has_run_key task_id at popup = (popup.task_id == task_id) && same_second popup.scheduled_run_at at

unfoldable pub find_popup : ℕ → DateTime → Dict SystemPopup → Option ℕ
find_popup task_id at [] = none
find_popup task_id at ((id, popup) ∷ popups) =
    if has_run_key task_id at popup then some id else find_popup task_id at popups

abbrev pub occurrence_popup : ℕ → (at now : DateTime) → SystemPopup
occurrence_popup task_id at now = record {
  task_id = task_id;
  scheduled_run_at = at;
  published_at = now;
}

abbrev pub popup_or_new : Option ℕ → ℕ → (at now : DateTime) → PopupTables → PopupTables × ℕ
popup_or_new (some id) task_id at now t = (t, id)
popup_or_new none task_id at now t = (
  record t {
    popups = (t.next_id, occurrence_popup task_id at now) ∷ t.popups;
    next_id = t.next_id + 1;
  },
  t.next_id,
)

unfoldable pub get_or_create_popup : ℕ → (at now : DateTime) → PopupTables → PopupTables × ℕ
get_or_create_popup task_id at now t =
    popup_or_new (find_popup task_id at t.popups) task_id at now t

abbrev pub is_receipt_of : (popup_id user_id : ℕ) → PopupReceipt → Bool
is_receipt_of popup_id user_id r = (r.popup_id == popup_id) && (r.user_id == user_id)

unfoldable pub find_receipt : (popup_id user_id : ℕ) → List PopupReceipt → Option PopupReceipt
find_receipt popup_id user_id [] = none
find_receipt popup_id user_id (r ∷ rs) =
    if is_receipt_of popup_id user_id r then some r else find_receipt popup_id user_id rs

abbrev pub new_receipt : (popup_id user_id : ℕ) → DateTime → PopupReceipt
new_receipt popup_id user_id now = record {
  popup_id = popup_id;
  user_id = user_id;
  pushed_at = now;
  ack_at = none;
}

-- The new table of receipts, and whether the receipt waits to be acknowledged.
abbrev pub receipt_or_new :
    Option PopupReceipt
    → (popup_id user_id : ℕ) → DateTime
    → List PopupReceipt
    → List PopupReceipt × Bool
receipt_or_new (some r) popup_id user_id now rs = (rs, not (is_some r.ack_at))
receipt_or_new none popup_id user_id now rs = (new_receipt popup_id user_id now ∷ rs, true)

abbrev count_one : Bool → ℕ
count_one unread = if unread then 1 else 0

abbrev pub deliver_receipt : PopupTables × ℕ → ℕ → DateTime → PopupTables × Result ℕ
deliver_receipt (t, id) user_id now =
    let (receipts, unread) =
      receipt_or_new (find_receipt id user_id t.receipts) id user_id now t.receipts in
    (record t { receipts = receipts }, ok (count_one unread))

unfoldable pub deliver_due :
    (user_id task_id : ℕ)
    → DateTime
    → Result (Option DateTime)
    → PopupTables
    → PopupTables × Result ℕ
unfolding find_receipt
deliver_due user_id task_id now (err e) t = (t, err e)
deliver_due user_id task_id now (ok none) t = (t, ok 0)
deliver_due user_id task_id now (ok (some at)) t =
    deliver_receipt (get_or_create_popup task_id at now t) user_id now

abbrev pub deliver_targeted :
    (user_id : ℕ)
    → PullMode
    → DateTime
    → ℕ × PopupTask
    → Result Bool
    → PopupTables
    → PopupTables × Result ℕ
deliver_targeted user_id mode now (id, task) (err e) t = (t, err e)
deliver_targeted user_id mode now (id, task) (ok false) t = (t, ok 0)
deliver_targeted user_id mode now (id, task) (ok true) t =
    deliver_due user_id id now (due_occurrence mode task now) t

-- A task, as far as the query takes it.
unfoldable pub deliver_task :
    (user_id : ℕ) → PullMode → DateTime → ℕ × PopupTask → PopupTables → PopupTables × Result ℕ
deliver_task user_id mode now (id, task) t =
    if is_running task.status && is_sent_in mode task.send_mode
    then deliver_targeted user_id mode now (id, task) (is_user_targeted user_id task t.users) t
    else (t, ok 0)

abbrev add_visible : ℕ → PopupTables × Result ℕ → PopupTables × Result ℕ
add_visible n (t, err e) = (t, err e)
add_visible n (t, ok m) = (t, ok (n + m))

abbrev pub continue_with :
    PopupTables × Result ℕ → (PopupTables → PopupTables × Result ℕ) → PopupTables × Result ℕ
continue_with (t, err e) next = (t, err e)
continue_with (t, ok n) next = add_visible n (next t)

unfoldable pub deliver_tasks :
    (user_id : ℕ) → PullMode → DateTime → Dict PopupTask → PopupTables → PopupTables × Result ℕ
deliver_tasks user_id mode now [] t = (t, ok 0)
deliver_tasks user_id mode now (task ∷ tasks) t =
    continue_with (deliver_task user_id mode now task t) (deliver_tasks user_id mode now tasks)

unfoldable pub materialize_due_popups_for_user :
    (user_id : ℕ) → PullMode → DateTime → PopupTables → PopupTables × Result ℕ
materialize_due_popups_for_user user_id mode now t = deliver_tasks user_id mode now t.tasks t

abbrev ack_receipt : DateTime → PopupReceipt → PopupReceipt
ack_receipt now r = if is_some r.ack_at then r else record r { ack_at = some now }

unfoldable pub ack_in : (popup_id user_id : ℕ) → DateTime → List PopupReceipt → List PopupReceipt
ack_in popup_id user_id now [] = []
ack_in popup_id user_id now (r ∷ rs) =
    if is_receipt_of popup_id user_id r
    then ack_receipt now r ∷ rs
    else r ∷ ack_in popup_id user_id now rs

unfoldable pub ack_user_popup : (user_id popup_id : ℕ) → DateTime → PopupTables → PopupTables × Bool
ack_user_popup user_id popup_id now t = (
  record t { receipts = ack_in popup_id user_id now t.receipts },
  is_some (find_receipt popup_id user_id t.receipts),
)
