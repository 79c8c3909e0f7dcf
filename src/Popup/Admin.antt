-- ===== src/Popup/Admin.antt =====
-- The handlers of backend/app/api/v1/popup/popup.py on the tasks.
use new1v.Prelude.{
  ℕ, ◌+◌, Bool, true, false, not, ◌||◌, Option, none, some, [], ◌∷◌, ◌==◌, if◌then◌else◌,
}
use new1v.Prelude.Dict.{Dict, lookup, alter}
use new1v.Calendar.{DateTime}
use new1v.Schedule.{ScheduleError, Result, ok, err, ◌>>=◌}
use new1v.Popup.{
  TaskStatus, draft, scheduled, running, paused, completed, cancelled, PopupTask, SystemPopup,
  PopupTables, is_running,
}
use new1v.Popup.Payload.{
  validate_popup_task_payload, new_task, activate_popup_task, recalculate_popup_task_next_run_at,
}

-- `invalid` also stands for an error that the handler does not catch.
pub data AdminReply : Type 0 where
  done not_found not_allowed sent : AdminReply
  invalid : ScheduleError → AdminReply

abbrev put_task : PopupTask → PopupTask → PopupTask
put_task new old = new

abbrev pub save_task : ℕ → Result PopupTask → PopupTables → PopupTables × AdminReply
save_task id (err e) t = (t, invalid e)
save_task id (ok task) t = (record t { tasks = alter id (put_task task) t.tasks }, done)

-- A task in a state that allows the action.
abbrev pub change_task :
    (TaskStatus → Bool)
    → (PopupTask → Result PopupTask)
    → ℕ
    → Option PopupTask
    → PopupTables
    → PopupTables × AdminReply
change_task allowed change id none t = (t, not_found)
change_task allowed change id (some task) t =
    if not (allowed task.status) then (t, not_allowed) else save_task id (change task) t

abbrev pub add_task : Result PopupTask → PopupTables → PopupTables × AdminReply
add_task (err e) t = (t, invalid e)
add_task (ok task) t =
    (record t { tasks = (t.next_id, task) ∷ t.tasks; next_id = t.next_id + 1 }, done)

unfoldable pub create_popup : PopupTask → DateTime → PopupTables → PopupTables × AdminReply
create_popup task now t = add_task (new_task now task) t

abbrev is_editable : TaskStatus → Bool
is_editable draft = true
is_editable scheduled = true
is_editable paused = true
is_editable _ = false

abbrev is_paused : TaskStatus → Bool
is_paused paused = true
is_paused _ = false

abbrev pub is_open : TaskStatus → Bool
is_open completed = false
is_open cancelled = false
is_open _ = true

-- The columns of the request over those of the task.
abbrev edited : PopupTask → PopupTask → PopupTask
edited request task = record request {
  next_run_at = task.next_run_at;
  repetition = record request.repetition { created_at = task.repetition.created_at };
}

abbrev edit_task : PopupTask → DateTime → PopupTask → Result PopupTask
edit_task request now task = do
  payload ← validate_popup_task_payload (edited request task)
  recalculate_popup_task_next_run_at now payload

unfoldable pub update_popup : ℕ → PopupTask → DateTime → PopupTables → PopupTables × AdminReply
update_popup id request now t =
    change_task is_editable (edit_task request now) id (lookup id t.tasks) t

unfoldable pub publish_popup : ℕ → DateTime → PopupTables → PopupTables × AdminReply
publish_popup id now t = change_task is_editable (activate_popup_task now) id (lookup id t.tasks) t

abbrev pub set_paused : PopupTask → Result PopupTask
set_paused task = ok (record task { status = paused })

abbrev set_running : DateTime → PopupTask → Result PopupTask
set_running now task = recalculate_popup_task_next_run_at now (record task { status = running })

abbrev pub set_cancelled : PopupTask → Result PopupTask
set_cancelled task = ok (record task { status = cancelled; next_run_at = none })

unfoldable pub pause_popup : ℕ → PopupTables → PopupTables × AdminReply
pause_popup id t = change_task is_running set_paused id (lookup id t.tasks) t

unfoldable pub resume_popup : ℕ → DateTime → PopupTables → PopupTables × AdminReply
resume_popup id now t = change_task is_paused (set_running now) id (lookup id t.tasks) t

unfoldable pub cancel_popup : ℕ → PopupTables → PopupTables × AdminReply
cancel_popup id t = change_task is_open set_cancelled id (lookup id t.tasks) t

unfoldable pub was_sent : ℕ → Dict SystemPopup → Bool
was_sent id [] = false
was_sent id ((j, popup) ∷ popups) = (popup.task_id == id) || was_sent id popups

unfoldable pub without : ℕ → Dict PopupTask → Dict PopupTask
without id [] = []
without id ((j, task) ∷ tasks) = if id == j then tasks else (j, task) ∷ without id tasks

abbrev pub delete_found : ℕ → Option PopupTask → PopupTables → PopupTables × AdminReply
delete_found id none t = (t, not_found)
delete_found id (some task) t =
    if was_sent id t.popups then (t, sent) else (record t { tasks = without id t.tasks }, done)

unfoldable pub delete_popup : ℕ → PopupTables → PopupTables × AdminReply
delete_popup id t = delete_found id (lookup id t.tasks) t
