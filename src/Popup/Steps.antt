-- ===== src/Popup/Steps.antt =====
-- The requests of the app and of the administration as steps on the tables, in any order.
use new1v.Prelude.{ℕ, Bool, not, Option, none, some, List, ◌==◌, if-both}
use new1v.Prelude.Dict.{Dict, lookup}
use new1v.Calendar.{DateTime}
use new1v.Schedule.{Result, ok, err, no_launch_id}
use new1v.Popup.{
  PopupUser, TaskStatus, PopupTask, PopupTables, PullMode, startup, pending, is_running,
}
use new1v.Popup.Pull.{materialize_due_popups_for_user, ack_user_popup}
use new1v.Popup.Fetch.{
  Shown, then_fetch, startup_popup_return_limit, fetch_startup_popups_for_user,
  fetch_pending_popups_for_user,
}
use new1v.Popup.Admin.{
  AdminReply, sent, not_allowed, change_task, save_task, add_task, delete_found, was_sent,
  create_popup, update_popup, publish_popup, pause_popup, resume_popup, cancel_popup, delete_popup,
  set_paused, set_cancelled, is_open,
}
use new1v.Popup.Payload.{new_task}
use new1v.Popup.Grows.{Grows, here, acked, Grows-refl, Grows-trans, GrowsTo, deliver_tasks-Grows}

pub data Step (t : PopupTables) : PopupTables → Type 0 where
  create : (task : PopupTask) (now : DateTime) → Step t (create_popup task now t).0
  edit : (id : ℕ) (task : PopupTask) (now : DateTime) → Step t (update_popup id task now t).0
  publish : (id : ℕ) (now : DateTime) → Step t (publish_popup id now t).0
  pause : (id : ℕ) → Step t (pause_popup id t).0
  resume : (id : ℕ) (now : DateTime) → Step t (resume_popup id now t).0
  cancel : (id : ℕ) → Step t (cancel_popup id t).0
  delete : (id : ℕ) → Step t (delete_popup id t).0
  start_app :
      (user_id launch_id : ℕ) (now : DateTime)
      → Step t (fetch_startup_popups_for_user user_id launch_id now t).0
  pull : (user_id : ℕ) (now : DateTime) → Step t (fetch_pending_popups_for_user user_id now t).0
  ack : (user_id popup_id : ℕ) (now : DateTime) → Step t (ack_user_popup user_id popup_id now t).0
  other_part : (users : Dict PopupUser) → Step t (record t { users = users })

pub data Steps (t : PopupTables) : PopupTables → Type 0 where
  stop : Steps t t
  next : {u v : PopupTables} → Steps t u → Step u v → Steps t v

-- The popups and the receipts are as they were.
abbrev Keeps : PopupTables → PopupTables × AdminReply → Type 0
Keeps t r = Grows t r.0

save_task-Keeps :
    (id : ℕ) (task : Result PopupTask) (t : PopupTables) → Keeps t (save_task id task t)
save_task-Keeps id (err e) t = Grows-refl t
save_task-Keeps id (ok task) t = record { popups = here; receipts = here }

change_task-Keeps :
    (allowed : TaskStatus → Bool) (change : PopupTask → Result PopupTask) (id : ℕ)
    (found : Option PopupTask) (t : PopupTables)
    → Keeps t (change_task allowed change id found t)
change_task-Keeps allowed change id none t = Grows-refl t
change_task-Keeps allowed change id (some task) t =
    if-both (Keeps t) (not (allowed task.status)) (t, not_allowed) _ (Grows-refl t)
      (save_task-Keeps id (change task) t)

add_task-Keeps : (task : Result PopupTask) (t : PopupTables) → Keeps t (add_task task t)
add_task-Keeps (err e) t = Grows-refl t
add_task-Keeps (ok task) t = record { popups = here; receipts = here }

delete_found-Keeps :
    (id : ℕ) (found : Option PopupTask) (t : PopupTables) → Keeps t (delete_found id found t)
delete_found-Keeps id none t = Grows-refl t
delete_found-Keeps id (some task) t =
    if-both (Keeps t) (was_sent id t.popups) (t, sent) _ (Grows-refl t)
      (record { popups = here; receipts = here })

then_fetch-Grows :
    (user_id : ℕ) (mode : PullMode) (limit : ℕ) (t : PopupTables) (r : PopupTables × Result ℕ)
    → GrowsTo t r
    → Grows t (then_fetch user_id mode limit r).0
then_fetch-Grows user_id mode limit t (u, err e) g = g
then_fetch-Grows user_id mode limit t (u, ok n) g = g

pull-Grows :
    (user_id : ℕ) (mode : PullMode) (limit : ℕ) (now : DateTime) (t : PopupTables)
    → Grows t (then_fetch user_id mode limit (materialize_due_popups_for_user user_id mode now t)).0
unfolding materialize_due_popups_for_user
pull-Grows user_id mode limit now t =
    then_fetch-Grows user_id mode limit t _ (deliver_tasks-Grows user_id mode now t.tasks t)

abbrev ShowsFrom : PopupTables → PopupTables × Result (List Shown) → Type 0
ShowsFrom t r = Grows t r.0

Step-Grows : {t u : PopupTables} → Step t u → Grows t u
unfolding create_popup update_popup publish_popup pause_popup resume_popup cancel_popup delete_popup
    fetch_startup_popups_for_user fetch_pending_popups_for_user ack_user_popup
Step-Grows {t} (create task now) = add_task-Keeps (new_task now task) t
Step-Grows {t} (edit id task now) = change_task-Keeps _ _ id (lookup id t.tasks) t
Step-Grows {t} (publish id now) = change_task-Keeps _ _ id (lookup id t.tasks) t
Step-Grows {t} (pause id) = change_task-Keeps is_running set_paused id (lookup id t.tasks) t
Step-Grows {t} (resume id now) = change_task-Keeps _ _ id (lookup id t.tasks) t
Step-Grows {t} (cancel id) = change_task-Keeps is_open set_cancelled id (lookup id t.tasks) t
Step-Grows {t} (delete id) = delete_found-Keeps id (lookup id t.tasks) t
Step-Grows {t} (start_app user_id launch_id now) =
    if-both (ShowsFrom t) (launch_id == 0) (t, err no_launch_id) _ (Grows-refl t)
      (pull-Grows user_id startup startup_popup_return_limit now t)
Step-Grows {t} (pull user_id now) = pull-Grows user_id pending 10 now t
Step-Grows {t} (ack user_id popup_id now) = record {
  popups = here;
  receipts = acked here popup_id user_id now;
}
Step-Grows {t} (other_part users) = record { popups = here; receipts = here }

pub Steps-Grows : {t u : PopupTables} → Steps t u → Grows t u
Steps-Grows {t} stop = Grows-refl t
Steps-Grows (next steps step) = Grows-trans (Steps-Grows steps) (Step-Grows step)
