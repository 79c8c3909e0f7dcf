-- ===== src/Tests/Popups.antt =====
-- The theorems on popups, applied to a task that is running and meant for everybody: Ann pulls and
-- acknowledges its popup.
use new1v.Prelude.{arith, ◌≡◌, refl, true, false, none, some, [], ◌∷◌}
use new1v.Prelude.Dict.{lookup}
use new1v.Calendar.{DateTime, instant, days}
use new1v.Schedule.{other, ok}
use new1v.Popup.{
  PopupTask, PopupTables, running, immediate, once, all, by_filter, pending, startup,
  due_occurrence, is_user_targeted,
}
use new1v.Popup.Pull.{
  find_popup, get_or_create_popup, find_receipt, deliver_due, deliver_task, deliver_tasks,
  materialize_due_popups_for_user, ack_user_popup,
}
use new1v.Popup.Fetch.{
  fetch_startup_popups_for_user, fetch_pending_popups_for_user, fetch_user_unacked_popups,
  candidates, candidate_of, sort_newest, insert_newest, first,
}
use new1v.Popup.Steps.{stop, next, pull, ack}
use new1v.Popup.Unique.{IsUnique, Steps-IsUnique}
use new1v.Popup.Shown.{IsAnswer, pulls-IsAnswer}
use new1v.Popup.Acked.{shows, acked_not_shown}
use new1v.Popup.Due.{IsDue, IsDue-targeted, IsDue-due}
use new1v.Records.{female}
use new1v.Popup.Delivered.{IsDelivered, materialize-IsDelivered}

abbrev created : DateTime
created = record { year = 2026; month = 5; day = 13; time = 36000000000 }

abbrev now : DateTime
now = record { year = 2026; month = 5; day = 14; time = 36000000000 }

abbrev task : PopupTask
task = record {
  title = 5;
  content = 20;
  status = running;
  send_mode = immediate;
  target_mode = all;
  target_user_ids = [];
  target_filters = (none, none);
  publish_at = none;
  repetition = record {
    rule = record {
      repeat_type = other;
      repeat_time = none;
      repeat_weekday = none;
      repeat_month_day = none;
    };
    start_at = none;
    created_at = created;
    end_at = none;
    max_runs = none;
  };
  next_run_at = none;
}

abbrev tables : PopupTables
tables = record {
  users = (1, record { gender = some female; is_certified_user = false }) ∷ [];
  tasks = (7, task) ∷ [];
  popups = [];
  receipts = [];
  next_id = 8;
}

-- After Ann's first pull.
abbrev pulled : PopupTables
pulled = record tables {
  popups = (8, record { task_id = 7; scheduled_run_at = created; published_at = now }) ∷ [];
  receipts = record { popup_id = 8; user_id = 1; pushed_at = now; ack_at = none } ∷ [];
  next_id = 9;
}

first_pull : materialize_due_popups_for_user 1 pending now tables ≡ (pulled, ok 1)
unfolding materialize_due_popups_for_user deliver_tasks deliver_task deliver_due get_or_create_popup
    find_popup find_receipt due_occurrence is_user_targeted
first_pull = refl

shown_to_ann : (fetch_pending_popups_for_user 1 now pulled).1 ≡ ok ((8, now) ∷ [])
unfolding fetch_pending_popups_for_user fetch_user_unacked_popups candidates candidate_of
    sort_newest insert_newest first materialize_due_popups_for_user deliver_tasks deliver_task
    deliver_due get_or_create_popup find_popup find_receipt due_occurrence is_user_targeted lookup
shown_to_ann = refl

pulls-IsAnswer_example :
    IsAnswer 1 startup 3 (fetch_startup_popups_for_user 1 12 now pulled)
    × IsAnswer 1 pending 10 (fetch_pending_popups_for_user 1 now pulled)
pulls-IsAnswer_example = pulls-IsAnswer 1 12 now pulled

nothing-IsUnique : IsUnique tables
nothing-IsUnique = record { runs = tt; receipts = tt }

Steps-IsUnique_example :
    IsUnique (ack_user_popup 1 8 now (fetch_pending_popups_for_user 1 now tables).0).0
Steps-IsUnique_example =
    Steps-IsUnique (next (next stop (pull 1 now)) (ack 1 8 now)) nothing-IsUnique

pulled-IsUnique : IsUnique pulled
unfolding find_popup find_receipt
pulled-IsUnique = record { runs = (refl, tt); receipts = (refl, tt) }

acked_by_ann : (ack_user_popup 1 8 now pulled).1 ≡ true
unfolding ack_user_popup find_receipt
acked_by_ann = refl

acked_not_shown_example :
    (shows 8 (fetch_startup_popups_for_user 1 12 now (ack_user_popup 1 8 now pulled).0).1 ≡ false)
    × (shows 8 (fetch_pending_popups_for_user 1 now (ack_user_popup 1 8 now pulled).0).1 ≡ false)
acked_not_shown_example = acked_not_shown 1 8 12 now now pulled-IsUnique acked_by_ann stop

-- A task for women that was to be published an hour before.
abbrev timed_task : PopupTask
timed_task = record task {
  send_mode = once;
  target_mode = by_filter;
  target_filters = (some female, none);
  publish_at = some created;
}

abbrev timed : PopupTables
timed = record tables { tasks = (7, timed_task) ∷ [] }

abbrev hour_later : DateTime
hour_later = record created { time = 39600000000 }

timed-IsDue : IsDue 1 pending hour_later timed.users timed_task created
unfolding instant days lookup
timed-IsDue = record {
  status = refl;
  sent = tt;
  meant = (refl, (record { gender = some female; is_certified_user = false }, refl, refl, tt));
  time = (refl, omega arith);
}

one_visible : (materialize_due_popups_for_user 1 pending hour_later timed).1 ≡ ok 1
unfolding materialize_due_popups_for_user deliver_tasks deliver_task deliver_due get_or_create_popup
    find_popup find_receipt
one_visible = rw (IsDue-targeted timed-IsDue) (rw (IsDue-due timed-IsDue) refl)

timed_there : lookup 7 timed.tasks ≡ some timed_task
unfolding lookup
timed_there = refl

materialize-IsDelivered_example :
    IsDelivered 1 7 created (materialize_due_popups_for_user 1 pending hour_later timed).0
materialize-IsDelivered_example =
    materialize-IsDelivered 1 pending hour_later timed 1 7 timed_task created one_visible
      timed_there timed-IsDue
