-- ===== src/Popup/Payload.antt =====
-- What a task must be, and when it runs first: the functions of
-- backend/app/services/system_popup_service.py on a task's columns. The list of target users has
-- been normalised.
use new1v.Prelude.{
  ℕ, Bool, true, false, not, ◌||◌, ◌&&◌, Option, none, some, List, [], ◌∷◌, ltb, ◌==◌, is_some,
  if◌then◌else◌,
}
use new1v.Prelude.Int.{ℤ, pos, ltb_ℤ}
use new1v.Calendar.{DateTime, later, minus_second}
use new1v.Schedule.{
  RepeatRule, RepeatTask, RepeatType, other, daily, weekly, monthly, ScheduleError, Result, ok, err,
  ◌>>=◌, parse_repeat_time, calculate_next_run_at, no_title, long_title, no_content, no_end,
  bad_max_runs, no_targets, no_filter, no_publish_time, bad_type, bad_weekday, bad_month_day,
}
use new1v.Popup.{
  TaskStatus, draft, scheduled, running, paused, completed, cancelled, SendMode, immediate, once,
  repeat, app_start, TargetMode, all, user_ids, by_filter, PopupTask,
}

-- A check that may refuse a task.
abbrev refuse_if : Bool → ScheduleError → Result {0} Unit
refuse_if bad e = if bad then err e else ok tt

abbrev is_repeat : SendMode → Bool
is_repeat repeat = true
is_repeat _ = false

abbrev is_once : SendMode → Bool
is_once once = true
is_once _ = false

abbrev not_positive : Option ℤ → Bool
not_positive none = false
not_positive (some n) = not (ltb_ℤ (pos 0) n)

abbrev ensure_repeat_has_end_condition : PopupTask → Result {0} Unit
ensure_repeat_has_end_condition task = do
  _ ←
      refuse_if
        (is_repeat task.send_mode
          && not (is_some task.repetition.end_at || is_some task.repetition.max_runs))
        no_end
  refuse_if (not_positive task.repetition.max_runs) bad_max_runs

abbrev has_targets : List ℕ → Bool
has_targets [] = false
has_targets (x ∷ xs) = true

abbrev check_targets : PopupTask → Result {0} Unit
check_targets task = elim task.target_mode [
  | all ↦ ok tt
  | user_ids ↦ refuse_if (not (has_targets task.target_user_ids)) no_targets
  | by_filter ↦
      refuse_if (not (is_some task.target_filters.0 || is_some task.target_filters.1)) no_filter
]

abbrev check_repeat_day : RepeatRule → Result {0} Unit
check_repeat_day rule = elim rule.repeat_type [
  | daily ↦ ok tt
  | weekly ↦ refuse_if (not (is_some rule.repeat_weekday)) bad_weekday
  | monthly ↦ refuse_if (not (is_some rule.repeat_month_day)) bad_month_day
  | other ↦ ok tt
]

abbrev is_other : RepeatType → Bool
is_other other = true
is_other _ = false

abbrev check_repeat : RepeatRule → Result {0} Unit
check_repeat rule = do
  _ ← refuse_if (is_other rule.repeat_type) bad_type
  _ ← parse_repeat_time rule.repeat_time
  check_repeat_day rule

abbrev no_repetition : RepeatTask → RepeatTask
no_repetition r = record r {
  rule = record {
    repeat_type = other;
    repeat_time = none;
    repeat_weekday = none;
    repeat_month_day = none;
  };
  start_at = none;
  end_at = none;
  max_runs = none;
}

abbrev is_by_filter : TargetMode → Bool
is_by_filter by_filter = true
is_by_filter _ = false

abbrev cleaned : PopupTask → PopupTask
cleaned task = record task {
  repetition = if is_repeat task.send_mode then task.repetition else no_repetition task.repetition;
  publish_at = if is_once task.send_mode then task.publish_at else none;
  target_filters = if is_by_filter task.target_mode then task.target_filters else (none, none);
}

unfoldable pub validate_popup_task_payload : PopupTask → Result PopupTask
validate_popup_task_payload task = do
  _ ← refuse_if (task.title == 0) no_title
  _ ← refuse_if (ltb 50 task.title) long_title
  _ ← refuse_if (task.content == 0) no_content
  _ ← ensure_repeat_has_end_condition task
  _ ← check_targets task
  _ ← refuse_if (is_once task.send_mode && not (is_some task.publish_at)) no_publish_time
  _ ← (if is_repeat task.send_mode then check_repeat task.repetition.rule else ok tt)
  ok (cleaned task)

abbrev or_now : Option DateTime → DateTime → DateTime
or_now none now = now
or_now (some t) now = t

-- The first run, or the next one from now where that has passed.
abbrev not_before : DateTime → RepeatRule → DateTime → Result DateTime
not_before now rule next = if later now next then calculate_next_run_at rule now else ok next

abbrev some_run : DateTime → Result (Option DateTime)
some_run t = ok (some t)

-- `_initial_next_run_at` of a task that is no draft.
unfoldable pub initial_next_run_at : PopupTask → DateTime → Result (Option DateTime)
initial_next_run_at task now = elim task.send_mode [
  | immediate ↦ ok (some now)
  | once ↦ ok task.publish_at
  | repeat ↦
      let rule = task.repetition.rule in
      calculate_next_run_at rule (minus_second (or_now task.repetition.start_at now))
      >>= not_before now rule
      >>= some_run
  | app_start ↦ ok none
]

abbrev is_draft : TaskStatus → Bool
is_draft draft = true
is_draft _ = false

abbrev status_by_mode : SendMode → TaskStatus
status_by_mode repeat = running
status_by_mode app_start = running
status_by_mode _ = scheduled

unfoldable pub initial_task_status : TaskStatus → SendMode → TaskStatus
initial_task_status draft mode = draft
initial_task_status _ mode = status_by_mode mode

abbrev with_run : TaskStatus → PopupTask → Option DateTime → Result PopupTask
with_run status task next_run_at = ok (record task { status = status; next_run_at = next_run_at })

abbrev created_at_now : DateTime → PopupTask → PopupTask
created_at_now now task = record task { repetition = record task.repetition { created_at = now } }

unfoldable pub new_task : DateTime → PopupTask → Result PopupTask
new_task now task = do
  payload ← validate_popup_task_payload task
  next ← (if is_draft payload.status then ok none else initial_next_run_at payload now)
  with_run (initial_task_status payload.status payload.send_mode) (created_at_now now payload) next

unfoldable pub activate_popup_task : DateTime → PopupTask → Result PopupTask
activate_popup_task now task = do
  payload ← validate_popup_task_payload task
  next ← initial_next_run_at payload now
  with_run running task next

abbrev paused_run : SendMode → Option DateTime → Option DateTime
paused_run app_start next = none
paused_run _ next = next

unfoldable pub recalculate_popup_task_next_run_at : DateTime → PopupTask → Result PopupTask
recalculate_popup_task_next_run_at now task = do
  payload ← validate_popup_task_payload task
  elim task.status [
    | draft ↦ ok (record task { next_run_at = none })
    | scheduled ↦
        initial_next_run_at payload now
        >>= with_run (initial_task_status scheduled payload.send_mode) task
    | running ↦ initial_next_run_at payload now >>= with_run running task
    | paused ↦ ok (record task { next_run_at = paused_run payload.send_mode task.next_run_at })
    | completed ↦ ok task
    | cancelled ↦ ok task
  ]
