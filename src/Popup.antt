-- ===== src/Popup.antt =====
-- The popups that the app shows to its users, backend/app/services/system_popup_service.py: the
-- tasks that describe them, their occurrences, and the receipts of the users. Texts are their
-- lengths without surrounding space; the tables list their rows newest first.
pub mod Pull
pub mod Fetch
pub mod Payload
pub mod Admin
pub mod Grows
pub mod Steps
pub mod Unique
pub mod Acked
pub mod Due
pub mod Delivered
pub mod Shown
use new1v.Prelude.{
  ℕ, zero, suc, ◌+◌, ◌/◌, Bool, true, false, not, ◌||◌, ◌&&◌, Option, none, some, List, [], ◌∷◌,
  leb, ltb, ◌==◌, is_some, if◌then◌else◌,
}
use new1v.Prelude.Dict.{Dict, lookup}
use new1v.Records.{Gender, AppUser, male, female}
use new1v.Calendar.{DateTime, instant, second, later}
use new1v.Schedule.{RepeatTask, Result, ok, err, no_filter, latest_repeat_run_at}

pub data TaskStatus : Type 0 where
  draft scheduled running paused completed cancelled : TaskStatus

pub data SendMode : Type 0 where
  immediate once repeat app_start : SendMode

pub data TargetMode : Type 0 where
  all user_ids by_filter : TargetMode

-- `target_filters` is the pair of the gender and of `is_certified_user`.
pub record PopupTask : Type 0 where
  pub title : ℕ
  pub content : ℕ
  pub status : TaskStatus
  pub send_mode : SendMode
  pub target_mode : TargetMode
  pub target_user_ids : List ℕ
  pub target_filters : Option Gender × Option Bool
  pub publish_at : Option DateTime
  pub repetition : RepeatTask
  pub next_run_at : Option DateTime

pub record SystemPopup : Type 0 where
  pub task_id : ℕ
  pub scheduled_run_at : DateTime
  pub published_at : DateTime

pub record PopupReceipt : Type 0 where
  pub popup_id : ℕ
  pub user_id : ℕ
  pub pushed_at : DateTime
  pub ack_at : Option DateTime

-- Of a user what the filters read; `gender` is null for some.
pub record PopupUser : Type 0 where
  pub gender : Option Gender
  pub is_certified_user : Bool

pub record PopupTables : Type 0 where
  pub users : Dict PopupUser
  pub tasks : Dict PopupTask
  pub popups : Dict SystemPopup
  pub receipts : List PopupReceipt
  pub next_id : ℕ

pub data PullMode : Type 0 where
  startup pending : PullMode

abbrev pub is_running : TaskStatus → Bool
is_running running = true
is_running _ = false

abbrev pub is_sent_in : PullMode → SendMode → Bool
is_sent_in startup app_start = true
is_sent_in startup _ = false
is_sent_in pending app_start = false
is_sent_in pending _ = true

unfoldable pub is_listed : ℕ → List ℕ → Bool
is_listed x [] = false
is_listed x (y ∷ ys) = (x == y) || is_listed x ys

abbrev pub same_gender : Gender → Gender → Bool
same_gender male male = true
same_gender female female = true
same_gender _ _ = false

abbrev pub same_flag : Bool → Bool → Bool
same_flag true b = b
same_flag false b = not b

abbrev pub has_gender : Option Gender → Option Gender → Bool
has_gender none gender = true
has_gender (some wanted) none = false
has_gender (some wanted) (some gender) = same_gender wanted gender

abbrev pub has_flag : Option Bool → Bool → Bool
has_flag none flag = true
has_flag (some wanted) flag = same_flag wanted flag

abbrev pub target_query : Option Gender × Option Bool → Option PopupUser → Bool
target_query filters none = false
target_query filters (some user) =
    has_gender filters.0 user.gender && has_flag filters.1 user.is_certified_user

unfoldable pub is_user_targeted : ℕ → PopupTask → Dict PopupUser → Result Bool
unfolding lookup
is_user_targeted user_id task users = elim task.target_mode [
  | all ↦ ok true
  | user_ids ↦ ok (is_listed user_id task.target_user_ids)
  | by_filter ↦
      if not (is_some task.target_filters.0 || is_some task.target_filters.1)
      then err no_filter
      else ok (target_query task.target_filters (lookup user_id users))
]

abbrev pub published_by : DateTime → Option DateTime → Option DateTime
published_by now none = none
published_by now (some at) = if later at now then none else some at

-- `_popup_due_occurrences`: the time of the occurrence. The fuel is enough for every task that has
-- begun.
unfoldable pub due_occurrence : PullMode → PopupTask → DateTime → Result (Option DateTime)
unfolding instant
due_occurrence mode task now =
    if not (is_running task.status)
    then ok none
    else if not (is_sent_in mode task.send_mode)
    then ok none
    else elim task.send_mode [
      | immediate ↦ ok (some task.repetition.created_at)
      | app_start ↦ ok (some task.repetition.created_at)
      | once ↦ ok (published_by now task.publish_at)
      | repeat ↦ latest_repeat_run_at (instant now + second + 1) task.repetition now
    ]
