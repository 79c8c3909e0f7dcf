-- ===== src/Popup/Due.antt =====
-- When a task is due for a user, in terms of the task's columns and of the user's row.
use new1v.Prelude.{
  ℕ, ◌+◌, ◌≤◌, ◌≡◌, ◌⊎◌, inl, inr, refl, ap, Bool, true, false, ◌&&◌, ◌||◌, Option, none, some,
  List, [], ◌∷◌, is_some, arith,
}
use new1v.Prelude.Dict.{Dict, lookup}
use new1v.Records.{Gender, male, female}
use new1v.Calendar.{DateTime, instant, second, later}
use new1v.Schedule.{ok, latest_repeat_run_at}
use new1v.Popup.{
  running, SendMode, immediate, once, repeat, app_start, TargetMode, all, user_ids, by_filter,
  PopupTask, PopupUser, PullMode, startup, pending, is_running, is_sent_in, is_listed, has_gender,
  has_flag, is_user_targeted, published_by, due_occurrence,
}

-- Tasks for the start of the app are pulled there, all others are pulled as pending.
abbrev pub IsSentIn : PullMode → SendMode → Type 0
IsSentIn startup app_start = Unit
IsSentIn startup _ = ⊥
IsSentIn pending app_start = ⊥
IsSentIn pending _ = Unit

-- The run of the task that is to be shown at `now`.
abbrev pub IsRunTime : SendMode → PopupTask → (now at : DateTime) → Type 0
IsRunTime immediate task now at = at ≡ task.repetition.created_at
IsRunTime app_start task now at = at ≡ task.repetition.created_at
IsRunTime once task now at = (task.publish_at ≡ some at) × (instant at ≤ instant now)
IsRunTime repeat task now at =
    latest_repeat_run_at (instant now + second + 1) task.repetition now ≡ ok (some at)

abbrev pub InList : ℕ → List ℕ → Type 0
InList x [] = ⊥
InList x (y ∷ ys) = (x ≡ y) ⊎ InList x ys

abbrev pub FitsGender : Option Gender → PopupUser → Type 0
FitsGender none user = Unit
FitsGender (some gender) user = user.gender ≡ some gender

abbrev pub FitsFlag : Option Bool → PopupUser → Type 0
FitsFlag none user = Unit
FitsFlag (some flag) user = user.is_certified_user ≡ flag

-- The task is meant for the user.
abbrev pub IsMeantFor : TargetMode → (user_id : ℕ) → PopupTask → Dict PopupUser → Type 0
IsMeantFor all user_id task users = Unit
IsMeantFor user_ids user_id task users = InList user_id task.target_user_ids
IsMeantFor by_filter user_id task users =
    ((is_some task.target_filters.0 || is_some task.target_filters.1) ≡ true)
    × ((user : PopupUser) × (lookup user_id users ≡ some user)
        × FitsGender task.target_filters.0 user
        × FitsFlag task.target_filters.1 user)

-- The task is running, sent in this mode, meant for the user, and `at` is its run.
pub record IsDue (user_id : ℕ) (mode : PullMode) (now : DateTime) (users : Dict PopupUser)
    (task : PopupTask) (at : DateTime) : Type 0 where
  pub status : task.status ≡ running
  pub sent : IsSentIn mode task.send_mode
  pub meant : IsMeantFor task.target_mode user_id task users
  pub time : IsRunTime task.send_mode task now at

pub IsDue-sent :
    {user_id : ℕ} {mode : PullMode} {now : DateTime} {users : Dict PopupUser} {task : PopupTask}
    {at : DateTime}
    → IsDue user_id mode now users task at
    → (is_running task.status && is_sent_in mode task.send_mode) ≡ true
IsDue-sent {mode = mode} {task = task} d = rw d.status (by_mode mode task.send_mode d.sent)
  where
    by_mode : (m : PullMode) (s : SendMode) → IsSentIn m s → is_sent_in m s ≡ true
    by_mode startup immediate h = absurd h
    by_mode startup once h = absurd h
    by_mode startup repeat h = absurd h
    by_mode startup app_start h = refl
    by_mode pending immediate h = refl
    by_mode pending once h = refl
    by_mode pending repeat h = refl
    by_mode pending app_start h = absurd h

InList-is_listed : (x : ℕ) (ys : List ℕ) → InList x ys → is_listed x ys ≡ true
unfolding is_listed
InList-is_listed x [] h = absurd h
InList-is_listed x (y ∷ ys) (inl e) = ground (arith, e)
InList-is_listed x (y ∷ ys) (inr h) = ground (arith, InList-is_listed x ys h)

has_gender-fits :
    (wanted : Option Gender) (user : PopupUser)
    → FitsGender wanted user
    → has_gender wanted user.gender ≡ true
has_gender-fits none user h = refl
has_gender-fits (some male) user h = rw h refl
has_gender-fits (some female) user h = rw h refl

has_flag-fits :
    (wanted : Option Bool) (user : PopupUser)
    → FitsFlag wanted user
    → has_flag wanted user.is_certified_user ≡ true
has_flag-fits none user h = refl
has_flag-fits (some true) user h = rw h refl
has_flag-fits (some false) user h = rw h refl

pub IsDue-targeted :
    {user_id : ℕ} {mode : PullMode} {now : DateTime} {users : Dict PopupUser} {task : PopupTask}
    {at : DateTime}
    → IsDue user_id mode now users task at
    → is_user_targeted user_id task users ≡ ok true
unfolding is_user_targeted
IsDue-targeted {user_id} {users = users} {task = task} d = by_target task.target_mode refl d.meant
  where
    by_target :
        (m : TargetMode)
        → task.target_mode ≡ m
        → IsMeantFor m user_id task users
        → is_user_targeted user_id task users ≡ ok true
    by_target all e h = rw e refl
    by_target user_ids e h = rw e (rw (InList-is_listed user_id task.target_user_ids h) refl)
    by_target by_filter e (some_filter, (user, there, gender, flag)) = rw e (
        rw
          (
            some_filter,
            there,
            has_gender-fits task.target_filters.0 user gender,
            has_flag-fits task.target_filters.1 user flag,
          )
          refl)

published_lem :
    (publish_at : Option DateTime) (now at : DateTime)
    → publish_at ≡ some at
    → instant at ≤ instant now
    → published_by now publish_at ≡ some at
unfolding later
published_lem publish_at now at e le = rw e (ground (arith, le))

pub IsDue-due :
    {user_id : ℕ} {mode : PullMode} {now : DateTime} {users : Dict PopupUser} {task : PopupTask}
    {at : DateTime}
    → IsDue user_id mode now users task at
    → due_occurrence mode task now ≡ ok (some at)
unfolding due_occurrence
IsDue-due {mode = mode} {now = now} {task = task} {at = at} d = by_mode task.send_mode refl d.time
  where
    sent : is_sent_in mode task.send_mode ≡ true
    sent = ground (arith, IsDue-sent d)

    by_mode :
        (s : SendMode)
        → task.send_mode ≡ s
        → IsRunTime s task now at
        → due_occurrence mode task now ≡ ok (some at)
    by_mode immediate e h = rw (d.status, sent, e) (rw h refl)
    by_mode app_start e h = rw (d.status, sent, e) (rw h refl)
    by_mode once e h =
        rw (d.status, sent, e) (ap (λ o. ok o) (published_lem task.publish_at now at h.0 h.1))
    by_mode repeat e h = rw (d.status, sent, e) h
