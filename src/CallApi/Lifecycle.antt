-- ===== src/CallApi/Lifecycle.antt =====
-- The calls of the service over time: every handler, the two tasks of the watchdog, and any change
-- of balances and marks by the rest of the program, as steps between states of the tables.
pub mod Shape
pub mod OneCall
pub mod Ended
pub mod Answered
pub mod Accepts
use new1v.Prelude.{ℕ, Bool, List, []}
use new1v.Prelude.Int.{ℤ}
use new1v.Users.{Users}
use new1v.Presence.{CallPresence}
use new1v.Watchdog.Config.{WatchdogConfig}
use new1v.Database.{Database}
use new1v.CallApi.Dialing.{DialEnv, dialing}
use new1v.CallApi.Answer.{AnswerEnv, accept_call, reject_call, cancel_call}
use new1v.CallApi.End.{call_end, close_timeout_pending, watch_call}

pub data Step (db : Database) : Database → Type 0 where
  dial : (env : DialEnv) (caller_id target_id : ℕ) → Step db (dialing env caller_id target_id db).0
  accept : (env : AnswerEnv) (user_id id : ℕ) → Step db (accept_call env user_id id db).0
  reject : (now user_id id : ℕ) → Step db (reject_call now user_id id db).0
  cancel : (now user_id id : ℕ) → Step db (cancel_call now user_id id db).0
  hang_up :
      (free_seconds : ℤ) (now user_id id : ℕ) → Step db (call_end free_seconds now user_id id db).0
  watch :
      (config : WatchdogConfig) (certified : ℕ → Bool) (now : ℕ) (presence : CallPresence) (id : ℕ)
      → Step db (watch_call config certified now presence id db)
  expire :
      (ring_timeout_seconds now : ℕ)
      → Step db (record db { calls = close_timeout_pending ring_timeout_seconds now db.calls })
  change_users : (users : Users) → Step db (record db { users = users })

-- The states that an empty table of calls leads to.
pub data Reach : Database → Type 0 where
  start : (users : Users) → Reach (record { users = users; calls = []; next_call_id = 1 })
  next : {db db' : Database} → Reach db → Step db db' → Reach db'

-- One step or more, or none.
pub data Steps (db : Database) : Database → Type 0 where
  done : Steps db db
  more : {db' db'' : Database} → Steps db db' → Step db' db'' → Steps db db''
