-- ===== src/Lib.antt =====
-- The backend of a paid one-to-one video call service, backend/app: how a call is dialled,
-- answered, charged minute by minute and settled, and the other ways in which money, time and
-- content change hands: recharges, VIP orders, gifts, withdrawals, paid messages, popups, reviews.
--
-- Parts and files. A caller dials (`dialing` of backend/app/api/v1/app/call.py); the callee
-- accepts or rejects, or the caller cancels; either hangs up (`call_end`). Meanwhile the watchdog
-- (backend/app/core/call_watchdog.py) charges every minute that falls due, ends a call that its
-- payer cannot pay or that a party has left, and ends calls that ring too long. Every ending
-- settles the service fee (backend/app/services/service_fee_service.py) and pays the certified
-- party (backend/app/services/call_income_service.py).
-- The files of this library, with the code they model (paths under backend/app):
--   Prelude            shared names; integers, tests and tables that `omega` and `ground` read
--   Records, Users     the rows of models/app_user.py and of `CallRecord` in models/admin.py, and
--                      the statements on a balance; Users/Balance: what they do to coins
--   Billing            utils/billing.py and `clamp_int`: minutes due, next charge, who pays
--   Fee                the arithmetic of the service fee; Fee/Rounding, Fee/Final
--   FeeAdjustment      `apply_call_service_fee_final_adjustment`; its Loop, and what it Conserved
--   IncomeSettlement   `settle_call_certified_user_income_once`
--   Presence           core/call_presence.py and `_resolve_force_exit_decision`
--   Watchdog           `_process_stale_batch` on one call: Config (settings), Finish (what every
--                      ending does), Incremental (fee of new minutes), Bill, Conserved, Pass,
--                      Minute, FreeCalls, Parties
--   Interaction        services/interaction_relation_service.py and services/user_block_service.py
--   Database, CallApi  the tables, and the handlers of call.py: Dialing, Answer, End; Edits: what a
--                      handler does to the table of calls; Lifecycle: all of them as steps
--   Withdraw           `withdraw_apply` of api/v1/app/wallet.py and `withdraw_review` of
--                      api/v1/withdraw/withdraw.py; Backed, Conserved, and Race, where two
--                      reviews interleave
--   ImText             services/im_text_billing_service.py, paid messages: Budget, Once, Income
--   Recharge           `recharge_create` and `recharge_callback` of api/v1/app/wallet.py: Ledger,
--                      Once, Lockout
--   Gift               api/v1/app/gift.py and services/gift_income_service.py: Outcome (refusal or
--                      transaction), Budget, Income
--   Vip                services/vip_service.py and api/v1/app/vip.py: Expiry, Once
--   Calendar           Python's dates and times, for Schedule; Days
--   Schedule           the schedule of services/system_popup_service.py: Repeat (daily, weekly),
--                      Monthly, NextRun, Latest
--   ProfileReview      services/profile_review_service.py, and in Handlers the review handlers of
--                      api/v1/app_users/app_users.py: Album, Approved, Rejected, Completed,
--                      Reopened
--   Hub                who is online, websocket/manager.py and websocket/presence.py: Owner (the last
--                      connection), Dropped, Race
--   Popup              the popups of services/system_popup_service.py: Pull (occurrences and receipts
--                      of a user), Fetch (what is shown), Payload (checks and first run of a task),
--                      Admin (api/v1/popup/popup.py), Steps (all requests), Grows, Unique, Acked,
--                      Due, Delivered, Shown
--   Greet              services/flirt_greet_service.py, the daily quota of greetings: Script,
--                      Requests, Limit
--   Tests              users and calls on which the theorems are applied
--
-- State and operations. The tables are an association list of users, one of calls, and the next
-- key; a handler maps them, the acting user, the settings it reads and one reading of the clock to
-- new tables and a reply. A pass of the watchdog maps a call and the users to an `Outcome`. A handler
-- whose transaction locks its rows runs as one step; steps interleave freely in `Lifecycle.Step`,
-- where the rest of the program may change users at will. Where no lock is held, what follows a read
-- is a function of its own that takes what was read (`review_write`, `review_item_after`,
-- `clear_after`, `reserve_after`, `release_after`), and `Race`, `Reopened` and `Limit` let other
-- requests run in between.
--
-- Numbers. A Python integer is ℤ, keys and durations are ℕ. A `Decimal` of two places is an integer
-- of hundredths, and `quantize_decimal_2` is written where it rounds, on an exact product in
-- millionths; whole coins become hundredths by `cents`. Dates are microseconds, heartbeats
-- milliseconds. Columns never overflow in the model. Loops are structural recursion, on the number
-- of minutes or along a list, so that no fuel is needed; the watchdog's batch of expired calls
-- keeps its limit of 100. The search for the latest run of a popup task has fuel, and enough is
-- proved to be the microseconds since the task began; the search for a month has the code's 36 tries.
--
-- Not modelled. The database, Redis but for the keys that guard a request and those of the hub and
-- the greetings, WebSocket pushes, traces and logs; parsing of stored settings and of a time of
-- day, which enter as integers; trimming of texts and addresses, which are keys; years past 9999;
-- the leader election and the endless loop of the watchdog; a failure of a statement in the middle
-- of a handler; the other services of backend/app (moments, ranking, notifications, certification,
-- administration).
pub mod Prelude
pub mod Records
pub mod Users
pub mod Billing
pub mod Fee
pub mod FeeAdjustment
pub mod IncomeSettlement
pub mod Presence
pub mod Watchdog
pub mod Interaction
pub mod Database
pub mod CallApi
pub mod Withdraw
pub mod ImText
pub mod Recharge
pub mod Gift
pub mod Vip
pub mod Calendar
pub mod Schedule
pub mod ProfileReview
pub mod Hub
pub mod Popup
pub mod Greet
pub mod Tests
