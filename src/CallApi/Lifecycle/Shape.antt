-- ===== src/CallApi/Lifecycle/Shape.antt =====
-- The two things that a step does to the tables: it handles calls that are there, or a call rings.
use new1v.Prelude.{ℕ, ◌≡◌, refl, false, ◌==◌, arith, sym, ap}
use new1v.Records.{CallRecord}
use new1v.Database.{Database, is_busy}
use new1v.CallApi.Reply.{Checked, ok, stop, >>=-eq-ok, >>-eq-ok, stop_if-eq-ok}
use new1v.CallApi.Dialing.{
  DialEnv, check_dial, check_target, check_lines, new_call, dialing, dial_checked, create_call,
}
use new1v.CallApi.Edits.{
  Handled, same, accept_call-Handled, reject_call-Handled, cancel_call-Handled, call_end-Handled,
  watch_call-Handled, close_timeout_pending-Edits,
}
use new1v.CallApi.Lifecycle.{
  Step, dial, accept, reject, cancel, hang_up, watch, expire, change_users,
}

-- What a call that rings has passed.
pub record Dialled (caller_id target_id : ℕ) (db : Database) (c : CallRecord) : Type 0 where
  pub caller : c.caller_id ≡ caller_id
  pub callee : c.callee_id ≡ target_id
  pub apart : (caller_id == target_id) ≡ false
  pub caller_free : is_busy caller_id db.calls ≡ false
  pub callee_free : is_busy target_id db.calls ≡ false

check_target-apart :
    (env : DialEnv) (caller_id target_id : ℕ) (db : Database)
    → check_target env caller_id target_id db ≡ ok tt
    → (caller_id == target_id) ≡ false
unfolding check_target
check_target-apart env caller_id target_id db h =
    let (_, h1) = stop_if-eq-ok _ _ _ h in
    let (target, _, h2) = >>=-eq-ok _ _ h1 in let (apart, _) = stop_if-eq-ok _ _ _ h2 in apart

check_lines-free :
    (env : DialEnv) (caller_id target_id : ℕ) (db : Database)
    → check_lines env caller_id target_id db ≡ ok tt
    → (is_busy caller_id db.calls ≡ false) × (is_busy target_id db.calls ≡ false)
unfolding check_lines
check_lines-free env caller_id target_id db h =
    let (caller, h1) = stop_if-eq-ok _ _ _ h in
    let (target, _) = stop_if-eq-ok _ _ _ h1 in (caller, target)

check_dial-Dialled :
    (env : DialEnv) (caller_id target_id : ℕ) (db : Database) (c : CallRecord)
    → check_dial env caller_id target_id db ≡ ok c
    → Dialled caller_id target_id db c
unfolding check_dial new_call
check_dial-Dialled env caller_id target_id db c h =
    let (t, h1) = >>-eq-ok _ _ h in
    let (caller, _, h2) = >>=-eq-ok _ _ h1 in
    let (target, _, h3) = >>=-eq-ok _ _ h2 in
    let (_, h4) = stop_if-eq-ok _ _ _ h3 in
    let (_, h5) = >>-eq-ok _ _ h4 in
    let (_, h6) = stop_if-eq-ok _ _ _ h5 in
    let (l, h7) = >>-eq-ok _ _ h6 in
    let (caller_free, callee_free) = check_lines-free env caller_id target_id db l in
    let made : new_call env caller_id caller target_id target ≡ c = ground (arith, h7) in
    record {
      caller = sym (ap (λ (d : CallRecord). d.caller_id) made);
      callee = sym (ap (λ (d : CallRecord). d.callee_id) made);
      apart = check_target-apart env caller_id target_id db t;
      caller_free = caller_free;
      callee_free = callee_free;
    }

pub data Shape (db : Database) : Database → Type 0 where
  handled : {db' : Database} → Handled db db' → Shape db db'
  rings :
      (caller_id target_id : ℕ) (c : CallRecord)
      → Dialled caller_id target_id db c
      → Shape db (create_call c db)

dialing-Shape :
    (env : DialEnv) (caller_id target_id : ℕ) (db : Database)
    → Shape db (dialing env caller_id target_id db).0
unfolding dialing
dialing-Shape env caller_id target_id db = go (check_dial env caller_id target_id db) refl
  where
    go :
        (m : Checked CallRecord)
        → check_dial env caller_id target_id db ≡ m
        → Shape db (dial_checked m db).0
    go (stop e) _ = handled (same, refl)
    go (ok c) e = rings caller_id target_id c (check_dial-Dialled env caller_id target_id db c e)

pub Step-Shape : {db db' : Database} → Step db db' → Shape db db'
Step-Shape {db = db} (dial env caller_id target_id) = dialing-Shape env caller_id target_id db
Step-Shape {db = db} (accept env user_id id) = handled (accept_call-Handled env user_id id db)
Step-Shape {db = db} (reject now user_id id) = handled (reject_call-Handled now user_id id db)
Step-Shape {db = db} (cancel now user_id id) = handled (cancel_call-Handled now user_id id db)
Step-Shape {db = db} (hang_up free_seconds now user_id id) =
    handled (call_end-Handled free_seconds now user_id id db)
Step-Shape {db = db} (watch config certified now presence id) =
    handled (watch_call-Handled config certified now presence id db)
Step-Shape {db = db} (expire ring_timeout_seconds now) =
    handled (close_timeout_pending-Edits ring_timeout_seconds now db.calls, refl)
Step-Shape (change_users users) = handled (same, refl)
