-- ===== src/CallApi/Edits.antt =====
-- What a handler other than `dialing` does to the table of calls: it saves rows of calls that have
-- not ended, and keeps their parties.
use new1v.Prelude.{
  ℕ, ◌≡◌, inl, inr, refl, Bool, true, false, some, List, [], ◌∷◌, ◌==◌, arith, Bool-cases,
  Option-cases,
}
use new1v.Prelude.Int.{ℤ}
use new1v.Prelude.Dict.{Dict, lookup}
use new1v.Records.{CallRecord, CallStatus, EndReason, EndBasis}
use new1v.Presence.{CallPresence}
use new1v.Watchdog.Config.{WatchdogConfig}
use new1v.Watchdog.Parties.{SameParties, process_call-SameParties}
use new1v.Database.{Database, is_ongoing, takes_part, save_call}
use new1v.CallApi.Reply.{Checked, ok, stop, Reply, stop_if-eq-ok}
use new1v.CallApi.Answer.{
  AnswerEnv, is_pending, is_ring_timeout, close_call, payer_of, payer_is_short, check_accept,
  connect_call, refuse_unpaid, answer_call, answer_checked, accept_found, accept_call, on_call,
  reject_found, reject_call, cancel_found, cancel_call,
}
use new1v.CallApi.End.{
  end_found, call_end, close_pending, close_each, close_timeout_pending, watch_call, watch_found,
  is_ended, overdue_calls,
}
use new1v.CallApi.End.Parties.{settle_end-SameParties}

pub data Edits : Dict CallRecord → Dict CallRecord → Type 0 where
  same : {cs : Dict CallRecord} → Edits cs cs
  saved :
      {cs : Dict CallRecord} (id : ℕ) (c c' : CallRecord)
      → lookup id cs ≡ some c
      → is_ended c.status ≡ false
      → SameParties c c'
      → Edits cs (save_call id c' cs)
  also : {rs cs ds : Dict CallRecord} → Edits rs cs → Edits cs ds → Edits rs ds

not_pending-not_ended : (s : CallStatus) → is_pending s ≡ true → is_ended s ≡ false
not_pending-not_ended s h = ground arith

close_call-SameParties :
    (reason : EndReason) (basis : EndBasis) (now : ℕ) (c : CallRecord)
    → SameParties c (close_call reason basis now c)
unfolding close_call
close_call-SameParties reason basis now c = record { caller = refl; callee = refl }

-- What a handler does besides: new keys are only drawn by `dialing`.
abbrev pub Handled : Database → Database → Type 0
Handled db db' = Edits db.calls db'.calls × (db'.next_call_id ≡ db.next_call_id)

on_call-Handled :
    (id : ℕ) (handler : CallRecord → Database → Database × Reply) (db : Database)
    → ((c : CallRecord) → lookup id db.calls ≡ some c → Handled db (handler c db).0)
    → Handled db (on_call id handler db).0
on_call-Handled id handler db h = elim (Option-cases (lookup id db.calls)) [
  | inl e ↦ rw (e, on_call) (same, refl)
  | inr (c, e) ↦ rw (e, on_call) (h c e)
]

module _ (db : Database) (id : ℕ) (c : CallRecord) (there : lookup id db.calls ≡ some c) where
  answer_call-Handled :
      (env : AnswerEnv) → is_pending c.status ≡ true → Handled db (answer_call env id c db).0
  unfolding answer_call refuse_unpaid close_call connect_call
  answer_call-Handled env unanswered =
      let fresh = not_pending-not_ended c.status unanswered in
      let p = payer_of c db.users in
      elim (Bool-cases (payer_is_short p c.call_price db.users)) [
        | inl e ↦ simp e (saved id c _ there fresh (record { caller = refl; callee = refl }), refl)
        | inr e ↦ simp e (saved id c _ there fresh (record { caller = refl; callee = refl }), refl)
      ]

  check_accept-pending :
      (user_id : ℕ) → check_accept user_id id c db.calls ≡ ok tt → is_pending c.status ≡ true
  unfolding check_accept
  check_accept-pending user_id h = let (e, _) = stop_if-eq-ok _ _ _ h in ground (arith, e)

  accept_checked-Handled :
      (env : AnswerEnv) (user_id : ℕ)
      → Handled db (answer_checked (check_accept user_id id c db.calls) env id c db).0
  accept_checked-Handled env user_id = go (check_accept user_id id c db.calls) refl
    where
      go :
          (m : Checked (Unit {0}))
          → check_accept user_id id c db.calls ≡ m
          → Handled db (answer_checked m env id c db).0
      go (stop e) h = (same, refl)
      go (ok tt) h = answer_call-Handled env (check_accept-pending user_id h)

  accept_found-Handled :
      (env : AnswerEnv) (user_id : ℕ) → Handled db (accept_found env user_id id c db).0
  unfolding accept_found
  accept_found-Handled env user_id = elim (Bool-cases (c.callee_id == user_id)) [
    | inr e ↦ simp e (same, refl)
    | inl e ↦ elim (Bool-cases (is_pending c.status)) [
      | inr e' ↦ simp (e, e') (accept_checked-Handled env user_id)
      | inl e' ↦ elim (Bool-cases (is_ring_timeout env.now c)) [
        | inr e'' ↦ simp (e, e', e'') (accept_checked-Handled env user_id)
        | inl e'' ↦
            simp (e, e', e'')
              (
                saved id c _ there (not_pending-not_ended c.status e')
                    (close_call-SameParties _ _ env.now c),
                refl,
              )
      ]
    ]
  ]

  reject_found-Handled : (now user_id : ℕ) → Handled db (reject_found now user_id id c db).0
  unfolding reject_found
  reject_found-Handled now user_id = elim (Bool-cases (c.callee_id == user_id)) [
    | inr e ↦ simp e (same, refl)
    | inl e ↦ elim (Bool-cases (is_pending c.status)) [
      | inr e' ↦ simp (e, e') (same, refl)
      | inl e' ↦
          simp (e, e')
            (
              saved id c _ there (not_pending-not_ended c.status e')
                  (close_call-SameParties _ _ now c),
              refl,
            )
    ]
  ]

  cancel_found-Handled : (now user_id : ℕ) → Handled db (cancel_found now user_id id c db).0
  unfolding cancel_found
  cancel_found-Handled now user_id = elim (Bool-cases (c.caller_id == user_id)) [
    | inr e ↦ simp e (same, refl)
    | inl e ↦ elim (Bool-cases (is_pending c.status)) [
      | inr e' ↦ simp (e, e') (same, refl)
      | inl e' ↦
          simp (e, e')
            (
              saved id c _ there (not_pending-not_ended c.status e')
                  (close_call-SameParties _ _ now c),
              refl,
            )
    ]
  ]

  end_found-Handled :
      (free_seconds : ℤ) (now user_id : ℕ)
      → Handled db (end_found free_seconds now user_id id c db).0
  unfolding end_found
  end_found-Handled free_seconds now user_id = elim (Bool-cases (takes_part user_id c)) [
    | inr e ↦ simp e (same, refl)
    | inl e ↦ elim (Bool-cases (is_ended c.status)) [
      | inl e' ↦ simp (e, e') (same, refl)
      | inr e' ↦
          simp (e, e')
            (saved id c _ there e' (settle_end-SameParties free_seconds now c db.users), refl)
    ]
  ]

  ongoing-not_ended : is_ongoing c.status ≡ true → is_ended c.status ≡ false
  ongoing-not_ended h = ground arith

  watch_found-Handled :
      (config : WatchdogConfig) (certified : ℕ → Bool) (now : ℕ) (presence : CallPresence)
      → Handled db (watch_found config certified now presence id c db)
  watch_found-Handled config certified now presence = elim (Bool-cases (is_ongoing c.status)) [
    | inr e ↦ simp e (same, refl)
    | inl e ↦ simp e (
      saved id c _ there (ongoing-not_ended e)
          (process_call-SameParties config certified now presence c db.users),
      refl,
    )
  ]

pub accept_call-Handled :
    (env : AnswerEnv) (user_id id : ℕ) (db : Database)
    → Handled db (accept_call env user_id id db).0
unfolding accept_call
accept_call-Handled env user_id id db =
    on_call-Handled id (accept_found env user_id id) db
      (λ c there. accept_found-Handled db id c there env user_id)

pub reject_call-Handled :
    (now user_id id : ℕ) (db : Database) → Handled db (reject_call now user_id id db).0
unfolding reject_call
reject_call-Handled now user_id id db =
    on_call-Handled id (reject_found now user_id id) db
      (λ c there. reject_found-Handled db id c there now user_id)

pub cancel_call-Handled :
    (now user_id id : ℕ) (db : Database) → Handled db (cancel_call now user_id id db).0
unfolding cancel_call
cancel_call-Handled now user_id id db =
    on_call-Handled id (cancel_found now user_id id) db
      (λ c there. cancel_found-Handled db id c there now user_id)

pub call_end-Handled :
    (free_seconds : ℤ) (now user_id id : ℕ) (db : Database)
    → Handled db (call_end free_seconds now user_id id db).0
unfolding call_end
call_end-Handled free_seconds now user_id id db =
    on_call-Handled id (end_found free_seconds now user_id id) db
      (λ c there. end_found-Handled db id c there free_seconds now user_id)

pub watch_call-Handled :
    (config : WatchdogConfig) (certified : ℕ → Bool) (now : ℕ) (presence : CallPresence) (id : ℕ)
    (db : Database)
    → Handled db (watch_call config certified now presence id db)
unfolding watch_call
watch_call-Handled config certified now presence id db = elim (Option-cases (lookup id db.calls)) [
  | inl e ↦ rw (e, watch_call) (same, refl)
  | inr (c, e) ↦ rw (e, watch_call) (watch_found-Handled db id c e config certified now presence)
]

close_pending-Edits :
    (now id : ℕ) (calls : Dict CallRecord) → Edits calls (close_pending now id calls)
unfolding close_pending
close_pending-Edits now id calls = elim (Option-cases (lookup id calls)) [
  | inl e ↦ rw (e, close_pending) same
  | inr (c, e) ↦ elim (Bool-cases (is_pending c.status)) [
    | inr e' ↦ rw (e, close_pending) (simp e' same)
    | inl e' ↦
        rw (e, close_pending)
          (simp e' (
            saved id c _ e (not_pending-not_ended c.status e')
              (record { caller = refl; callee = refl })))
  ]
]

close_each-Edits :
    (now : ℕ) (ids : List ℕ) (calls : Dict CallRecord) → Edits calls (close_each now ids calls)
unfolding close_each
close_each-Edits now [] calls = same
close_each-Edits now (id ∷ ids) calls =
    also (close_pending-Edits now id calls) (close_each-Edits now ids (close_pending now id calls))

pub close_timeout_pending-Edits :
    (ring_timeout_seconds now : ℕ) (calls : Dict CallRecord)
    → Edits calls (close_timeout_pending ring_timeout_seconds now calls)
unfolding close_timeout_pending
close_timeout_pending-Edits ring_timeout_seconds now calls =
    close_each-Edits now (overdue_calls 100 ring_timeout_seconds now calls) calls
