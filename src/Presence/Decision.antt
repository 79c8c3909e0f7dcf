-- ===== src/Presence/Decision.antt =====
-- When the watchdog ends a call because a party has left.
use new1v.Prelude.{
  ℕ, ◌+◌, ◌*◌, ◌≤◌, ◌<◌, ◌≡◌, ◌≢◌, ◌↔◌, ◌⊎◌, refl, Option, none, some, false, ◌==◌, arith, inl, inr,
  Bool-cases, ==_iff,
}
use new1v.Presence.{
  Role, caller, callee, CallPresence, Verdict, present, gone, effective_last_seen, eval_role,
  ForcedEnd, resolve_force_exit_decision, earliest_gone, verdict_of, update_last_seen,
}

-- The last sign of life: the last heartbeat, or the connection where there was none or it reads 0.
abbrev pub IsLastSign : Option ℕ → (connected t : ℕ) → Type 0
IsLastSign none connected t = t ≡ connected
IsLastSign (some beat) connected t = ((beat ≢ 0) × (t ≡ beat)) ⊎ ((beat ≡ 0) × (t ≡ connected))

effective_last_seen-IsLastSign :
    (seen : Option ℕ) (connected t : ℕ)
    → (t ≡ effective_last_seen seen connected) ↔ IsLastSign seen connected t
unfolding effective_last_seen
effective_last_seen-IsLastSign none connected t = (λ h. h, λ h. h)
effective_last_seen-IsLastSign (some beat) connected t = elim (Bool-cases (beat == 0)) [
  | inl e ↦ rw e (λ h. inr (ground (arith, e), h), λ h. at_zero ((==_iff beat 0).0 e) h)
  | inr e ↦ rw e (λ h. inl (λ z. ground (arith, e, z), h), λ h. beats e h)
]
  where
    at_zero : beat ≡ 0 → IsLastSign (some beat) connected t → t ≡ connected
    at_zero z (inl (ne, h)) = absurd (ne z)
    at_zero z (inr (_, h)) = h

    beats : (beat == 0) ≡ false → IsLastSign (some beat) connected t → t ≡ beat
    beats e (inl (ne, h)) = h
    beats e (inr (z, h)) = absurd (ground (arith, e, z))

gone_iff :
    (connected now detect settle : ℕ) (seen left : Option ℕ) (t : ℕ)
    → (eval_role connected now detect settle seen left ≡ gone t) ↔ (
        (t ≡ effective_last_seen seen connected)
        × (t + detect < now)
        × ((m : ℕ) × (left ≡ some m) × (m + settle ≤ now)))
unfolding eval_role
gone_iff connected now detect settle seen none t = (λ h. ground arith, λ h. ground arith)
gone_iff connected now detect settle seen (some m) t =
    (λ h. (ground arith, ground arith, (m, refl, ground arith)), λ h. ground arith)

-- A party counts as gone since t exactly when t is its last sign of life (its last heartbeat, or the
-- time of the connection where none was received), t is older than the detection time, and the
-- party is marked as having left by a mark at least as old as the grace.
pub eval_role_gone :
    (connected now detect settle : ℕ) (seen left : Option ℕ) (t : ℕ)
    → (eval_role connected now detect settle seen left ≡ gone t) ↔ (
        IsLastSign seen connected t
        × (t + detect < now)
        × ((m : ℕ) × (left ≡ some m) × (m + settle ≤ now)))
eval_role_gone connected now detect settle seen left t =
    let sign = effective_last_seen-IsLastSign seen connected t in
    let gone' = gone_iff connected now detect settle seen left t in
    (λ h. let (a, b, c) = gone'.0 h in (sign.0 a, b, c), λ (a, b, c). gone'.1 (sign.1 a, b, c))

-- A party that has just been heard of, when the clock has not gone past the detection time since,
-- is never the one for whom the call is ended.
pub heartbeat_keeps_call :
    (role : Role) (p : CallPresence) (connected now beat detect_s settle_s : ℕ)
    → beat ≢ 0
    → now ≤ beat + detect_s * 1000
    → verdict_of connected now detect_s settle_s role (update_last_seen role beat p) ≡ present
unfolding eval_role effective_last_seen update_last_seen
heartbeat_keeps_call caller p connected now beat detect_s settle_s ne h = ground arith
heartbeat_keeps_call callee p connected now beat detect_s settle_s ne h = ground arith

abbrev pub IsEarliest : Verdict → Verdict → (caller_id callee_id : ℕ) → ForcedEnd → Type 0
IsEarliest v w caller_id callee_id e =
    (((v ≡ gone e.effective_ended_at_ms) × (e.user_id ≡ caller_id))
      ⊎ ((w ≡ gone e.effective_ended_at_ms) × (e.user_id ≡ callee_id)))
    × ((t : ℕ) → v ≡ gone t → e.effective_ended_at_ms ≤ t)
    × ((t : ℕ) → w ≡ gone t → e.effective_ended_at_ms ≤ t)

earliest_gone-IsEarliest :
    (v w : Verdict) (caller_id callee_id : ℕ) (e : ForcedEnd)
    → earliest_gone v caller_id w callee_id ≡ some e
    → IsEarliest v w caller_id callee_id e
unfolding earliest_gone
earliest_gone-IsEarliest (gone a) (gone b) i j e h =
    (ground arith, λ t q. ground arith, λ t q. ground arith)
earliest_gone-IsEarliest (gone a) w i j e h =
    (ground arith, λ t q. ground arith, λ t q. ground arith)
earliest_gone-IsEarliest v (gone b) i j e h =
    (ground arith, λ t q. ground arith, λ t q. ground arith)
earliest_gone-IsEarliest v w i j e h = cc

-- A call is ended for a party that is gone, at that party's last sign of life, and no party that
-- is gone was last seen earlier.
pub forced_end-IsEarliest :
    (connected caller_id callee_id : ℕ) (p : CallPresence) (now detect_s settle_s : ℕ)
    (e : ForcedEnd)
    → (resolve_force_exit_decision connected caller_id callee_id p now detect_s settle_s).forced_end
      ≡ some e
    → IsEarliest
        (verdict_of connected now detect_s settle_s caller p)
        (verdict_of connected now detect_s settle_s callee p)
        caller_id
        callee_id
        e
unfolding resolve_force_exit_decision
forced_end-IsEarliest connected caller_id callee_id p now detect_s settle_s e h =
    earliest_gone-IsEarliest (verdict_of connected now detect_s settle_s caller p)
      (verdict_of connected now detect_s settle_s callee p) caller_id callee_id e h
