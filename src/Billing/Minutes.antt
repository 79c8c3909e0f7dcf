-- ===== src/Billing/Minutes.antt =====
-- Laws of the billing arithmetic: when a minute falls due, and who pays.
use new1v.Prelude.{ℕ, ◌*◌, ◌≤◌, ◌<◌, ◌≡◌, ◌≢◌, ◌↔◌, Bool, true, false, arith}
use new1v.Prelude.Int.{ℤ, pos, ◌≤ℤ◌, pos-*ℤ-pos}
use new1v.Billing.{clamp_int, calc_due_minutes, next_due_second, resolve_payer_id}

-- For bounds in order the clamped value lies between them, and a value between them is unchanged.
pub clamp_int_bounds :
    (v lo hi : ℤ)
    → lo ≤ℤ hi
    → (lo ≤ℤ clamp_int v lo hi)
      × (clamp_int v lo hi ≤ℤ hi)
      × (lo ≤ℤ v → v ≤ℤ hi → clamp_int v lo hi ≡ v)
unfolding clamp_int
clamp_int_bounds v lo hi h = ground arith

-- More than `d` minutes are due exactly when the free seconds have passed and the call has lasted
-- longer than `d` whole minutes.
pub calc_due_minutes_iff :
    (duration free d : ℕ)
    → (d < calc_due_minutes duration free) ↔ ((free ≤ duration) × (60 * d < duration))
unfolding calc_due_minutes
calc_due_minutes_iff duration free d = ground arith

-- A call that lasts longer owes no fewer minutes.
pub calc_due_minutes_mono :
    (s t free : ℕ) → s ≤ t → calc_due_minutes s free ≤ calc_due_minutes t free
unfolding calc_due_minutes
calc_due_minutes_mono s t free h = ground arith

-- Whenever a further minute is due, the second at which it fell due has come.
pub next_due_second-le :
    (duration free d : ℕ)
    → d < calc_due_minutes duration free
    → next_due_second (pos d) free ≤ℤ pos duration
unfolding calc_due_minutes next_due_second
next_due_second-le duration free d h = ground (arith, pos-*ℤ-pos d 60)

-- Nobody pays exactly when neither party is certified; whoever pays takes part in the call; and
-- a certified party pays only as the caller of another certified party.
pub resolve_payer_id_lem :
    (caller callee : ℕ) (c d : Bool)
    → caller ≢ 0
    → callee ≢ 0
    → ((resolve_payer_id caller callee c d ≡ 0) ↔ ((c ≡ false) × (d ≡ false)))
      × ((c ≡ true) → (d ≡ false) → resolve_payer_id caller callee c d ≡ callee)
      × ((d ≡ true) → resolve_payer_id caller callee c d ≡ caller)
unfolding resolve_payer_id
resolve_payer_id_lem caller callee true true h k = ground arith
resolve_payer_id_lem caller callee true false h k = ground arith
resolve_payer_id_lem caller callee false true h k = ground arith
resolve_payer_id_lem caller callee false false h k = ground arith
