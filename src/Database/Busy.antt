-- ===== src/Database/Busy.antt =====
-- How many active calls a user takes part in.
use new1v.Prelude.{
  ℕ, ◌+◌, ◌≤◌, ◌≡◌, ◌⊎◌, inl, inr, refl, true, false, some, [], ◌∷◌, ◌==◌, if◌then◌else◌, arith, ap,
  Bool-cases,
}
use new1v.Prelude.Dict.{Dict, lookup, alter}
use new1v.Records.{CallRecord}
use new1v.Database.{is_active, busy_test, is_busy, save_call}

abbrev pub active_weight : ℕ → CallRecord → ℕ
active_weight k c = if busy_test k 0 c then 1 else 0

unfoldable pub active_calls : ℕ → Dict CallRecord → ℕ
active_calls k [] = 0
active_calls k ((id, c) ∷ calls) = active_weight k c + active_calls k calls

pub not_busy-active_calls :
    (k : ℕ) (calls : Dict CallRecord) → is_busy k calls ≡ false → active_calls k calls ≡ 0
unfolding is_busy active_calls
not_busy-active_calls k [] h = refl
not_busy-active_calls k ((id, c) ∷ calls) h = ground (arith, not_busy-active_calls k calls)

active_weight-le :
    (k : ℕ) (c c' : CallRecord)
    → c'.caller_id ≡ c.caller_id
    → c'.callee_id ≡ c.callee_id
    → (is_active c'.status ≡ false) ⊎ (is_active c.status ≡ true)
    → active_weight k c' ≤ active_weight k c
active_weight-le k c c' a b s = ground arith

-- A save that keeps the parties, and makes no ended call active, adds no active call to anybody.
pub active_calls-save_call :
    (k id : ℕ) (c c' : CallRecord) (calls : Dict CallRecord)
    → lookup id calls ≡ some c
    → c'.caller_id ≡ c.caller_id
    → c'.callee_id ≡ c.callee_id
    → (is_active c'.status ≡ false) ⊎ (is_active c.status ≡ true)
    → active_calls k (save_call id c' calls) ≤ active_calls k calls
unfolding active_calls save_call alter lookup
active_calls-save_call k id c c' [] h a b s = cc
active_calls-save_call k id c c' ((j, d) ∷ calls) h a b s = elim (Bool-cases (id == j)) [
  | inl e ↦
      let same : d ≡ c = ground (arith, h) in
      simp e (omega (arith, active_weight-le k c c' a b s, ap (active_weight k) same))
  | inr e ↦ simp e (omega (arith, active_calls-save_call k id c c' calls (ground (arith, h)) a b s))
]
