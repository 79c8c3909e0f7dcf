-- ===== src/CallApi/Reply.antt =====
-- Replies, and the checks of a handler as a chain in which the first failure is the reply.
use new1v.Prelude.{ℕ, ◌≡◌, refl, Bool, true, false, Option, none, some}
use new1v.Interaction.{InteractionRelationError}

-- A `Fail`, by what its message says.
pub data CallError : Type 0 where
  bad_target target_unavailable self_call do_not_disturb target_offline account_abnormal : CallError
  blocked insufficient_coins caller_busy callee_busy inbound_protected pair_protected : CallError
  not_found not_callee not_caller not_party ring_timeout not_pending other_ongoing : CallError
  caller_ongoing : CallError
  not_allowed : InteractionRelationError → CallError

-- The code of the reply.
abbrev code_of : CallError → ℕ
code_of bad_target = 400
code_of target_unavailable = 404
code_of self_call = 400
code_of do_not_disturb = 403
code_of target_offline = 400
code_of account_abnormal = 403
code_of blocked = 403
code_of insufficient_coins = 501
code_of caller_busy = 409
code_of callee_busy = 409
code_of inbound_protected = 429
code_of pair_protected = 429
code_of not_found = 404
code_of not_callee = 403
code_of not_caller = 403
code_of not_party = 403
code_of ring_timeout = 400
code_of not_pending = 400
code_of other_ongoing = 409
code_of caller_ongoing = 409
code_of (not_allowed e) = 403

pub data Reply : Type 0 where
  success : Reply
  fail : CallError → Reply

pub data Checked (A : Type 0) : Type 0 where
  ok : A → Checked A
  stop : CallError → Checked A

infixl 5 ◌>>=◌ ◌>>◌
unfoldable pub ◌>>=◌ : {A B : Type 0} → Checked A → (A → Checked B) → Checked B
ok a >>= f = f a
stop e >>= f = stop e

unfoldable pub ◌>>◌ : {B : Type 0} → Checked (Unit {0}) → Checked B → Checked B
unfolding ◌>>=◌
m >> k = m >>= λ _. k

-- `if c: return Fail(…)`
unfoldable pub stop_if : Bool → CallError → Checked (Unit {0})
stop_if true e = stop e
stop_if false e = ok tt

unfoldable pub or_stop : {A : Type 0} → Option A → CallError → Checked A
or_stop none e = stop e
or_stop (some a) e = ok a

unfoldable pub stop_with : Option CallError → Checked (Unit {0})
stop_with none = ok tt
stop_with (some e) = stop e

pub >>=-eq-ok :
    {A B : Type 0} (m : Checked A) (f : A → Checked B) {b : B}
    → (m >>= f) ≡ ok b
    → (a : A) × (m ≡ ok a) × (f a ≡ ok b)
unfolding ◌>>=◌
>>=-eq-ok (ok a) f h = (a, refl, h)
>>=-eq-ok (stop e) f h = cc

pub stop_if-eq-ok :
    {B : Type 0} (c : Bool) (e : CallError) (k : Checked B) {b : B}
    → (stop_if c e >> k) ≡ ok b
    → (c ≡ false) × (k ≡ ok b)
unfolding stop_if ◌>>◌ ◌>>=◌
stop_if-eq-ok true e k h = cc
stop_if-eq-ok false e k h = (refl, h)

pub >>-eq-ok :
    {B : Type 0} (m : Checked (Unit {0})) (k : Checked B) {b : B}
    → (m >> k) ≡ ok b
    → (m ≡ ok tt) × (k ≡ ok b)
unfolding ◌>>◌ ◌>>=◌
>>-eq-ok (ok tt) k h = (refl, h)
>>-eq-ok (stop e) k h = cc
