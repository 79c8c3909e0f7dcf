-- ===== src/Hub/Owner.antt =====
-- What the hub promises: of each user the connection that was made last, until it is closed. The
-- keys in Redis, written by many workers, keep this promise.

use new1v.Prelude.{
  ℕ, ◌≡◌, refl, Bool, true, false, ◌&&◌, Option, none, some, List, [], ◌∷◌, ◌==◌, if◌then◌else◌,
  arith,
}
use new1v.Hub.{
  Hub, empty_hub, connect, refresh_online_lease, disconnect, is_online, set_manual_offline,
  clear_manual_offline, HubCall, connect_call, refresh_call, disconnect_call, online_call,
  offline_call, back_call, run_call, run_calls,
}

-- The worker and the socket of the current connection.
abbrev pub Current : Type 0
Current = Option (ℕ × ℕ)

abbrev is_that : ℕ → Option ℕ → Current → Bool
is_that pid websocket none = false
is_that pid none (some (p, w)) = p == pid
is_that pid (some websocket) (some (p, w)) = (p == pid) && (w == websocket)

-- What a call does to the current connection of user k.
unfoldable pub current_after : HubCall → ℕ → Current → Current
current_after (connect_call pid user_id websocket now) k c =
    if user_id == k then some (pid, websocket) else c
current_after (disconnect_call pid user_id websocket) k c =
    if (user_id == k) && is_that pid websocket c then none else c
current_after _ k c = c

unfoldable pub current_after_all : List HubCall → ℕ → Current → Current
current_after_all [] k c = c
current_after_all (x ∷ calls) k c = current_after_all calls k (current_after x k c)

-- The hub stands for the current connection of user k.
abbrev pub Represents : ℕ → Hub → Current → Type 0
Represents k h none = (h.owner k ≡ none) × (h.online k ≡ false)
Represents k h (some (pid, websocket)) =
    (h.owner k ≡ some pid) × (h.connections pid k ≡ some websocket)

run_call-Represents :
    (x : HubCall) (k : ℕ) (h : Hub) (c : Current)
    → Represents k h c
    → Represents k (run_call x h) (current_after x k c)
unfolding run_call current_after connect refresh_online_lease disconnect is_online
    set_manual_offline clear_manual_offline
run_call-Represents (connect_call pid user_id websocket now) k h none r = ground (arith, r)
run_call-Represents (connect_call pid user_id websocket now) k h (some (p, w)) r = ground (arith, r)
run_call-Represents (refresh_call pid user_id websocket now) k h none r = ground (arith, r)
run_call-Represents (refresh_call pid user_id websocket now) k h (some (p, w)) r = ground (arith, r)
run_call-Represents (disconnect_call pid user_id none) k h none r = ground (arith, r)
run_call-Represents (disconnect_call pid user_id none) k h (some (p, w)) r = ground (arith, r)
run_call-Represents (disconnect_call pid user_id (some s)) k h none r = ground (arith, r)
run_call-Represents (disconnect_call pid user_id (some s)) k h (some (p, w)) r = ground (arith, r)
run_call-Represents (online_call user_id now) k h none r = ground (arith, r)
run_call-Represents (online_call user_id now) k h (some (p, w)) r = ground (arith, r)
run_call-Represents (offline_call user_id now) k h none r = r
run_call-Represents (offline_call user_id now) k h (some (p, w)) r = r
run_call-Represents (back_call user_id) k h none r = r
run_call-Represents (back_call user_id) k h (some (p, w)) r = r

-- From a hub that stands for a connection.
run_calls-Represents-from :
    (calls : List HubCall) (k : ℕ) (h : Hub) (c : Current)
    → Represents k h c
    → Represents k (run_calls calls h) (current_after_all calls k c)
unfolding run_calls current_after_all
run_calls-Represents-from [] k h c r = r
run_calls-Represents-from (x ∷ calls) k h c r =
    run_calls-Represents-from calls k (run_call x h) (current_after x k c)
      (run_call-Represents x k h c r)

-- Where each request ends before the next one begins: after any requests on any workers from an
-- empty hub, if the user's last connection has not been closed, Redis names its worker as the owner
-- and that worker holds its socket; if it has been closed, or none was made, the user has no owner
-- and is not in the set of online users. So a disconnect of an older connection, on the same worker
-- or on another, that comes after a new connection changes nothing.
pub run_calls-Represents :
    (calls : List HubCall) (k : ℕ)
    → Represents k (run_calls calls empty_hub) (current_after_all calls k none)
run_calls-Represents calls k = run_calls-Represents-from calls k empty_hub none (refl, refl)

abbrev pub has_current : Current → Bool
has_current none = false
has_current (some _) = true

Represents-has_current :
    (k now : ℕ) (h : Hub) (c : Current)
    → Represents k h c
    → (is_online k now h).1 ≡ true
    → has_current c ≡ true
unfolding is_online
Represents-has_current k now h none r e = ground (arith, r, e)
Represents-has_current k now h (some x) r e = refl

-- Where each request ends before the next one begins, a user whom `is_online` reports as online has a
-- connection that was made and not closed since.
is_online-has_current :
    (calls : List HubCall) (k now : ℕ)
    → (is_online k now (run_calls calls empty_hub)).1 ≡ true
    → has_current (current_after_all calls k none) ≡ true
is_online-has_current calls k now =
    Represents-has_current k now (run_calls calls empty_hub) (current_after_all calls k none)
      (run_calls-Represents calls k)
