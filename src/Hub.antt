-- ===== src/Hub.antt =====
-- Who is online: the connections of the workers and the keys that they share in Redis,
-- backend/app/websocket/manager.py and backend/app/websocket/presence.py. A worker is its process
-- id, a socket a number, a key the instant in seconds at which it expires. Redis answers.
-- Every Redis command is a function of its own, and a request is the composition of its commands.
pub mod Owner
pub mod Dropped
pub mod Race
use new1v.Prelude.{
  ℕ, ◌+◌, ◌*◌, Bool, true, false, not, ◌&&◌, Option, none, some, List, [], ◌∷◌, ltb, ◌==◌,
  if◌then◌else◌,
}

-- `connections` are by worker and user, the other fields by user.
pub record Hub : Type 0 where
  pub connections : ℕ → ℕ → Option ℕ
  pub online : ℕ → Bool
  pub lease : ℕ → Option ℕ
  pub owner : ℕ → Option ℕ
  pub manual_offline : ℕ → Option ℕ

abbrev pub empty_hub : Hub
empty_hub = record {
  connections = λ pid k. none;
  online = λ k. false;
  lease = λ k. none;
  owner = λ k. none;
  manual_offline = λ k. none;
}

abbrev pub update {ℓ} : {A : Type ℓ} → ℕ → A → (ℕ → A) → ℕ → A
update k v f j = if j == k then v else f j

abbrev online_lease_ttl_seconds : ℕ
online_lease_ttl_seconds = 120

abbrev manual_offline_ttl : ℕ
manual_offline_ttl = 24 * 60 * 60

-- `exists` of a key that expires.
abbrev pub is_alive : ℕ → Option ℕ → Bool
is_alive now none = false
is_alive now (some expires) = ltb now expires

-- A connection is registered in its worker, and then announced in Redis command by command.
unfoldable pub register : (pid user_id websocket : ℕ) → Hub → Hub
register pid user_id websocket h = record h {
  connections = λ p k.
      if p == pid then update user_id (some websocket) (h.connections p) k else h.connections p k;
}

unfoldable pub add_online : ℕ → Hub → Hub
add_online user_id h = record h { online = update user_id true h.online }

unfoldable pub start_lease : (user_id now : ℕ) → Hub → Hub
start_lease user_id now h = record h {
  lease = update user_id (some (now + online_lease_ttl_seconds)) h.lease;
}

unfoldable pub set_owner : (pid user_id : ℕ) → Hub → Hub
set_owner pid user_id h = record h { owner = update user_id (some pid) h.owner }

unfoldable pub connect : (pid user_id websocket now : ℕ) → Hub → Hub
unfolding register add_online start_lease set_owner
connect pid user_id websocket now h =
    set_owner pid user_id
      (start_lease user_id now (add_online user_id (register pid user_id websocket h)))

-- Whether the socket is the one that the worker holds; without a socket any is.
abbrev is_current : Option ℕ → Option ℕ → Bool
is_current none websocket = false
is_current (some held) none = true
is_current (some held) (some websocket) = held == websocket

unfoldable pub refresh_online_lease :
    (pid user_id : ℕ) → (websocket : Option ℕ) → (now : ℕ) → Hub → Hub
unfolding start_lease
refresh_online_lease pid user_id websocket now h =
    if is_current (h.connections pid user_id) websocket
    then record h { lease = update user_id (some (now + online_lease_ttl_seconds)) h.lease }
    else h

abbrev is_pid : ℕ → Option ℕ → Bool
is_pid pid none = false
is_pid pid (some p) = p == pid

unfoldable pub close : ℕ → ℕ → Hub → Hub
close pid user_id h = record h {
  connections =
      λ p k. if p == pid then update user_id none (h.connections p) k else h.connections p k;
}

abbrev remove_online : ℕ → Hub → Hub
remove_online user_id h = record h { online = update user_id false h.online }

abbrev delete_owner : ℕ → Hub → Hub
delete_owner user_id h = record h { owner = update user_id none h.owner }

abbrev delete_lease : ℕ → Hub → Hub
delete_lease user_id h = record h { lease = update user_id none h.lease }

-- What follows the reading of the owner: the shared keys are cleared only by the worker that owned
-- the user then.
unfoldable pub clear_after : (owner : Option ℕ) → (pid user_id : ℕ) → Hub → Hub
clear_after owner pid user_id h =
    if is_pid pid owner
    then delete_lease user_id (delete_owner user_id (remove_online user_id h))
    else h

-- The socket is closed in its worker; the owner is read; the keys are cleared.
unfoldable pub disconnect : (pid user_id : ℕ) → (websocket : Option ℕ) → Hub → Hub
unfolding close clear_after
disconnect pid user_id websocket h =
    if not (is_current (h.connections pid user_id) websocket)
    then h
    else clear_after (h.owner user_id) pid user_id (close pid user_id h)

-- `_drop_stale_online_ids`
unfoldable pub drop_stale : ℕ → Hub → Hub
drop_stale user_id h = record h { online = update user_id false h.online }

unfoldable pub is_online : (user_id now : ℕ) → Hub → Hub × Bool
unfolding drop_stale
is_online user_id now h =
    if not (h.online user_id)
    then (h, false)
    else if not (is_alive now (h.lease user_id))
    then (drop_stale user_id h, false)
    else (h, not (is_alive now (h.manual_offline user_id)))

unfoldable pub set_manual_offline : (user_id now : ℕ) → Hub → Hub
set_manual_offline user_id now h = record h {
  manual_offline = update user_id (some (now + manual_offline_ttl)) h.manual_offline;
}

unfoldable pub clear_manual_offline : ℕ → Hub → Hub
clear_manual_offline user_id h = record h { manual_offline = update user_id none h.manual_offline }

-- What workers and handlers ask of the hub, each request run to its end.
pub data HubCall : Type 0 where
  connect_call : (pid user_id websocket now : ℕ) → HubCall
  refresh_call : (pid user_id : ℕ) (websocket : Option ℕ) (now : ℕ) → HubCall
  disconnect_call : (pid user_id : ℕ) (websocket : Option ℕ) → HubCall
  online_call : (user_id now : ℕ) → HubCall
  offline_call : (user_id now : ℕ) → HubCall
  back_call : (user_id : ℕ) → HubCall

unfoldable pub run_call : HubCall → Hub → Hub
run_call (connect_call pid user_id websocket now) h = connect pid user_id websocket now h
run_call (refresh_call pid user_id websocket now) h =
    refresh_online_lease pid user_id websocket now h
run_call (disconnect_call pid user_id websocket) h = disconnect pid user_id websocket h
run_call (online_call user_id now) h = (is_online user_id now h).0
run_call (offline_call user_id now) h = set_manual_offline user_id now h
run_call (back_call user_id) h = clear_manual_offline user_id h

unfoldable pub run_calls : List HubCall → Hub → Hub
run_calls [] h = h
run_calls (c ∷ calls) h = run_calls calls (run_call c h)
