-- ===== src/Hub/Dropped.antt =====
-- A connection that was silent for longer than its lease: backend/app/websocket/manager.py and
-- `_drop_stale_online_ids` of backend/app/websocket/presence.py.
use new1v.Prelude.{ℕ, ◌≡◌, true, false, some, List, [], ◌∷◌, arith}
use new1v.Hub.{
  Hub, is_alive, refresh_online_lease, is_online, drop_stale, HubCall, refresh_call, run_call,
  run_calls,
}

-- The messages of a socket, each at its instant, refresh the lease.
unfoldable pub refreshes : (pid user_id websocket : ℕ) → List ℕ → List HubCall
refreshes pid user_id websocket [] = []
refreshes pid user_id websocket (now ∷ nows) =
    refresh_call pid user_id (some websocket) now ∷ refreshes pid user_id websocket nows

pub refreshes-offline :
    (pid user_id websocket : ℕ) (nows : List ℕ) (h : Hub)
    → h.online user_id ≡ false
    → (run_calls (refreshes pid user_id websocket nows) h).online user_id ≡ false
unfolding refreshes run_calls run_call refresh_online_lease
refreshes-offline pid user_id websocket [] h e = e
refreshes-offline pid user_id websocket (now ∷ nows) h e =
    refreshes-offline pid user_id websocket nows
      (refresh_online_lease pid user_id (some websocket) now h) (ground (arith, e))

-- A user is connected, but the lease has lapsed when somebody asks whether the user is online.
-- Then, however many messages the same connection sends afterwards, each of which refreshes the
-- lease, `is_online` keeps answering no.
pub dropped_while_connected :
    (pid user_id websocket asked later : ℕ) (nows : List ℕ) (h : Hub)
    → h.connections pid user_id ≡ some websocket
    → h.online user_id ≡ true
    → is_alive asked (h.lease user_id) ≡ false
    → (is_online user_id later
        (run_calls (refreshes pid user_id websocket nows) (is_online user_id asked h).0)).1
      ≡ false
unfolding is_online drop_stale
dropped_while_connected pid user_id websocket asked later nows h c e l = ground (
  arith,
  e,
  l,
  refreshes-offline pid user_id websocket nows (drop_stale user_id h) (ground arith),
)
