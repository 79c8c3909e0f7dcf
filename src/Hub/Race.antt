-- ===== src/Hub/Race.antt =====
-- A user connects again while a worker is closing the old connection:
-- backend/app/websocket/manager.py.
use new1v.Prelude.{ℕ, ◌≡◌, false, some, List, arith}
use new1v.Hub.{Hub, close, clear_after, connect, is_online, run_calls}
use new1v.Hub.Dropped.{refreshes, refreshes-offline}

-- Worker `pid` closes its connection and reads the owner; worker `other` connects the user; then the
-- first clears the keys by the owner that it has read.
abbrev pub overtaken : (pid other user_id websocket now : ℕ) → Hub → Hub
overtaken pid other user_id websocket now h =
    clear_after (h.owner user_id) pid user_id
      (connect other user_id websocket now (close pid user_id h))

record IsLost (other user_id websocket : ℕ) (h : Hub) : Type 0 where
  connected : h.connections other user_id ≡ some websocket
  offline : h.online user_id ≡ false

overtaken-IsLost :
    (pid other user_id websocket now : ℕ) (h : Hub)
    → h.owner user_id ≡ some pid
    → IsLost other user_id websocket (overtaken pid other user_id websocket now h)
unfolding clear_after connect close
overtaken-IsLost pid other user_id websocket now h e = record {
  connected = ground (arith, e);
  offline = ground (arith, e);
}

-- A worker owns a user. It closes the user's connection and reads the owner; before it clears the
-- keys, the user connects again, on another worker or the same. Once the keys are cleared, the user's
-- new connection is held, and yet `is_online` answers no, however many messages that connection sends.
pub reconnect_lost :
    (pid other user_id websocket now later : ℕ) (nows : List ℕ) (h : Hub)
    → h.owner user_id ≡ some pid
    → ((overtaken pid other user_id websocket now h).connections other user_id ≡ some websocket)
      × ((is_online user_id later (
            run_calls
              (refreshes other user_id websocket nows)
              (overtaken pid other user_id websocket now h))).1
          ≡ false)
unfolding is_online
reconnect_lost pid other user_id websocket now later nows h e =
    let lost = overtaken-IsLost pid other user_id websocket now h e in
    let off =
      refreshes-offline other user_id websocket nows (overtaken pid other user_id websocket now h)
        lost.offline in
    (lost.connected, ground (arith, off))
