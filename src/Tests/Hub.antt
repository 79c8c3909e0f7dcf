-- ===== src/Tests/Hub.antt =====
-- The theorems on the hub, applied to user 5: connected on worker 1, then on worker 2, where the
-- old connection is closed late.
use new1v.Prelude.{◌≡◌, refl, true, false, none, some, List, [], ◌∷◌}
use new1v.Hub.{
  Hub, empty_hub, is_alive, connect, refresh_online_lease, disconnect, is_online, connect_call,
  refresh_call, disconnect_call, HubCall, run_call, run_calls,
}
use new1v.Hub.Owner.{Represents, current_after, current_after_all, run_calls-Represents}
use new1v.Hub.Race.{overtaken, reconnect_lost}
use new1v.Hub.Dropped.{refreshes, dropped_while_connected}

abbrev moved : List HubCall
moved =
    connect_call 1 5 10 0
    ∷ (refresh_call 1 5 (some 10) 60
        ∷ (connect_call 2 5 20 90 ∷ (disconnect_call 1 5 (some 10) ∷ [])))

run_calls-Represents_example :
    Represents 5 (run_calls moved empty_hub) (current_after_all moved 5 none)
run_calls-Represents_example = run_calls-Represents moved 5

still_online : (is_online 5 200 (run_calls moved empty_hub)).1 ≡ true
unfolding is_online run_calls run_call connect refresh_online_lease disconnect
still_online = refl

lease_over : (is_online 5 210 (run_calls moved empty_hub)).1 ≡ false
unfolding is_online run_calls run_call connect refresh_online_lease disconnect
lease_over = refl

moved_to : current_after_all moved 5 none ≡ some (2, 20)
unfolding current_after_all current_after
moved_to = refl

abbrev silent : Hub
silent = run_calls moved empty_hub

silent-connection : silent.connections 2 5 ≡ some 20
unfolding run_calls run_call connect refresh_online_lease disconnect
silent-connection = refl

silent-online : silent.online 5 ≡ true
unfolding run_calls run_call connect refresh_online_lease disconnect
silent-online = refl

silent-lapsed : is_alive 210 (silent.lease 5) ≡ false
unfolding run_calls run_call connect refresh_online_lease disconnect
silent-lapsed = refl

dropped_while_connected_example :
    (is_online 5 250 (run_calls (refreshes 2 5 20 (220 ∷ (240 ∷ []))) (is_online 5 210 silent).0)).1
    ≡ false
dropped_while_connected_example =
    dropped_while_connected 2 5 20 210 250 (220 ∷ (240 ∷ [])) silent silent-connection silent-online
      silent-lapsed

-- User 5 comes back on worker 3, while worker 2 is closing the old connection.
moving-owner : silent.owner 5 ≡ some 2
unfolding run_calls run_call connect refresh_online_lease disconnect
moving-owner = refl

reconnect_lost_example :
    ((overtaken 2 3 5 30 300 silent).connections 3 5 ≡ some 30)
    × ((is_online 5 330
          (run_calls (refreshes 3 5 30 (310 ∷ (320 ∷ []))) (overtaken 2 3 5 30 300 silent))).1
        ≡ false)
reconnect_lost_example = reconnect_lost 2 3 5 30 300 330 (310 ∷ (320 ∷ [])) silent moving-owner
