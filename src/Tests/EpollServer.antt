-- ===== src/Tests/EpollServer.antt =====
-- A thread of cpp-source/tcp-server.cpp with a few connections.
use libjaypea.Base.{ℕ, codes, [], ◌∷◌, List, true, false, ◌≡◌, refl, arith, some}
use libjaypea.Base.Tables.{find, set, remove}
use libjaypea.EpollServer.{
  disarmed, Accepted, accepted, set_timer, count, ended, Event, expirations, broadcast, incoming,
  readable,
}
use libjaypea.EpollServer.Clients.{
  close_client, forget, on_failure, on_timeout, on_timeouts, send, send_all, on_broadcast,
  on_readable,
}
use libjaypea.EpollServer.Accept.{connect, accept_loop, on_incoming}
use libjaypea.EpollServer.Events.{initial, step, run_batch, run_thread}
use libjaypea.EpollServer.Sound.{IsSound}
use libjaypea.EpollServer.Runs.{run_thread-IsSound}
use libjaypea.EpollServer.Deaf.{run_thread-incoming}

abbrev peer : ℕ → ℕ → Accepted
peer fd timer = accepted (record {
  fd = fd;
  details = some (codes "1.2.3.4");
  continuation_fails = false;
  add_fails = false;
  timer = set_timer timer;
})

-- Two connections fill the thread; one times out, and the other sends, hears a broadcast and ends.
abbrev day : List (List Event)
day =
    (incoming true (peer 7 8 ∷ peer 9 10 ∷ peer 11 12 ∷ []) ∷ [])
    ∷ (readable 9 true (count 3) ∷ expirations ((8, true) ∷ []) ∷ [])
    ∷ (broadcast (some (codes "hi")) (λ fd. false) ∷ readable 9 true ended ∷ [])
    ∷ []

day_ends : (run_thread 2 day initial).disconnected ≡ 7 ∷ 9 ∷ []
unfolding find set remove close_client forget on_failure on_timeout on_timeouts send send_all
    on_broadcast on_readable connect accept_loop on_incoming step run_batch run_thread
day_ends = refl

run_thread-IsSound_example : IsSound 2 (run_thread 2 day initial)
unfolding find set remove close_client forget on_failure on_timeout on_timeouts send send_all
    on_broadcast on_readable connect accept_loop on_incoming step run_batch run_thread
run_thread-IsSound_example = run_thread-IsSound 2 day (omega arith) (omega arith) (
  ((refl, (refl, (8, refl, refl), (refl, (10, refl, refl), (refl, (12, refl, refl), tt)))), tt),
  (((10, refl), ((refl, (7, refl), tt), tt)), ((tt, ((10, refl), tt)), tt)),
)

run_thread-incoming_example :
    ((run_thread 2
        ((expirations ((8, true) ∷ []) ∷ []) ∷ [])
        (step 2 (incoming false []) initial)).server
      ≡ disarmed)
    × ((run_thread 2
          ((expirations ((8, true) ∷ []) ∷ []) ∷ [])
          (step 2 (incoming false []) initial)).connected
        ≡ [])
run_thread-incoming_example =
    run_thread-incoming 2 [] ((expirations ((8, true) ∷ []) ∷ []) ∷ []) initial ((tt, tt), tt)
