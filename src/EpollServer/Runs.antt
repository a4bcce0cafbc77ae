-- ===== src/EpollServer/Runs.antt =====
-- The state of a thread after events of its connections, timers and socket, none of them stale.
use libjaypea.Base.{ℕ, ◌<◌, ◌^◌, ◌≡◌, refl, either_way, [], ◌∷◌, List, arith}
use libjaypea.Base.Tables.{find}
use libjaypea.EpollServer.{
  Thread, armed, Event, failure, expirations, broadcast, incoming, readable,
}
use libjaypea.EpollServer.Events.{step, run_batch, run_thread, initial}
use libjaypea.EpollServer.Sound.{
  IsSound, Tracked, AreExpired, on_failure-IsSound, on_timeouts-IsSound,
}
use libjaypea.EpollServer.Steps.{
  AreFresh, on_incoming-IsSound, on_readable-IsSound, on_broadcast-IsSound,
}

-- An event that concerns the state it meets: errors and data of the thread's connections, the
-- timers of connections, and the server's socket only while it is armed.
abbrev pub Admissible : ℕ → Event → Thread → Type 0
Admissible max_connections (failure fd) t = Tracked fd t.client_to_timer
Admissible max_connections (expirations timers) t = AreExpired max_connections timers t
Admissible max_connections (broadcast text fails) t = Unit
Admissible max_connections (incoming lock attempts) t = (t.server ≡ armed) × AreFresh attempts t
Admissible max_connections (readable fd timer_is_set received) t = Tracked fd t.client_to_timer

pub step-IsSound :
    (max_connections : ℕ) (e : Event) (t : Thread)
    → max_connections < 2 ^ 64
    → IsSound max_connections t
    → Admissible max_connections e t
    → IsSound max_connections (step max_connections e t)
unfolding step
step-IsSound max_connections (failure fd) t small s h =
    on_failure-IsSound max_connections fd t small s h
step-IsSound max_connections (expirations timers) t small s h =
    on_timeouts-IsSound max_connections timers t small s h
step-IsSound max_connections (broadcast text fails) t small s h =
    on_broadcast-IsSound max_connections text fails t s
step-IsSound max_connections (incoming lock attempts) t small s (here, fresh) =
    on_incoming-IsSound max_connections lock attempts t s here fresh
step-IsSound max_connections (readable fd timer_is_set received) t small s h =
    on_readable-IsSound max_connections fd timer_is_set received t small s h

-- No event of the batch is stale: none concerns a connection or a timer that an earlier event of
-- the same batch closed. `epoll_wait` may give such events, and the code does not recognize them.
abbrev pub BatchAdmissible : ℕ → List Event → Thread → Type 0
BatchAdmissible max_connections [] t = Unit
BatchAdmissible max_connections (e ∷ events) t =
    Admissible max_connections e t
    × BatchAdmissible max_connections events (step max_connections e t)

abbrev pub AllAdmissible : ℕ → List (List Event) → Thread → Type 0
AllAdmissible max_connections [] t = Unit
AllAdmissible max_connections (batch ∷ batches) t =
    BatchAdmissible max_connections batch t
    × AllAdmissible max_connections batches (run_batch max_connections batch t)

run_batch-IsSound :
    (max_connections : ℕ) (events : List Event) (t : Thread)
    → max_connections < 2 ^ 64
    → IsSound max_connections t
    → BatchAdmissible max_connections events t
    → IsSound max_connections (run_batch max_connections events t)
unfolding run_batch
run_batch-IsSound max_connections [] t small s h = s
run_batch-IsSound max_connections (e ∷ events) t small s (h, others) =
    run_batch-IsSound max_connections events (step max_connections e t) small
      (step-IsSound max_connections e t small s h) others

batches-IsSound :
    (max_connections : ℕ) (batches : List (List Event)) (t : Thread)
    → max_connections < 2 ^ 64
    → IsSound max_connections t
    → AllAdmissible max_connections batches t
    → IsSound max_connections (run_thread max_connections batches t)
unfolding run_thread
batches-IsSound max_connections [] t small s h = s
batches-IsSound max_connections (batch ∷ batches) t small s (h, others) =
    either_way (IsSound max_connections) t.running
      (batches-IsSound max_connections batches (run_batch max_connections batch t) small
        (run_batch-IsSound max_connections batch t small s h) others)
      s

-- After any batches of events of the thread's connections, of their timers and of the server's
-- socket while it is armed, if every new connection gets its timer, the timers close, and no event
-- concerns a connection or a timer that an earlier event of the same batch closed: the tables of connections and timers are inverse to each other, they hold as
-- many connections as are counted, at most the maximum, and the server's socket is out of the
-- epoll set exactly when the thread is full.
pub run_thread-IsSound :
    (max_connections : ℕ) (batches : List (List Event))
    → 0 < max_connections
    → max_connections < 2 ^ 64
    → AllAdmissible max_connections batches initial
    → IsSound max_connections (run_thread max_connections batches initial)
run_thread-IsSound max_connections batches some_room small h =
    batches-IsSound max_connections batches initial small
      (record {
        paired = record {
          inverse = record {
            there = λ fd timer e. unfold find in cc;
            back = λ fd timer e. unfold find in cc;
          };
          distinct = tt;
          counted = refl;
          bounded = omega arith;
        };
        watched = ground arith;
      })
      h
