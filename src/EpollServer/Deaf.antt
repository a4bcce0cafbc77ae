-- ===== src/EpollServer/Deaf.antt =====
-- A thread that finds the lock of `accept` taken.
use libjaypea.Base.{
  ℕ, ◌≡◌, refl, ap, either_way, [], ◌∷◌, List, Bool, true, false, Option, none, some, Bytes, leb,
}
use libjaypea.Base.Tables.{Table}
use libjaypea.EpollServer.{
  Thread, Watch, armed, disarmed, Accepted, Received, ended, count, Event, failure, expirations,
  broadcast, incoming, readable,
}
use libjaypea.EpollServer.Clients.{
  add_server, packet_limit, close_client, forget, on_failure, on_timeout, on_timeouts, send,
  send_all, on_broadcast, after_settime, on_readable,
}
use libjaypea.EpollServer.Accept.{on_incoming}
use libjaypea.EpollServer.Events.{step, run_batch, run_thread}

-- The socket is disarmed, and no connection has been taken since those given.
record IsDeaf (before : List ℕ) (t : Thread) : Type 0 where
  watch : t.server ≡ disarmed
  none_new : t.connected ≡ before

-- The kernel gives an event of the server's socket only while the socket is armed.
abbrev pub IsGiven : Event → Thread → Type 0
IsGiven (incoming lock attempts) t = t.server ≡ armed
IsGiven (failure fd) t = Unit
IsGiven (expirations timers) t = Unit
IsGiven (broadcast text fails) t = Unit
IsGiven (readable fd timer_is_set received) t = Unit

abbrev pub AreGiven : ℕ → List Event → Thread → Type 0
AreGiven max_connections [] t = Unit
AreGiven max_connections (e ∷ events) t =
    IsGiven e t × AreGiven max_connections events (step max_connections e t)

abbrev pub AllGiven : ℕ → List (List Event) → Thread → Type 0
AllGiven max_connections [] t = Unit
AllGiven max_connections (batch ∷ batches) t =
    AreGiven max_connections batch t
    × AllGiven max_connections batches (run_batch max_connections batch t)

module _ (max_connections : ℕ) (before : List ℕ) where
  forget-IsDeaf : (fd timer : ℕ) (t : Thread) → IsDeaf before t → IsDeaf before (forget fd timer t)
  unfolding forget
  forget-IsDeaf fd timer t d = record { watch = d.watch; none_new = d.none_new }

  close_client-IsDeaf :
      (fd : ℕ) (t : Thread) → IsDeaf before t → IsDeaf before (close_client max_connections fd t)
  unfolding close_client
  close_client-IsDeaf fd t d = record {
    watch =
        either_way (λ (w : Watch). w ≡ disarmed) (leb max_connections t.num_connections)
          (ap add_server d.watch) d.watch;
    none_new = d.none_new;
  }

  on_timeout-IsDeaf :
      (timer : ℕ) (closes : Bool) (t : Thread)
      → IsDeaf before t
      → IsDeaf before (on_timeout max_connections timer closes t)
  unfolding on_timeout
  on_timeout-IsDeaf timer closes t d =
      either_way (IsDeaf before) closes
        (close_client-IsDeaf _ (forget _ timer t) (forget-IsDeaf _ timer t d))
        (forget-IsDeaf _ timer t d)

  on_timeouts-IsDeaf :
      (timers : List (ℕ × Bool)) (t : Thread)
      → IsDeaf before t
      → IsDeaf before (on_timeouts max_connections timers t)
  unfolding on_timeouts
  on_timeouts-IsDeaf [] t d = d
  on_timeouts-IsDeaf ((timer, closes) ∷ others) t d =
      on_timeouts-IsDeaf others (on_timeout max_connections timer closes t)
        (on_timeout-IsDeaf timer closes t d)

  send_all-IsDeaf :
      (text : Bytes) (fails : ℕ → Bool) (targets : Table ℕ) (t : Thread)
      → IsDeaf before t
      → IsDeaf before (send_all text fails targets t)
  unfolding send_all send
  send_all-IsDeaf text fails [] t d = d
  send_all-IsDeaf text fails ((fd, timer) ∷ others) t d =
      send_all-IsDeaf text fails others (send text (fails fd) fd t) (
        either_way (IsDeaf before) (fails fd) d (record { watch = d.watch; none_new = d.none_new }))

  on_broadcast-IsDeaf :
      (text : Option Bytes) (fails : ℕ → Bool) (t : Thread)
      → IsDeaf before t
      → IsDeaf before (on_broadcast text fails t)
  unfolding on_broadcast
  on_broadcast-IsDeaf none fails t d = record { watch = d.watch; none_new = d.none_new }
  on_broadcast-IsDeaf (some text) fails t d = send_all-IsDeaf text fails t.client_to_timer t d

  after_settime-IsDeaf :
      (fd timer : ℕ) (timer_is_set : Bool) (received : Received) (t : Thread)
      → IsDeaf before t
      → IsDeaf before (after_settime max_connections fd timer timer_is_set received t)
  after_settime-IsDeaf fd timer false received t d = d
  after_settime-IsDeaf fd timer true ended t d =
      close_client-IsDeaf fd (forget fd timer t) (forget-IsDeaf fd timer t d)
  after_settime-IsDeaf fd timer true (count n) t d =
      either_way (IsDeaf before) (leb packet_limit n) d
        (either_way (IsDeaf before) (leb n 0) d (record { watch = d.watch; none_new = d.none_new }))

  step-IsDeaf :
      (e : Event) (t : Thread)
      → IsGiven e t
      → IsDeaf before t
      → IsDeaf before (step max_connections e t)
  unfolding step on_failure on_readable
  step-IsDeaf (failure fd) t h d = close_client-IsDeaf fd (forget fd _ t) (forget-IsDeaf fd _ t d)
  step-IsDeaf (expirations timers) t h d = on_timeouts-IsDeaf timers t d
  step-IsDeaf (broadcast text fails) t h d = on_broadcast-IsDeaf text fails t d
  step-IsDeaf (incoming lock attempts) t h d = absurd (cc (h, d.watch))
  step-IsDeaf (readable fd timer_is_set received) t h d =
      after_settime-IsDeaf fd _ timer_is_set received _
        (record { watch = d.watch; none_new = d.none_new })

  run_batch-IsDeaf :
      (events : List Event) (t : Thread)
      → AreGiven max_connections events t
      → IsDeaf before t
      → IsDeaf before (run_batch max_connections events t)
  unfolding run_batch
  run_batch-IsDeaf [] t h d = d
  run_batch-IsDeaf (e ∷ events) t (h, others) d =
      run_batch-IsDeaf events (step max_connections e t) others (step-IsDeaf e t h d)

  run_thread-IsDeaf :
      (batches : List (List Event)) (t : Thread)
      → AllGiven max_connections batches t
      → IsDeaf before t
      → IsDeaf before (run_thread max_connections batches t)
  unfolding run_thread
  run_thread-IsDeaf [] t h d = d
  run_thread-IsDeaf (batch ∷ batches) t (h, others) d =
      either_way (IsDeaf before) t.running
        (run_thread-IsDeaf batches (run_batch max_connections batch t) others
          (run_batch-IsDeaf batch t h d))
        d

-- A thread that once finds the lock of `accept` taken is never again armed for new connections and
-- takes none, whatever its connections, timers and broadcasts do, if the kernel gives an event of
-- the server's socket only in a state in which the socket is armed.
pub run_thread-incoming :
    (max_connections : ℕ) (attempts : List Accepted) (batches : List (List Event)) (t : Thread)
    → AllGiven max_connections batches (step max_connections (incoming false attempts) t)
    → ((run_thread max_connections batches
          (step max_connections (incoming false attempts) t)).server
        ≡ disarmed)
      × ((run_thread max_connections batches
            (step max_connections (incoming false attempts) t)).connected
          ≡ t.connected)
run_thread-incoming max_connections attempts batches t h =
    let d =
      run_thread-IsDeaf max_connections t.connected batches
        (step max_connections (incoming false attempts) t) h
        (unfold step on_incoming in (record { watch = refl; none_new = refl })) in
    (d.watch, d.none_new)
