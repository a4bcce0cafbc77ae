-- ===== src/EpollServer/Events.antt =====
-- The loop of `EpollServer::run_thread` of cpp-source/tcp-server.cpp over its events.
use libjaypea.Base.{ℕ, [], ◌∷◌, List, true, false, if◌then◌else◌}
use libjaypea.EpollServer.{
  Thread, armed, Event, failure, expirations, broadcast, incoming, readable,
}
use libjaypea.EpollServer.Clients.{on_failure, on_timeouts, on_broadcast, on_readable}
use libjaypea.EpollServer.Accept.{on_incoming}

abbrev pub initial : Thread
initial = record {
  num_connections = 0;
  timer_to_client = [];
  client_to_timer = [];
  server = armed;
  ready = [];
  running = true;
  fd_to_details = [];
  read_counter = [];
  write_counter = [];
  closed = [];
  connected = [];
  disconnected = [];
  written = [];
  undefined = false;
}

unfoldable pub step : ℕ → Event → Thread → Thread
step max_connections (failure fd) t = on_failure max_connections fd t
step max_connections (expirations timers) t = on_timeouts max_connections timers t
step max_connections (broadcast text fails) t = on_broadcast text fails t
step max_connections (incoming lock attempts) t = on_incoming max_connections lock attempts t
step max_connections (readable fd timer_is_set received) t =
    on_readable max_connections fd timer_is_set received t

-- The loop over the events of one `epoll_wait`.
unfoldable pub run_batch : ℕ → List Event → Thread → Thread
run_batch max_connections [] t = t
run_batch max_connections (e ∷ events) t =
    run_batch max_connections events (step max_connections e t)

-- `while(this->running)`.
unfoldable pub run_thread : ℕ → List (List Event) → Thread → Thread
run_thread max_connections [] t = t
run_thread max_connections (batch ∷ batches) t =
    let next = run_thread max_connections batches (run_batch max_connections batch t) in
    if t.running then next else t
