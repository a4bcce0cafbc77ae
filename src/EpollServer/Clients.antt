-- ===== src/EpollServer/Clients.antt =====
-- The connections of a thread in `EpollServer::run_thread` of cpp-source/tcp-server.cpp: errors,
-- timeouts, broadcasts and reading.
use libjaypea.Base.{
  ℕ, ◌+◌, ◌-◌, ◌%◌, ◌^◌, Bytes, [], ◌∷◌, ◌++◌, List, Bool, true, false, leb, if◌then◌else◌, Option,
  none, some,
}
use libjaypea.Base.Tables.{Table, find, set, remove}
use libjaypea.EpollServer.{Thread, Watch, absent, disarmed, armed, Received, ended, count}

abbrev pub packet_limit : ℕ
packet_limit = 16384

-- `operator[]` puts 0 under a missing key.
abbrev pub value : Option ℕ → ℕ
value none = 0
value (some n) = n

abbrev pub touch : ℕ → Table ℕ → Table ℕ
touch key m = elim (find key m) [ none ↦ set key 0 m | some n ↦ m ]

abbrev pub bump : ℕ → Table ℕ → Table ℕ
bump key m = set key (value (find key m) + 1) m

-- EPOLL_CTL_ADD of the server's socket, an error where it is in the set.
abbrev pub add_server : Watch → Watch
add_server absent = armed
add_server disarmed = disarmed
add_server armed = armed

-- `close_client_callback`; `num_connections` is an unsigned long.
unfoldable pub close_client : ℕ → ℕ → Thread → Thread
close_client max_connections fd t = record t {
  closed = t.closed ++ fd ∷ [];
  disconnected = t.disconnected ++ fd ∷ [];
  ready = remove fd t.ready;
  server = if leb max_connections t.num_connections then add_server t.server else t.server;
  num_connections = (t.num_connections + (2 ^ 64 - 1)) % 2 ^ 64;
}

-- The connection and its timer leave both tables, and the timer is closed.
unfoldable pub forget : ℕ → ℕ → Thread → Thread
forget fd timer t = record t {
  client_to_timer = remove fd t.client_to_timer;
  timer_to_client = remove timer t.timer_to_client;
  closed = t.closed ++ timer ∷ [];
}

unfoldable pub on_failure : ℕ → ℕ → Thread → Thread
on_failure max_connections fd t =
    close_client max_connections fd (forget fd (value (find fd t.client_to_timer)) t)

-- One round of the loop over the expired timers.
unfoldable pub on_timeout : ℕ → ℕ → Bool → Thread → Thread
on_timeout max_connections timer closes t =
    let fd = value (find timer t.timer_to_client) in
    if closes then close_client max_connections fd (forget fd timer t) else forget fd timer t

unfoldable pub on_timeouts : ℕ → List (ℕ × Bool) → Thread → Thread
on_timeouts max_connections [] t = t
on_timeouts max_connections ((timer, closes) ∷ others) t =
    on_timeouts max_connections others (on_timeout max_connections timer closes t)

-- `send`, whose error is not looked at.
unfoldable pub send : Bytes → Bool → ℕ → Thread → Thread
send text fails fd t = if fails then t else record t {
  written = t.written ++ (fd, text) ∷ [];
  write_counter = bump fd t.write_counter;
}

unfoldable pub send_all : Bytes → (ℕ → Bool) → Table ℕ → Thread → Thread
send_all text fails [] t = t
send_all text fails ((fd, timer) ∷ others) t =
    send_all text fails others (send text (fails fd) fd t)

-- `packet[len] = 0` with the -1 of a failed `read` writes in front of the packet.
unfoldable pub on_broadcast : Option Bytes → (ℕ → Bool) → Thread → Thread
on_broadcast none fails t = record t { undefined = true }
on_broadcast (some text) fails t = send_all text fails t.client_to_timer t

-- EPOLL_CTL_MOD of a connection.
abbrev pub rearm : ℕ → Thread → Thread
rearm fd t = record t { ready = set fd true t.ready }

abbrev pub after_recv : ℕ → ℕ → ℕ → Received → Thread → Thread
after_recv max_connections fd timer ended t = close_client max_connections fd (forget fd timer t)
after_recv max_connections fd timer (count n) t =
    if leb packet_limit n then t else if leb n 0 then t else rearm fd t

abbrev pub after_settime : ℕ → ℕ → ℕ → Bool → Received → Thread → Thread
after_settime max_connections fd timer timer_is_set received t =
    if timer_is_set then after_recv max_connections fd timer received t else t

-- A readable connection, which the event has disarmed.
abbrev pub disarm : ℕ → Table ℕ → Thread → Thread
disarm fd clients t = record t { ready = set fd false t.ready; client_to_timer = clients }

unfoldable pub on_readable : ℕ → ℕ → Bool → Received → Thread → Thread
on_readable max_connections fd timer_is_set received t =
    after_settime max_connections fd (value (find fd t.client_to_timer)) timer_is_set received
      (disarm fd (touch fd t.client_to_timer) t)
