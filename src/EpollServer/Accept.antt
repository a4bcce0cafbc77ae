-- ===== src/EpollServer/Accept.antt =====
-- New connections in `EpollServer::run_thread` of cpp-source/tcp-server.cpp.
use libjaypea.Base.{
  ℕ, ◌+◌, Bytes, codes, [], ◌∷◌, ◌++◌, List, Bool, true, false, ltb, if◌then◌else◌, Option, none,
  some,
}
use libjaypea.Base.Tables.{set}
use libjaypea.EpollServer.{
  Thread, absent, disarmed, armed, Timer, no_timer, unset_timer, set_timer, Connection, Accepted,
  would_block, accept_fails, accepted,
}

abbrev details_of : Option Bytes → Bytes
details_of none = codes "NULL"
details_of (some text) = text

abbrev pub detailed : Connection → Thread → Thread
detailed c t = record t { fd_to_details = set c.fd (details_of c.details) t.fd_to_details }

-- The connection is closed without `on_disconnect`, and the loop ends.
abbrev pub drop_client : ℕ → Thread → Thread
drop_client fd t = record t { closed = t.closed ++ fd ∷ [] }

abbrev pub with_timer : ℕ → Timer → Thread → Thread
with_timer fd no_timer t = t
with_timer fd (unset_timer timer) t = t
with_timer fd (set_timer timer) t = record t {
  timer_to_client = set timer fd t.timer_to_client;
  client_to_timer = set fd timer t.client_to_timer;
}

unfoldable pub connect : ℕ → Timer → Thread → Thread
connect fd timer t =
    let t' = with_timer fd timer t in
    record t' {
      ready = set fd true t'.ready;
      read_counter = set fd 0 t'.read_counter;
      write_counter = set fd 0 t'.write_counter;
      connected = t'.connected ++ fd ∷ [];
      num_connections = t'.num_connections + 1;
    }

-- The loop over `accept`: at the end of the list the next call would block.
unfoldable pub accept_loop : ℕ → List Accepted → Thread → Thread
accept_loop max_connections [] t = t
accept_loop max_connections (would_block ∷ others) t = t
accept_loop max_connections (accept_fails ∷ others) t =
    if ltb t.num_connections max_connections then record t { running = false } else t
accept_loop max_connections (accepted c ∷ others) t =
    let next = accept_loop max_connections others (connect c.fd c.timer (detailed c t)) in
    if ltb t.num_connections max_connections
    then (if c.continuation_fails
        then drop_client c.fd (detailed c t)
        else if c.add_fails
        then drop_client c.fd (detailed c t)
        else next)
    else t

-- EPOLL_CTL_MOD or EPOLL_CTL_DEL of the server's socket. The details are not in the tables of the
-- thread that has not got the lock: it leaves the socket disarmed.
unfoldable pub on_incoming : ℕ → Bool → List Accepted → Thread → Thread
on_incoming max_connections false attempts t = record t { server = disarmed }
on_incoming max_connections true attempts t =
    let t' = accept_loop max_connections attempts t in
    record t' { server = if ltb t'.num_connections max_connections then armed else absent }
