-- ===== src/EpollServer.antt =====
-- `EpollServer` of cpp-source/tcp-server.cpp: the state of a thread and what happens to it.
pub mod Sockets
pub mod Clients
pub mod Accept
pub mod Events
pub mod Pairs
pub mod Sound
pub mod Steps
pub mod Runs
pub mod Deaf
use libjaypea.Base.{ℕ, Bytes, List, Bool, Option}
use libjaypea.Base.Tables.{Table}

-- The server's socket in the thread's epoll set. With EPOLLONESHOT an event disarms it.
pub data Watch : Type 0 where
  absent disarmed armed : Watch

-- The local variables of `run_thread`, with `running` and the tables of the server that the thread
-- writes. `ready` says of each connection in the epoll set whether it is armed. Of the past there
-- are the file descriptors given to `close`, the calls of `on_connect` and `on_disconnect`, and the
-- texts that were written. `undefined` is set by a write outside the packet.
pub record Thread : Type 0 where
  pub num_connections : ℕ
  pub timer_to_client : Table ℕ
  pub client_to_timer : Table ℕ
  pub server : Watch
  pub ready : Table Bool
  pub running : Bool
  pub fd_to_details : Table Bytes
  pub read_counter : Table ℕ
  pub write_counter : Table ℕ
  pub closed : List ℕ
  pub connected : List ℕ
  pub disconnected : List ℕ
  pub written : List (ℕ × Bytes)
  pub undefined : Bool

-- The timer of a new connection: `timerfd_create` fails, `timerfd_settime` fails, or it is set.
pub data Timer : Type 0 where
  no_timer : Timer
  unset_timer : ℕ → Timer
  set_timer : ℕ → Timer

-- A call of `accept`. A connection has its details, if `inet_ntop` gives them, and says whether
-- `accept_continuation` and `epoll_ctl` fail.
pub record Connection : Type 0 where
  pub fd : ℕ
  pub details : Option Bytes
  pub continuation_fails : Bool
  pub add_fails : Bool
  pub timer : Timer

pub data Accepted : Type 0 where
  would_block : Accepted
  accept_fails : Accepted
  accepted : Connection → Accepted

-- The result of `recv`: negative, or a count.
pub data Received : Type 0 where
  ended : Received
  count : ℕ → Received

-- One entry of `client_events`, with what the calls of its branch return: a connection with an
-- error; expired timers, each with the success of its `close`; the pipe of the broadcasts with the
-- text read from it and the connections to which writing fails; the server's socket, with the
-- result of `try_lock`; and a readable connection, with the success of `timerfd_settime`.
pub data Event : Type 0 where
  failure : ℕ → Event
  expirations : List (ℕ × Bool) → Event
  broadcast : Option Bytes → (ℕ → Bool) → Event
  incoming : Bool → List Accepted → Event
  readable : ℕ → Bool → Received → Event
