-- ===== src/RemoteShell/Com.antt =====
-- The client program cpp-source/examples/com.cpp: what it sends to a server of
-- cpp-source/examples/comd.cpp, and the lines that it reads from its terminal. Raw mode, signals
-- and the prompt are left out.
use libjaypea.Base.{Bytes, [], ◌∷◌, ◌++◌, List, Bool, true, false, c_str, ℕ, Option, none, some}
use libjaypea.RemoteShell.{
  ComdState, verify_identity, select_routine, exchange_packets, ComdRoutine, shell, send_file,
  recv_file, identity, routines,
}

-- `shell_client_fd` is there when `on_event_loop` is set. Beside the state of the program: the
-- texts that were sent, and those that were shown behind the choice of a routine.
pub record Com : Type 0 where
  pub state : ComdState
  pub routine : ComdRoutine
  pub shell_client_fd : Option ℕ
  pub sent : List Bytes
  pub shown : List Bytes

abbrev pub initial : ComdRoutine → Com
initial routine = record {
  state = verify_identity;
  routine = routine;
  shell_client_fd = none;
  sent = [];
  shown = [];
}

-- `client.send`, which is told whether it fails: `true` on an error.
abbrev pub send : Bool → Bytes → Com → Com × Bool
send true text s = (s, true)
send false text s = (record s { sent = s.sent ++ text ∷ [] }, false)

-- `on_connect`: `true` closes the connection.
unfoldable pub on_connect : Bool → Com → Com × Bool
on_connect fails s = send fails identity s

-- The flag says that the callback returned the length, and not -1.
abbrev pub asked : Com × Bool → Com × Bool
asked (s, true) = (s, false)
asked (s, false) = (record s { state = select_routine }, true)

abbrev pub begin : ℕ → ComdRoutine → Com → Com
begin fd shell s = record s { shell_client_fd = some fd }
begin fd send_file s = s
begin fd recv_file s = s

abbrev pub on_read_in : Bool → ℕ → Bytes → Com → ComdState → Com × Bool
on_read_in fails fd packet s verify_identity = asked (send fails (routines s.routine) s)
on_read_in fails fd packet s select_routine =
    (record (begin fd s.routine s) { state = exchange_packets }, true)
on_read_in fails fd packet s exchange_packets =
    (record s { shown = s.shown ++ c_str packet ∷ [] }, true)

-- The callback that is given to `run`.
unfoldable pub on_read : Bool → ℕ → Bytes → Com → Com × Bool
on_read fails fd packet s = on_read_in fails fd packet s s.state

-- What the terminal has for the event loop.
pub data Stdin : Type 0 where
  unavailable would_block unreadable ended : Stdin
  typed : Bytes → Stdin

abbrev pub read_stdin : Bool → Stdin → Com → Com × Bool
read_stdin fails unavailable s = (s, false)
read_stdin fails would_block s = (s, false)
read_stdin fails unreadable s = (s, true)
read_stdin fails ended s = (s, true)
read_stdin fails (typed packet) s = send fails packet s

abbrev pub loop_with : Bool → Stdin → Option ℕ → Com → Com × Bool
loop_with fails stdin none s = (s, false)
loop_with fails stdin (some fd) s = read_stdin fails stdin s

-- `on_event_loop`: `true` ends the program.
unfoldable pub on_event_loop : Bool → Stdin → Com → Com × Bool
on_event_loop fails stdin s = loop_with fails stdin s.shell_client_fd s
