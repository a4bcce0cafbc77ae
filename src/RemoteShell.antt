-- ===== src/RemoteShell.antt =====
-- The server program cpp-source/examples/comd.cpp: one client at a time identifies itself, chooses
-- a routine, and then has its packets written to a shell (cpp-source/shell.hpp).
pub mod Laws
pub mod Com
pub mod Conversation
use libjaypea.Base.{
  ℕ, Bytes, codes, [], ◌∷◌, ◌++◌, List, Bool, true, false, equal, if◌then◌else◌, c_str, Option,
  none, some,
}

pub data ComdState : Type 0 where
  verify_identity select_routine exchange_packets : ComdState

pub data ComdRoutine : Type 0 where
  shell send_file recv_file : ComdRoutine

abbrev pub identity : Bytes
identity = codes "This is my example identification string."

abbrev pub verified : Bytes
verified = codes "Your identity has been verified."

abbrev pub start_routine : Bytes
start_routine = codes "You are welcome to start the requested routine."

abbrev pub bad_routine : Bytes
bad_routine = codes "You have requested an invalid routine!"

-- `ROUTINES`.
abbrev pub routines : ComdRoutine → Bytes
routines shell = codes "I would like to use the shell please."
routines send_file = codes "I would like to send a file please."
routines recv_file = codes "I would like to receive a file please."

-- The state of the program and of its shell. Of the connection: the texts that were sent to it,
-- the packets for which the callback returned their length, and those written to the shell.
pub record Comd : Type 0 where
  pub state : ComdState
  pub routine : ComdRoutine
  pub opened : Bool
  pub sent : List Bytes
  pub accepted : List Bytes
  pub input : List Bytes

-- Whether a send, the opening of the shell and a write to it fail.
pub record Luck : Type 0 where
  pub send_fails : Bool
  pub open_fails : Bool
  pub write_fails : Bool

-- `on_connect`.
unfoldable pub on_connect : Comd → Comd
on_connect s = record s { state = verify_identity; sent = []; accepted = []; input = [] }

-- `Shell::sclose` in `on_disconnect`.
unfoldable pub on_disconnect : Comd → Comd
on_disconnect s = record s { opened = false }

-- `Shell::sopen`: `true` on an error.
unfoldable pub sopen : Luck → Comd → Comd × Bool
sopen luck s =
    if s.opened
    then (s, false)
    else if luck.open_fails
    then (s, true)
    else (record s { opened = true }, false)

-- `server.send`: the flag is `true` on an error.
abbrev pub tell : Luck → Bytes → Comd → Comd × Bool
tell luck text s =
    if luck.send_fails then (s, true) else (record s { sent = s.sent ++ text ∷ [] }, false)

-- The flag says that the callback returned the length, and not -1.
abbrev pub accept : Bytes → Comd → Comd × Bool
accept packet s = (record s { accepted = s.accepted ++ packet ∷ [] }, true)

abbrev pub refuse : Comd → Comd × Bool
refuse s = (s, false)

unfoldable pub verify : Luck → Bytes → Comd → Comd × Bool
verify luck packet s =
    if equal (c_str packet) identity
    then (if (tell luck verified s).1
        then refuse (tell luck verified s).0
        else accept packet (record (tell luck verified s).0 { state = select_routine }))
    else refuse s

unfoldable pub select : Luck → Bytes → Comd → Comd × Bool
select luck packet s =
    if equal (c_str packet) (routines shell)
    then (if (tell luck start_routine s).1
        then refuse (tell luck start_routine s).0
        else accept packet
            (record (tell luck start_routine s).0 { routine = shell; state = exchange_packets }))
    else refuse (tell luck bad_routine s).0

unfoldable pub exchange : Luck → Bytes → ComdRoutine → Comd → Comd × Bool
exchange luck packet shell s =
    if (sopen luck s).1
    then refuse (sopen luck s).0
    else if luck.write_fails
    then refuse (sopen luck s).0
    else accept packet (record (sopen luck s).0 { input = s.input ++ packet ∷ [] })
exchange luck packet send_file s = refuse s
exchange luck packet recv_file s = refuse s

abbrev pub on_read_in : Luck → Bytes → Comd → ComdState → Comd × Bool
on_read_in luck packet s verify_identity = verify luck packet s
on_read_in luck packet s select_routine = select luck packet s
on_read_in luck packet s exchange_packets = exchange luck packet s.routine s

-- `on_read`.
unfoldable pub on_read : Luck → Bytes → Comd → Comd × Bool
on_read luck packet s = on_read_in luck packet s s.state

-- `sclose` from the loop that sends the output of the shell.
abbrev pub sent_output : Comd × Bool → Comd
sent_output (s, true) = record s { opened = false }
sent_output (s, false) = s

-- By the text that `read` gives; `none` is an error.
abbrev pub relay : Luck → Option Bytes → Comd → Comd
relay luck none s = record s { opened = false }
relay luck (some []) s = record s { opened = false }
relay luck (some (c ∷ text)) s = sent_output (tell luck (c ∷ text) s)

-- One round of that loop.
unfoldable pub shell_output : Luck → Option Bytes → Comd → Comd
shell_output luck text s = if s.opened then relay luck text s else s
