-- ===== src/RemoteShell/Conversation.antt =====
-- The programs cpp-source/examples/com.cpp and cpp-source/examples/comd.cpp with each other: the
-- texts on their way between them are two queues, and what happens next is free. A text arrives as
-- `SymmetricEncryptor::send` takes it, up to its first zero.
pub mod Phases
pub mod Order
use libjaypea.Base.{
  ℕ, Bytes, [], ◌∷◌, ◌++◌, List, map, Bool, true, false, if◌then◌else◌, c_str, Option, none, some,
  length, drop, ◌≡◌, refl, sym, ap, ◌∙◌, append-nil, append_assoc, equal,
}
use libjaypea.RemoteShell.{
  ComdState, verify_identity, select_routine, exchange_packets, shell, identity, verified,
  start_routine, routines, Comd, Luck, on_read, shell_output, verify, select, exchange, sopen,
}
use libjaypea.RemoteShell.Com.{Com, initial, Stdin, typed, on_connect, on_event_loop}
use libjaypea.RemoteShell.Com

pub record Both : Type 0 where
  pub client : Com
  pub server : Comd
  pub to_server : List Bytes
  pub to_client : List Bytes

-- A text arrives at the server, or at the client; a line is typed; the shell writes a text.
pub data Happening : Type 0 where
  arrives answers : Happening
  types output : Bytes → Happening

abbrev luck : Luck
luck = record { send_fails = false; open_fails = false; write_fails = false }

-- The texts of a list behind those that were there.
abbrev pub added : List Bytes → List Bytes → List Bytes
added before now = map c_str (drop (length before) now)

abbrev pub served : Both → Comd → Both
served b server = record b {
  server = server;
  to_client = b.to_client ++ added b.server.sent server.sent;
}

abbrev pub clients : Both → Com → Both
clients b client = record b {
  client = client;
  to_server = b.to_server ++ added b.client.sent client.sent;
}

abbrev pub arriving : Both → List Bytes → Both
arriving b [] = b
arriving b (text ∷ others) = served (record b { to_server = others }) (on_read luck text b.server).0

abbrev pub answering : ℕ → Both → List Bytes → Both
answering fd b [] = b
answering fd b (text ∷ others) =
    clients (record b { to_client = others }) (Com.on_read false fd text b.client).0

unfoldable pub happen : ℕ → Happening → Both → Both
happen fd arrives b = arriving b b.to_server
happen fd answers b = answering fd b b.to_client
happen fd (types line) b = clients b (on_event_loop false (typed line) b.client).0
happen fd (output text) b = served b (shell_output luck (some text) b.server)

unfoldable pub happen_all : ℕ → List Happening → Both → Both
happen_all fd [] b = b
happen_all fd (h ∷ hs) b = happen_all fd hs (happen fd h b)

-- The conversation from the connection of a client that wants a shell.
abbrev pub started : Comd → Both
started server =
    clients
      (record {
        client = initial shell;
        server =
            libjaypea.RemoteShell.on_connect (record server { opened = false; routine = shell });
        to_server = [];
        to_client = [];
      })
      (on_connect false (initial shell)).0
