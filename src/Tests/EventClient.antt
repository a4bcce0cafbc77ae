-- ===== src/Tests/EventClient.antt =====
-- Runs of the client of cpp-source/tcp-event-client.cpp with two connections, and of
-- cpp-source/examples/com.cpp with its server.
use libjaypea.Base.{ℕ, ◌+◌, Bytes, codes, [], ◌∷◌, List, false, none, ◌≡◌, refl, equal, c_str}
use libjaypea.Encryptor.Packets.{got}
use libjaypea.EventClient.{
  Connection, by_ip, Client, Answers, Callbacks, descriptor, too_many, established, add, over, look,
  round, run,
}
use libjaypea.EventClient.Plain.{recv}
use libjaypea.EventClient.Counted.{IsCountedEnd, IsStarted, add-IsStarted, run-IsCounted}
use libjaypea.EventClient.Over.{IsOver, run-IsOver}
use libjaypea.RemoteShell
use libjaypea.RemoteShell.Com
use libjaypea.RemoteShell.{Comd, verify_identity, shell, routines}
use libjaypea.RemoteShell.Conversation.{
  Happening, arrives, answers, types, output, started, happen, happen_all,
}
use libjaypea.RemoteShell.Conversation.Phases.{Phase, concrete}
use libjaypea.RemoteShell.Conversation.Order.{IsInOrder, happen_all-IsInOrder}

abbrev fresh : Client (List Bytes)
fresh = record {
  alive_connections = 3;
  host_addresses = [];
  closed = [];
  sockets = record { read_counter = []; write_counter = []; user = [] };
}

abbrev callbacks : Callbacks (List Bytes)
callbacks = record {
  on_event_loop = none;
  on_connect = none;
  recv = recv (λ fd data_read s. (false, record s { user = data_read ∷ s.user }));
  inet_addr = λ ip. 0;
}

abbrev address : Connection
address = by_ip 80 (codes "10.0.0.1")

abbrev one : List Connection × Client (List Bytes)
one = add address ([], fresh)

abbrev two : List Connection × Client (List Bytes)
two = add address one

fresh-IsStarted : IsStarted 3 [] fresh
fresh-IsStarted = record { new = tt; added = refl; none_closed = refl }

two-IsStarted : IsStarted 3 two.0 two.1
two-IsStarted =
    add-IsStarted 3 address one.0 one.1 refl (add-IsStarted 3 address [] fresh refl fresh-IsStarted)

abbrev good : ℕ → Answers
good n = record {
  socket = descriptor (n + 5);
  host = none;
  connect = established;
  reads = got [] ∷ [];
}

abbrev full : ℕ → Answers
full n = record { socket = too_many; host = none; connect = established; reads = [] }

run-IsCounted_example : IsCountedEnd 3 (run callbacks (good ∷ good ∷ good ∷ []) two.0 two.1)
run-IsCounted_example =
    run-IsCounted callbacks 3 (good ∷ good ∷ good ∷ []) two.0 two.1 two-IsStarted

run-IsOver_example : IsOver (run callbacks (good ∷ good ∷ good ∷ []) two.0 two.1)
run-IsOver_example = run-IsOver callbacks 3 (good ∷ good ∷ good ∷ []) two.0 two.1 two-IsStarted

-- Without a free descriptor the loop ends in its first round, with the connection still to open.
full_ends : run callbacks (full ∷ good ∷ good ∷ []) one.0 one.1 ≡ over one.0 one.1
unfolding run round look
full_ends = refl

abbrev server : Comd
server = record {
  state = verify_identity;
  routine = shell;
  opened = false;
  sent = [];
  accepted = [];
  input = [];
}

abbrev session : List Happening
session =
    arrives
    ∷ answers
    ∷ arrives
    ∷ answers
    ∷ types (codes "ls")
    ∷ arrives
    ∷ output (codes "a.txt")
    ∷ answers
    ∷ []

happen_all-IsInOrder_example :
    (p : Phase) × (happen_all 5 session (started server) ≡ concrete 5 p) × IsInOrder p
happen_all-IsInOrder_example = happen_all-IsInOrder 5 server session

session_input : (happen_all 5 session (started server)).server.input ≡ codes "ls" ∷ []
unfolding happen_all happen Com.on_connect RemoteShell.on_connect Com.on_read Com.on_event_loop
    RemoteShell.on_read RemoteShell.verify RemoteShell.select RemoteShell.exchange RemoteShell.sopen
    RemoteShell.shell_output equal c_str
session_input = refl
