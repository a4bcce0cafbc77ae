-- ===== src/Tests/RemoteShell.antt =====
-- A session of cpp-source/examples/comd.cpp.
use libjaypea.Base.{codes, [], ◌∷◌, false, ◌≡◌, refl, equal, c_str}
use libjaypea.RemoteShell.{
  Comd, exchange_packets, shell, Luck, identity, routines, on_connect, on_read, verify, select,
  exchange, sopen,
}
use libjaypea.RemoteShell.Laws.{connected, packet_read, IsOrderly, Reach-IsOrderly}

abbrev luck : Luck
luck = record { send_fails = false; open_fails = false; write_fails = false }

abbrev before : Comd
before = record {
  state = exchange_packets;
  routine = shell;
  opened = false;
  sent = [];
  accepted = codes "x" ∷ [];
  input = [];
}

abbrev after : Comd
after =
    (on_read luck (codes "ls\n")
      (on_read luck (routines shell) (on_read luck identity (on_connect before)).0).0).0

session_input : after.input ≡ codes "ls\n" ∷ []
unfolding on_connect on_read verify select exchange sopen equal c_str
session_input = refl

Reach-IsOrderly_example : IsOrderly after
Reach-IsOrderly_example = Reach-IsOrderly after (
    packet_read (on_read luck (routines shell) (on_read luck identity (on_connect before)).0).0 luck
      (codes "ls\n")
      (packet_read (on_read luck identity (on_connect before)).0 luck (routines shell)
        (packet_read (on_connect before) luck identity (connected before))))
