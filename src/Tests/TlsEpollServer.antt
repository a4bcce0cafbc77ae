-- ===== src/Tests/TlsEpollServer.antt =====
-- Connections of cpp-source/tls-epoll-server.cpp that succeed, fail, wait and go.
use libjaypea.Base.{
  ℕ, ◌*◌, Bytes, codes, [], ◌∷◌, List, true, false, some, is_some, ◌≡◌, refl, arith,
}
use libjaypea.Base.Tables.{find, set, remove}
use libjaypea.TlsEpollServer.{SslError, no_error, want_read, want_write, SslCall, ssl_loop}
use libjaypea.TlsEpollServer.Calls.{send, Ssize, plus, recv, Handshake, accept_continuation}
use libjaypea.TlsEpollServer.Calls.Ends.{calls-IsOver}
use libjaypea.TlsEpollServer.Clients.{
  close_client, destroy, TlsEvent, accepting, sending, receiving, closing, step, run, no_clients,
}
use libjaypea.TlsEpollServer.Once.{times, AllAdmissible, run-destroy}

abbrev always {ℓ} : {A : Type ℓ} → A → SslError → ℕ → SslCall A
always a err n = record { result = a; err = err; elapsed = n * 6000 }

abbrev shake : ℕ → SslError → Handshake
shake ssl err = record { ssl = ssl; set_fd_fails = false; calls = always 1 err }

abbrev hear : Bytes → Ssize
hear text = plus 0

-- A connection that succeeds, one whose handshake takes too long, one without an object, and a
-- message to a connection that is not there.
abbrev events : List TlsEvent
events =
    accepting 5 (shake 100 no_error)
    ∷ accepting 6 (shake 101 want_read)
    ∷ accepting 7 (shake 0 no_error)
    ∷ sending 9 (always 2 no_error)
    ∷ receiving 5 hear (always (codes "hi") no_error)
    ∷ accepting 6 (shake 102 no_error)
    ∷ closing 5
    ∷ []

all_admissible : AllAdmissible 9 events no_clients
unfolding step send recv accept_continuation ssl_loop close_client find set remove
all_admissible = (refl, (refl, (refl, (tt, (tt, (refl, (tt, tt)))))))

freed_in_order : (destroy (run 9 events no_clients)).freed ≡ 101 ∷ 0 ∷ 100 ∷ 0 ∷ 102 ∷ []
unfolding destroy run step send recv accept_continuation ssl_loop close_client find set remove
freed_in_order = refl

run-destroy_example :
    times 101 (destroy (run 9 events no_clients)).freed
    ≡ times 101 (destroy (run 9 events no_clients)).allocated
run-destroy_example = run-destroy 9 events 101 all_admissible refl

calls-IsOver_example :
    (is_some (send 4 5 (always 3 want_write) no_clients).0 ≡ true)
    × (is_some (recv 4 5 hear (always (codes "hi") want_read) no_clients).0 ≡ true)
    × (is_some (accept_continuation 4 5 (shake 100 want_read) no_clients).0 ≡ true)
calls-IsOver_example =
    calls-IsOver 2 5 hear (always 3 want_write) (always (codes "hi") want_read)
      (shake 100 want_read) no_clients (omega arith) (omega arith) (omega arith)

nothing_comes : (recv 4 5 hear (always [] want_read) no_clients).0 ≡ some (plus 1)
unfolding recv ssl_loop
nothing_comes = refl
