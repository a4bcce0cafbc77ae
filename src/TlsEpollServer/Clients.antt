-- ===== src/TlsEpollServer/Clients.antt =====
-- The connections of cpp-source/tls-epoll-server.cpp: how their objects of OpenSSL come and go.
use libjaypea.Base.{ℕ, Bytes, [], ◌∷◌, ◌++◌, List, Bool, true, false, Option, none, some}
use libjaypea.Base.Tables.{Table, find, remove}
use libjaypea.EpollServer.Clients.{value}
use libjaypea.TlsEpollServer.{SslCall, Tls}
use libjaypea.TlsEpollServer.Calls.{send, Ssize, recv, Handshake, accept_continuation}

-- `SSL_free`, which does nothing with a null pointer.
unfoldable pub close_client : ℕ → Tls → Tls
close_client fd t = record t {
  freed = t.freed ++ value (find fd t.client_ssl) ∷ [];
  client_ssl = remove fd t.client_ssl;
}

abbrev pub pointers : Table ℕ → List ℕ
pointers [] = []
pointers ((fd, ssl) ∷ others) = ssl ∷ pointers others

-- `~TlsEpollServer`.
unfoldable pub destroy : Tls → Tls
destroy t = record t { freed = t.freed ++ pointers t.client_ssl }

-- What a thread of the base class asks for. A connection that fails is closed at once.
pub data TlsEvent : Type 0 where
  accepting : ℕ → Handshake → TlsEvent
  sending : ℕ → (ℕ → SslCall ℕ) → TlsEvent
  receiving : ℕ → (Bytes → Ssize) → (ℕ → SslCall Bytes) → TlsEvent
  closing : ℕ → TlsEvent

abbrev pub after_accept : ℕ → Option Bool × Tls → Tls
after_accept fd (none, t) = t
after_accept fd (some true, t) = close_client fd t
after_accept fd (some false, t) = t

unfoldable pub step : ℕ → TlsEvent → Tls → Tls
step f (accepting fd h) t = after_accept fd (accept_continuation f fd h t)
step f (sending fd calls) t = (send f fd calls t).1
step f (receiving fd callback calls) t = (recv f fd callback calls t).1
step f (closing fd) t = close_client fd t

unfoldable pub run : ℕ → List TlsEvent → Tls → Tls
run f [] t = t
run f (e ∷ events) t = run f events (step f e t)

abbrev pub no_clients : Tls
no_clients = record { client_ssl = []; write_counter = []; allocated = []; freed = [] }
