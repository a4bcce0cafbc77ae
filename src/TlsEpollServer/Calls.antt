-- ===== src/TlsEpollServer/Calls.antt =====
-- `send`, `recv` and `accept_continuation` of cpp-source/tls-epoll-server.cpp.
pub mod Ends
use libjaypea.Base.{
  ℕ, zero, suc, ◌+◌, ◌≤◌, ◌<◌, Bytes, [], ◌∷◌, ◌++◌, List, Bool, true, false, ltb, ltb_iff, ◌==◌,
  if◌then◌else◌, Option, none, some, is_some, length, ◌≡◌, refl, sym, subst, either_way, ap, ◌∙◌,
  inl, inr, Bool-cases, arith,
}
use libjaypea.Base.Tables.{Table, find, set}
use libjaypea.EpollServer.Clients.{touch, bump}
use libjaypea.TlsEpollServer.{
  SslError, no_error, want_read, want_write, zero_return, syscall, other_error, SslCall, Outcome,
  timed_out, ended, unfinished, ssl_loop, Tls,
}

abbrev pub wants_write : SslError → Bool
wants_write no_error = false
wants_write want_read = false
wants_write want_write = true
wants_write zero_return = false
wants_write syscall = false
wants_write other_error = false

abbrev pub wants_read : SslError → Bool
wants_read no_error = false
wants_read want_read = true
wants_read want_write = false
wants_read zero_return = false
wants_read syscall = false
wants_read other_error = false

abbrev pub wants_more : SslError → Bool
wants_more no_error = false
wants_more want_read = true
wants_more want_write = true
wants_more zero_return = false
wants_more syscall = false
wants_more other_error = false

-- The pointer of a connection is read by `operator[]`.
abbrev pub read_pointer : ℕ → Tls → Tls
read_pointer fd t = record t { client_ssl = touch fd t.client_ssl }

abbrev pub count_write : ℕ → Tls → Tls
count_write fd t = record t { write_counter = bump fd t.write_counter }

-- The failure of `send`. A number of bytes that is too small is none. `none` means that the loop
-- goes on.
abbrev pub sent : ℕ → Outcome ℕ → Tls → Option Bool × Tls
sent fd timed_out t = (some true, t)
sent fd unfinished t = (none, t)
sent fd (ended len no_error) t = (some false, count_write fd t)
sent fd (ended len want_write) t = (some false, t)
sent fd (ended len want_read) t = (some true, t)
sent fd (ended len zero_return) t = (some true, t)
sent fd (ended len syscall) t = (some true, t)
sent fd (ended len other_error) t = (some true, t)

unfoldable pub send : ℕ → ℕ → (ℕ → SslCall ℕ) → Tls → Option Bool × Tls
send f fd calls t = sent fd (ssl_loop wants_write calls f 0 0) (read_pointer fd t)

-- A `ssize_t`.
pub data Ssize : Type 0 where
  plus minus : ℕ → Ssize

abbrev pub behind_callback : Bytes → Ssize → Ssize
behind_callback text (minus n) = minus 1
behind_callback text (plus n) = plus (length text)

-- The result of `recv`; `return true` of a timeout is 1.
abbrev pub received : (Bytes → Ssize) → Outcome Bytes → Option Ssize
received callback timed_out = some (plus 1)
received callback unfinished = none
received callback (ended text no_error) = some (behind_callback text (callback text))
received callback (ended text want_read) = some (plus 0)
received callback (ended text zero_return) = some (minus 2)
received callback (ended text syscall) = some (minus 3)
received callback (ended text want_write) = some (minus 1)
received callback (ended text other_error) = some (minus 1)

unfoldable pub recv : ℕ → ℕ → (Bytes → Ssize) → (ℕ → SslCall Bytes) → Tls → Option Ssize × Tls
recv f fd callback calls t =
    (received callback (ssl_loop wants_read calls f 0 0), read_pointer fd t)

-- The handshake, with what `SSL_new` and `SSL_set_fd` give.
pub record Handshake : Type 0 where
  pub ssl : ℕ
  pub set_fd_fails : Bool
  pub calls : ℕ → SslCall ℕ

abbrev pub handshaken : Outcome ℕ → Option Bool
handshaken timed_out = some true
handshaken unfinished = none
handshaken (ended res no_error) = some false
handshaken (ended res want_read) = some true
handshaken (ended res want_write) = some true
handshaken (ended res zero_return) = some true
handshaken (ended res syscall) = some true
handshaken (ended res other_error) = some true

-- The failure of `accept_continuation`.
unfoldable pub accept_continuation : ℕ → ℕ → Handshake → Tls → Option Bool × Tls
accept_continuation f fd h t =
    let t' = record t {
      client_ssl = set fd h.ssl t.client_ssl;
      allocated = t.allocated ++ h.ssl ∷ [];
    } in
    let failed = handshaken (ssl_loop wants_more h.calls f 0 0) in
    (if h.ssl == 0 then some true else if h.set_fd_fails then some true else failed, t')
