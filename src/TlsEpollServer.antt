-- ===== src/TlsEpollServer.antt =====
-- `TlsEpollServer` of cpp-source/tls-epoll-server.cpp: the connections' objects of OpenSSL, and the
-- loops that repeat a call of it for ten seconds. OpenSSL and the clock are a stream of results.
pub mod Calls
pub mod Clients
pub mod Once
use libjaypea.Base.{ℕ, zero, suc, ◌+◌, Bytes, List, Bool, ltb, if◌then◌else◌}
use libjaypea.Base.Tables.{Table}

-- What `SSL_get_error` tells.
pub data SslError : Type 0 where
  no_error want_read want_write zero_return syscall other_error : SslError

-- A call of OpenSSL: its result, its error, and the milliseconds since the start behind it.
pub record SslCall {ℓ} (A : Type ℓ) : Type ℓ where
  pub result : A
  pub err : SslError
  pub elapsed : ℕ

-- How a loop ends: by the clock, or with a result and its error. `unfinished` is for more rounds
-- than the fuel allows.
pub data Outcome {ℓ} (A : Type ℓ) : Type ℓ where
  timed_out : Outcome A
  ended : A → SslError → Outcome A
  unfinished : Outcome A

-- The loop of `send`, `recv` and `accept_continuation`, each with its own errors that repeat it.
unfoldable pub ssl_loop {ℓ} :
    {A : Type ℓ} → (SslError → Bool) → (ℕ → SslCall A) → ℕ → ℕ → ℕ → Outcome A
ssl_loop again calls zero n diff = unfinished
ssl_loop again calls (suc f) n diff =
    let next = ssl_loop again calls f (n + 1) (calls n).elapsed in
    if ltb 10000 diff
    then timed_out
    else if again (calls n).err
    then next
    else ended (calls n).result (calls n).err

-- `client_ssl`, where 0 is the null pointer, and the counters of the base class. Of the past there
-- are the objects that `SSL_new` made and those given to `SSL_free`.
pub record Tls : Type 0 where
  pub client_ssl : Table ℕ
  pub write_counter : Table ℕ
  pub allocated : List ℕ
  pub freed : List ℕ
