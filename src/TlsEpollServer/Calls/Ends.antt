-- ===== src/TlsEpollServer/Calls/Ends.antt =====
-- The loops of cpp-source/tls-epoll-server.cpp end, by the clock if by nothing else.
use libjaypea.Base.{
  ℕ, zero, suc, ◌+◌, ◌≤◌, ◌<◌, Bytes, Bool, true, ltb, ltb_iff, ◌==◌, Option, some, is_some, ◌≡◌,
  refl, sym, subst, either_way, ap, ◌∙◌, inl, inr, Bool-cases, arith,
}
use libjaypea.TlsEpollServer.{
  SslError, no_error, want_read, want_write, zero_return, syscall, other_error, SslCall, Outcome,
  timed_out, ended, unfinished, ssl_loop, Tls,
}
use libjaypea.TlsEpollServer.Calls.{
  wants_write, wants_read, wants_more, read_pointer, sent, send, Ssize, plus, received, recv,
  Handshake, handshaken, accept_continuation,
}

abbrev IsOver {ℓ} : {A : Type ℓ} → Outcome A → Type 0
IsOver timed_out = Unit
IsOver (ended result err) = Unit
IsOver unfinished = ⊥

late {ℓ} :
    {A : Type ℓ} (again : SslError → Bool) (calls : ℕ → SslCall A) (f n diff : ℕ)
    → 10000 < diff
    → ssl_loop again calls (suc f) n diff ≡ timed_out
unfolding ssl_loop
late again calls f n diff h = ground arith

ssl_loop-IsOver {ℓ} :
    {A : Type ℓ} (again : SslError → Bool) (calls : ℕ → SslCall A) (k f n diff : ℕ)
    → 10000 < (calls k).elapsed
    → n ≤ k
    → k + 2 ≤ n + f
    → IsOver (ssl_loop again calls f n diff)
unfolding ssl_loop
ssl_loop-IsOver again calls k zero n diff h before enough = absurd (omega arith)
ssl_loop-IsOver again calls k (suc zero) n diff h before enough = absurd (omega arith)
ssl_loop-IsOver again calls k (suc (suc f)) n diff h before enough =
    let next : IsOver (ssl_loop again calls (suc f) (n + 1) (calls n).elapsed) =
      elim (Bool-cases (ltb n k)) [
        | inl sooner ↦
            let below : n < k = (ltb_iff n k).0 sooner in
            ssl_loop-IsOver again calls k (suc f) (n + 1) (calls n).elapsed h (omega arith)
              (omega arith)
        | inr now ↦
            let same : n ≡ k = ground arith in
            subst IsOver
              (sym (
                late again calls f (n + 1) (calls n).elapsed
                  (subst (λ (j : ℕ). 10000 < (calls j).elapsed) (sym same) h)))
              tt
      ] in
    either_way IsOver (ltb 10000 diff) tt (either_way IsOver (again (calls n).err) next tt)

sent-IsOver : (fd : ℕ) (o : Outcome ℕ) (t : Tls) → IsOver o → is_some (sent fd o t).0 ≡ true
sent-IsOver fd unfinished t h = absurd h
sent-IsOver fd timed_out t h = refl
sent-IsOver fd (ended len no_error) t h = refl
sent-IsOver fd (ended len want_write) t h = refl
sent-IsOver fd (ended len want_read) t h = refl
sent-IsOver fd (ended len zero_return) t h = refl
sent-IsOver fd (ended len syscall) t h = refl
sent-IsOver fd (ended len other_error) t h = refl

received-IsOver :
    (callback : Bytes → Ssize) (o : Outcome Bytes) → IsOver o → is_some (received callback o) ≡ true
received-IsOver callback unfinished h = absurd h
received-IsOver callback timed_out h = refl
received-IsOver callback (ended text no_error) h = refl
received-IsOver callback (ended text want_read) h = refl
received-IsOver callback (ended text zero_return) h = refl
received-IsOver callback (ended text syscall) h = refl
received-IsOver callback (ended text want_write) h = refl
received-IsOver callback (ended text other_error) h = refl

handshaken-IsOver : (o : Outcome ℕ) → IsOver o → is_some (handshaken o) ≡ true
handshaken-IsOver unfinished h = absurd h
handshaken-IsOver timed_out h = refl
handshaken-IsOver (ended res no_error) h = refl
handshaken-IsOver (ended res want_read) h = refl
handshaken-IsOver (ended res want_write) h = refl
handshaken-IsOver (ended res zero_return) h = refl
handshaken-IsOver (ended res syscall) h = refl
handshaken-IsOver (ended res other_error) h = refl

-- When the clock has passed ten seconds behind some call of OpenSSL, `send`, `recv` and
-- `accept_continuation` have returned by the next one, whatever OpenSSL says.
pub calls-IsOver :
    (k fd : ℕ) (callback : Bytes → Ssize) (writes : ℕ → SslCall ℕ) (reads : ℕ → SslCall Bytes)
    (h : Handshake) (t : Tls)
    → 10000 < (writes k).elapsed
    → 10000 < (reads k).elapsed
    → 10000 < (h.calls k).elapsed
    → (is_some (send (k + 2) fd writes t).0 ≡ true)
      × (is_some (recv (k + 2) fd callback reads t).0 ≡ true)
      × (is_some (accept_continuation (k + 2) fd h t).0 ≡ true)
unfolding send recv accept_continuation
calls-IsOver k fd callback writes reads h t write read accept =
    let fits : k + 2 ≤ 0 + (k + 2) = omega arith in
    let first : 0 ≤ k = omega arith in
    let Some : Option Bool → Type 0 = λ (o : Option Bool). is_some o ≡ true in
    (
      sent-IsOver fd (ssl_loop wants_write writes (k + 2) 0 0) (read_pointer fd t)
          (ssl_loop-IsOver wants_write writes k (k + 2) 0 0 write first fits),
      received-IsOver callback (ssl_loop wants_read reads (k + 2) 0 0)
          (ssl_loop-IsOver wants_read reads k (k + 2) 0 0 read first fits),
      either_way Some (h.ssl == 0) refl (
          either_way Some h.set_fd_fails refl (
            handshaken-IsOver (ssl_loop wants_more h.calls (k + 2) 0 0)
              (ssl_loop-IsOver wants_more h.calls k (k + 2) 0 0 accept first fits))),
    )

waited {ℓ} :
    {A : Type ℓ} (again : SslError → Bool) (calls : ℕ → SslCall A) (f n diff : ℕ)
    → ((m : ℕ) → again (calls m).err ≡ true)
    → IsOver (ssl_loop again calls f n diff)
    → ssl_loop again calls f n diff ≡ timed_out
unfolding ssl_loop
waited again calls zero n diff always over = absurd over
waited again calls (suc f) n diff always over = elim (Bool-cases (ltb 10000 diff)) [
  | inl past ↦ rw past refl
  | inr early ↦
      let on : ssl_loop again calls (suc f) n diff
          ≡ ssl_loop again calls f (n + 1) (calls n).elapsed =
        rw (early, always n) refl in
      on ∙ waited again calls f (n + 1) (calls n).elapsed always (subst IsOver on over)
]

waiting {ℓ} :
    {A : Type ℓ} (again : SslError → Bool) (calls : ℕ → SslCall A) (k f n diff : ℕ)
    → ((m : ℕ) → again (calls m).err ≡ true)
    → 10000 < (calls k).elapsed
    → n ≤ k
    → k + 2 ≤ n + f
    → ssl_loop again calls f n diff ≡ timed_out
waiting again calls k f n diff always h before enough =
    waited again calls f n diff always (ssl_loop-IsOver again calls k f n diff h before enough)

-- A connection of which nothing comes for ten seconds is one that has got a byte: `recv` returns 1,
-- whatever the callback is.
pub recv-waiting :
    (k fd : ℕ) (callback : Bytes → Ssize) (reads : ℕ → SslCall Bytes) (t : Tls)
    → ((m : ℕ) → (reads m).err ≡ want_read)
    → 10000 < (reads k).elapsed
    → (recv (k + 2) fd callback reads t).0 ≡ some (plus 1)
unfolding recv
recv-waiting k fd callback reads t always late_clock = ap (received callback) (
    waiting wants_read reads k (k + 2) 0 0 (λ (m : ℕ). ap wants_read (always m)) late_clock
      (omega arith) (omega arith))
