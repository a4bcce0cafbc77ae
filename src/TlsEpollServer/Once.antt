-- ===== src/TlsEpollServer/Once.antt =====
-- Every object of OpenSSL that cpp-source/tls-epoll-server.cpp makes is freed as often as made.
use libjaypea.Base.{
  ℕ, ◌+◌, [], ◌∷◌, ◌++◌, List, Bool, true, false, ◌==◌, ==_iff, if◌then◌else◌, Option, none, some,
  ◌≡◌, refl, subst, inl, inr, Bool-cases, arith,
}
use libjaypea.Base.Tables.{
  Table, find, set, remove, IsDistinct, set-IsDistinct, remove-IsDistinct, remove-fresh,
}
use libjaypea.EpollServer.Clients.{value}
use libjaypea.TlsEpollServer.{
  Outcome, timed_out, ended, unfinished, no_error, want_read, want_write, zero_return, syscall,
  other_error, ssl_loop, Tls,
}
use libjaypea.TlsEpollServer.Calls.{
  wants_write, read_pointer, sent, send, recv, Handshake, accept_continuation,
}
use libjaypea.TlsEpollServer.Clients.{
  close_client, pointers, destroy, TlsEvent, accepting, sending, receiving, closing, after_accept,
  step, run, no_clients,
}

abbrev one : ℕ → ℕ → ℕ
one x y = if y == x then 1 else 0

-- How often a number stands in a list.
abbrev pub times : ℕ → List ℕ → ℕ
times x [] = 0
times x (y ∷ ys) = one x y + times x ys

times_append : (x : ℕ) (ys zs : List ℕ) → times x (ys ++ zs) ≡ times x ys + times x zs
times_append x [] zs = omega arith
times_append x (y ∷ ys) zs = omega (arith, times_append x ys zs)

abbrev held : ℕ → Table ℕ → ℕ
held x m = times x (pointers m)

held-set :
    (x key new : ℕ) (m : Table ℕ)
    → (0 == x) ≡ false
    → held x (set key new m) + one x (value (find key m)) ≡ held x m + one x new
unfolding find set
held-set x key new [] nonzero = rw nonzero (omega arith)
held-set x key new ((name, old) ∷ rest) nonzero = elim (Bool-cases (name == key)) [
  | inl same ↦ rw same (omega arith)
  | inr other ↦ rw other (omega (arith, held-set x key new rest nonzero))
]

held-remove :
    (x key : ℕ) (m : Table ℕ)
    → (0 == x) ≡ false
    → IsDistinct m
    → held x (remove key m) + one x (value (find key m)) ≡ held x m
unfolding find remove
held-remove x key [] nonzero d = rw nonzero refl
held-remove x key ((name, old) ∷ rest) nonzero (fresh, d) = elim (Bool-cases (name == key)) [
  | inl same ↦
      rw
        (
          same,
          remove-fresh key rest
              (subst (λ (k : ℕ). find k rest ≡ none) ((==_iff name key).0 same) fresh),
        )
        (omega arith)
  | inr other ↦ rw other (omega (arith, held-remove x key rest nonzero d))
]

-- No descriptor has two objects, and each object was made as often as it is held and was freed.
abbrev pub IsBalanced : Tls → Type 0
IsBalanced t =
    IsDistinct t.client_ssl
    × ((x : ℕ) → (0 == x) ≡ false → times x t.allocated ≡ held x t.client_ssl + times x t.freed)

close_client-IsBalanced : (fd : ℕ) (t : Tls) → IsBalanced t → IsBalanced (close_client fd t)
unfolding close_client
close_client-IsBalanced fd t (d, b) = (
  remove-IsDistinct fd t.client_ssl d,
  λ (x : ℕ) (nonzero : (0 == x) ≡ false). omega (
    arith,
    b x nonzero,
    held-remove x fd t.client_ssl nonzero d,
    times_append x t.freed (value (find fd t.client_ssl) ∷ []),
  ),
)

touch_either :
    (P : Table ℕ → Type 0) (fd : ℕ) (m : Table ℕ) (found : Option ℕ)
    → find fd m ≡ found
    → (find fd m ≡ none → P (set fd 0 m))
    → P m
    → P (elim found [ none ↦ set fd 0 m | some n ↦ m ])
touch_either P fd m none e p q = p e
touch_either P fd m (some n) e p q = q

touch-IsBalanced : (fd : ℕ) (t : Tls) → IsBalanced t → IsBalanced (read_pointer fd t)
touch-IsBalanced fd t (d, b) =
    touch_either (λ (m : Table ℕ). IsBalanced (record t { client_ssl = m })) fd t.client_ssl
      (find fd t.client_ssl) refl
      (λ (absent : find fd t.client_ssl ≡ none). (
        set-IsDistinct fd 0 t.client_ssl d,
        λ (x : ℕ) (nonzero : (0 == x) ≡ false).
            let null : one x 0 ≡ 0 = rw nonzero refl in
            let free : one x (value (find fd t.client_ssl)) ≡ 0 = rw (absent, nonzero) refl in
            omega (arith, b x nonzero, held-set x fd 0 t.client_ssl nonzero, null, free),
      ))
      (d, b)

sent-IsBalanced : (fd : ℕ) (o : Outcome ℕ) (t : Tls) → IsBalanced t → IsBalanced (sent fd o t).1
sent-IsBalanced fd timed_out t b = b
sent-IsBalanced fd unfinished t b = b
sent-IsBalanced fd (ended len no_error) t b = b
sent-IsBalanced fd (ended len want_write) t b = b
sent-IsBalanced fd (ended len want_read) t b = b
sent-IsBalanced fd (ended len zero_return) t b = b
sent-IsBalanced fd (ended len syscall) t b = b
sent-IsBalanced fd (ended len other_error) t b = b

after_accept-IsBalanced :
    (fd : ℕ) (r : Option Bool × Tls) → IsBalanced r.1 → IsBalanced (after_accept fd r)
after_accept-IsBalanced fd (none, t) b = b
after_accept-IsBalanced fd (some true, t) b = close_client-IsBalanced fd t b
after_accept-IsBalanced fd (some false, t) b = b

accept_continuation-IsBalanced :
    (f fd : ℕ) (h : Handshake) (t : Tls)
    → value (find fd t.client_ssl) ≡ 0
    → IsBalanced t
    → IsBalanced (accept_continuation f fd h t).1
unfolding accept_continuation
accept_continuation-IsBalanced f fd h t free (d, b) = (
  set-IsDistinct fd h.ssl t.client_ssl d,
  λ (x : ℕ) (nonzero : (0 == x) ≡ false).
      let unused : one x (value (find fd t.client_ssl)) ≡ 0 = rw (free, nonzero) refl in
      omega (
        arith,
        b x nonzero,
        held-set x fd h.ssl t.client_ssl nonzero,
        times_append x t.allocated (h.ssl ∷ []),
        unused,
      ),
)

-- A descriptor that `accept` gives has no object.
abbrev pub Admissible : TlsEvent → Tls → Type 0
Admissible (accepting fd h) t = value (find fd t.client_ssl) ≡ 0
Admissible (sending fd calls) t = Unit
Admissible (receiving fd callback calls) t = Unit
Admissible (closing fd) t = Unit

abbrev pub AllAdmissible : ℕ → List TlsEvent → Tls → Type 0
AllAdmissible f [] t = Unit
AllAdmissible f (e ∷ events) t = Admissible e t × AllAdmissible f events (step f e t)

step-IsBalanced :
    (f : ℕ) (e : TlsEvent) (t : Tls) → Admissible e t → IsBalanced t → IsBalanced (step f e t)
unfolding step send recv
step-IsBalanced f (accepting fd h) t free b =
    after_accept-IsBalanced fd (accept_continuation f fd h t)
      (accept_continuation-IsBalanced f fd h t free b)
step-IsBalanced f (sending fd calls) t free b =
    sent-IsBalanced fd (ssl_loop wants_write calls f 0 0) (read_pointer fd t)
      (touch-IsBalanced fd t b)
step-IsBalanced f (receiving fd callback calls) t free b = touch-IsBalanced fd t b
step-IsBalanced f (closing fd) t free b = close_client-IsBalanced fd t b

run-IsBalanced :
    (f : ℕ) (events : List TlsEvent) (t : Tls)
    → AllAdmissible f events t
    → IsBalanced t
    → IsBalanced (run f events t)
unfolding run
run-IsBalanced f [] t all b = b
run-IsBalanced f (e ∷ events) t (this, all) b =
    run-IsBalanced f events (step f e t) all (step-IsBalanced f e t this b)

-- Whatever is accepted, sent, received and closed, if `accept` gives only descriptors without an
-- object: when the server is destroyed, every object of OpenSSL has been freed as often as it was
-- made, those of failed handshakes too.
pub run-destroy :
    (f : ℕ) (events : List TlsEvent) (x : ℕ)
    → AllAdmissible f events no_clients
    → (0 == x) ≡ false
    → times x (destroy (run f events no_clients)).freed
      ≡ times x (destroy (run f events no_clients)).allocated
unfolding destroy
run-destroy f events x all nonzero =
    let t = run f events no_clients in
    let balanced =
      run-IsBalanced f events no_clients all (tt, λ (y : ℕ) (h : (0 == y) ≡ false). refl) in
    omega (arith, balanced.1 x nonzero, times_append x t.freed (pointers t.client_ssl))
