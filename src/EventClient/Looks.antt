-- ===== src/EventClient/Looks.antt =====
-- What one look at a connection of cpp-source/tcp-event-client.cpp counts and closes.
use libjaypea.Base.{
  ℕ, ◌+◌, ◌≤◌, ◌==◌, [], ◌∷◌, if◌then◌else◌, sym, List, Bool, true, false, equal, Option, none,
  some, lookup, ◌≡◌, refl, ap, inl, inr, Bool-cases, arith,
}
use libjaypea.EventClient.{
  ConnectionState, disconnected, connecting, connected, dead, Connection, Client, Sockets, Opened,
  descriptor, too_many, no_socket, Connecting, established, pending, refused, Answers, Callbacks,
  Looked, closing, looked, resolved, open_socket, told, announce, reset, connect, look_at,
}

-- 1 for what is equal.
abbrev pub same : Option ℕ → Option ℕ → ℕ
same none none = 1
same none (some b) = 0
same (some a) none = 0
same (some a) (some b) = if a == b then 1 else 0

-- How often a descriptor was given to `close`.
unfoldable pub count_closed : Option ℕ → List (Option ℕ) → ℕ
count_closed x [] = 0
count_closed x (fd ∷ closed) = same x fd + count_closed x closed

-- 1 for a dead connection with the descriptor.
abbrev pub dead_with : Option ℕ → ConnectionState → Option ℕ → ℕ
dead_with x disconnected fd = 0
dead_with x connecting fd = 0
dead_with x connected fd = 0
dead_with x dead fd = same x fd

unfoldable pub count_dead : Option ℕ → List Connection → ℕ
count_dead x [] = 0
count_dead x (c ∷ cs) = dead_with x c.state c.fd + count_dead x cs

-- 1 for a connection that is not dead.
abbrev pub weight : ConnectionState → ℕ
weight disconnected = 1
weight connecting = 1
weight connected = 1
weight dead = 0

unfoldable pub count_alive : List Connection → ℕ
count_alive [] = 0
count_alive (c ∷ cs) = weight c.state + count_alive cs

alive-dead_with :
    (x : Option ℕ) (state : ConnectionState) (fd : Option ℕ)
    → weight state ≡ 1
    → dead_with x state fd ≡ 0
alive-dead_with x disconnected fd h = refl
alive-dead_with x connecting fd h = refl
alive-dead_with x connected fd h = refl
alive-dead_with x dead fd h = absurd (omega arith)

module _ {ℓ} {U : Type ℓ} where
  -- A look at a connection of weight `w`, dead with the descriptors of `d`, with `a` living ones before and the closings `k`: its
  -- descriptor is closed exactly when the connection dies.
  abbrev pub Counts : ℕ → (Option ℕ → ℕ) → ℕ → List (Option ℕ) → Looked U → Type 0
  Counts w d a k l =
      (l.client.alive_connections + w ≡ a + weight l.connection.state)
      × ((x : Option ℕ)
          → count_closed x l.client.closed + d x
            ≡ count_closed x k + dead_with x l.connection.state l.connection.fd)

  closing-Counts :
      (conn : Connection) (running : Bool) (s : Client U)
      → 1 ≤ s.alive_connections
      → Counts 1 (λ x. 0) s.alive_connections s.closed (closing conn running s)
  unfolding count_closed
  closing-Counts conn running s h = (omega arith, λ x. omega arith)

  -- A look that closes nothing and leaves a connection that is not dead.
  alive-Counts :
      (conn : Connection) (running : Bool) (s : Client U)
      → weight conn.state ≡ 1
      → Counts 1 (λ x. 0) s.alive_connections s.closed (looked conn running s)
  alive-Counts conn running s e =
      (omega arith, λ x. omega (arith, alive-dead_with x conn.state conn.fd e))

  resolved-Counts :
      (conn : Connection) (host known : Option ℕ) (s : Client U)
      → 1 ≤ s.alive_connections
      → Counts 1 (λ x. 0) s.alive_connections s.closed (resolved conn host known s)
  resolved-Counts conn host (some address) s h = (omega arith, λ x. omega arith)
  resolved-Counts conn none none s h = closing-Counts conn false s h
  resolved-Counts conn (some address) none s h = (omega arith, λ x. omega arith)

  told-Counts :
      (conn : Connection) (s : Client U) (answer : Bool × Sockets U)
      → 1 ≤ s.alive_connections
      → weight conn.state ≡ 1
      → Counts 1 (λ x. 0) s.alive_connections s.closed (told conn s answer)
  told-Counts conn s (true, sockets) h e =
      closing-Counts conn true (record s { sockets = sockets }) h
  told-Counts conn s (false, sockets) h e =
      alive-Counts conn true (record s { sockets = sockets }) e

  announce-Counts :
      (conn : Connection) (fd : ℕ) (s : Client U) (f : Option (ℕ → Sockets U → Bool × Sockets U))
      → 1 ≤ s.alive_connections
      → weight conn.state ≡ 1
      → Counts 1 (λ x. 0) s.alive_connections s.closed (announce conn fd s f)
  announce-Counts conn fd s none h e = alive-Counts conn true s e
  announce-Counts conn fd s (some f) h e = told-Counts conn s (f fd s.sockets) h e

  module _ (callbacks : Callbacks U) where
    open_socket-Counts :
        (answers : Answers) (conn : Connection) (opened : Opened) (s : Client U)
        → 1 ≤ s.alive_connections
        → weight conn.state ≡ 1
        → Counts 1
            (λ x. 0)
            s.alive_connections
            s.closed
            (open_socket callbacks answers conn opened s)
    open_socket-Counts answers conn too_many s h e =
        alive-Counts (record conn { fd = none }) false s e
    open_socket-Counts answers conn no_socket s h e =
        closing-Counts (record conn { fd = none }) false s h
    open_socket-Counts answers conn (descriptor fd) s h e =
        elim (Bool-cases (equal conn.hostname [])) [
          | inl ip ↦ rw ip (omega arith, λ x. omega arith)
          | inr name ↦ rw name (
              resolved-Counts (record conn { fd = some fd }) answers.host
                (lookup conn.hostname s.host_addresses) s h)
        ]

    connect-Counts :
        (conn : Connection) (fd : ℕ) (answer : Connecting) (s : Client U)
        → 1 ≤ s.alive_connections
        → weight conn.state ≡ 1
        → Counts 1 (λ x. 0) s.alive_connections s.closed (connect callbacks conn fd answer s)
    connect-Counts conn fd established s h e =
        announce-Counts (record conn { state = connected }) fd
          (record s { sockets = reset fd s.sockets }) callbacks.on_connect h refl
    connect-Counts conn fd pending s h e = alive-Counts conn true s e
    connect-Counts conn fd refused s h e = closing-Counts conn false s h

    pub look_at-Counts :
        (answers : Answers) (conn : Connection) (state : ConnectionState) (fd : Option ℕ)
        (s : Client U)
        → conn.state ≡ state
        → weight state ≤ s.alive_connections
        → Counts
            (weight state)
            (λ x. dead_with x state conn.fd)
            s.alive_connections
            s.closed
            (look_at callbacks answers conn state fd s)
    look_at-Counts answers conn disconnected fd s e h =
        open_socket-Counts answers conn answers.socket s h (ap weight e)
    look_at-Counts answers conn connecting (some fd) s e h =
        connect-Counts conn fd answers.connect s h (ap weight e)
    look_at-Counts answers conn connecting none s e h = closing-Counts conn false s h
    look_at-Counts answers conn connected (some fd) s e h =
        told-Counts conn s (callbacks.recv fd answers.reads s.sockets) h (ap weight e)
    look_at-Counts answers conn connected none s e h = closing-Counts conn true s h
    look_at-Counts answers conn dead fd s e h =
        let w = ap weight e in
        (
          omega arith,
          λ x.
              ap (λ (t : ConnectionState). count_closed x s.closed + dead_with x t conn.fd) (sym e),
        )
