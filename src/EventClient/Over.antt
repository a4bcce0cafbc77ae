-- ===== src/EventClient/Over.antt =====
-- When the loop of cpp-source/tcp-event-client.cpp ends by itself.
use libjaypea.Base.{
  ℕ, suc, ◌==◌, [], ◌∷◌, List, Bool, true, false, not, ◌||◌, equal, Option, none, some, lookup, ◌≡◌,
  refl, ◌⊎◌, inl, inr, Bool-cases, arith, ==_iff,
}
use libjaypea.EventClient.{
  ConnectionState, disconnected, connecting, connected, dead, Connection, Client, Sockets, Opened,
  descriptor, too_many, no_socket, Connecting, established, pending, refused, Answers, Callbacks,
  Looked, Ended, broken, over, more_rounds, resolved, open_socket, told, announce, reset, connect,
  look_at, look, round, event_loop, run,
}
use libjaypea.EventClient.Looks.{weight, count_alive}
use libjaypea.EventClient.Counted.{
  IsCounted, IsStarted, IsStarted-IsCounted, event_loop-IsCounted, round-IsCounted,
}

-- Neither connecting nor connected.
abbrev pub IsClosed : Connection → Type 0
IsClosed c = (c.state ≡ dead) ⊎ (c.state ≡ disconnected)

abbrev pub AllClosed : List Connection → Type 0
AllClosed [] = Unit
AllClosed (c ∷ cs) = IsClosed c × AllClosed cs

module _ {ℓ} {U : Type ℓ} where
  -- A look that leaves `running` alone leaves the connection closed.
  abbrev Rests : Looked U → Type 0
  Rests l = l.running ≡ false → IsClosed l.connection

  told-Rests :
      (conn : Connection) (s : Client U) (answer : Bool × Sockets U) → Rests (told conn s answer)
  told-Rests conn s (true, sockets) h = inl refl
  told-Rests conn s (false, sockets) h = cc

  announce-Rests :
      (conn : Connection) (fd : ℕ) (s : Client U) (f : Option (ℕ → Sockets U → Bool × Sockets U))
      → Rests (announce conn fd s f)
  announce-Rests conn fd s none h = cc
  announce-Rests conn fd s (some f) h = told-Rests conn s (f fd s.sockets) h

  resolved-Rests :
      (conn : Connection) (host known : Option ℕ) (s : Client U)
      → Rests (resolved conn host known s)
  resolved-Rests conn host (some address) s h = cc
  resolved-Rests conn none none s h = inl refl
  resolved-Rests conn (some address) none s h = cc

  module _ (callbacks : Callbacks U) where
    open_socket-Rests :
        (answers : Answers) (conn : Connection) (opened : Opened) (s : Client U)
        → conn.state ≡ disconnected
        → Rests (open_socket callbacks answers conn opened s)
    open_socket-Rests answers conn too_many s e = λ h. inr e
    open_socket-Rests answers conn no_socket s e = λ h. inl refl
    open_socket-Rests answers conn (descriptor fd) s e =
        elim (Bool-cases (equal conn.hostname [])) [
          | inl ip ↦ rw ip (λ h. cc)
          | inr name ↦ rw name (
              resolved-Rests (record conn { fd = some fd }) answers.host
                (lookup conn.hostname s.host_addresses) s)
        ]

    connect-Rests :
        (conn : Connection) (fd : ℕ) (answer : Connecting) (s : Client U)
        → Rests (connect callbacks conn fd answer s)
    connect-Rests conn fd established s =
        announce-Rests (record conn { state = connected }) fd
          (record s { sockets = reset fd s.sockets }) callbacks.on_connect
    connect-Rests conn fd pending s = λ h. cc
    connect-Rests conn fd refused s = λ h. inl refl

    look_at-Rests :
        (answers : Answers) (conn : Connection) (state : ConnectionState) (fd : Option ℕ)
        (s : Client U)
        → conn.state ≡ state
        → Rests (look_at callbacks answers conn state fd s)
    look_at-Rests answers conn disconnected fd s e =
        open_socket-Rests answers conn answers.socket s e
    look_at-Rests answers conn connecting (some fd) s e = connect-Rests conn fd answers.connect s
    look_at-Rests answers conn connecting none s e = λ h. inl refl
    look_at-Rests answers conn connected (some fd) s e =
        told-Rests conn s (callbacks.recv fd answers.reads s.sockets)
    look_at-Rests answers conn connected none s e = λ h. inl refl
    look_at-Rests answers conn dead fd s e = λ h. inl e

    round-running :
        (answers : ℕ → Answers) (connections : List Connection) (s : Client U)
        → (round callbacks answers connections true s).1 ≡ true
    unfolding round
    round-running answers [] s = refl
    round-running answers (c ∷ cs) s =
        round-running (λ n. answers (suc n)) cs (look callbacks (answers 0) c s).client

    round-AllClosed :
        (answers : ℕ → Answers) (connections : List Connection) (s : Client U)
        → (round callbacks answers connections false s).1 ≡ false
        → AllClosed (round callbacks answers connections false s).0
    unfolding round look
    round-AllClosed answers [] s h = tt
    round-AllClosed answers (c ∷ cs) s h =
        let l = look callbacks (answers 0) c s in
        let others : ℕ → Answers = λ n. answers (suc n) in
        let rests : Rests l = look_at-Rests (answers 0) c c.state c.fd s refl in
        elim (Bool-cases l.running) [
          | inl on ↦ absurd (cc (round-running others cs l.client, (rw on at h)))
          | inr off ↦ (rests off, rw off (round-AllClosed others cs l.client (rw off at h)))
        ]

IsClosed-weight :
    (c : Connection) (state : ConnectionState) → c.state ≡ state → weight state ≡ 0 → IsClosed c
IsClosed-weight c disconnected e h = cc
IsClosed-weight c connecting e h = cc
IsClosed-weight c connected e h = cc
IsClosed-weight c dead e h = inl e

AllClosed-count_alive : (cs : List Connection) → count_alive cs ≡ 0 → AllClosed cs
unfolding count_alive
AllClosed-count_alive [] h = tt
AllClosed-count_alive (c ∷ cs) h =
    (IsClosed-weight c c.state refl (omega arith), AllClosed-count_alive cs (omega arith))

module _ {ℓ} {U : Type ℓ} where
  -- What holds of a run that ended by itself.
  abbrev pub IsOver : Ended U → Type 0
  IsOver (broken connections s) = Unit
  IsOver (over connections s) = AllClosed connections
  IsOver (more_rounds connections s) = Unit

  module _ (callbacks : Callbacks U) where
    round-end :
        (first : ℕ) (answers : ℕ → Answers) (connections : List Connection) (s : Client U)
        → IsCounted first connections s
        → let t = round callbacks answers connections false s in
          (t.2.alive_connections == 0 || not t.1) ≡ true → AllClosed t.0
    round-end first answers connections s c h =
        let t = round callbacks answers connections false s in
        let d : IsCounted first t.0 t.2 =
          round-IsCounted callbacks first answers connections false s c in
        let alive = d.alive in
        elim (Bool-cases (t.2.alive_connections == 0)) [
          | inl none_left ↦
              AllClosed-count_alive t.0
                (omega (arith, (==_iff t.2.alive_connections 0).0 none_left))
          | inr left ↦ elim (Bool-cases t.1) [
            | inl on ↦ absurd (cc (rw (left, on) at h))
            | inr off ↦ round-AllClosed callbacks answers connections s off
          ]
        ]

    counted-IsOver :
        (first : ℕ) (rounds : List (ℕ → Answers)) (connections : List Connection) (s : Client U)
        → IsCounted first connections s
        → IsOver (run callbacks rounds connections s)
    unfolding run
    counted-IsOver first [] connections s c = tt
    counted-IsOver first (answers ∷ others) connections s c =
        let looped = (event_loop callbacks.on_event_loop s).1 in
        let before = event_loop-IsCounted callbacks first callbacks.on_event_loop connections s c in
        let t = round callbacks answers connections false looped in
        elim (Bool-cases (event_loop callbacks.on_event_loop s).0) [
          | inl out ↦ rw out tt
          | inr on ↦ elim (Bool-cases (t.2.alive_connections == 0 || not t.1)) [
            | inl end ↦ rw (on, end) (round-end first answers connections looped before end)
            | inr more ↦
                rw (on, more)
                  (counted-IsOver first others t.0 t.2
                    (round-IsCounted callbacks first answers connections false looped before))
          ]
        ]

    -- A client is given connections, and the memory of `alive_connections`, which the class does not
    -- initialize, held a number that is not negative. It leaves its loop by itself only when none
    -- of the connections is connecting or connected: each is dead, or was never given a socket.
    pub run-IsOver :
        (first : ℕ) (rounds : List (ℕ → Answers)) (connections : List Connection) (s : Client U)
        → IsStarted first connections s
        → IsOver (run callbacks rounds connections s)
    run-IsOver first rounds connections s started =
        counted-IsOver first rounds connections s (IsStarted-IsCounted first connections s started)
