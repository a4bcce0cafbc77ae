-- ===== src/EventClient/Counted.antt =====
-- The number of living connections of cpp-source/tcp-event-client.cpp, through its rounds.
use libjaypea.Base.{
  ℕ, suc, ◌+◌, ◌≤◌, ◌==◌, [], ◌∷◌, ◌++◌, sym, ◌∙◌, List, Bool, false, not, ◌||◌, Option, none, some,
  length, length-append, ◌≡◌, refl, ap, inl, inr, Bool-cases, arith,
}
use libjaypea.EventClient.{
  ConnectionState, disconnected, Connection, Client, Sockets, Answers, Callbacks, Ended, broken,
  over, more_rounds, add, look, round, event_loop, run,
}
use libjaypea.EventClient.Looks.{
  weight, count_closed, dead_with, count_dead, count_alive, look_at-Counts,
}

abbrev pub AllNew : List Connection → Type 0
AllNew [] = Unit
AllNew (c ∷ cs) = (c.state ≡ disconnected) × AllNew cs

AllNew-append :
    (connections : List Connection) (c : Connection)
    → c.state ≡ disconnected
    → AllNew connections
    → AllNew (connections ++ c ∷ [])
AllNew-append [] c e h = (e, tt)
AllNew-append (b ∷ bs) c e (n, h) = (n, AllNew-append bs c e h)

AllNew-count_alive : (cs : List Connection) → AllNew cs → count_alive cs ≡ length cs
unfolding count_alive
AllNew-count_alive [] h = refl
AllNew-count_alive (c ∷ cs) (e, h) = omega (arith, ap weight e, AllNew-count_alive cs h)

AllNew-count_dead : (x : Option ℕ) (cs : List Connection) → AllNew cs → count_dead x cs ≡ 0
unfolding count_dead
AllNew-count_dead x [] h = refl
AllNew-count_dead x (c ∷ cs) (e, h) =
    omega (arith, ap (λ (t : ConnectionState). dead_with x t c.fd) e, AllNew-count_dead x cs h)

module _ {ℓ} {U : Type ℓ} where
  -- Beside `first`, the living connections are counted, and each descriptor was closed once for each
  -- dead connection with it.
  pub record IsCounted (first : ℕ) (connections : List Connection) (s : Client U) : Type ℓ where
    pub alive : s.alive_connections ≡ first + count_alive connections
    pub closings : (x : Option ℕ) → count_closed x s.closed ≡ count_dead x connections

  abbrev pub IsCountedEnd : ℕ → Ended U → Type ℓ
  IsCountedEnd first (broken connections s) = IsCounted first connections s
  IsCountedEnd first (over connections s) = IsCounted first connections s
  IsCountedEnd first (more_rounds connections s) = IsCounted first connections s

  -- A client that was given connections, in front of its loop: `first` is what the memory of
  -- `alive_connections` held, and 1 was added for each.
  pub record IsStarted (first : ℕ) (connections : List Connection) (s : Client U) : Type ℓ where
    pub new : AllNew connections
    pub added : s.alive_connections ≡ first + length connections
    pub none_closed : s.closed ≡ []

  pub add-IsStarted :
      (first : ℕ) (conn : Connection) (connections : List Connection) (s : Client U)
      → conn.state ≡ disconnected
      → IsStarted first connections s
      → IsStarted first (add conn (connections, s)).0 (add conn (connections, s)).1
  add-IsStarted first conn connections s e started =
      let added = started.added in
      record {
        new = AllNew-append connections conn e started.new;
        added = omega (arith, length-append connections (conn ∷ []));
        none_closed = started.none_closed;
      }

  pub IsStarted-IsCounted :
      (first : ℕ) (connections : List Connection) (s : Client U)
      → IsStarted first connections s
      → IsCounted first connections s
  unfolding count_closed
  IsStarted-IsCounted first connections s started =
      let added = started.added in
      record {
        alive = omega (arith, AllNew-count_alive connections started.new);
        closings = λ x.
            ap (count_closed x) started.none_closed
            ∙ sym (AllNew-count_dead x connections started.new);
      }

  module _ (callbacks : Callbacks U) where
    round-Counts :
        (answers : ℕ → Answers) (connections : List Connection) (r : Bool) (s : Client U)
        → count_alive connections ≤ s.alive_connections
        → let t = round callbacks answers connections r s in
          (t.2.alive_connections + count_alive connections ≡ s.alive_connections + count_alive t.0)
          × ((x : Option ℕ)
              → count_closed x t.2.closed + count_dead x connections
                ≡ count_closed x s.closed + count_dead x t.0)
    unfolding round look count_alive count_dead
    round-Counts answers [] r s h = (refl, λ x. refl)
    round-Counts answers (c ∷ cs) r s h =
        let l = look callbacks (answers 0) c s in
        let (a, b) = look_at-Counts callbacks (answers 0) c c.state c.fd s refl (omega arith) in
        let (d, e) =
          round-Counts (λ n. answers (suc n)) cs (r || l.running) l.client (omega (arith, a)) in
        (omega (arith, a, d), λ x. omega (arith, b x, e x))

    pub round-IsCounted :
        (first : ℕ) (answers : ℕ → Answers) (connections : List Connection) (r : Bool)
        (s : Client U)
        → IsCounted first connections s
        → IsCounted first
            (round callbacks answers connections r s).0
            (round callbacks answers connections r s).2
    round-IsCounted first answers connections r s c =
        let alive = c.alive in
        let (a, b) = round-Counts answers connections r s (omega arith) in
        record { alive = omega arith; closings = λ x. omega (arith, b x, c.closings x) }

    pub event_loop-IsCounted :
        (first : ℕ) (f : Option (Sockets U → Bool × Sockets U)) (connections : List Connection)
        (s : Client U)
        → IsCounted first connections s
        → IsCounted first connections (event_loop f s).1
    event_loop-IsCounted first none connections s c = c
    event_loop-IsCounted first (some f) connections s c = record {
      alive = c.alive;
      closings = c.closings;
    }

    counted-IsCounted :
        (first : ℕ) (rounds : List (ℕ → Answers)) (connections : List Connection) (s : Client U)
        → IsCounted first connections s
        → IsCountedEnd first (run callbacks rounds connections s)
    unfolding run
    counted-IsCounted first [] connections s c = c
    counted-IsCounted first (answers ∷ others) connections s c =
        let looped = (event_loop callbacks.on_event_loop s).1 in
        let before = event_loop-IsCounted first callbacks.on_event_loop connections s c in
        let t = round callbacks answers connections false looped in
        let after = round-IsCounted first answers connections false looped before in
        elim (Bool-cases (event_loop callbacks.on_event_loop s).0) [
          | inl out ↦ rw out before
          | inr on ↦ elim (Bool-cases (t.2.alive_connections == 0 || not t.1)) [
            | inl end ↦ rw (on, end) after
            | inr more ↦ rw (on, more) (counted-IsCounted first others t.0 t.2 after)
          ]
        ]

    -- A client is given connections, and the memory of `alive_connections`, which the class does not
    -- initialize, held `first`, which is not negative. After any rounds, with any answers of the
    -- system and any callbacks, `alive_connections` is `first` more than the number of connections
    -- that are not dead, and each descriptor, the missing one included, was given to `close` as often
    -- as there are dead connections with it.
    pub run-IsCounted :
        (first : ℕ) (rounds : List (ℕ → Answers)) (connections : List Connection) (s : Client U)
        → IsStarted first connections s
        → IsCountedEnd first (run callbacks rounds connections s)
    run-IsCounted first rounds connections s started =
        counted-IsCounted first rounds connections s
          (IsStarted-IsCounted first connections s started)
