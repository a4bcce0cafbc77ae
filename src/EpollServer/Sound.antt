-- ===== src/EpollServer/Sound.antt =====
-- What holds of a thread's connections between two events.
use libjaypea.Base.{
  ℕ, ◌++◌, Bytes, ◌+◌, ◌-◌, ◌%◌, ◌^◌, ◌≤◌, ◌<◌, ◌≡◌, refl, sym, ap, subst, ◌∙◌, inl, inr,
  Bool-cases, [], ◌∷◌, List, Bool, true, false, leb, Option, some, arith,
}
use libjaypea.Base.Tables.{Table, find, remove, size, IsDistinct, size-remove, remove-IsDistinct}
use libjaypea.EpollServer.Pairs.{IsInverse, remove-IsInverse}
use libjaypea.EpollServer.{Thread, Watch, absent, disarmed, armed}
use libjaypea.EpollServer.Clients.{
  value, bump, add_server, close_client, forget, on_failure, on_timeout, on_timeouts, send,
  send_all,
}

-- The two tables are inverse to each other and count the connections.
pub record IsPaired (max_connections : ℕ) (t : Thread) : Type 0 where
  pub inverse : IsInverse t.client_to_timer t.timer_to_client
  pub distinct : IsDistinct t.client_to_timer
  pub counted : t.num_connections ≡ size t.client_to_timer
  pub bounded : t.num_connections ≤ max_connections

abbrev pub is_absent : Watch → Bool
is_absent absent = true
is_absent disarmed = false
is_absent armed = false

-- The server's socket is out of the epoll set exactly when the thread has no room.
pub record IsSound (max_connections : ℕ) (t : Thread) : Type 0 where
  pub paired : IsPaired max_connections t
  pub watched : is_absent t.server ≡ leb max_connections t.num_connections

abbrev pub Tracked : ℕ → Table ℕ → Type 0
Tracked key m = (v : ℕ) × (find key m ≡ some v)

add_server-absent : (w : Watch) → is_absent (add_server w) ≡ false
add_server-absent absent = refl
add_server-absent disarmed = refl
add_server-absent armed = refl

-- A connection that ends.
pub close_client-IsSound :
    (max_connections fd timer : ℕ) (t : Thread)
    → max_connections < 2 ^ 64
    → IsSound max_connections t
    → find fd t.client_to_timer ≡ some timer
    → IsSound max_connections (close_client max_connections fd (forget fd timer t))
unfolding close_client forget
close_client-IsSound max_connections fd timer t small s found =
    let p = s.paired in
    let fewer = size-remove fd timer t.client_to_timer p.distinct found in
    let num : (t.num_connections + (2 ^ 64 - 1)) % 2 ^ 64 ≡ size (remove fd t.client_to_timer) =
      omega (arith, p.counted, p.bounded, fewer, small) in
    let room : leb max_connections ((t.num_connections + (2 ^ 64 - 1)) % 2 ^ 64) ≡ false =
      ground (arith, num, fewer, p.counted, p.bounded) in
    record {
      paired = record {
        inverse = remove-IsInverse fd timer t.client_to_timer t.timer_to_client p.inverse found;
        distinct = remove-IsDistinct fd t.client_to_timer p.distinct;
        counted = num;
        bounded = omega (arith, num, fewer, p.counted, p.bounded);
      };
      watched = elim (Bool-cases (leb max_connections t.num_connections)) [
        | inl full ↦ rw (full, room) (add_server-absent t.server)
        | inr free ↦ rw (free, room) (s.watched ∙ free)
      ];
    }

-- What the kernel says of the events of a thread: expired timers are those of its connections.
abbrev pub AreExpired : ℕ → List (ℕ × Bool) → Thread → Type 0
AreExpired max_connections [] t = Unit
AreExpired max_connections ((timer, closes) ∷ others) t =
    (closes ≡ true)
    × Tracked timer t.timer_to_client
    × AreExpired max_connections others (on_timeout max_connections timer closes t)

on_timeout-IsSound :
    (max_connections timer : ℕ) (t : Thread)
    → max_connections < 2 ^ 64
    → IsSound max_connections t
    → Tracked timer t.timer_to_client
    → IsSound max_connections (on_timeout max_connections timer true t)
unfolding on_timeout
on_timeout-IsSound max_connections timer t small s (fd, found) =
    subst
      (λ (o : Option ℕ).
        IsSound max_connections (close_client max_connections (value o) (forget (value o) timer t)))
      (sym found)
      (close_client-IsSound max_connections fd timer t small s
        (s.paired.inverse.back fd timer found))

pub on_timeouts-IsSound :
    (max_connections : ℕ) (timers : List (ℕ × Bool)) (t : Thread)
    → max_connections < 2 ^ 64
    → IsSound max_connections t
    → AreExpired max_connections timers t
    → IsSound max_connections (on_timeouts max_connections timers t)
unfolding on_timeouts
on_timeouts-IsSound max_connections [] t small s h = s
on_timeouts-IsSound max_connections ((timer, false) ∷ others) t small s (closes, tracked, h) =
    absurd (cc closes)
on_timeouts-IsSound max_connections ((timer, true) ∷ others) t small s (closes, tracked, h) =
    on_timeouts-IsSound max_connections others (on_timeout max_connections timer true t) small
      (on_timeout-IsSound max_connections timer t small s tracked) h

pub on_failure-IsSound :
    (max_connections fd : ℕ) (t : Thread)
    → max_connections < 2 ^ 64
    → IsSound max_connections t
    → Tracked fd t.client_to_timer
    → IsSound max_connections (on_failure max_connections fd t)
unfolding on_failure
on_failure-IsSound max_connections fd t small s (timer, found) =
    subst
      (λ (o : Option ℕ).
        IsSound max_connections (close_client max_connections fd (forget fd (value o) t)))
      (sym found) (close_client-IsSound max_connections fd timer t small s found)

-- The tables and the counter are those of another state.
pub record Keeps (t u : Thread) : Type 0 where
  pub timers : u.timer_to_client ≡ t.timer_to_client
  pub clients : u.client_to_timer ≡ t.client_to_timer
  pub number : u.num_connections ≡ t.num_connections
  pub watch : u.server ≡ t.server

pub Keeps-IsSound :
    (max_connections : ℕ) (t u : Thread)
    → Keeps t u
    → IsSound max_connections t
    → IsSound max_connections u
Keeps-IsSound max_connections t u k s = record {
  paired = record {
    inverse =
        subst (λ (m : Table ℕ). IsInverse m u.timer_to_client) (sym k.clients)
          (subst (λ (m : Table ℕ). IsInverse t.client_to_timer m) (sym k.timers) s.paired.inverse);
    distinct = subst IsDistinct (sym k.clients) s.paired.distinct;
    counted = k.number ∙ (s.paired.counted ∙ ap size (sym k.clients));
    bounded = omega (arith, k.number, s.paired.bounded);
  };
  watched = ap is_absent k.watch ∙ (s.watched ∙ ap (leb max_connections) (sym k.number));
}

pub send_all-Keeps :
    (text : Bytes) (fails : ℕ → Bool) (targets : Table ℕ) (t : Thread)
    → Keeps t (send_all text fails targets t)
unfolding send_all send
send_all-Keeps text fails [] t = record {
  timers = refl;
  clients = refl;
  number = refl;
  watch = refl;
}
send_all-Keeps text fails ((fd, timer) ∷ others) t = elim (Bool-cases (fails fd)) [
  | inl bad ↦ rw bad (send_all-Keeps text fails others t)
  | inr good ↦ rw good (
      let k = send_all-Keeps text fails others (record t {
        written = t.written ++ (fd, text) ∷ [];
        write_counter = bump fd t.write_counter;
      }) in
      record { timers = k.timers; clients = k.clients; number = k.number; watch = k.watch })
]
