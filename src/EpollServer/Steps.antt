-- ===== src/EpollServer/Steps.antt =====
-- What a new connection, a readable one and a broadcast leave of a thread.
use libjaypea.Base.{
  ℕ, Bytes, ◌<◌, ◌^◌, ◌≡◌, refl, sym, ap, subst, ◌∙◌, inl, inr, Bool-cases, [], ◌∷◌, List, Bool,
  true, false, ltb, leb, ltb_iff, Option, none, some, arith,
}
use libjaypea.Base.Tables.{Table, find, set, size-set, set-IsDistinct}
use libjaypea.EpollServer.{
  Thread, armed, Timer, set_timer, Connection, Accepted, would_block, accept_fails, accepted,
  Received, ended, count,
}
use libjaypea.EpollServer.Clients.{
  value, touch, rearm, packet_limit, on_broadcast, on_readable, after_settime, disarm, send_all,
}
use libjaypea.EpollServer.Accept.{detailed, drop_client, connect, accept_loop, on_incoming}
use libjaypea.EpollServer.Pairs.{set-IsInverse}
use libjaypea.EpollServer.Sound.{
  IsPaired, IsSound, is_absent, Tracked, Keeps-IsSound, close_client-IsSound, send_all-Keeps,
}

-- A new descriptor is none that is open, and the timer of a connection is made and set.
abbrev pub AreFresh : List Accepted → Thread → Type 0
AreFresh [] t = Unit
AreFresh (would_block ∷ others) t = Unit
AreFresh (accept_fails ∷ others) t = Unit
AreFresh (accepted c ∷ others) t =
    (find c.fd t.client_to_timer ≡ none)
    × ((timer : ℕ) × (c.timer ≡ set_timer timer) × (find timer t.timer_to_client ≡ none))
    × AreFresh others (connect c.fd c.timer (detailed c t))

connect-IsPaired :
    (max_connections timer : ℕ) (c : Connection) (t : Thread)
    → IsPaired max_connections t
    → t.num_connections < max_connections
    → find c.fd t.client_to_timer ≡ none
    → find timer t.timer_to_client ≡ none
    → IsPaired max_connections (connect c.fd (set_timer timer) (detailed c t))
unfolding connect
connect-IsPaired max_connections timer c t p room new_fd new_timer = record {
  inverse = set-IsInverse c.fd timer t.client_to_timer t.timer_to_client p.inverse new_fd new_timer;
  distinct = set-IsDistinct c.fd timer t.client_to_timer p.distinct;
  counted = omega (arith, p.counted, size-set c.fd timer t.client_to_timer new_fd);
  bounded = omega arith;
}

drop_client-IsPaired :
    (max_connections : ℕ) (c : Connection) (t : Thread)
    → IsPaired max_connections t
    → IsPaired max_connections (drop_client c.fd (detailed c t))
drop_client-IsPaired max_connections c t p = record {
  inverse = p.inverse;
  distinct = p.distinct;
  counted = p.counted;
  bounded = p.bounded;
}

accept_loop-IsPaired :
    (max_connections : ℕ) (attempts : List Accepted) (t : Thread)
    → IsPaired max_connections t
    → AreFresh attempts t
    → IsPaired max_connections (accept_loop max_connections attempts t)
unfolding accept_loop
accept_loop-IsPaired max_connections [] t p h = p
accept_loop-IsPaired max_connections (would_block ∷ others) t p h = p
accept_loop-IsPaired max_connections (accept_fails ∷ others) t p h =
    elim (Bool-cases (ltb t.num_connections max_connections)) [
      | inl room ↦ rw room (record {
        inverse = p.inverse;
        distinct = p.distinct;
        counted = p.counted;
        bounded = p.bounded;
      })
      | inr full ↦ rw full p
    ]
accept_loop-IsPaired max_connections (accepted c ∷ others) t p
      (new_fd, (timer, made, new_timer), h) =
    elim (Bool-cases (ltb t.num_connections max_connections)) [
      | inr full ↦ rw full p
      | inl room ↦ elim (Bool-cases c.continuation_fails) [
        | inl bad ↦ rw (room, bad) (drop_client-IsPaired max_connections c t p)
        | inr good ↦ elim (Bool-cases c.add_fails) [
          | inl bad ↦ rw (room, good, bad) (drop_client-IsPaired max_connections c t p)
          | inr added ↦
              rw (room, good, added)
                (accept_loop-IsPaired max_connections others (connect c.fd c.timer (detailed c t))
                  (subst (λ (k : Timer). IsPaired max_connections (connect c.fd k (detailed c t)))
                    (sym made)
                    (connect-IsPaired max_connections timer c t p
                      ((ltb_iff t.num_connections max_connections).0 room) new_fd new_timer))
                  h)
        ]
      ]
    ]

pub on_incoming-IsSound :
    (max_connections : ℕ) (lock : Bool) (attempts : List Accepted) (t : Thread)
    → IsSound max_connections t
    → t.server ≡ armed
    → AreFresh attempts t
    → IsSound max_connections (on_incoming max_connections lock attempts t)
unfolding on_incoming
on_incoming-IsSound max_connections false attempts t s here h = record {
  paired = record {
    inverse = s.paired.inverse;
    distinct = s.paired.distinct;
    counted = s.paired.counted;
    bounded = s.paired.bounded;
  };
  watched = ap is_absent (sym here) ∙ s.watched;
}
on_incoming-IsSound max_connections true attempts t s here h =
    let p = accept_loop-IsPaired max_connections attempts t s.paired h in
    record {
      paired = record {
        inverse = p.inverse;
        distinct = p.distinct;
        counted = p.counted;
        bounded = p.bounded;
      };
      watched = ground arith;
    }

touch_tracked : (key : ℕ) (m : Table ℕ) {v : ℕ} → find key m ≡ some v → touch key m ≡ m
touch_tracked key m found =
    ap (λ (o : Option ℕ). elim o as (λ x. Table ℕ) [ none ↦ set key 0 m | some n ↦ m ]) found

rearm-IsSound :
    (max_connections fd : ℕ) (t : Thread)
    → IsSound max_connections t
    → IsSound max_connections (rearm fd t)
rearm-IsSound max_connections fd t s =
    Keeps-IsSound max_connections t (rearm fd t)
      (record { timers = refl; clients = refl; number = refl; watch = refl }) s

after_settime-IsSound :
    (max_connections fd timer : ℕ) (timer_is_set : Bool) (received : Received) (t : Thread)
    → max_connections < 2 ^ 64
    → IsSound max_connections t
    → find fd t.client_to_timer ≡ some timer
    → IsSound max_connections (after_settime max_connections fd timer timer_is_set received t)
after_settime-IsSound max_connections fd timer false received t small s found = s
after_settime-IsSound max_connections fd timer true ended t small s found =
    close_client-IsSound max_connections fd timer t small s found
after_settime-IsSound max_connections fd timer true (count n) t small s found =
    elim (Bool-cases (leb packet_limit n)) [
      | inl large ↦ rw large s
      | inr fits ↦ elim (Bool-cases (leb n 0)) [
        | inl nothing ↦ rw (fits, nothing) s
        | inr some_bytes ↦ rw (fits, some_bytes) (rearm-IsSound max_connections fd t s)
      ]
    ]

pub on_readable-IsSound :
    (max_connections fd : ℕ) (timer_is_set : Bool) (received : Received) (t : Thread)
    → max_connections < 2 ^ 64
    → IsSound max_connections t
    → Tracked fd t.client_to_timer
    → IsSound max_connections (on_readable max_connections fd timer_is_set received t)
unfolding on_readable
on_readable-IsSound max_connections fd timer_is_set received t small s (timer, found) =
    let t' = disarm fd t.client_to_timer t in
    let s' =
      Keeps-IsSound max_connections t t'
        (record { timers = refl; clients = refl; number = refl; watch = refl }) s in
    subst
      (λ (m : Table ℕ). IsSound max_connections (
        after_settime max_connections fd (value (find fd t.client_to_timer)) timer_is_set received
          (disarm fd m t)))
      (sym (touch_tracked fd t.client_to_timer found))
      (subst
        (λ (o : Option ℕ).
          IsSound max_connections
            (after_settime max_connections fd (value o) timer_is_set received t'))
        (sym found)
        (after_settime-IsSound max_connections fd timer timer_is_set received t' small s' found))

pub on_broadcast-IsSound :
    (max_connections : ℕ) (text : Option Bytes) (fails : ℕ → Bool) (t : Thread)
    → IsSound max_connections t
    → IsSound max_connections (on_broadcast text fails t)
unfolding on_broadcast
on_broadcast-IsSound max_connections none fails t s =
    Keeps-IsSound max_connections t (record t { undefined = true })
      (record { timers = refl; clients = refl; number = refl; watch = refl }) s
on_broadcast-IsSound max_connections (some text) fails t s =
    Keeps-IsSound max_connections t (send_all text fails t.client_to_timer t)
      (send_all-Keeps text fails t.client_to_timer t) s
