-- ===== src/Jph2/Tanks/Whole/Ticks.antt =====
-- No exception ends the threads of cpp-source/examples/jph2/tanks-wss.cpp, as long as the numbers
-- that players send are numbers.
use libjaypea.Base.{
  ℕ, Bytes, codes, [], ◌∷◌, List, true, Option, none, some, is_some, lookup, ◌≡◌, refl,
}
use libjaypea.Json.{JsonObject, Fields, end, field}
use libjaypea.Json.Access.{get_str}
use libjaypea.Jph2.Tanks.{
  Double, Tanks, Game, write_member, handle_events, on_disconnect, text_of, on_read, broadcast,
}
use libjaypea.Jph2.Tanks.Motion.{
  Moved, moved, value, first_char, second_char, and_then, write_moved, put_moved, move_from, move,
  move_all,
}
use libjaypea.Jph2.Tanks.Collision.{collide_all, tick, game_state}
use libjaypea.Jph2.Tanks.Whole.{
  Has, HasAll, Keeps, HasAll-Keeps, write_member-Keeps, get_str-some, is_some-insert, IsLocated,
  WholePlayer, AllWhole, AllWhole-mono,
}
use libjaypea.Jph2.Tanks.Whole.Messages.{
  IsWhole, GoesOn, IsNumber, handle_each-IsWhole, collide_all-IsWhole, on_disconnect-GoesOn,
  received-GoesOn,
}

-- A message arrives, a connection goes, or a tick is due.
pub data Happening : Type 0 where
  arrives : ℕ → JsonObject → Happening
  goes : ℕ → Happening
  ticks : Happening

-- A member was written, and all are kept.
abbrev pub Writes : JsonObject → Option JsonObject → Type 0
Writes o m = (p : JsonObject) × (m ≡ some p) × Keeps o p

then_write :
    (name text : Bytes) (o : JsonObject) (m : Option JsonObject)
    → Has name o
    → Writes o m
    → Writes o (and_then (write_member name text) m)
then_write name text o m h (p, e, k) =
    let (q, f, l) = write_member-Keeps name text p (k name h) in
    (q, rw e f, λ other there. l other (k other there))

module _ {ℓ} {R : Type ℓ} (ops : Double R) where
  write_moved-Writes :
      (input : Bytes) (m : Moved R) (o : JsonObject)
      → HasAll o
      → Writes o (write_moved ops input m o)
  write_moved-Writes input m o (i, x, y, s, r, ts) =
      then_write (codes "ts") (ops.to_string m.turn_speed) o _ ts (
        then_write (codes "r") (ops.to_string m.rotation) o _ r (
          then_write (codes "s") (ops.to_string m.speed) o _ s (
            then_write (codes "y") (ops.to_string m.location.1) o _ y (
              then_write (codes "x") (ops.to_string m.location.0) o _ x
                (write_member-Keeps (codes "i") input o i)))))

  -- A tank that is located stays so.
  abbrev KeepsLocated : Tanks R → Tanks R → Type 0
  KeepsLocated t u = (name : Bytes) → IsLocated name t → IsLocated name u

  abbrev Moves : Bytes → Tanks R → Option (JsonObject × Tanks R) → Type ℓ
  Moves name t r =
      (o : JsonObject) × (u : Tanks R) × (r ≡ some (o, u)) × HasAll o × KeepsLocated t u

  move_from-Moves :
      (beyond : ℕ) (name : Bytes) (o : JsonObject) (t : Tanks R) (input : Option Bytes)
      (at : Option (R × R))
      → is_some input ≡ true
      → is_some at ≡ true
      → HasAll o
      → Moves name t (move_from ops beyond name o t input at)
  move_from-Moves beyond name o t none at h k members = cc
  move_from-Moves beyond name o t (some input) none h k members = cc
  move_from-Moves beyond name o t (some input) (some at) h k members =
      let m =
        moved ops (first_char input) (second_char beyond input) (value ops (lookup name t.speeds))
          (value ops (lookup name t.turn_speeds)) (value ops (lookup name t.rotations)) at in
      let (p, e, kept) = write_moved-Writes input m o members in
      (
        p,
        put_moved ops name m t,
        rw e refl,
        HasAll-Keeps o p kept members,
        λ other there. is_some-insert name other m.location t.locations there,
      )

  move-Moves :
      (beyond : ℕ) (name : Bytes) (o : JsonObject) (t : Tanks R)
      → WholePlayer t name o
      → Moves name t (move ops beyond name o t)
  unfolding move
  move-Moves beyond name o t (at, members) =
      let (input, e) = get_str-some (codes "i") o members.0 in
      move_from-Moves beyond name o t (get_str (codes "i") o) (lookup name t.locations) (rw e refl)
        at members

  abbrev MovesAll : Tanks R → Option (Fields × Tanks R) → Type ℓ
  MovesAll t r =
      (players : Fields) × (u : Tanks R) × (r ≡ some (players, u))
      × AllWhole u players
      × KeepsLocated t u

  move_all-MovesAll :
      (beyond : ℕ) (players : Fields) (t : Tanks R)
      → AllWhole t players
      → MovesAll t (move_all ops beyond players t)
  unfolding move_all
  move_all-MovesAll beyond end t w = (end, t, refl, tt, λ name at. at)
  move_all-MovesAll beyond (field name o players) t (first, others) =
      let (p, u, e, members, kept) = move-Moves beyond name o t first in
      let (moved_players, v, f, whole, kept_on) =
        move_all-MovesAll beyond players u (AllWhole-mono t u players kept others) in
      (
        field name p moved_players,
        v,
        rw (e, f) refl,
        ((kept_on name (kept name first.0), members), whole),
        λ other at. kept_on other (kept other at),
      )

  tick-GoesOn : (beyond : ℕ) (g : Game R) → IsWhole g → GoesOn (tick ops beyond g)
  unfolding tick
  tick-GoesOn beyond g w =
      let h = handle_events g in
      let c = collide_all ops h.tanks.locations h.tanks.locations h in
      let started : IsWhole (record g { game_event_queue = [] }) = record {
        players = w.players;
        clients = w.clients;
      } in
      let whole =
        collide_all-IsWhole ops h.tanks.locations h.tanks.locations h
          (handle_each-IsWhole g.game_event_queue (record g { game_event_queue = [] }) started) in
      let (players, tanks, e, all_whole, kept) =
        move_all-MovesAll beyond c.players c.tanks whole.players in
      (
        broadcast (game_state ops players) (record c { players = players; tanks = tanks }),
        rw e refl,
        record { players = all_whole; clients = whole.clients },
      )

  unfoldable pub happen : ℕ → Happening → Game R → Option (Game R)
  happen beyond (arrives fd msg) g = on_read ops fd msg g
  happen beyond (goes fd) g = on_disconnect fd g
  happen beyond ticks g = tick ops beyond g

  unfoldable pub happen_all : ℕ → List Happening → Game R → Option (Game R)
  happen_all beyond [] g = some g
  happen_all beyond (h ∷ hs) g = and_then (happen_all beyond hs) (happen beyond h g)

  -- The texts for `x` and `y` in the messages that arrive are numbers.
  abbrev pub AllNumbers : List Happening → Type 0
  AllNumbers [] = Unit
  AllNumbers (arrives fd msg ∷ hs) =
      IsNumber ops (text_of (codes "x") msg)
      × IsNumber ops (text_of (codes "y") msg)
      × AllNumbers hs
  AllNumbers (goes fd ∷ hs) = AllNumbers hs
  AllNumbers (ticks ∷ hs) = AllNumbers hs

  on_read-GoesOn :
      (fd : ℕ) (msg : JsonObject) (g : Game R)
      → IsNumber ops (text_of (codes "x") msg)
      → IsNumber ops (text_of (codes "y") msg)
      → IsWhole g
      → GoesOn (on_read ops fd msg g)
  unfolding on_read
  on_read-GoesOn fd msg g x y w =
      received-GoesOn ops fd (text_of (codes "handle") msg) (text_of (codes "i") msg)
        (text_of (codes "announce") msg) (text_of (codes "x") msg) (text_of (codes "y") msg)
        (text_of (codes "color") msg) g x y w

  then_all :
      (beyond : ℕ) (hs : List Happening) (r : Option (Game R))
      → ((g : Game R) → IsWhole g → GoesOn (happen_all beyond hs g))
      → GoesOn r
      → GoesOn (and_then (happen_all beyond hs) r)
  then_all beyond hs r rest (g, e, w) = let (h, f, v) = rest g w in (h, rw e f, v)

  -- Whatever messages arrive, connections go and ticks are due: if the texts for `x` and `y` in
  -- the messages are numbers, no exception ends a thread of the game. Each player then has a
  -- location and all of its members, and each client a handle, as at the beginning.
  pub happen_all-GoesOn :
      (beyond : ℕ) (hs : List Happening) (g : Game R)
      → AllNumbers hs
      → IsWhole g
      → GoesOn (happen_all beyond hs g)
  unfolding happen_all happen
  happen_all-GoesOn beyond [] g n w = (g, refl, w)
  happen_all-GoesOn beyond (arrives fd msg ∷ hs) g (x, y, n) w =
      then_all beyond hs (on_read ops fd msg g) (λ h v. happen_all-GoesOn beyond hs h n v)
        (on_read-GoesOn fd msg g x y w)
  happen_all-GoesOn beyond (goes fd ∷ hs) g n w =
      then_all beyond hs (on_disconnect fd g) (λ h v. happen_all-GoesOn beyond hs h n v)
        (on_disconnect-GoesOn fd g w)
  happen_all-GoesOn beyond (ticks ∷ hs) g n w =
      then_all beyond hs (tick ops beyond g) (λ h v. happen_all-GoesOn beyond hs h n v)
        (tick-GoesOn beyond g w)
