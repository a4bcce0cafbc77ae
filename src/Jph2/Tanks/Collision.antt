-- ===== src/Jph2/Tanks/Collision.antt =====
-- The collisions in a tick of cpp-source/examples/jph2/tanks-wss.cpp, and the whole tick.
use libjaypea.Base.{
  ℕ, Bytes, codes, [], ◌∷◌, List, map, Bool, true, false, ◌&&◌, ◌||◌, not, equal, if◌then◌else◌,
  Option, none, some, Dict,
}
use libjaypea.Json.{Fields, of_type, object, json_object, set_field, nil}
use libjaypea.Json.Stringify.{stringify}
use libjaypea.Jph2.Tanks.{Double, Tanks, Game, destroy, push_event, broadcast, handle_events}
use libjaypea.Jph2.Tanks.Motion.{move_all}

module _ {ℓ} {R : Type ℓ} (ops : Double R) where
  abbrev pub point : Bytes → Bytes → R × R
  point x y = (ops.literal x, ops.literal y)

  -- `collision_edges["tank"]`.
  abbrev pub tank_edges : List (R × R)
  tank_edges =
      point (codes "-25") (codes "-15")
      ∷ point (codes "25") (codes "-15")
      ∷ point (codes "25") (codes "15")
      ∷ point (codes "-15") (codes "15")
      ∷ []

  abbrev pub edges_at : R × R → List (R × R)
  edges_at at = map (λ point. (ops.plus at.0 point.0, ops.plus at.1 point.1)) tank_edges

  abbrev pub normal : R × R → R × R → R × R
  normal p q = (ops.minus q.1 p.1, ops.minus p.0 q.0)

  -- The normals of the edges; the last edge leads to the first point.
  abbrev pub normals : R × R → List (R × R) → List (R × R)
  normals first [] = []
  normals first (p ∷ []) = normal p first ∷ []
  normals first (p ∷ q ∷ points) = normal p q ∷ normals first (q ∷ points)

  abbrev pub normals_of : List (R × R) → List (R × R)
  normals_of [] = []
  normals_of (p ∷ points) = normals p (p ∷ points)

  abbrev pub projected : R × R → R × R → R
  projected axis p = ops.plus (ops.times axis.0 p.0) (ops.times axis.1 p.1)

  abbrev pub lowest : R × R → R → List (R × R) → R
  lowest axis best [] = best
  lowest axis best (p ∷ points) =
      lowest axis
        (if ops.is_nan best || ops.less (projected axis p) best then projected axis p else best)
        points

  abbrev pub highest : R × R → R → List (R × R) → R
  highest axis best [] = best
  highest axis best (p ∷ points) =
      highest axis
        (if ops.is_nan best || ops.less best (projected axis p) then projected axis p else best)
        points

  abbrev pub is_apart : List (R × R) → List (R × R) → R × R → Bool
  is_apart a b axis =
      ops.less (highest axis ops.nan a) (lowest axis ops.nan b)
      || ops.less (highest axis ops.nan b) (lowest axis ops.nan a)

  abbrev pub overlap : List (R × R) → List (R × R) → List (R × R) → Bool
  overlap a b [] = true
  overlap a b (axis ∷ axes) = not (is_apart a b axis) && overlap a b axes

  abbrev pub collides : R × R → R × R → Bool
  collides at other = overlap (edges_at at) (edges_at other) (normals_of (edges_at at))

  -- The inner loop, over the other tanks.
  unfoldable pub collide_with : Bytes → R × R → Dict (R × R) → Game R → Game R
  collide_with name at [] g = g
  collide_with name at ((other, there) ∷ others) g =
      collide_with name at others
        (if not (equal name other) && collides at there then push_event (destroy name) g else g)

  unfoldable pub collide_all : Dict (R × R) → Dict (R × R) → Game R → Game R
  collide_all [] all g = g
  collide_all ((name, at) ∷ others) all g = collide_all others all (collide_with name at all g)

  abbrev pub game_state : Fields → Bytes
  game_state players =
      stringify false 0
        (set_field (codes "players") (json_object object [] players nil) (of_type object))

  abbrev pub shown : Game R → Option (Fields × Tanks R) → Option (Game R)
  shown g none = none
  shown g (some (players, tanks)) =
      some (broadcast (game_state players) (record g { players = players; tanks = tanks }))

  -- One round of the loop of `tick_thread`.
  unfoldable pub tick : ℕ → Game R → Option (Game R)
  tick beyond g =
      let h = handle_events g in
      let c = collide_all h.tanks.locations h.tanks.locations h in
      shown c (move_all ops beyond c.players c.tanks)
