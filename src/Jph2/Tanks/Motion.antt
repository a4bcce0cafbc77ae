-- ===== src/Jph2/Tanks/Motion.antt =====
-- The movement of the tanks in a tick of cpp-source/examples/jph2/tanks-wss.cpp.
use libjaypea.Base.{
  ℕ, Bytes, codes, [], ◌∷◌, ◌==◌, if◌then◌else◌, Option, none, some, lookup, insert,
}
use libjaypea.Json.{JsonObject, Fields, end, field}
use libjaypea.Json.Access.{get_str}
use libjaypea.Jph2.Tanks.{Double, Tanks, write_member}

-- `text[0]`, which is zero at the end of the text.
abbrev pub first_char : Bytes → ℕ
first_char [] = 0
first_char (c ∷ cs) = c

-- `text[1]`; behind the end of an empty text stands what `beyond` says.
abbrev pub second_char : ℕ → Bytes → ℕ
second_char beyond [] = beyond
second_char beyond (c ∷ cs) = first_char cs

abbrev pub and_then {ℓ κ} : {A : Type ℓ} {B : Type κ} → (A → Option B) → Option A → Option B
and_then f none = none
and_then f (some a) = f a

-- The values that a tank gets: its speed, its turning speed, its rotation and its location.
pub record Moved {ℓ} (R : Type ℓ) : Type ℓ where
  pub speed : R
  pub turn_speed : R
  pub rotation : R
  pub location : R × R

module _ {ℓ} {R : Type ℓ} (ops : Double R) where
  abbrev pub max_speed : R
  max_speed = ops.literal (codes "10.0")

  abbrev pub acceleration : R
  acceleration = ops.literal (codes "0.05")

  abbrev pub max_turn_speed : R
  max_turn_speed = ops.literal (codes "0.05")

  abbrev pub turn_acceleration : R
  turn_acceleration = ops.literal (codes "0.0005")

  abbrev pub none_yet : R
  none_yet = ops.literal (codes "0")

  -- `m[name]`, which puts 0 under a missing key.
  abbrev pub value : Option R → R
  value none = ops.literal (codes "0")
  value (some r) = r

  abbrev pub new_speed : ℕ → R → R
  new_speed direction v =
      if direction == b'f'
      then (if ops.less v max_speed then ops.plus v acceleration else v)
      else if direction == b'b'
      then (if ops.less (ops.negate max_speed) v then ops.minus v acceleration else v)
      else if ops.at_most (ops.abs v) acceleration
      then none_yet
      else if ops.less none_yet v
      then ops.minus v acceleration
      else if ops.less v none_yet
      then ops.plus v acceleration
      else v

  abbrev pub new_turn_speed : ℕ → R → R
  new_turn_speed turn v =
      if turn == b'l'
      then (if ops.less v max_turn_speed then ops.plus v turn_acceleration else v)
      else if turn == b'r'
      then (if ops.less v max_turn_speed then ops.plus v turn_acceleration else v)
      else if ops.at_most v turn_acceleration
      then none_yet
      else if ops.less none_yet v
      then ops.minus v turn_acceleration
      else v

  abbrev pub new_rotation : ℕ → R → R → R
  new_rotation turn turn_speed v =
      if turn == b'l'
      then ops.plus v turn_speed
      else if turn == b'r'
      then ops.minus v turn_speed
      else v

  abbrev pub new_location : R → R → R × R → R × R
  new_location speed rotation (x, y) = (
    ops.plus x (ops.times speed (ops.cos rotation)),
    ops.plus y (ops.times (ops.times speed (ops.literal (codes "-1"))) (ops.sin rotation)),
  )

  abbrev pub moved : ℕ → ℕ → R → R → R → R × R → Moved R
  moved direction turn speed turn_speed rotation location =
      let v = new_speed direction speed in
      let t = new_turn_speed turn turn_speed in
      let r = new_rotation turn t rotation in
      record { speed = v; turn_speed = t; rotation = r; location = new_location v r location }

  abbrev pub put_moved : Bytes → Moved R → Tanks R → Tanks R
  put_moved name m t = record {
    locations = insert name m.location t.locations;
    rotations = insert name m.rotation t.rotations;
    speeds = insert name m.speed t.speeds;
    turn_speeds = insert name m.turn_speed t.turn_speeds;
  }

  -- The six members, one after the other.
  abbrev pub write_moved : Bytes → Moved R → JsonObject → Option JsonObject
  write_moved input m o = and_then (write_member (codes "ts") (ops.to_string m.turn_speed)) (
      and_then (write_member (codes "r") (ops.to_string m.rotation)) (
        and_then (write_member (codes "s") (ops.to_string m.speed)) (
          and_then (write_member (codes "y") (ops.to_string m.location.1)) (
            and_then (write_member (codes "x") (ops.to_string m.location.0))
              (write_member (codes "i") input o)))))

  abbrev pub placed : Bytes → Moved R → Tanks R → Option JsonObject → Option (JsonObject × Tanks R)
  placed name m t none = none
  placed name m t (some o) = some (o, put_moved name m t)

  -- By the text for `i`, and what `locations.at` finds: each may be an exception.
  abbrev pub move_from :
      ℕ
      → Bytes
      → JsonObject
      → Tanks R
      → Option Bytes
      → Option (R × R)
      → Option (JsonObject × Tanks R)
  move_from beyond name o t none location = none
  move_from beyond name o t (some input) none = none
  move_from beyond name o t (some input) (some location) =
      let m =
        moved (first_char input) (second_char beyond input) (value (lookup name t.speeds))
          (value (lookup name t.turn_speeds)) (value (lookup name t.rotations)) location in
      placed name m t (write_moved input m o)

  unfoldable pub move : ℕ → Bytes → JsonObject → Tanks R → Option (JsonObject × Tanks R)
  move beyond name o t = move_from beyond name o t (get_str (codes "i") o) (lookup name t.locations)

  abbrev pub with_field : Bytes → JsonObject → Option (Fields × Tanks R) → Option (Fields × Tanks R)
  with_field name o none = none
  with_field name o (some (fields, t)) = some (field name o fields, t)

  abbrev pub then_others :
      Bytes
      → (Tanks R → Option (Fields × Tanks R))
      → Option (JsonObject × Tanks R)
      → Option (Fields × Tanks R)
  then_others name others none = none
  then_others name others (some (o, t)) = with_field name o (others t)

  -- The loop over the players.
  unfoldable pub move_all : ℕ → Fields → Tanks R → Option (Fields × Tanks R)
  move_all beyond end t = some (end, t)
  move_all beyond (field name o players) t =
      then_others name (move_all beyond players) (move beyond name o t)
