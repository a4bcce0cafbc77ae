-- ===== src/Jph2/Tanks.antt =====
-- The game of cpp-source/examples/jph2/tanks-wss.cpp: its state, the messages of the players, and
-- the tick of its simulation. Both threads share the state without a lock; here they take turns.
-- The arithmetic of `double` is a parameter; the clock that spaces the ticks is left out, and the
-- `fd` of an event, which nothing reads.
pub mod Motion
pub mod Collision
pub mod Whole
use libjaypea.Base.{
  ℕ, Bytes, codes, [], ◌∷◌, ◌++◌, List, map, Bool, true, false, ◌&&◌, not, if◌then◌else◌, Option,
  none, some, Dict, is_some, lookup, insert, erase,
}
use libjaypea.Base.Tables.{Table, find, set, remove}
use libjaypea.Json.{
  JsonObject, Fields, end, field, string, object, of_string, of_type, set_string, set_field,
  object_values, get, put, drop,
}
use libjaypea.Json.Access.{get_str, has_obj}

-- The operations of `double`; `literal` is a number of the source, and `stod` may throw.
pub record Double {ℓ} (R : Type ℓ) : Type ℓ where
  pub literal : Bytes → R
  pub plus : R → R → R
  pub minus : R → R → R
  pub times : R → R → R
  pub negate : R → R
  pub less : R → R → Bool
  pub at_most : R → R → Bool
  pub abs : R → R
  pub cos : R → R
  pub sin : R → R
  pub nan : R
  pub is_nan : R → Bool
  pub stod : Bytes → Option R
  pub to_string : R → Bytes

pub data Event : Type 0 where
  connect disconnect destroy : Bytes → Event

pub record Tanks {ℓ} (R : Type ℓ) : Type ℓ where
  pub locations : Dict (R × R)
  pub rotations : Dict R
  pub speeds : Dict R
  pub turn_speeds : Dict R

-- `players` has the members of `game_state["players"]`, `sent` what was sent to which connection.
pub record Game {ℓ} (R : Type ℓ) : Type ℓ where
  pub client_details : Table JsonObject
  pub tanks : Tanks R
  pub players : Fields
  pub game_event_queue : List Event
  pub sent : List (ℕ × Bytes)

abbrev pub tank_of : Bytes → Bytes
tank_of player = player ++ codes "tank"

-- `objectValues[name]->stringValue = text`; `none`: there is no such member.
abbrev pub with_text : Bytes → Bytes → JsonObject → Option JsonObject → Option JsonObject
with_text name text o none = none
with_text name text o (some member) = some (set_field name (set_string text member) o)

abbrev pub write_member : Bytes → Bytes → JsonObject → Option JsonObject
write_member name text o = with_text name text o (get name (object_values o))

abbrev pub announcement : Bytes → Bytes → Bytes
announcement what player = codes "{\"" ++ (what ++ (codes "\":\"" ++ (player ++ codes "\"}")))

abbrev pub handle_of : Option JsonObject → Option Bytes
handle_of none = none
handle_of (some details) = get_str (codes "handle") details

abbrev pub details : Bytes → Option Bytes → JsonObject
details handle none = set_field (codes "handle") (of_string handle) (of_type object)
details handle (some color) =
    set_field (codes "color") (of_string color)
      (set_field (codes "handle") (of_string handle) (of_type object))

abbrev pub new_player : Bytes → Bytes → JsonObject
new_player x y = set_field (codes "i") (of_string (codes "nn")) (
    set_field (codes "ts") (of_string (codes "0")) (
      set_field (codes "r") (of_string (codes "0")) (
        set_field (codes "s") (of_string (codes "0")) (
          set_field (codes "y") (of_string y)
            (set_field (codes "x") (of_string x) (of_type object))))))

-- `emplace`, which keeps a value that is there.
abbrev pub emplace {κ} : {A : Type κ} → Bytes → A → Dict A → Dict A
emplace name value d = if is_some (lookup name d) then d else insert name value d

-- The texts of a message that `HasObj` finds.
abbrev pub text_if : Bool → Option Bytes → Option Bytes
text_if true text = text
text_if false text = none

abbrev pub text_of : Bytes → JsonObject → Option Bytes
text_of name o = text_if (has_obj name string o) (get_str name o)

module _ {ℓ} {R : Type ℓ} where
  abbrev pub new_game : Game R
  new_game = record {
    client_details = [];
    tanks = record { locations = []; rotations = []; speeds = []; turn_speeds = [] };
    players = end;
    game_event_queue = [];
    sent = [];
  }

  abbrev pub broadcast : Bytes → Game R → Game R
  broadcast text g = record g { sent = g.sent ++ map (λ c. (c.0, text)) g.client_details }

  abbrev pub erase_tank : Bytes → Tanks R → Tanks R
  erase_tank name t = record {
    locations = erase name t.locations;
    rotations = erase name t.rotations;
    speeds = erase name t.speeds;
    turn_speeds = erase name t.turn_speeds;
  }

  abbrev pub remove_tank : Bytes → Game R → Game R
  remove_tank name g = record g { tanks = erase_tank name g.tanks; players = drop name g.players }

  unfoldable pub handle_event : Event → Game R → Game R
  handle_event (connect player) g = broadcast (announcement (codes "connect") player) g
  handle_event (disconnect player) g =
      remove_tank (tank_of player) (broadcast (announcement (codes "disconnect") player) g)
  handle_event (destroy player) g =
      remove_tank player (broadcast (announcement (codes "explode") player) g)

  abbrev pub handle_each : List Event → Game R → Game R
  handle_each [] g = g
  handle_each (event ∷ events) g = handle_each events (handle_event event g)

  -- The loop that empties the queue: no event adds another.
  abbrev pub handle_events : Game R → Game R
  handle_events g = handle_each g.game_event_queue (record g { game_event_queue = [] })

  abbrev pub push_event : Event → Game R → Game R
  push_event event g = record g { game_event_queue = g.game_event_queue ++ event ∷ [] }

  abbrev pub forget : ℕ → Option JsonObject → Option Bytes → Game R → Option (Game R)
  forget fd none handle g = some g
  forget fd (some details) none g = none
  forget fd (some details) (some handle) g =
      some
        (record (push_event (disconnect handle) g) { client_details = remove fd g.client_details })

  -- `on_disconnect`. `none`, here and below, is an exception that nothing catches.
  unfoldable pub on_disconnect : ℕ → Game R → Option (Game R)
  on_disconnect fd g = forget fd (find fd g.client_details) (handle_of (find fd g.client_details)) g

  abbrev pub with_player : Bytes → Option JsonObject → Game R → Option (Game R)
  with_player name none g = none
  with_player name (some player) g = some (record g { players = put name player g.players })

  abbrev pub steer : Bytes → Bytes → Option JsonObject → Game R → Option (Game R)
  steer name input none g = some g
  steer name input (some player) g = with_player name (write_member (codes "i") input player) g

  abbrev pub announce : ℕ → Bytes → Option Bytes → Game R → Game R
  announce fd handle color g =
      if is_some (find fd g.client_details)
      then g
      else push_event (connect handle)
          (record g { client_details = set fd (details handle color) g.client_details })

  module _ (ops : Double R) where
    abbrev pub new_tank : Bytes → R × R → Tanks R → Tanks R
    new_tank name at t = record {
      locations = emplace name at t.locations;
      rotations = emplace name (ops.literal (codes "0.0")) t.rotations;
      speeds = emplace name (ops.literal (codes "0.0")) t.speeds;
      turn_speeds = emplace name (ops.literal (codes "0.0")) t.turn_speeds;
    }

    abbrev pub spawn_at : Bytes → Bytes → Bytes → Option R → Option R → Game R → Option (Game R)
    spawn_at name x y none _ g = none
    spawn_at name x y (some a) none g = none
    spawn_at name x y (some a) (some b) g = some (record g {
      tanks = new_tank name (a, b) g.tanks;
      players = put name (new_player x y) g.players;
    })

    abbrev pub spawn : Bytes → Bytes → Bytes → Game R → Option (Game R)
    spawn name x y g =
        if is_some (get name g.players)
        then some g
        else spawn_at name x y (ops.stod x) (ops.stod y) g

    -- By the texts for `handle`, `i`, `announce`, `x` and `y`.
    abbrev pub received :
        ℕ
        → Option Bytes
        → Option Bytes
        → Option Bytes
        → Option Bytes
        → Option Bytes
        → Option Bytes
        → Game R
        → Option (Game R)
    received fd (some handle) (some i) announced x y color g =
        steer (tank_of handle) i (get (tank_of handle) g.players) g
    received fd handle none (some announced) x y color g = some (announce fd announced color g)
    received fd none (some i) (some announced) x y color g = some (announce fd announced color g)
    received fd (some handle) none none (some x) (some y) color g = spawn (tank_of handle) x y g
    received fd _ _ _ _ _ color g = some g

    -- `on_read`, of a message that was parsed.
    unfoldable pub on_read : ℕ → JsonObject → Game R → Option (Game R)
    on_read fd msg g =
        received fd (text_of (codes "handle") msg) (text_of (codes "i") msg)
          (text_of (codes "announce") msg) (text_of (codes "x") msg) (text_of (codes "y") msg)
          (text_of (codes "color") msg) g
