-- ===== src/Json/Parse.antt =====
-- `JsonObject::parse` of cpp-source/json.cpp: one step is one round of the loop, a nested object is
-- a call of the loop, and the rounds take fuel.
use libjaypea.Base.{
  ℕ, zero, suc, Bytes, [], ◌∷◌, ◌++◌, ◌==◌, ◌||◌, if◌then◌else◌, Option, none, some, Run, done,
  overrun, out_of_fuel,
}
use libjaypea.Json.{
  JsonType, no_type, string, object, array, JsonObject, blank, json_type, set_type, set_string,
  set_field, add_item,
}
use libjaypea.Json.Cursor.{Cursor, at, peek, advance, retreat}

pub data JsonObjectState : Type 0 where
  no_state get_key got_key get_value got_value : JsonObjectState

-- The object, `ss`, `objState` and `it`.
pub record Scan : Type 0 where
  pub this : JsonObject
  pub ss : Bytes
  pub obj_state : JsonObjectState
  pub it : Cursor

-- The four places where a nested object is parsed.
pub data Slot : Type 0 where
  array_string array_object array_array member : Slot

pub data Action : Type 0 where
  next : Scan → Action
  return : JsonObject → Cursor → Action
  nested : Slot → Scan → Action
  fault : Action

abbrev or_fault : Option Scan → Action
or_fault none = fault
or_fault (some m) = next m

abbrev move : Scan → Option Cursor → Option Scan
move m none = none
move m (some p) = some (record m { it = p })

-- `continue`.
abbrev go_on : Scan → Action
go_on m = or_fault (move m (advance m.it))

abbrev stop : JsonObject → Option Cursor → Action
stop o none = fault
stop o (some p) = return o p

abbrev push : ℕ → Scan → Scan
push c m = record m { ss = m.ss ++ c ∷ [] }

-- The tests behind the `switch`.
abbrev behind_in : JsonType → JsonObjectState → ℕ → Scan → Action
behind_in string st c m = go_on (push c m)
behind_in object get_key c m = go_on (push c m)
behind_in _ st c m = go_on m

abbrev behind : ℕ → Scan → Action
behind c m = behind_in (json_type m.this) m.obj_state c m

-- After the `++it` of `case '\\'`.
abbrev escaped : Option Scan → Action
escaped none = fault
escaped (some m) = elim (peek m.it) [
  | none ↦ fault
  | some c ↦ if c == b'n' || c == b'r' || c == b't' then go_on m else behind c m
]

abbrev quote_in : JsonType → JsonObjectState → Scan → Action
quote_in no_type st m = go_on (record m { this = set_type string m.this })
quote_in string st m = stop (set_string m.ss m.this) (advance m.it)
quote_in object no_state m = go_on (record m { obj_state = get_key })
quote_in object get_key m = go_on (record m { obj_state = got_key })
quote_in object get_value m = behind b'"' m
quote_in object got_key m = behind b'"' m
quote_in object got_value m = behind b'"' m
quote_in array st m = nested array_string m

abbrev brace_in : JsonType → Scan → Action
brace_in no_type m = go_on (record m { this = set_type object m.this })
brace_in array m = nested array_object m
brace_in _ m = behind b'{' m

abbrev end_brace_in : JsonType → JsonObjectState → Scan → Action
end_brace_in object no_state m = return m.this m.it
end_brace_in object st m = behind b'}' m
end_brace_in array st m = return m.this m.it
end_brace_in _ st m = behind b'}' m

abbrev bracket_in : JsonType → Scan → Action
bracket_in no_type m = go_on (record m { this = set_type array m.this })
bracket_in array m = nested array_array m
bracket_in _ m = behind b'[' m

abbrev end_bracket_in : JsonType → JsonObjectState → Scan → Action
end_bracket_in array st m = return m.this m.it
end_bracket_in object get_key m = behind b']' m
end_bracket_in object get_value m = behind b']' m
end_bracket_in object st m = return m.this m.it
end_bracket_in _ st m = behind b']' m

abbrev colon_in : JsonType → JsonObjectState → Scan → Action
colon_in object got_key m = nested member m
colon_in _ st m = behind b':' m

-- The loop's body at the byte `c`.
unfoldable pub switch : ℕ → Scan → Action
switch c m =
    if c == b'\\'
    then escaped (move m (advance m.it))
    else if c == b'"'
    then quote_in (json_type m.this) m.obj_state m
    else if c == b'{'
    then brace_in (json_type m.this) m
    else if c == b'}'
    then end_brace_in (json_type m.this) m.obj_state m
    else if c == b'['
    then bracket_in (json_type m.this) m
    else if c == b']'
    then end_bracket_in (json_type m.this) m.obj_state m
    else if c == b':'
    then colon_in (json_type m.this) m.obj_state m
    else behind c m

-- The loop's test and body; at the terminating zero, the `return --it` behind the loop.
unfoldable pub step : Scan → Action
unfolding switch
step m = elim (peek m.it) [
  | none ↦ fault
  | some c ↦ if c == 0 then stop m.this (retreat m.it) else switch c m
]

-- `it` after the nested call, up to the next round.
abbrev step_back : Option Cursor → Option Cursor
step_back none = none
step_back (some p) = advance p

abbrev member_at : JsonType → Cursor → Option Cursor
member_at object p = advance p
member_at array p = advance p
member_at _ p = step_back (retreat p)

-- What the loop does with the nested object `v` and the returned pointer.
unfoldable pub resume : Slot → Scan → JsonObject → Cursor → Action
resume array_string m v p =
    or_fault (move (record m { this = add_item v m.this }) (step_back (retreat p)))
resume array_object m v p = or_fault (move (record m { this = add_item v m.this }) (advance p))
resume array_array m v p = or_fault (move (record m { this = add_item v m.this }) (advance p))
resume member m v p = or_fault (
    move (record m { this = set_field m.ss v m.this; ss = []; obj_state = no_state })
      (member_at (json_type v) p))

-- The start of `parse` on the object `o` at `p`.
abbrev pub enter : JsonObject → Cursor → Scan
enter o p = record { this = o; ss = []; obj_state = no_state; it = p }

unfoldable pub parse_loop : ℕ → Scan → Run (JsonObject × Cursor)
unfolding step resume
parse_loop zero m = out_of_fuel
parse_loop (suc f) m = elim (step m) [
  | next m' ↦ parse_loop f m'
  | return o p ↦ done (o, p)
  | fault ↦ overrun
  | nested slot m' ↦ elim (parse_loop f (enter blank m'.it)) [
    | overrun ↦ overrun
    | out_of_fuel ↦ out_of_fuel
    | done (v, p) ↦ elim (resume slot m' v p) [ next m'' ↦ parse_loop f m'' | _ ↦ overrun ]
  ]
]

-- `o->parse(s.c_str())`.
unfoldable pub parse : ℕ → JsonObject → Bytes → Run (JsonObject × Cursor)
unfolding parse_loop
parse f o s = parse_loop f (enter o (at [] s))
