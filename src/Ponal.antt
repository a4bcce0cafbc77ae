-- ===== src/Ponal.antt =====
-- The key-value server cpp-source/examples/ponal-server.cpp.
pub mod Map
pub mod Deaf
use libjaypea.Base.{
  ℕ, ◌+◌, Bytes, codes, [], ◌∷◌, List, ◌==◌, Bool, true, false, not, ◌||◌, if◌then◌else◌, Option,
  none, some, Dict, lookup, insert, c_str, drop,
}
use libjaypea.Base.Tables.{Table, find, set}
use libjaypea.EpollServer.Clients.{value}
use libjaypea.Util.Replace.{strict_compare_inequal, differ}

pub record Ponal : Type 0 where
  pub values : Dict Bytes
  pub transaction : Table ℕ

abbrev pub cons_key : ℕ → Bytes × Bytes → Bytes × Bytes
cons_key c (key, value) = (c ∷ key, value)

-- The loop of `set_value`: the key ends in front of the first space, and the rest is the value.
unfoldable pub split : Bytes → Bytes × Bytes
split [] = ([], [])
split (c ∷ text) = let others = split text in if c == b' ' then ([], text) else cons_key c others

abbrev pub is_empty : Bytes → Bool
is_empty [] = true
is_empty (c ∷ text) = false

-- `set_value`: `none` for 1.
abbrev pub put_value : Bytes × Bytes → Dict Bytes → Option (Dict Bytes)
put_value (key, value) values =
    if is_empty key || is_empty value then none else some (insert key value values)

unfoldable pub set_value : Bytes → Dict Bytes → Option (Dict Bytes)
set_value key_and_value values = put_value (split key_and_value) values

unfoldable pub get_command_from_request : Bytes → Bytes
get_command_from_request [] = []
get_command_from_request (c ∷ request) =
    let rest = get_command_from_request request in if c == b' ' then [] else c ∷ rest

abbrev pub success : Bytes
success = codes "success"

abbrev pub failure : Bytes
failure = codes "failure"

abbrev pub begins : Bytes → Bytes → Bool
begins packet command = not (strict_compare_inequal packet command 4)

-- What the server answers, with its state; `none`: it returns `true` without an answer.
pub record Served : Type 0 where
  pub response : Option Bytes
  pub state : Ponal

abbrev pub served : Bytes → Ponal → Served
served response s = record { response = some response; state = s }

abbrev pub found : Option Bytes → Bytes
found none = failure
found (some value) = value

abbrev pub stored : Ponal → Option (Dict Bytes) → Served
stored s none = served failure s
stored s (some values) = served success (record s { values = values })

abbrev pub serve : Bytes → Ponal → Served
serve packet s =
    if begins packet (codes "get ")
    then served (found (lookup (drop 4 packet) s.values)) s
    else if begins packet (codes "set ")
    then stored s (set_value (drop 4 packet) s.values)
    else if begins packet (codes "exit")
    then record { response = none; state = s }
    else served failure s

abbrev pub on_connect : ℕ → Ponal → Ponal
on_connect fd s = record s { transaction = set fd 0 s.transaction }

abbrev pub bump : ℕ → Option Bytes → Ponal → Ponal
bump fd none s = s
bump fd (some response) s = record s {
  transaction = set fd (value (find fd s.transaction) + 1) s.transaction;
}

-- `on_read`, with whether its write fails: the texts for the connection are in `response`, and the
-- result is 1 for `true` and 0 for `false`.
abbrev pub result_of : Option Bytes → Bool → ℕ
result_of none fails = 1
result_of (some response) fails = if fails then 1 else 0

unfoldable pub on_read : ℕ → Bytes → Bool → Ponal → Served × ℕ
on_read fd packet fails s =
    let r = serve (c_str packet) s in
    (record r { state = bump fd r.response r.state }, result_of r.response fails)
