-- ===== src/Util/Http/Faults.antt =====
-- A request whose query makes the JSON parser run for ever.
use libjaypea.Base.{ℕ, Bytes, Bool, not, ◌||◌, ◌==◌}
use libjaypea.Util.Http.Rounds.{All}

-- Bytes that stand for themselves in the name of a parameter.
abbrev query_byte : ℕ → Bool
query_byte c = not (c == 0 || c == b' ' || c == b'=')

abbrev pub IsParameter : Bytes → Type 0
IsParameter = All query_byte
