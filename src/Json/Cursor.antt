-- ===== src/Json/Cursor.antt =====
-- A `const char*` into a text with a terminating zero: the bytes behind it, last first, and those
-- from it on. `before` is the address in front of the text, which `return --it` makes of a text
-- with no bytes. The end of the list is the terminating zero.
use libjaypea.Base.{ℕ, Bytes, [], ◌∷◌, Option, none, some}

pub data Cursor : Type 0 where
  before : Bytes → Cursor
  at : Bytes → Bytes → Cursor

-- `*it`; `none` is a read outside the text.
abbrev pub peek : Cursor → Option ℕ
peek (before s) = none
peek (at b []) = some 0
peek (at b (c ∷ r)) = some c

-- `++it`; `none` leaves the text behind its terminating zero.
abbrev pub advance : Cursor → Option Cursor
advance (before s) = some (at [] s)
advance (at b []) = none
advance (at b (c ∷ r)) = some (at (c ∷ b) r)

-- `--it`.
abbrev pub retreat : Cursor → Option Cursor
retreat (before s) = none
retreat (at [] r) = some (before r)
retreat (at (c ∷ b) r) = some (at b (c ∷ r))
