-- ===== src/Util/Replace.antt =====
-- The text helpers of cpp-source/util.cpp: `strict_compare_inequal`, `startsWith`, `endsWith` and
-- `replace_all`.
pub mod Laws
use libjaypea.Base.{
  ℕ, zero, suc, Bytes, [], ◌∷◌, ◌++◌, Bool, true, false, not, ◌&&◌, ◌==◌, if◌then◌else◌, Option,
  none, some, length, leb, equal, take, drop, ◌-◌,
}

-- The loop of `strict_compare_inequal` over a count of bytes that is not 0, on texts with their
-- terminating zeros. Behind the zero nothing is read by the callers: two texts that agree up to a
-- zero end there.
unfoldable pub differ : Bytes → Bytes → ℕ → Bool
differ first second zero = false
differ [] [] (suc n) = false
differ [] (d ∷ ds) (suc n) = true
differ (c ∷ cs) [] (suc n) = true
differ (c ∷ cs) (d ∷ ds) (suc n) = elim (c == d) [ true ↦ differ cs ds n | false ↦ true ]

-- Without a count, the loop ends at the first difference or zero, and says `true` at either.
unfoldable pub strict_compare_inequal : Bytes → Bytes → ℕ → Bool
strict_compare_inequal first second zero = true
strict_compare_inequal first second (suc n) = differ first second (suc n)

unfoldable pub starts_with : Bytes → Bytes → Bool
starts_with str prefix = leb (length prefix) (length str) && equal (take (length prefix) str) prefix

unfoldable pub ends_with : Bytes → Bytes → Bool
ends_with str suffix =
    leb (length suffix) (length str) && equal (drop (length str - length suffix) str) suffix

-- What follows `from`, if the text begins with it.
unfoldable pub behind : Bytes → Bytes → Option Bytes
behind [] s = some s
behind (c ∷ from) [] = none
behind (c ∷ from) (d ∷ s) = elim (c == d) [ true ↦ behind from s | false ↦ none ]

abbrev pub in_front : ℕ → Option (Bytes × Bytes) → Option (Bytes × Bytes)
in_front c none = none
in_front c (some (pre, post)) = some (c ∷ pre, post)

-- `find`: the text in front of the first occurrence, and the text behind it.
unfoldable pub find : Bytes → Bytes → Option (Bytes × Bytes)
find from [] = elim (behind from []) [ some post ↦ some ([], post) | none ↦ none ]
find from (c ∷ s) = elim (behind from (c ∷ s)) [
  | some post ↦ some ([], post)
  | none ↦ in_front c (find from s)
]

-- The loop of `replace_all`: `source` is `passed ++ rest` and `position` the length of `passed`.
-- `none` means that the fuel ran out.
unfoldable pub replace_loop : ℕ → Bytes → Bytes → Bytes → Bytes → Option Bytes
replace_loop zero from to passed rest = none
replace_loop (suc f) from to passed rest = elim (find from rest) [
  | none ↦ some (passed ++ rest)
  | some (pre, post) ↦ replace_loop f from to (passed ++ (pre ++ to)) post
]

unfoldable pub replace_all : ℕ → Bytes → Bytes → Bytes → Option Bytes
replace_all f source from to = replace_loop f from to [] source
