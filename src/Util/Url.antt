-- ===== src/Util/Url.antt =====
-- `Util::url_encode` and `Util::url_decode` of cpp-source/util.cpp. A `char` is signed, as with the
-- compilers that the build uses on x86.
pub mod RoundTrip
use libjaypea.Base.{
  ℕ, zero, suc, ◌+◌, ◌-◌, ◌*◌, ◌/◌, ◌%◌, ◌^◌, Bytes, [], ◌∷◌, ◌++◌, Bool, true, false, ◌&&◌, ◌||◌,
  ltb, leb, ◌==◌, if◌then◌else◌, Option, none, some, c_str,
}

abbrev within : ℕ → ℕ → ℕ → Bool
within lo hi c = leb lo c && leb c hi

-- `isalnum` in the C locale.
abbrev is_alnum : ℕ → Bool
is_alnum c = within b'0' b'9' c || within b'A' b'Z' c || within b'a' b'z' c

-- The `unsigned int` that `%X` prints for a `char`: a negative one is extended by its sign.
abbrev promote : ℕ → ℕ
promote c = if ltb c 128 then c else c + (2 ^ 32 - 256)

abbrev hex_digit : ℕ → ℕ
hex_digit d = if ltb d 10 then b'0' + d else b'A' + (d - 10)

-- The digits of `n` in front of `acc`; eight rounds are enough for 32 bits.
hex_onto : ℕ → ℕ → Bytes → Bytes
hex_onto zero n acc = acc
hex_onto (suc f) n acc =
    let acc' = hex_digit (n % 16) ∷ acc in
    let rest = hex_onto f (n / 16) acc' in if n / 16 == 0 then acc' else rest

-- `sprintf("%X", c)`.
sprintf_hex : ℕ → Bytes
unfolding hex_onto
sprintf_hex c = hex_onto 8 (promote c) []

-- `ic < 16`, of a signed `ic`.
abbrev below_16 : ℕ → Bool
below_16 c = ltb c 16 || leb 128 c

unfoldable pub encode_byte : ℕ → Bytes
unfolding sprintf_hex
encode_byte c =
    if c == b' '
    then b'+' ∷ []
    else if is_alnum c || c == b'-' || c == b'_' || c == b'.' || c == b'~'
    then c ∷ []
    else if below_16 c
    then b'%' ∷ b'0' ∷ sprintf_hex c
    else b'%' ∷ sprintf_hex c

encode_loop : Bytes → Bytes
encode_loop [] = []
encode_loop (c ∷ cs) = encode_byte c ++ encode_loop cs

unfoldable pub url_encode : Bytes → Bytes
unfolding encode_loop
url_encode s = encode_loop (c_str s)

abbrev hex_value : ℕ → Option ℕ
hex_value c =
    if within b'0' b'9' c
    then some (c - b'0')
    else if within b'A' b'F' c
    then some (c - b'A' + 10)
    else if within b'a' b'f' c
    then some (c - b'a' + 10)
    else none

hex_rest : ℕ → Bytes → ℕ
hex_rest v [] = v
hex_rest v (c ∷ r) = elim (hex_value c) [ none ↦ v | some d ↦ hex_rest (v * 16 + d) r ]

hex_number : Bytes → Option ℕ
hex_number [] = none
hex_number (c ∷ r) = elim (hex_value c) [ none ↦ none | some v ↦ some (hex_rest v r) ]

-- After the sign: an optional `0x` and the digits.
hex_unsigned : Bytes → Option ℕ
hex_unsigned (c ∷ x ∷ r) =
    if c == b'0' && (x == b'x' || x == b'X') then hex_number r else hex_number (c ∷ x ∷ r)
hex_unsigned s = hex_number s

negate : Option ℕ → Option ℕ
negate none = none
negate (some v) = some ((2 ^ 32 - v % 2 ^ 32) % 2 ^ 32)

hex_signed : Bytes → Option ℕ
hex_signed [] = none
hex_signed (c ∷ r) =
    if c == b'-'
    then negate (hex_unsigned r)
    else if c == b'+'
    then hex_unsigned r
    else hex_unsigned (c ∷ r)

-- `sscanf(s, "%x", &ii)`: `none` leaves `ii` alone.
scan_hex : Bytes → Option ℕ
unfolding hex_rest hex_number hex_unsigned negate hex_signed
scan_hex [] = none
scan_hex (c ∷ r) =
    let rest = scan_hex r in if within 9 13 c || c == b' ' then rest else hex_signed (c ∷ r)

abbrev or_old : ℕ → Option ℕ → ℕ
or_old ii none = ii
or_old ii (some v) = v

abbrev plain : ℕ → ℕ
plain c = if c == b'+' then b' ' else c

-- The loop, on what is left of the text; `ii` keeps its value from round to round. Less than two
-- bytes behind a `%` end the loop.
unfoldable pub decode_loop : ℕ → Bytes → Bytes
unfolding scan_hex
decode_loop ii [] = []
decode_loop ii (c ∷ []) = if c == b'%' then (or_old ii (scan_hex []) % 256) ∷ [] else plain c ∷ []
decode_loop ii (c ∷ d ∷ []) = elim (c == b'%') [
  | true ↦ (or_old ii (scan_hex (d ∷ [])) % 256) ∷ []
  | false ↦ plain c ∷ decode_loop ii (d ∷ [])
]
decode_loop ii (c ∷ d ∷ e ∷ r) = elim (c == b'%') [
  | true ↦
      (or_old ii (scan_hex (d ∷ e ∷ [])) % 256) ∷ decode_loop (or_old ii (scan_hex (d ∷ e ∷ []))) r
  | false ↦ plain c ∷ decode_loop ii (d ∷ e ∷ r)
]

-- `ii` is not initialised: its first value is an argument.
unfoldable pub url_decode : ℕ → Bytes → Bytes
unfolding decode_loop
url_decode ii s = decode_loop ii s
