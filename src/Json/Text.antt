-- ===== src/Json/Text.antt =====
-- `JsonObject::escape` and `JsonObject::deescape` of cpp-source/json.cpp.
use libjaypea.Base.{
  ℕ, Bytes, [], ◌∷◌, ◌++◌, append_assoc, ◌==◌, if◌then◌else◌, ◌&&◌, Option, none, some, ◌≡◌, refl,
  false, arith, ap, ◌∙◌,
}

abbrev pub escape_byte : ℕ → Bytes
escape_byte c =
    if c == b'\n'
    then b'\\' ∷ b'n' ∷ []
    else if c == b'\r'
    then b'\\' ∷ b'r' ∷ []
    else if c == b'\t'
    then b'\\' ∷ b't' ∷ []
    else if c == b'"'
    then b'\\' ∷ b'"' ∷ []
    else if c == b'\\'
    then b'\\' ∷ b'\\' ∷ []
    else c ∷ []

-- The loop of `escape`, between the two quotes.
abbrev pub escape_body : Bytes → Bytes
escape_body [] = []
escape_body (c ∷ cs) = escape_byte c ++ escape_body cs

unfoldable pub escape : Bytes → Bytes
escape s = b'"' ∷ (escape_body s ++ b'"' ∷ [])

-- What the pair of bytes `value[i]`, `value[i + 1]` stands for.
abbrev unescape : ℕ → ℕ → Option ℕ
unescape c d =
    if c == b'\\' && d == b'n'
    then some b'\n'
    else if c == b'\\' && d == b'r'
    then some b'\r'
    else if c == b'\\' && d == b't'
    then some b'\t'
    else if c == b'\\' && d == b'"'
    then some b'"'
    else if c == b'\\' && d == b'\\'
    then some b'\\'
    else none

-- At the last byte `value[i + 1]` is the terminating zero, which no pair has.
unfoldable pub deescape : Bytes → Bytes
deescape [] = []
deescape (c ∷ []) = c ∷ []
deescape (c ∷ d ∷ r) = elim (unescape c d) [ some x ↦ x ∷ deescape r | none ↦ c ∷ deescape (d ∷ r) ]

deescape_plain : (c : ℕ) (r : Bytes) → (c == b'\\') ≡ false → deescape (c ∷ r) ≡ c ∷ deescape r
unfolding deescape
deescape_plain c [] h = refl
deescape_plain c (d ∷ r) h = ground arith

deescape-escape_byte : (c : ℕ) (r : Bytes) → deescape (escape_byte c ++ r) ≡ c ∷ deescape r
unfolding deescape
deescape-escape_byte c r = ground (arith, deescape_plain c r)

pub deescape-escape_body : (s r : Bytes) → deescape (escape_body s ++ r) ≡ s ++ deescape r
deescape-escape_body [] r = refl
deescape-escape_body (c ∷ cs) r =
    rw (append_assoc (escape_byte c) (escape_body cs) r)
      (deescape-escape_byte c _ ∙ ap (◌∷◌ c) (deescape-escape_body cs r))

-- `deescape` undoes `escape` on every text, up to the two quotes that `escape` adds.
pub deescape-escape : (s : Bytes) → deescape (escape s) ≡ b'"' ∷ (s ++ b'"' ∷ [])
unfolding escape
deescape-escape s =
    deescape_plain b'"' _ refl
    ∙ ap (◌∷◌ b'"') (deescape-escape_body s (b'"' ∷ []) ∙ ap (λ (r : Bytes). s ++ r) last)
  where
    last : deescape (b'"' ∷ []) ≡ b'"' ∷ []
    last = unfold deescape in refl
