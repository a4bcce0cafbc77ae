-- ===== src/Json/Rounds.antt =====
-- What single rounds of the loop of `JsonObject::parse` do on the bytes that `escape` writes, and
-- on those between the parts of an object or an array.
use libjaypea.Base.{
  done, ℕ, zero, suc, ◌≤◌, ◌<◌, Bytes, [], ◌∷◌, ◌++◌, append_assoc, append-nil, ◌==◌, ◌||◌,
  if◌then◌else◌, ◌≡◌, refl, ◌∙◌, ap, false, true, Bool, ◌⊎◌, ◌+◌, length, length-append, arith,
  NoZero,
}
use libjaypea.Json.{
  JsonObject, json_object, JsonType, no_type, object, array, of_string, Fields, Items, end, nil,
}
use libjaypea.Json.Text.{escape_byte, escape_body, escape}
use libjaypea.Json.Cursor.{at}
use libjaypea.Json.Parse.{Scan, JsonObjectState, no_state, get_key, got_key, parse_loop}

-- The text without the bytes that `escape` writes as `\n`, `\r` and `\t`.
unfoldable pub strip : Bytes → Bytes
strip [] = []
strip (c ∷ cs) = if c == b'\n' || c == b'\r' || c == b'\t' then strip cs else c ∷ strip cs

abbrev pub gather : Bytes → ℕ → Bytes
gather ss c = if c == b'\n' || c == b'\r' || c == b'\t' then ss else ss ++ c ∷ []

-- The cursor's bytes behind it, after it has passed a text.
abbrev pub pass : Bytes → Bytes → Bytes
pass [] b = b
pass (c ∷ cs) b = pass cs (c ∷ b)

abbrev pub scan : JsonObject → Bytes → JsonObjectState → Bytes → Bytes → Scan
scan o ss st b r = record { this = o; ss = ss; obj_state = st; it = at b r }

module _ (f : ℕ) (ss : Bytes) (b : Bytes) (c : ℕ) (r : Bytes) (nz : (c == 0) ≡ false) where
  pub string_round :
      (st : JsonObjectState)
      → parse_loop (suc f) (scan (of_string []) ss st b (escape_byte c ++ r))
        ≡ parse_loop f (scan (of_string []) (gather ss c) st (pass (escape_byte c) b) r)
  unfolding parse_loop
  string_round st = ground arith

  key_round :
      (s : Bytes) (o : Fields) (a : Items)
      → parse_loop (suc f) (scan (json_object object s o a) ss get_key b (escape_byte c ++ r))
        ≡ parse_loop f
            (scan (json_object object s o a) (gather ss c) get_key (pass (escape_byte c) b) r)
  unfolding parse_loop
  key_round s o a = ground arith

pub gather-strip :
    (ss : Bytes) (c : ℕ) (cs : Bytes) → gather ss c ++ strip cs ≡ ss ++ strip (c ∷ cs)
unfolding strip
gather-strip ss c cs = ground (arith, append_assoc ss (c ∷ []) (strip cs))

pub one-le-escape_byte : (c : ℕ) (r : Bytes) → length r + 1 ≤ length (escape_byte c ++ r)
one-le-escape_byte c r = ground arith

-- From `m` with fuel `f` the loop comes to the text `r` with at most `n` rounds gone.
abbrev pub Moves : ℕ → ℕ → Scan → JsonObject → Bytes → JsonObjectState → Bytes → Type 0
Moves n f m o ss st r =
    (f' : ℕ) × (b : Bytes) × (f ≤ f' + n) × (parse_loop f m ≡ parse_loop f' (scan o ss st b r))

-- Inside a string: up to the closing quote.
string_rounds :
    (s : Bytes) (f : ℕ) (ss : Bytes) (st : JsonObjectState) (b r : Bytes)
    → NoZero s
    → length (escape_body s) < f
    → (b' : Bytes) × (parse_loop f (scan (of_string []) ss st b (escape_body s ++ b'"' ∷ r))
        ≡ done (of_string (ss ++ strip s), at (b'"' ∷ b') r))
string_rounds s zero ss st b r h l = absurd (omega arith)
string_rounds [] (suc f) ss st b r h l = (b, unfold parse_loop strip in rw append-nil)
string_rounds (c ∷ cs) (suc f) ss st b r (nz, h) l =
    let (b', e) =
      string_rounds cs f (gather ss c) st (pass (escape_byte c) b) r h
        (omega (arith, one-le-escape_byte c (escape_body cs))) in
    (
      b',
      rw (append_assoc (escape_byte c) (escape_body cs) (b'"' ∷ r)) (
          string_round f ss b c _ nz st
          ∙ e
          ∙ ap (λ (x : Bytes). done (of_string x, at (b'"' ∷ b') r)) (gather-strip ss c cs)),
    )

-- A whole string, from its opening quote.
pub parse_string :
    (s : Bytes) (f : ℕ) (b r : Bytes)
    → NoZero s
    → length (escape s) ≤ f
    → (b' : Bytes) × (parse_loop f
          (scan (json_object no_type [] end nil) [] no_state b (escape s ++ r))
        ≡ done (of_string (strip s), at (b'"' ∷ b') r))
unfolding escape
parse_string s zero b r h l = absurd (omega arith)
parse_string s (suc f) b r h l =
    let (b', e) =
      string_rounds s f [] no_state (b'"' ∷ b) r h
        (omega (arith, length-append (escape_body s) (b'"' ∷ []))) in
    (b', rw (append_assoc (escape_body s) (b'"' ∷ []) r) (unfold parse_loop in e))

module _ (s : Bytes) (o : Fields) (a : Items) where
  key_rounds :
      (k : Bytes) (f : ℕ) (ss b r : Bytes)
      → NoZero k
      → length (escape_body k) < f
      → Moves
          (length (escape_body k) + 1)
          f
          (scan (json_object object s o a) ss get_key b (escape_body k ++ b'"' ∷ r))
          (json_object object s o a)
          (ss ++ strip k)
          got_key
          r
  key_rounds k zero ss b r h l = absurd (omega arith)
  key_rounds [] (suc f) ss b r h l =
      (f, b'"' ∷ b, omega arith, unfold parse_loop strip in rw append-nil)
  key_rounds (c ∷ cs) (suc f) ss b r (nz, h) l =
      let (f', b', m, e) =
        key_rounds cs f (gather ss c) (pass (escape_byte c) b) r h
          (omega (arith, one-le-escape_byte c (escape_body cs))) in
      (
        f',
        b',
        omega (arith, one-le-escape_byte c (escape_body cs)),
        rw (append_assoc (escape_byte c) (escape_body cs) (b'"' ∷ r)) (
            key_round f ss b c _ nz s o a
            ∙ e
            ∙ ap (λ (x : Bytes). parse_loop f' (scan (json_object object s o a) x got_key b' r))
                (gather-strip ss c cs)),
      )

  -- The key of a member, from its opening quote to behind its closing one.
  pub parse_key :
      (k : Bytes) (f : ℕ) (b r : Bytes)
      → NoZero k
      → length (escape k) ≤ f
      → Moves
          (length (escape k))
          f
          (scan (json_object object s o a) [] no_state b (escape k ++ r))
          (json_object object s o a)
          (strip k)
          got_key
          r
  unfolding escape
  parse_key k zero b r h l = absurd (omega arith)
  parse_key k (suc f) b r h l =
      let (f', b', m, e) =
        key_rounds k f [] (b'"' ∷ b) r h
          (omega (arith, length-append (escape_body k) (b'"' ∷ []))) in
      (
        f',
        b',
        omega (arith, length-append (escape_body k) (b'"' ∷ [])),
        rw (append_assoc (escape_body k) (b'"' ∷ []) r) (unfold parse_loop in e),
      )

abbrev is_filler : ℕ → Bool
is_filler c = c == b',' || c == b'\n' || c == b'\t'

abbrev pub IsFiller : Bytes → Type 0
IsFiller [] = Unit
IsFiller (c ∷ cs) = (is_filler c ≡ true) × IsFiller cs

skip_round :
    (t : JsonType) (s : Bytes) (o : Fields) (a : Items) (f : ℕ) (b : Bytes) (c : ℕ) (r : Bytes)
    → (t ≡ object) ⊎ (t ≡ array)
    → is_filler c ≡ true
    → parse_loop (suc f) (scan (json_object t s o a) [] no_state b (c ∷ r))
      ≡ parse_loop f (scan (json_object t s o a) [] no_state (c ∷ b) r)
unfolding parse_loop
skip_round t s o a f b c r k h = ground arith

-- Commas, newlines and tabs between the parts of an object or an array.
pub skip :
    (t : JsonType) (s : Bytes) (o : Fields) (a : Items) (w : Bytes) (f : ℕ) (b r : Bytes)
    → (t ≡ object) ⊎ (t ≡ array)
    → IsFiller w
    → length w ≤ f
    → Moves
        (length w)
        f
        (scan (json_object t s o a) [] no_state b (w ++ r))
        (json_object t s o a)
        []
        no_state
        r
skip t s o a [] f b r k h l = (f, b, omega arith, refl)
skip t s o a (c ∷ w) zero b r k h l = absurd (omega arith)
skip t s o a (c ∷ w) (suc f) b r k (x, h) l =
    let (f', b', m, e) = skip t s o a w f (c ∷ b) r k h (omega arith) in
    (f', b', omega arith, skip_round t s o a f b c (w ++ r) k x ∙ e)
