-- ===== src/Util/Url/RoundTrip.antt =====
-- What `url_decode` makes of the output of `url_encode`.
use libjaypea.Base.{
  passes, pass-lt, ℕ, ◌+◌, ◌<◌, ◌≤◌, ◌-◌, Bytes, [], ◌∷◌, ◌++◌, Bool, true, false, not, ◌&&◌, ◌==◌,
  ==_iff, ◌≡◌, refl, ◌∙◌, ap, length, arith, c_str, NoZero, c_str-NoZero, append-nil, subst, Option,
  none, some,
}
use libjaypea.Util.Url.{
  encode_byte, encode_loop, url_encode, decode_loop, url_decode, or_old, plain, scan_hex,
}

-- The two forms of an encoded byte: one byte that is read back, or `%` and two digits.
abbrev IsForm : ℕ → Bytes → Type 0
IsForm c [] = ⊥
IsForm c (x ∷ []) = ((x == b'%') ≡ false) × (plain x ≡ c)
IsForm c (x ∷ h ∷ []) = ⊥
IsForm c (x ∷ h ∷ l ∷ []) = (x ≡ b'%') × (or_old 256 (scan_hex (h ∷ l ∷ [])) ≡ c)
IsForm c (x ∷ h ∷ l ∷ y ∷ r) = ⊥

abbrev is_form : ℕ → Bytes → Bool
is_form c [] = false
is_form c (x ∷ []) = not (x == b'%') && plain x == c
is_form c (x ∷ h ∷ []) = false
is_form c (x ∷ h ∷ l ∷ []) = x == b'%' && or_old 256 (scan_hex (h ∷ l ∷ [])) == c
is_form c (x ∷ h ∷ l ∷ y ∷ r) = false

is_form_sound : (c : ℕ) (s : Bytes) → is_form c s ≡ true → IsForm c s
is_form_sound c [] h = cc
is_form_sound c (x ∷ []) h = ground arith
is_form_sound c (x ∷ y ∷ []) h = cc
is_form_sound c (x ∷ y ∷ l ∷ []) h = ground arith
is_form_sound c (x ∷ y ∷ l ∷ z ∷ r) h = cc

table : passes (λ c. is_form c (encode_byte c)) 128 ≡ true
unfolding passes encode_byte scan_hex
table = refl

encode_byte-IsForm : (c : ℕ) → c < 128 → IsForm c (encode_byte c)
encode_byte-IsForm c h =
    is_form_sound c (encode_byte c) (pass-lt (λ c. is_form c (encode_byte c)) 128 c h table)

or_old_lem : (ii c : ℕ) (o : Option ℕ) → or_old 256 o ≡ c → c < 256 → or_old ii o ≡ c
or_old_lem ii c none e h = absurd (omega arith)
or_old_lem ii c (some v) e h = e

decode_loop-plain :
    (ii x : ℕ) (r : Bytes)
    → (x == b'%') ≡ false
    → decode_loop ii (x ∷ r) ≡ plain x ∷ decode_loop ii r
unfolding decode_loop
decode_loop-plain ii x [] h = rw h
decode_loop-plain ii x (d ∷ []) h = rw (h, decode_loop)
decode_loop-plain ii x (d ∷ e ∷ r) h = rw (h, decode_loop)

decode_loop-percent :
    (ii c h l : ℕ) (r : Bytes)
    → or_old ii (scan_hex (h ∷ l ∷ [])) ≡ c
    → c < 256
    → decode_loop ii (b'%' ∷ h ∷ l ∷ r) ≡ c ∷ decode_loop c r
unfolding decode_loop
decode_loop-percent ii c h l r e lt = rw e (ap (λ (x : ℕ). x ∷ decode_loop c r) (omega arith))

decode_loop-IsForm :
    (ii c : ℕ) (t r : Bytes)
    → IsForm c t
    → c < 256
    → (ii' : ℕ) × (decode_loop ii (t ++ r) ≡ c ∷ decode_loop ii' r)
decode_loop-IsForm ii c [] r h lt = absurd h
decode_loop-IsForm ii c (x ∷ []) r (n, e) lt =
    (ii, decode_loop-plain ii x r n ∙ ap (λ (y : ℕ). y ∷ decode_loop ii r) e)
decode_loop-IsForm ii c (x ∷ y ∷ []) r h lt = absurd h
decode_loop-IsForm ii c (x ∷ y ∷ l ∷ []) r (p, e) lt = (
  c,
  ap (λ (z : ℕ). decode_loop ii (z ∷ y ∷ l ∷ r)) p
      ∙ decode_loop-percent ii c y l r (or_old_lem ii c (scan_hex (y ∷ l ∷ [])) e lt) lt,
)
decode_loop-IsForm ii c (x ∷ y ∷ l ∷ z ∷ q) r h lt = absurd h

-- Bytes of ASCII texts, the zero byte excepted.
abbrev pub IsAscii : Bytes → Type 0
IsAscii [] = Unit
IsAscii (c ∷ cs) = (0 < c) × (c < 128) × IsAscii cs

IsAscii-NoZero : (s : Bytes) → IsAscii s → NoZero s
IsAscii-NoZero [] h = tt
IsAscii-NoZero (c ∷ cs) (p, q, h) = (ground arith, IsAscii-NoZero cs h)

decode_loop-encode_loop : (ii : ℕ) (s : Bytes) → IsAscii s → decode_loop ii (encode_loop s) ≡ s
unfolding encode_loop
decode_loop-encode_loop ii [] h = unfold decode_loop in refl
decode_loop-encode_loop ii (c ∷ cs) (p, q, h) =
    let (ii', e) =
      decode_loop-IsForm ii c (encode_byte c) (encode_loop cs) (encode_byte-IsForm c q)
        (omega arith) in
    e ∙ ap (◌∷◌ c) (decode_loop-encode_loop ii' cs h)

-- On ASCII texts with no zero byte `url_decode` undoes `url_encode`, whatever its variable `ii`
-- holds at first.
pub url_decode-url_encode : (ii : ℕ) (s : Bytes) → IsAscii s → url_decode ii (url_encode s) ≡ s
unfolding url_decode url_encode
url_decode-url_encode ii s h =
    rw (c_str-NoZero s (IsAscii-NoZero s h)) (decode_loop-encode_loop ii s h)

high_table : (ii : ℕ) → passes (λ c. length (url_decode ii (encode_byte (c + 128))) == 8) 128 ≡ true
unfolding passes encode_byte url_decode
high_table ii = refl

-- A byte from 128 on is encoded as ten bytes, of which `url_decode` makes eight.
pub url_decode-url_encode_high :
    (ii c : ℕ) → 128 ≤ c → c < 256 → length (url_decode ii (url_encode (c ∷ []))) ≡ 8
url_decode-url_encode_high ii c lo hi =
    let e : c - 128 + 128 ≡ c = omega arith in
    let k =
      pass-lt (λ c. length (url_decode ii (encode_byte (c + 128))) == 8) 128 (c - 128) (omega arith)
        (high_table ii) in
    let form : url_encode (c ∷ []) ≡ encode_byte c =
      unfold url_encode c_str in ground (arith, append-nil (encode_byte c)) in
    rw form
      ((==_iff _ _).0 (subst (λ (x : ℕ). (length (url_decode ii (encode_byte x)) == 8) ≡ true) e k))
