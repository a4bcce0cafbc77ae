-- ===== src/Util/Http/Rounds.antt =====
-- Rounds of the loop of `parse_http_request` on the parts of a request.
use libjaypea.Base.{
  ℕ, zero, suc, ◌+◌, ◌≤◌, Bytes, [], ◌∷◌, ◌++◌, append_assoc, append-nil, Bool, true, false, not,
  ◌||◌, ◌==◌, ◌≡◌, ◌≢◌, sym, ◌⊎◌, inl, inr, refl, ◌∙◌, ap, codes, length, arith,
}
use libjaypea.Json.{JsonObject}
use libjaypea.Util.Http.{Request, round, http_loop, set_text, store_header}

abbrev pub request : JsonObject → ℕ → Bytes → Bytes → Request
request o st k v = record { obj = o; state = st; new_key = k; new_value = v; exit = false }

-- Bytes that stand for themselves in a route, in the rest of the first line and in a header's
-- value, and in a header's name.
abbrev route_byte : ℕ → Bool
route_byte c = not (c == 0 || c == b' ' || c == b'?' || c == b'%' || c == b'\r')

abbrev line_byte : ℕ → Bool
line_byte c = not (c == 0 || c == b'\n' || c == b'\r' || c == b'%')

abbrev key_byte : ℕ → Bool
key_byte c = not (c == 0 || c == b'\n' || c == b':')

abbrev pub All : (ℕ → Bool) → Bytes → Type 0
All p [] = Unit
All p (c ∷ cs) = (p c ≡ true) × All p cs

abbrev pub IsRoute : Bytes → Type 0
IsRoute = All route_byte

abbrev pub IsLine : Bytes → Type 0
IsLine = All line_byte

abbrev pub IsKey : Bytes → Type 0
IsKey = All key_byte

module _ (k f : ℕ) (o : JsonObject) (key v : Bytes) (c : ℕ) where
  route_round :
      (r : Bytes)
      → route_byte c ≡ true
      → http_loop (suc k) f (request o 1 key v) (c ∷ r)
        ≡ http_loop k f (request o 1 key (v ++ c ∷ [])) r
  unfolding http_loop round
  route_round [] h = ground arith
  route_round (d ∷ r) h = ground arith

  line_round :
      (st : ℕ) (r : Bytes)
      → (st ≡ 4) ⊎ (st ≡ 6)
      → line_byte c ≡ true
      → http_loop (suc k) f (request o st key v) (c ∷ r)
        ≡ http_loop k f (request o st key (v ++ c ∷ [])) r
  unfolding http_loop round
  line_round st [] s h = ground arith
  line_round st (d ∷ r) s h = ground arith

  key_round :
      (r : Bytes)
      → key_byte c ≡ true
      → http_loop (suc k) f (request o 5 key v) (c ∷ r)
        ≡ http_loop k f (request o 5 (key ++ c ∷ []) v) r
  unfolding http_loop round
  key_round r h = ground arith

-- From `m` at `it`, with fuel `k`, the loop comes to `m'` at `it'` with at most `n` rounds gone.
abbrev pub Moves : ℕ → ℕ → ℕ → Request → Bytes → Request → Bytes → Type 0
Moves f n k m it m' it' = (k' : ℕ) × (k ≤ k' + n) × (http_loop k f m it ≡ http_loop k' f m' it')

module _ (f : ℕ) (o : JsonObject) where
  pub route_rounds :
      (s : Bytes) (k : ℕ) (key v r : Bytes)
      → IsRoute s
      → length s ≤ k
      → Moves f (length s) k (request o 1 key v) (s ++ r) (request o 1 key (v ++ s)) r
  route_rounds [] k key v r h l =
      (k, omega arith, ap (λ (x : Bytes). http_loop k f (request o 1 key x) r) (sym (append-nil v)))
  route_rounds (c ∷ s) zero key v r h l = absurd (omega arith)
  route_rounds (c ∷ s) (suc k) key v r (p, h) l =
      let (k', m, e) = route_rounds s k key (v ++ c ∷ []) r h (omega arith) in
      (
        k',
        omega arith,
        route_round k f o key v c (s ++ r) p
            ∙ e
            ∙ ap (λ (x : Bytes). http_loop k' f (request o 1 key x) r) (append_assoc v (c ∷ []) s),
      )

  line_rounds :
      (st : ℕ) (s : Bytes) (k : ℕ) (key v r : Bytes)
      → (st ≡ 4) ⊎ (st ≡ 6)
      → IsLine s
      → length s ≤ k
      → Moves f (length s) k (request o st key v) (s ++ r) (request o st key (v ++ s)) r
  line_rounds st [] k key v r q h l = (
    k,
    omega arith,
    ap (λ (x : Bytes). http_loop k f (request o st key x) r) (sym (append-nil v)),
  )
  line_rounds st (c ∷ s) zero key v r q h l = absurd (omega arith)
  line_rounds st (c ∷ s) (suc k) key v r q (p, h) l =
      let (k', m, e) = line_rounds st s k key (v ++ c ∷ []) r q h (omega arith) in
      (
        k',
        omega arith,
        line_round k f o key v c st (s ++ r) q p
            ∙ e
            ∙ ap (λ (x : Bytes). http_loop k' f (request o st key x) r) (append_assoc v (c ∷ []) s),
      )

  pub key_rounds :
      (s : Bytes) (k : ℕ) (key v r : Bytes)
      → IsKey s
      → length s ≤ k
      → Moves f (length s) k (request o 5 key v) (s ++ r) (request o 5 (key ++ s) v) r
  key_rounds [] k key v r h l =
      (k, omega arith, ap (λ (x : Bytes). http_loop k f (request o 5 x v) r) (sym (append-nil key)))
  key_rounds (c ∷ s) zero key v r h l = absurd (omega arith)
  key_rounds (c ∷ s) (suc k) key v r (p, h) l =
      let (k', m, e) = key_rounds s k (key ++ c ∷ []) v r h (omega arith) in
      (
        k',
        omega arith,
        key_round k f o key v c (s ++ r) p
            ∙ e
            ∙ ap (λ (x : Bytes). http_loop k' f (request o 5 x v) r) (append_assoc key (c ∷ []) s),
      )

  -- The space behind the route.
  pub space_round :
      (k : ℕ) (key v r : Bytes)
      → v ≢ []
      → 1 ≤ k
      → Moves f 1 k
          (request o 1 key v)
          (b' ' ∷ r)
          (request (set_text (codes "route") v o) 4 key [])
          r
  space_round zero key v r ne l = absurd (omega arith)
  space_round (suc k) key [] r ne l = absurd (ne refl)
  space_round (suc k) key (c ∷ v) r ne l = (k, omega arith, unfold http_loop round in refl)

  protocol_newline :
      (k : ℕ) (key v r : Bytes)
      → 2 ≤ k
      → Moves f 2 k
          (request o 4 key v)
          (b'\r' ∷ b'\n' ∷ r)
          (request (set_text (codes "protocol") v o) 5 [] v)
          r
  protocol_newline zero key v r l = absurd (omega arith)
  protocol_newline (suc zero) key v r l = absurd (omega arith)
  protocol_newline (suc (suc k)) key v r l = (k, omega arith, unfold http_loop round in refl)

  value_newline :
      (k : ℕ) (key v r : Bytes)
      → 2 ≤ k
      → Moves f 2 k
          (request o 6 key v)
          (b'\r' ∷ b'\n' ∷ r)
          (request (store_header key v o) 5 [] v)
          r
  value_newline zero key v r l = absurd (omega arith)
  value_newline (suc zero) key v r l = absurd (omega arith)
  value_newline (suc (suc k)) key v r l = (k, omega arith, unfold http_loop round in refl)

  -- The colon behind a header's name, with the byte that follows it.
  pub colon_round :
      (k : ℕ) (key v r : Bytes) (d : ℕ)
      → 1 ≤ k
      → Moves f 1 k (request o 5 key v) (b':' ∷ d ∷ r) (request o 6 key []) r
  colon_round zero key v r d l = absurd (omega arith)
  colon_round (suc k) key v r d l = (k, omega arith, unfold http_loop round in refl)

  -- The rest of the first line.
  pub protocol_line :
      (s : Bytes) (k : ℕ) (key r : Bytes)
      → IsLine s
      → length s + 2 ≤ k
      → Moves f
          (length s + 2)
          k
          (request o 4 key [])
          (s ++ (b'\r' ∷ b'\n' ∷ r))
          (request (set_text (codes "protocol") s o) 5 [] s)
          r
  protocol_line s k key r h l =
      let (k1, m1, e1) = line_rounds 4 s k key [] (b'\r' ∷ b'\n' ∷ r) (inl refl) h (omega arith) in
      let (k2, m2, e2) = protocol_newline k1 key s r (omega arith) in (k2, omega arith, e1 ∙ e2)

  -- A header's value.
  pub value_line :
      (s : Bytes) (k : ℕ) (key r : Bytes)
      → IsLine s
      → length s + 2 ≤ k
      → Moves f
          (length s + 2)
          k
          (request o 6 key [])
          (s ++ (b'\r' ∷ b'\n' ∷ r))
          (request (store_header key s o) 5 [] s)
          r
  value_line s k key r h l =
      let (k1, m1, e1) = line_rounds 6 s k key [] (b'\r' ∷ b'\n' ∷ r) (inr refl) h (omega arith) in
      let (k2, m2, e2) = value_newline k1 key s r (omega arith) in (k2, omega arith, e1 ∙ e2)
