-- ===== src/HttpApi/Paths.antt =====
-- The path and the type of a file: `HttpApi::respond_http` of cpp-source/http-api.cpp.
use libjaypea.Base.{
  ℕ, Bytes, codes, [], ◌∷◌, ◌++◌, false, Bool-cases, ◌==◌, ◌&&◌, ◌≡◌, refl, sym, ap, subst, ◌∙◌,
  inl, inr, Option, none, some, if◌then◌else◌, arith,
}
use libjaypea.Util.Replace.{find, behind, ends_with, in_front}

-- The loop over the route: of dots in a row the last one is kept.
unfoldable pub clean : Bytes → Bytes
clean [] = []
clean (c ∷ []) = c ∷ []
clean (c ∷ d ∷ r) =
    let others = clean (d ∷ r) in if c == b'.' && d == b'.' then others else c ∷ others

unfoldable pub clean_route : Bytes → Bytes → Bytes
clean_route public_directory route = public_directory ++ clean route

unfoldable pub content_type : Bytes → Bytes
content_type path =
    if ends_with path (codes ".css")
    then codes "text/css"
    else if ends_with path (codes ".html")
    then codes "text/html"
    else if ends_with path (codes ".svg")
    then codes "image/svg+xml"
    else if ends_with path (codes ".js")
    then codes "text/javascript"
    else codes "text/plain"

-- The first byte stays the first: where it is dropped, the next one is the same.
clean_first : (d : ℕ) (r : Bytes) → (others : Bytes) × (clean (d ∷ r) ≡ d ∷ others)
unfolding clean
clean_first d [] = ([], refl)
clean_first d (e ∷ r) = elim (Bool-cases (d == b'.' && e == b'.')) [
  | inr keep ↦ (clean (e ∷ r), rw keep refl)
  | inl dots ↦
      let (others, h) = clean_first e r in
      let same : e ≡ d = ground arith in (others, rw dots (h ∙ ap (λ (x : ℕ). x ∷ others) same))
]

behind_dots :
    (c d : ℕ) (others : Bytes)
    → (c == b'.' && d == b'.') ≡ false
    → behind (codes "..") (c ∷ d ∷ others) ≡ none
unfolding behind
behind_dots c d others apart = ground arith

find_step :
    (from : Bytes) (c : ℕ) (s : Bytes)
    → behind from (c ∷ s) ≡ none
    → find from (c ∷ s) ≡ in_front c (find from s)
unfolding find
find_step from c s h =
    ap
      (λ (b : Option Bytes). elim b as (λ x. Option (Bytes × Bytes)) [
        | some post ↦ some ([], post)
        | none ↦ in_front c (find from s)
      ])
      h

find-dots :
    (c d : ℕ) (others : Bytes)
    → (c == b'.' && d == b'.') ≡ false
    → find (codes "..") (d ∷ others) ≡ none
    → find (codes "..") (c ∷ d ∷ others) ≡ none
find-dots c d others apart free =
    find_step (codes "..") c (d ∷ others) (behind_dots c d others apart) ∙ ap (in_front c) free

in_front-none : (c : ℕ) (x : Option (Bytes × Bytes)) → in_front c x ≡ none → x ≡ none
in_front-none c none h = refl
in_front-none c (some (pre, post)) h = ground arith

dots_apart :
    (c d : ℕ) (r : Bytes) → find (codes "..") (c ∷ d ∷ r) ≡ none → (c == b'.' && d == b'.') ≡ false
unfolding find behind
dots_apart c d r free = ground arith

-- However many dots a route has, the cleaned route has no two in a row.
pub find-clean : (route : Bytes) → find (codes "..") (clean route) ≡ none
unfolding clean
find-clean [] = unfold find behind in refl
find-clean (c ∷ []) = unfold find behind in ground arith
find-clean (c ∷ d ∷ r) = elim (Bool-cases (c == b'.' && d == b'.')) [
  | inl dots ↦ rw dots (find-clean (d ∷ r))
  | inr keep ↦
      let (others, h) = clean_first d r in
      rw (keep, h)
        (find-dots c d others keep
          (subst (λ (s : Bytes). find (codes "..") s ≡ none) h (find-clean (d ∷ r))))
]

-- A route without two dots in a row is left as it is.
pub clean-find : (route : Bytes) → find (codes "..") route ≡ none → clean route ≡ route
unfolding clean
clean-find [] free = refl
clean-find (c ∷ []) free = refl
clean-find (c ∷ d ∷ r) free =
    let apart = dots_apart c d r free in
    let later =
      in_front-none c (find (codes "..") (d ∷ r))
        (sym (find_step (codes "..") c (d ∷ r) (behind_dots c d r apart)) ∙ free) in
    rw apart (ap (λ (t : Bytes). c ∷ t) (clean-find (d ∷ r) later))
