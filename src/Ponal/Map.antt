-- ===== src/Ponal/Map.antt =====
-- The key-value server cpp-source/examples/ponal-server.cpp is a map.
use libjaypea.Base.{
  NoSpace, ℕ, Bytes, codes, equal, [], ◌∷◌, ◌++◌, List, false, if◌then◌else◌, Option, none, some,
  Dict, lookup, insert, lookup-insert, c_str, c_str-NoZero, NoZero, ◌≡◌, refl, ap, ◌∙◌,
}
use libjaypea.Util.Replace.{strict_compare_inequal, differ}
use libjaypea.Ponal.{
  Ponal, split, is_empty, set_value, success, served, bump, found, stored, serve, on_read,
}

pub data Command : Type 0 where
  get : Bytes → Command
  set : Bytes → Bytes → Command

-- The request for a command.
abbrev pub print : Command → Bytes
print (get key) = codes "get " ++ key
print (set key value) = codes "set " ++ (key ++ (b' ' ∷ value))

-- Keys and values without zero bytes; a key that is set has a byte, and no space, and its value
-- has a byte.
abbrev pub IsProper : Command → Type 0
IsProper (get key) = NoZero key
IsProper (set key value) =
    NoSpace key × NoZero key × NoZero value × (is_empty key ≡ false) × (is_empty value ≡ false)

abbrev pub AllProper : List Command → Type 0
AllProper [] = Unit
AllProper (c ∷ cs) = IsProper c × AllProper cs

-- The map that the server keeps: what it answers, and what it is then.
abbrev pub Spec : Type 0
Spec = Bytes → Option Bytes

abbrev pub spec_answer : Command → Spec → Bytes
spec_answer (get key) m = found (m key)
spec_answer (set key value) m = success

abbrev pub spec_next : Command → Spec → Spec
spec_next (get key) m = m
spec_next (set key value) m = λ other. if equal key other then some value else m other

abbrev pub spec_answers : List Command → Spec → List (Option Bytes)
spec_answers [] m = []
spec_answers (c ∷ cs) m = some (spec_answer c m) ∷ spec_answers cs (spec_next c m)

-- The requests of one connection, whose answers are written.
abbrev pub answers : ℕ → List Command → Ponal → List (Option Bytes)
answers fd [] s = []
answers fd (c ∷ cs) s =
    let r = on_read fd (print c) false s in r.0.response ∷ answers fd cs r.0.state

split-append : (key value : Bytes) → NoSpace key → split (key ++ (b' ' ∷ value)) ≡ (key, value)
unfolding split
split-append [] value n = refl
split-append (c ∷ key) value (apart, n) = rw (apart, split-append key value n) refl

set_value-append :
    (key value : Bytes) (values : Dict Bytes)
    → NoSpace key
    → is_empty key ≡ false
    → is_empty value ≡ false
    → set_value (key ++ (b' ' ∷ value)) values ≡ some (insert key value values)
unfolding set_value
set_value-append key value values n k v = rw (split-append key value n) (rw (k, v) refl)

serve-get :
    (key : Bytes) (s : Ponal)
    → serve (codes "get " ++ key) s ≡ served (found (lookup key s.values)) s
unfolding strict_compare_inequal differ
serve-get key s = refl

serve-set :
    (text : Bytes) (s : Ponal) → serve (codes "set " ++ text) s ≡ stored s (set_value text s.values)
unfolding strict_compare_inequal differ
serve-set text s = refl

append-NoZero : (s t : Bytes) → NoZero s → NoZero t → NoZero (s ++ t)
append-NoZero [] t a b = b
append-NoZero (c ∷ s) t (first, a) b = (first, append-NoZero s t a b)

print-NoZero : (c : Command) → IsProper c → NoZero (print c)
print-NoZero (get key) p = (refl, (refl, (refl, (refl, p))))
print-NoZero (set key value) (n, z, v, k, w) =
    (refl, (refl, (refl, (refl, append-NoZero key (b' ' ∷ value) z (refl, v)))))

-- The server keeps the map.
abbrev pub Keeps : Ponal → Spec → Type 0
Keeps s m = (key : Bytes) → lookup key s.values ≡ m key

serve-answer :
    (c : Command) (s : Ponal) (m : Spec)
    → IsProper c
    → Keeps s m
    → ((serve (print c) s).response ≡ some (spec_answer c m))
      × Keeps (serve (print c) s).state (spec_next c m)
serve-answer (get key) s m p h = rw (serve-get key s, h key) (refl, h)
serve-answer (set key value) s m (n, z, v, k, w) h =
    rw (serve-set (key ++ (b' ' ∷ value)) s, set_value-append key value s.values n k w)
      (refl, λ other. rw (lookup-insert key other value s.values, h other) refl)

on_read-serve :
    (fd : ℕ) (packet : Bytes) (s : Ponal)
    → ((on_read fd packet false s).0.response ≡ (serve (c_str packet) s).response)
      × ((on_read fd packet false s).0.state.values ≡ (serve (c_str packet) s).state.values)
unfolding on_read
on_read-serve fd packet s = (refl, bumped (serve (c_str packet) s).response)
  where
    bumped :
        (response : Option Bytes)
        → (bump fd response (serve (c_str packet) s).state).values
          ≡ (serve (c_str packet) s).state.values
    bumped none = refl
    bumped (some text) = refl

-- On any sequence of proper requests whose answers can be written, the server answers as the map
-- that it keeps does: a get gives the value that was set last for its key, or "failure" for a key
-- without one, and a set gives "success".
pub answers-spec_answers :
    (fd : ℕ) (cs : List Command) (s : Ponal) (m : Spec)
    → AllProper cs
    → Keeps s m
    → answers fd cs s ≡ spec_answers cs m
answers-spec_answers fd [] s m p h = refl
answers-spec_answers fd (c ∷ cs) s m (p, ps) h =
    let whole = c_str-NoZero (print c) (print-NoZero c p) in
    let (e, k) = on_read-serve fd (print c) s in
    let (a, b) = serve-answer c s m p h in
    let r = (on_read fd (print c) false s).0 in
    let first : r.response ≡ some (spec_answer c m) =
      e ∙ ap (λ (text : Bytes). (serve text s).response) whole ∙ a in
    let kept : Keeps r.state (spec_next c m) = λ key.
      ap (lookup key) k
      ∙ ap (λ (text : Bytes). lookup key (serve text s).state.values) whole
      ∙ b key in
    ap (λ (o : Option Bytes). o ∷ answers fd cs r.state) first
    ∙ ap (◌∷◌ (some (spec_answer c m))) (answers-spec_answers fd cs r.state (spec_next c m) ps kept)
