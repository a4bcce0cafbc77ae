-- ===== src/Jph2/Tanks/Whole.antt =====
-- What keeps the threads of cpp-source/examples/jph2/tanks-wss.cpp from an exception: each player
-- has a location and the members that a tick writes, and each client has a handle.
pub mod Messages
pub mod Ticks
use libjaypea.Base.{
  ℕ, Bytes, codes, equal, equal_iff, equal_refl, Bool, true, false, if◌then◌else◌, Option, none,
  some, Dict, is_some, lookup, insert, erase, lookup-insert, lookup-erase, ◌≡◌, refl, sym, ap, ◌∙◌,
  subst, inl, inr, Bool-cases,
}
use libjaypea.Json.{
  JsonObject, json_object, Fields, end, field, object_values, string_value, set_string, set_field,
  get, put, drop, get-put,
}
use libjaypea.Json.Access.{get_str}
use libjaypea.Jph2.Tanks.{Tanks, write_member, erase_tank, emplace, new_player}

abbrev pub Has : Bytes → JsonObject → Type 0
Has name o = is_some (get name (object_values o)) ≡ true

abbrev pub HasAll : JsonObject → Type 0
HasAll o =
    Has (codes "i") o
    × Has (codes "x") o
    × Has (codes "y") o
    × Has (codes "s") o
    × Has (codes "r") o
    × Has (codes "ts") o

-- The members of one are in the other.
abbrev pub Keeps : JsonObject → JsonObject → Type 0
Keeps o p = (name : Bytes) → Has name o → Has name p

pub HasAll-Keeps : (o p : JsonObject) → Keeps o p → HasAll o → HasAll p
HasAll-Keeps o p k (i, x, y, s, r, ts) = (
  k (codes "i") i,
  k (codes "x") x,
  k (codes "y") y,
  k (codes "s") s,
  k (codes "r") r,
  k (codes "ts") ts,
)

pub is_some-eq {ℓ} : {A : Type ℓ} (m : Option A) → is_some m ≡ true → (a : A) × (m ≡ some a)
is_some-eq none h = cc
is_some-eq (some a) h = (a, refl)

set_field-Keeps : (name : Bytes) (v o : JsonObject) → Keeps o (set_field name v o)
set_field-Keeps name v (json_object t s fields items) other h =
    elim (Bool-cases (equal name other)) [
      | inl same ↦ rw (get-put name other v fields, same) refl
      | inr apart ↦ rw (get-put name other v fields, apart) h
    ]

set_field-Has : (name : Bytes) (v o : JsonObject) → Has name (set_field name v o)
set_field-Has name v (json_object t s fields items) =
    rw (get-put name name v fields, equal_refl name) refl

-- A member that is there is written, and all are kept.
pub write_member-Keeps :
    (name text : Bytes) (o : JsonObject)
    → Has name o
    → (p : JsonObject) × (write_member name text o ≡ some p) × Keeps o p
write_member-Keeps name text o h =
    let (member, e) = is_some-eq (get name (object_values o)) h in
    (
      set_field name (set_string text member) o,
      rw e refl,
      set_field-Keeps name (set_string text member) o,
    )

text_of_member :
    (name : Bytes) (o : JsonObject) (found : Option JsonObject)
    → get name (object_values o) ≡ found
    → is_some found ≡ true
    → (text : Bytes) × (get_str name o ≡ some text)
unfolding get_str
text_of_member name o none e h = cc
text_of_member name o (some member) e h = (string_value member, rw (e, get_str) refl)

pub get_str-some :
    (name : Bytes) (o : JsonObject) → Has name o → (text : Bytes) × (get_str name o ≡ some text)
get_str-some name o h = text_of_member name o (get name (object_values o)) refl h

pub new_player-HasAll : (x y : Bytes) → HasAll (new_player x y)
unfolding get put equal
new_player-HasAll x y = (refl, refl, refl, refl, refl, refl)

module _ {ℓ} {A : Type ℓ} where
  pub is_some-insert :
      (key name : Bytes) (value : A) (d : Dict A)
      → is_some (lookup name d) ≡ true
      → is_some (lookup name (insert key value d)) ≡ true
  is_some-insert key name value d h = elim (Bool-cases (equal key name)) [
    | inl same ↦ rw (lookup-insert key name value d, same) refl
    | inr apart ↦ rw (lookup-insert key name value d, apart) h
  ]

  pub is_some-emplace :
      (key name : Bytes) (value : A) (d : Dict A)
      → is_some (lookup name d) ≡ true
      → is_some (lookup name (emplace key value d)) ≡ true
  is_some-emplace key name value d h = elim (Bool-cases (is_some (lookup key d))) [
    | inl there ↦ rw there h
    | inr new ↦ rw new (is_some-insert key name value d h)
  ]

  pub is_some-emplaced :
      (key : Bytes) (value : A) (d : Dict A) → is_some (lookup key (emplace key value d)) ≡ true
  is_some-emplaced key value d = elim (Bool-cases (is_some (lookup key d))) [
    | inl there ↦ rw there there
    | inr new ↦ rw new (rw (lookup-insert key key value d, equal_refl key) refl)
  ]

  pub is_some-erase :
      (key name : Bytes) (d : Dict A)
      → equal name key ≡ false
      → is_some (lookup name d) ≡ true
      → is_some (lookup name (erase key d)) ≡ true
  is_some-erase key name d apart h = elim (Bool-cases (equal key name)) [
    | inl same ↦ cc ((equal_iff name key).1 (sym ((equal_iff key name).0 same)), apart)
    | inr other ↦ rw (lookup-erase key name d, other) h
  ]

module _ {ℓ} {R : Type ℓ} where
  abbrev pub IsLocated : Bytes → Tanks R → Type 0
  IsLocated name t = is_some (lookup name t.locations) ≡ true

  abbrev pub WholePlayer : Tanks R → Bytes → JsonObject → Type 0
  WholePlayer t name o = IsLocated name t × HasAll o

  abbrev pub AllWhole : Tanks R → Fields → Type 0
  AllWhole t end = Unit
  AllWhole t (field name o players) = WholePlayer t name o × AllWhole t players

  pub AllWhole-get :
      (t : Tanks R) (name : Bytes) (players : Fields) (o : JsonObject)
      → AllWhole t players
      → get name players ≡ some o
      → WholePlayer t name o
  unfolding get
  AllWhole-get t name end o w h = cc
  AllWhole-get t name (field key v players) o (first, others) h =
      elim (Bool-cases (equal key name)) [
        | inl same ↦
            let e : v ≡ o = cc (rw same at h) in
            subst (λ (k : Bytes). WholePlayer t k o) ((equal_iff key name).0 same)
              (subst (λ (p : JsonObject). WholePlayer t key p) e first)
        | inr apart ↦ AllWhole-get t name players o others (rw apart at h)
      ]

  pub AllWhole-put :
      (t : Tanks R) (name : Bytes) (o : JsonObject) (players : Fields)
      → AllWhole t players
      → WholePlayer t name o
      → AllWhole t (put name o players)
  unfolding put
  AllWhole-put t name o end w new = (new, tt)
  AllWhole-put t name o (field key v players) (first, others) new =
      elim (Bool-cases (equal key name)) [
        | inl same ↦ rw same (new, others)
        | inr apart ↦ rw apart (first, AllWhole-put t name o players others new)
      ]

  pub AllWhole-mono :
      (t u : Tanks R) (players : Fields)
      → ((name : Bytes) → IsLocated name t → IsLocated name u)
      → AllWhole t players
      → AllWhole u players
  AllWhole-mono t u end m w = tt
  AllWhole-mono t u (field name o players) m ((at, members), others) =
      ((m name at, members), AllWhole-mono t u players m others)

  pub AllWhole-drop :
      (t : Tanks R) (name : Bytes) (players : Fields)
      → AllWhole t players
      → AllWhole (erase_tank name t) (drop name players)
  unfolding drop
  AllWhole-drop t name end w = tt
  AllWhole-drop t name (field key o players) ((at, members), others) =
      elim (Bool-cases (equal key name)) [
        | inl same ↦ rw same (AllWhole-drop t name players others)
        | inr apart ↦ rw apart (
          (is_some-erase name key t.locations apart at, members),
          AllWhole-drop t name players others,
        )
      ]
