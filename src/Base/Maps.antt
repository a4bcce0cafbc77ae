-- ===== src/Base/Maps.antt =====
-- `std::unordered_map` with text keys: an association list, iterated from its front.
use mathlib.Core.Bool.{Bool, true, false}
use mathlib.Core.List.{List, [], ◌∷◌}
use mathlib.Core.Option.{Option, none, some}
use mathlib.Core.Path.{◌≡◌, refl, ◌∙◌}
use native.Mathlib.Omega.{arith}
use libjaypea.Base.Numbers.{if◌then◌else◌}
use libjaypea.Base.Texts.{Bytes, equal, equal_iff, equal_refl}

abbrev pub Dict {ℓ} : Type ℓ → Type ℓ
Dict V = List (Bytes × V)

-- A value in front of others, if there are any.
abbrev pub cons_some {ℓ} : {A : Type ℓ} → A → Option (List A) → Option (List A)
cons_some a none = none
cons_some a (some others) = some (a ∷ others)

-- `m.count(k)` of what `lookup` finds.
abbrev pub is_some {ℓ} : {A : Type ℓ} → Option A → Bool
is_some none = false
is_some (some found) = true

module _ {ℓ} {V : Type ℓ} where
  unfoldable pub lookup : Bytes → Dict V → Option V
  lookup key [] = none
  lookup key ((name, value) ∷ others) = if equal name key then some value else lookup key others

  -- `m[key] = value`.
  unfoldable pub insert : Bytes → V → Dict V → Dict V
  insert key value [] = (key, value) ∷ []
  insert key value ((name, old) ∷ others) =
      if equal name key then (key, value) ∷ others else (name, old) ∷ insert key value others

  -- `m.erase(key)`.
  unfoldable pub erase : Bytes → Dict V → Dict V
  erase key [] = []
  erase key ((name, value) ∷ others) =
      if equal name key then erase key others else (name, value) ∷ erase key others

  pub lookup-insert :
      (key other : Bytes) (value : V) (m : Dict V)
      → lookup other (insert key value m) ≡ (if equal key other then some value else lookup other m)
  unfolding lookup insert
  lookup-insert key other value [] = refl
  lookup-insert key other value ((name, old) ∷ rest) = ground (
    arith,
    equal_iff name key,
    equal_iff name other,
    equal_iff key other,
    lookup-insert key other value rest,
  )

  pub lookup-erase :
      (key other : Bytes) (m : Dict V)
      → lookup other (erase key m) ≡ (if equal key other then none else lookup other m)
  unfolding lookup erase
  lookup-erase key other [] = ground arith
  lookup-erase key other ((name, old) ∷ rest) = ground (
    arith,
    equal_iff name key,
    equal_iff name other,
    equal_iff key other,
    lookup-erase key other rest,
  )

  pub lookup-insert_same :
      (key : Bytes) (value : V) (m : Dict V) → lookup key (insert key value m) ≡ some value
  lookup-insert_same key value m = lookup-insert key key value m ∙ (rw (equal_refl key) refl)

  pub lookup-erase_same : (key : Bytes) (m : Dict V) → lookup key (erase key m) ≡ none
  lookup-erase_same key m = lookup-erase key key m ∙ (rw (equal_refl key) refl)
