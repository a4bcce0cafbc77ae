-- ===== src/Base/Tables.antt =====
-- `std::unordered_map` with file descriptors as keys: an association list, iterated from its front.
use Prim.Native.Nat.{ℕ, suc, ◌+◌}
use mathlib.Core.Bool.{Bool, false}
use mathlib.Core.List.{List, [], ◌∷◌}
use mathlib.Core.Option.{Option, none, some}
use mathlib.Core.Logic.{inl, inr}
use mathlib.Core.Path.{◌≡◌, refl, sym, subst, ◌∙◌}
use native.Mathlib.Omega.{arith}
use libjaypea.Base.Numbers.{◌==◌, ==_iff, Bool-cases, if◌then◌else◌}

abbrev pub Table {ℓ} : Type ℓ → Type ℓ
Table V = List (ℕ × V)

none_not_some {ℓ} : {V : Type ℓ} {v : V} → none ≡ some v → ⊥
none_not_some e = cc

module _ {ℓ} {V : Type ℓ} where
  unfoldable pub find : ℕ → Table V → Option V
  find key [] = none
  find key ((name, value) ∷ others) = if name == key then some value else find key others

  -- `m[key] = value`.
  unfoldable pub set : ℕ → V → Table V → Table V
  set key value [] = (key, value) ∷ []
  set key value ((name, old) ∷ others) =
      if name == key then (key, value) ∷ others else (name, old) ∷ set key value others

  -- `m.erase(key)`.
  unfoldable pub remove : ℕ → Table V → Table V
  remove key [] = []
  remove key ((name, value) ∷ others) =
      if name == key then remove key others else (name, value) ∷ remove key others

  abbrev pub size : Table V → ℕ
  size [] = 0
  size (entry ∷ others) = suc (size others)

  -- Every key stands once.
  abbrev pub IsDistinct : Table V → Type ℓ
  IsDistinct [] = Unit
  IsDistinct ((name, value) ∷ others) = (find name others ≡ none) × IsDistinct others

  pub find-set :
      (key other : ℕ) (value : V) (m : Table V)
      → find other (set key value m) ≡ (if key == other then some value else find other m)
  unfolding find set
  find-set key other value [] = refl
  find-set key other value ((name, old) ∷ rest) = ground (arith, find-set key other value rest)

  pub find-remove :
      (key other : ℕ) (m : Table V)
      → find other (remove key m) ≡ (if key == other then none else find other m)
  unfolding find remove
  find-remove key other [] = ground arith
  find-remove key other ((name, old) ∷ rest) = ground (arith, find-remove key other rest)

  pub find-set_same : (key : ℕ) (value : V) (m : Table V) → find key (set key value m) ≡ some value
  find-set_same key value m = find-set key key value m ∙ (rw ((==_iff key key).1 refl) refl)

  pub find-remove_same : (key : ℕ) (m : Table V) → find key (remove key m) ≡ none
  find-remove_same key m = find-remove key key m ∙ (rw ((==_iff key key).1 refl) refl)

  pub remove-fresh : (key : ℕ) (m : Table V) → find key m ≡ none → remove key m ≡ m
  unfolding find remove
  remove-fresh key [] absent = refl
  remove-fresh key ((name, old) ∷ rest) absent = ground (arith, remove-fresh key rest)

  pub size-set :
      (key : ℕ) (value : V) (m : Table V) → find key m ≡ none → size (set key value m) ≡ size m + 1
  unfolding find set
  size-set key value [] absent = omega arith
  size-set key value ((name, old) ∷ rest) absent = ground (arith, size-set key value rest)

  pub size-remove :
      (key : ℕ) (value : V) (m : Table V)
      → IsDistinct m
      → find key m ≡ some value
      → size (remove key m) + 1 ≡ size m
  unfolding find remove
  size-remove key value [] d found = cc
  size-remove key value ((name, old) ∷ rest) (fresh, d) found = elim (Bool-cases (name == key)) [
    | inl same ↦
        rw
          (
            same,
            remove-fresh key rest
                (subst (λ (k : ℕ). find k rest ≡ none) ((==_iff name key).0 same) fresh),
          )
          (omega arith)
    | inr other ↦ rw other (
        omega (
          arith,
          size-remove key value rest d (
              subst (λ (b : Bool). (if b then some old else find key rest) ≡ some value) other
                found),
        ))
  ]

  pub set-IsDistinct :
      (key : ℕ) (value : V) (m : Table V) → IsDistinct m → IsDistinct (set key value m)
  unfolding set
  set-IsDistinct key value [] d = (unfold find in refl, tt)
  set-IsDistinct key value ((name, old) ∷ rest) (fresh, d) = elim (Bool-cases (name == key)) [
    | inl same ↦ rw same (subst (λ (k : ℕ). find k rest ≡ none) ((==_iff name key).0 same) fresh, d)
    | inr other ↦
        rw other (find-set key name value rest ∙ (ground arith), set-IsDistinct key value rest d)
  ]

  pub remove-IsDistinct : (key : ℕ) (m : Table V) → IsDistinct m → IsDistinct (remove key m)
  unfolding remove
  remove-IsDistinct key [] d = tt
  remove-IsDistinct key ((name, old) ∷ rest) (fresh, d) = elim (Bool-cases (name == key)) [
    | inl same ↦ rw same (remove-IsDistinct key rest d)
    | inr other ↦
        rw other (find-remove key name rest ∙ (ground arith), remove-IsDistinct key rest d)
  ]

  pub find-remove_other :
      (key other : ℕ) (m : Table V)
      → (key == other) ≡ false
      → find other (remove key m) ≡ find other m
  find-remove_other key other m apart = find-remove key other m ∙ (rw apart refl)

  pub find-set_other :
      (key other : ℕ) (value : V) (m : Table V)
      → (key == other) ≡ false
      → find other (set key value m) ≡ find other m
  find-set_other key other value m apart = find-set key other value m ∙ (rw apart refl)

  pub not_removed :
      (key other : ℕ) (value : V) (m : Table V)
      → find other (remove key m) ≡ some value
      → ((key == other) ≡ false) × (find other m ≡ some value)
  not_removed key other value m found = elim (Bool-cases (key == other)) [
    | inl same ↦ absurd (none_not_some (sym (find-remove key other m ∙ (rw same refl)) ∙ found))
    | inr apart ↦ (apart, sym (find-remove_other key other m apart) ∙ found)
  ]
