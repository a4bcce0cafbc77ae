-- ===== src/EpollServer/Pairs.antt =====
-- Two tables that are inverse to each other, as those of connections and timers.
use libjaypea.Base.{
  ℕ, ◌≡◌, refl, sym, ap, ◌∙◌, inl, inr, Bool-cases, false, ◌==◌, ==_iff, none, some, arith,
}
use libjaypea.Base.Tables.{
  Table, find, set, remove, find-set, find-set_same, find-set_other, find-remove_other, not_removed,
}

pub record IsInverse (clients timers : Table ℕ) : Type 0 where
  pub there : (fd timer : ℕ) → find fd clients ≡ some timer → find timer timers ≡ some fd
  pub back : (fd timer : ℕ) → find timer timers ≡ some fd → find fd clients ≡ some timer

some_injective : {a b : ℕ} → some a ≡ some b → a ≡ b
some_injective e = cc

apart_from :
    (a b : ℕ) (m : Table ℕ) {v w : ℕ}
    → find a m ≡ some v
    → find b m ≡ some w
    → (v == w) ≡ false
    → (a == b) ≡ false
apart_from a b m {v} {w} fa fb apart = elim (Bool-cases (a == b)) [
  | inr differs ↦ differs
  | inl same ↦
      let e : v ≡ w =
        some_injective (sym fa ∙ ap (λ (x : ℕ). find x m) ((==_iff a b).0 same) ∙ fb) in
      ground arith
]

pub remove-IsInverse :
    (fd timer : ℕ) (clients timers : Table ℕ)
    → IsInverse clients timers
    → find fd clients ≡ some timer
    → IsInverse (remove fd clients) (remove timer timers)
remove-IsInverse fd timer clients timers i found = record {
  there = λ other clock h.
      let (apart, old) = not_removed fd other clock clients h in
      let new = i.there other clock old in
      find-remove_other timer clock timers
        (apart_from timer clock timers (i.there fd timer found) new apart)
      ∙ new;
  back = λ other clock h.
      let (apart, old) = not_removed timer clock other timers h in
      let new = i.back other clock old in
      find-remove_other fd other clients (apart_from fd other clients found new apart) ∙ new;
}

-- A fresh key is not one that is found.
fresh_apart :
    (a b : ℕ) (m : Table ℕ) {w : ℕ} → find a m ≡ none → find b m ≡ some w → (a == b) ≡ false
fresh_apart a b m fa fb = elim (Bool-cases (a == b)) [
  | inr differs ↦ differs
  | inl same ↦ absurd (cc (sym fa ∙ ap (λ (x : ℕ). find x m) ((==_iff a b).0 same) ∙ fb))
]

set_there :
    (fd timer : ℕ) (clients timers : Table ℕ)
    → ((other clock : ℕ) → find other clients ≡ some clock → find clock timers ≡ some other)
    → find timer timers ≡ none
    → (other clock : ℕ) → find other (set fd timer clients) ≡ some clock
    → find clock (set timer fd timers) ≡ some other
set_there fd timer clients timers there fresh other clock h = elim (Bool-cases (fd == other)) [
  | inl same ↦
      let here : timer ≡ clock =
        some_injective (sym (find-set fd other timer clients ∙ (rw same refl)) ∙ h) in
      ap (λ (x : ℕ). find x (set timer fd timers)) (sym here)
      ∙ (find-set_same timer fd timers ∙ ap some ((==_iff fd other).0 same))
  | inr apart ↦
      let old = there other clock (sym (find-set_other fd other timer clients apart) ∙ h) in
      find-set_other timer clock fd timers (fresh_apart timer clock timers fresh old) ∙ old
]

pub set-IsInverse :
    (fd timer : ℕ) (clients timers : Table ℕ)
    → IsInverse clients timers
    → find fd clients ≡ none
    → find timer timers ≡ none
    → IsInverse (set fd timer clients) (set timer fd timers)
set-IsInverse fd timer clients timers i new_fd new_timer = record {
  there = set_there fd timer clients timers i.there new_timer;
  back = λ other clock. set_there timer fd timers clients (λ c o. i.back o c) new_fd clock other;
}
