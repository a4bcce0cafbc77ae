-- ===== src/Stack/Lifo.antt =====
-- cpp-source/stack.hpp gives back the latest value first.
use libjaypea.Base.{
  cons_some, ℕ, suc, ◌+◌, ◌-◌, ◌≤◌, [], ◌∷◌, List, false, ◌==◌, Option, none, some, ◌≡◌, refl, ap,
  ◌∙◌, arith, length,
}
use libjaypea.Base.Tables.{
  Table, find, set, remove, find-set_same, find-set_other, find-remove_other,
}
use libjaypea.Stack.{StackNode, node, Stack, empty, Popped, thrown, dangling, popped, push, pop}
use libjaypea.Base.Cells.{first, NotIn, IsDistinct, IsBelow, IsBelow-next, NotIn-fresh}

pub data Operation {ℓ} (A : Type ℓ) : Type ℓ where
  pushing : A → Operation A
  popping : Operation A

module _ {ℓ} {A : Type ℓ} where
  abbrev pub after_pop :
      Popped A
      → Option (List (Option A))
      → (Stack A → Option (List (Option A)))
      → Option (List (Option A))
  after_pop thrown same next = cons_some none same
  after_pop dangling same next = none
  after_pop (popped value s) same next = cons_some (some value) (next s)

  -- What the calls of `pop` give, `none` for an exception. No answers are a pointer without a node.
  unfoldable pub run : List (Operation A) → Stack A → Option (List (Option A))
  run [] s = some []
  run (pushing value ∷ operations) s = run operations (push value s)
  run (popping ∷ operations) s = after_pop (pop s) (run operations s) (run operations)

  -- The answers of a list to which values come at the front, and from which they go there.
  unfoldable pub lifo : List (Operation A) → List A → List (Option A)
  lifo [] values = []
  lifo (pushing value ∷ operations) values = lifo operations (value ∷ values)
  lifo (popping ∷ operations) [] = none ∷ lifo operations []
  lifo (popping ∷ operations) (value ∷ values) = some value ∷ lifo operations values

  -- The nodes of the cells, each with the next.
  abbrev IsLinked : Table (StackNode A) → Table A → Type ℓ
  IsLinked nodes [] = Unit
  IsLinked nodes ((p, value) ∷ cells) =
      (find p nodes ≡ some (node value (first cells))) × IsLinked nodes cells

  IsLinked-set :
      (k : ℕ) (n : StackNode A) (nodes : Table (StackNode A)) (cells : Table A)
      → NotIn k cells
      → IsLinked nodes cells
      → IsLinked (set k n nodes) cells
  IsLinked-set k n nodes [] free linked = tt
  IsLinked-set k n nodes ((p, value) ∷ cells) (apart, free) (found, linked) =
      (find-set_other k p n nodes apart ∙ found, IsLinked-set k n nodes cells free linked)

  IsLinked-remove :
      (k : ℕ) (nodes : Table (StackNode A)) (cells : Table A)
      → NotIn k cells
      → IsLinked nodes cells
      → IsLinked (remove k nodes) cells
  IsLinked-remove k nodes [] free linked = tt
  IsLinked-remove k nodes ((p, value) ∷ cells) (apart, free) (found, linked) =
      (find-remove_other k p nodes apart ∙ found, IsLinked-remove k nodes cells free linked)

  abbrev stack_of : Table (StackNode A) → Table A → ℕ → Stack A
  stack_of nodes cells fresh = record {
    head = first cells;
    size = length cells;
    nodes = nodes;
    fresh = fresh;
  }

  abbrev IsGood : Table (StackNode A) → Table A → ℕ → Type ℓ
  IsGood nodes cells fresh =
      IsLinked nodes cells × IsDistinct cells × IsBelow fresh cells × (1 ≤ fresh)

  push-stack_of :
      (v : A) (nodes : Table (StackNode A)) (cells : Table A) (fresh : ℕ)
      → push v (stack_of nodes cells fresh)
        ≡ stack_of (set fresh (node v (first cells)) nodes) ((fresh, v) ∷ cells) (fresh + 1)
  unfolding push
  push-stack_of v nodes cells fresh =
      let size : length cells + 1 ≡ suc (length cells) = omega arith in rw size refl

  push-IsGood :
      (v : A) (nodes : Table (StackNode A)) (cells : Table A) (fresh : ℕ)
      → IsGood nodes cells fresh
      → IsGood (set fresh (node v (first cells)) nodes) ((fresh, v) ∷ cells) (fresh + 1)
  push-IsGood v nodes cells fresh (linked, distinct, below, positive) =
      let free = NotIn-fresh fresh cells below in
      (
        (
          find-set_same fresh (node v (first cells)) nodes,
          IsLinked-set fresh (node v (first cells)) nodes cells free linked,
        ),
        (free, distinct),
        (positive, omega arith, IsBelow-next fresh cells below),
        omega arith,
      )

  pop-stack_of :
      (v : A) (p : ℕ) (nodes : Table (StackNode A)) (cells : Table A) (fresh : ℕ)
      → IsGood nodes ((p, v) ∷ cells) fresh
      → (pop (stack_of nodes ((p, v) ∷ cells) fresh)
          ≡ popped v (stack_of (remove p nodes) cells fresh))
        × IsGood (remove p nodes) cells fresh
  unfolding pop
  pop-stack_of v p nodes cells fresh
        ((found, linked), (free, distinct), (one, less, below), positive) =
      let nonzero : (p == 0) ≡ false = ground arith in
      let size : suc (length cells) - 1 ≡ length cells = omega arith in
      (
        rw (nonzero, found)
            (ap
              (λ (n : ℕ).
                popped v
                  (record { head = first cells; size = n; nodes = remove p nodes; fresh = fresh }))
              size),
        (IsLinked-remove p nodes cells free linked, distinct, below, positive),
      )

  pop_empty : (nodes : Table (StackNode A)) (fresh : ℕ) → pop (stack_of nodes [] fresh) ≡ thrown
  unfolding pop
  pop_empty nodes fresh = refl

  abbrev values : Table A → List A
  values [] = []
  values ((p, value) ∷ cells) = value ∷ values cells

  run-stack_of :
      (operations : List (Operation A)) (nodes : Table (StackNode A)) (cells : Table A) (fresh : ℕ)
      → IsGood nodes cells fresh
      → run operations (stack_of nodes cells fresh) ≡ some (lifo operations (values cells))
  unfolding run lifo
  run-stack_of [] nodes cells fresh good = refl
  run-stack_of (pushing v ∷ operations) nodes cells fresh good =
      ap (run operations) (push-stack_of v nodes cells fresh)
      ∙ run-stack_of operations (set fresh (node v (first cells)) nodes) ((fresh, v) ∷ cells)
          (fresh + 1) (push-IsGood v nodes cells fresh good)
  run-stack_of (popping ∷ operations) nodes [] fresh good =
      ap (λ (d : Popped A). after_pop d (run operations (stack_of nodes [] fresh)) (run operations))
        (pop_empty nodes fresh)
      ∙ ap (cons_some none) (run-stack_of operations nodes [] fresh good)
  run-stack_of (popping ∷ operations) nodes ((p, v) ∷ cells) fresh good =
      let next = pop-stack_of v p nodes cells fresh good in
      ap
        (λ (d : Popped A).
          after_pop d (run operations (stack_of nodes ((p, v) ∷ cells) fresh)) (run operations))
        next.0
      ∙ ap (cons_some (some v)) (run-stack_of operations (remove p nodes) cells fresh next.1)

  -- Whatever is pushed and popped, a stack gives the latest value first, throws exactly when it is
  -- empty, and never follows a pointer without a node.
  pub run-lifo :
      (operations : List (Operation A)) → run operations (empty {A = A}) ≡ some (lifo operations [])
  run-lifo operations = run-stack_of operations [] [] 1 (tt, tt, tt, omega arith)
