-- ===== src/Queue/Stored.antt =====
-- `enqueue` and `dequeue` of cpp-source/queue.hpp on a chain of nodes.
use libjaypea.Base.{
  ℕ, suc, ◌+◌, ◌-◌, ◌≤◌, [], ◌∷◌, ◌++◌, false, ◌==◌, some, ◌≡◌, refl, ap, ◌∙◌, arith, length,
  length-append,
}
use libjaypea.Base.Tables.{
  Table, find, set, remove, find-set_same, find-set_other, find-remove_other,
}
use libjaypea.Base.Cells.{apart_sym, first, NotIn, IsDistinct, IsBelow, IsBelow-next, NotIn-fresh}
use libjaypea.Queue.{QueueNode, node, Queue, thrown, taken, enqueue, dequeue}
use libjaypea.Queue.Linked.{last, IsLinked, IsLinked-set, IsLinked-remove, NotIn-last, linked-End}

module _ {ℓ} {A : Type ℓ} where
  abbrev pub queue_of : Table (QueueNode A) → Table A → ℕ → Queue A
  queue_of nodes cells fresh = record {
    head = last cells;
    tail = first cells;
    size = length cells;
    nodes = nodes;
    fresh = fresh;
  }

  abbrev pub IsGood : Table (QueueNode A) → Table A → ℕ → Type ℓ
  IsGood nodes cells fresh =
      IsLinked nodes 0 cells × IsDistinct cells × IsBelow fresh cells × (1 ≤ fresh)

  IsBelow-end :
      (fresh : ℕ) (v : A) (cells : Table A)
      → 1 ≤ fresh
      → IsBelow (fresh + 1) cells
      → IsBelow (fresh + 1) (cells ++ (fresh, v) ∷ [])
  IsBelow-end fresh v [] positive below = (positive, omega arith, tt)
  IsBelow-end fresh v (c ∷ cells) positive (one, less, below) =
      (one, less, IsBelow-end fresh v cells positive below)

  NotIn-end :
      (p fresh : ℕ) (v : A) (cells : Table A)
      → (p == fresh) ≡ false
      → NotIn p cells
      → NotIn p (cells ++ (fresh, v) ∷ [])
  NotIn-end p fresh v [] apart free = (apart, tt)
  NotIn-end p fresh v (c ∷ cells) apart (other, free) =
      (other, NotIn-end p fresh v cells apart free)

  IsDistinct-end :
      (fresh : ℕ) (v : A) (cells : Table A)
      → NotIn fresh cells
      → IsDistinct cells
      → IsDistinct (cells ++ (fresh, v) ∷ [])
  IsDistinct-end fresh v [] free distinct = (tt, tt)
  IsDistinct-end fresh v ((p, value) ∷ cells) (apart, free) (here_apart, distinct) = (
    NotIn-end p fresh v cells (apart_sym fresh p apart) here_apart,
    IsDistinct-end fresh v cells free distinct,
  )

  last_end :
      (fresh : ℕ) (v : A) (c : ℕ × A) (cells : Table A)
      → last ((c ∷ cells) ++ (fresh, v) ∷ []) ≡ fresh
  last_end fresh v c [] = refl
  last_end fresh v c (d ∷ cells) = last_end fresh v d cells

  last_positive :
      (fresh : ℕ) (c : ℕ × A) (cells : Table A)
      → IsBelow fresh (c ∷ cells)
      → (last (c ∷ cells) == 0) ≡ false
  last_positive fresh (p, value) [] (positive, less, below) = ground arith
  last_positive fresh c (d ∷ cells) (positive, less, below) = last_positive fresh d cells below

  abbrev Enqueued : A → Table (QueueNode A) → Table A → ℕ → Type ℓ
  Enqueued v nodes cells fresh =
      (next : Table (QueueNode A)) × (enqueue v (queue_of nodes cells fresh)
        ≡ some (queue_of next (cells ++ (fresh, v) ∷ []) (fresh + 1)))
      × IsGood next (cells ++ (fresh, v) ∷ []) (fresh + 1)

  pub enqueue_lem :
      (v : A) (nodes : Table (QueueNode A)) (cells : Table A) (fresh : ℕ)
      → IsGood nodes cells fresh
      → Enqueued v nodes cells fresh
  unfolding enqueue
  enqueue_lem v nodes [] fresh (linked, distinct, below, positive) = (
    set fresh (node v 0 0) nodes,
    refl,
    (
      (find-set_same fresh (node v 0 0) nodes, tt),
      (tt, tt),
      (positive, omega arith, tt),
      omega arith,
    ),
  )
  enqueue_lem v nodes ((p, value) ∷ cells) fresh (linked, distinct, below, positive) =
      let free = NotIn-fresh fresh ((p, value) ∷ cells) below in
      let end = linked-End nodes 0 (p, value) cells fresh v linked distinct free in
      let there = last ((p, value) ∷ cells) in
      let found : find there (set fresh (node v 0 there) nodes) ≡ some (node end.0 0 end.1) =
        find-set_other fresh there (node v 0 there) nodes
          (apart_sym there fresh (NotIn-last fresh (p, value) cells free))
        ∙ end.2 in
      let nonzero : (p == 0) ≡ false = ground arith in
      let size : suc (length cells) + 1 ≡ suc (length (cells ++ (fresh, v) ∷ [])) =
        omega (arith, length-append cells ((fresh, v) ∷ [])) in
      (
        set there (node end.0 fresh end.1) (set fresh (node v 0 there) nodes),
        rw
            (
              last_positive fresh (p, value) cells below,
              found,
              nonzero,
              size,
              last_end fresh v (p, value) cells,
            )
            refl,
        (
          end.3,
          IsDistinct-end fresh v ((p, value) ∷ cells) free distinct,
          IsBelow-end fresh v ((p, value) ∷ cells) positive
              (IsBelow-next fresh ((p, value) ∷ cells) below),
          omega arith,
        ),
      )

  abbrev Taken : A → Table (QueueNode A) → ℕ → Table A → ℕ → Type ℓ
  Taken v nodes p cells fresh =
      (next : Table (QueueNode A)) × (dequeue (queue_of nodes ((p, v) ∷ cells) fresh)
        ≡ taken v (queue_of next cells fresh))
      × IsGood next cells fresh

  pub dequeue_lem :
      (v : A) (nodes : Table (QueueNode A)) (p : ℕ) (cells : Table A) (fresh : ℕ)
      → IsGood nodes ((p, v) ∷ cells) fresh
      → Taken v nodes p cells fresh
  unfolding dequeue
  dequeue_lem v nodes p [] fresh ((found, linked), distinct, (one, less, below), positive) =
      let nonzero : (p == 0) ≡ false = ground arith in
      (remove p nodes, rw (nonzero, found) refl, (tt, tt, tt, positive))
  dequeue_lem v nodes p ((q, w) ∷ cells) fresh
        (
          (found, (found_next, linked)),
          ((apart, free), (here_free, distinct)),
          (one, less, (one_next, less_next, below)),
          positive,
        ) =
      let nonzero : (p == 0) ≡ false = ground arith in
      let some_next : (q == 0) ≡ false = ground arith in
      let size : suc (suc (length cells)) - 1 ≡ suc (length cells) = omega arith in
      let older = set q (node w (first cells) 0) nodes in
      (
        remove p older,
        rw (nonzero, found, some_next, found_next)
            (ap
              (λ (n : ℕ). taken v (record {
                head = last ((q, w) ∷ cells);
                tail = q;
                size = n;
                nodes = remove p older;
                fresh = fresh;
              }))
              size),
        (
          (
            find-remove_other p q older apart ∙ find-set_same q (node w (first cells) 0) nodes,
            IsLinked-remove p older q cells free
                (IsLinked-set q (node w (first cells) 0) nodes q cells here_free linked),
          ),
          (here_free, distinct),
          (one_next, less_next, below),
          positive,
        ),
      )

  pub dequeue_empty :
      (nodes : Table (QueueNode A)) (fresh : ℕ) → dequeue (queue_of nodes [] fresh) ≡ thrown
  unfolding dequeue
  dequeue_empty nodes fresh = refl
