-- ===== src/Queue/Fifo.antt =====
-- cpp-source/queue.hpp keeps the order of arrival.
use libjaypea.Base.{
  cons_some, ℕ, ◌+◌, [], ◌∷◌, ◌++◌, List, Option, none, some, ◌≡◌, refl, ap, ◌∙◌, arith,
}
use libjaypea.Base.Tables.{Table}
use libjaypea.Queue.{QueueNode, Queue, empty, Dequeued, thrown, dangling, taken, enqueue, dequeue}
use libjaypea.Queue.Stored.{queue_of, IsGood, enqueue_lem, dequeue_lem, dequeue_empty}

pub data Operation {ℓ} (A : Type ℓ) : Type ℓ where
  enqueuing : A → Operation A
  dequeuing : Operation A

module _ {ℓ} {A : Type ℓ} where
  abbrev pub after_enqueue :
      Option (Queue A) → (Queue A → Option (List (Option A))) → Option (List (Option A))
  after_enqueue none next = none
  after_enqueue (some q) next = next q

  abbrev pub after_dequeue :
      Dequeued A
      → Option (List (Option A))
      → (Queue A → Option (List (Option A)))
      → Option (List (Option A))
  after_dequeue thrown same next = cons_some none same
  after_dequeue dangling same next = none
  after_dequeue (taken value q) same next = cons_some (some value) (next q)

  -- What the calls of `dequeue` give, `none` for an exception. No answers are a pointer without a
  -- node.
  unfoldable pub run : List (Operation A) → Queue A → Option (List (Option A))
  run [] q = some []
  run (enqueuing value ∷ operations) q = after_enqueue (enqueue value q) (run operations)
  run (dequeuing ∷ operations) q = after_dequeue (dequeue q) (run operations q) (run operations)

  -- The answers of a list to which values come at the end, and from which they go at the front.
  unfoldable pub fifo : List (Operation A) → List A → List (Option A)
  fifo [] values = []
  fifo (enqueuing value ∷ operations) values = fifo operations (values ++ value ∷ [])
  fifo (dequeuing ∷ operations) [] = none ∷ fifo operations []
  fifo (dequeuing ∷ operations) (value ∷ values) = some value ∷ fifo operations values

  abbrev values : Table A → List A
  values [] = []
  values ((p, value) ∷ cells) = value ∷ values cells

  values_end :
      (cells : Table A) (p : ℕ) (v : A) → values (cells ++ (p, v) ∷ []) ≡ values cells ++ v ∷ []
  values_end [] p v = refl
  values_end ((q, w) ∷ cells) p v = rw (values_end cells p v) refl

  run-queue_of :
      (operations : List (Operation A)) (nodes : Table (QueueNode A)) (cells : Table A) (fresh : ℕ)
      → IsGood nodes cells fresh
      → run operations (queue_of nodes cells fresh) ≡ some (fifo operations (values cells))
  unfolding run fifo
  run-queue_of [] nodes cells fresh good = refl
  run-queue_of (enqueuing v ∷ operations) nodes cells fresh good =
      let next = enqueue_lem v nodes cells fresh good in
      ap (λ (q : Option (Queue A)). after_enqueue q (run operations)) next.1
      ∙ (run-queue_of operations next.0 (cells ++ (fresh, v) ∷ []) (fresh + 1) next.2
          ∙ ap (λ (vs : List A). some (fifo operations vs)) (values_end cells fresh v))
  run-queue_of (dequeuing ∷ operations) nodes [] fresh good =
      let nothing : dequeue (queue_of nodes [] fresh) ≡ thrown = dequeue_empty nodes fresh in
      ap
        (λ (d : Dequeued A).
          after_dequeue d (run operations (queue_of nodes [] fresh)) (run operations))
        nothing
      ∙ ap (cons_some none) (run-queue_of operations nodes [] fresh good)
  run-queue_of (dequeuing ∷ operations) nodes ((p, v) ∷ cells) fresh good =
      let next = dequeue_lem v nodes p cells fresh good in
      ap
        (λ (d : Dequeued A).
          after_dequeue d (run operations (queue_of nodes ((p, v) ∷ cells) fresh)) (run operations))
        next.1
      ∙ ap (cons_some (some v)) (run-queue_of operations next.0 cells fresh next.2)

  -- Whatever comes and goes, a queue gives the values in the order in which they came, throws
  -- exactly when it is empty, and never follows a pointer without a node.
  pub run-fifo :
      (operations : List (Operation A)) → run operations (empty {A = A}) ≡ some (fifo operations [])
  run-fifo operations = run-queue_of operations [] [] 1 (tt, tt, tt, omega arith)
