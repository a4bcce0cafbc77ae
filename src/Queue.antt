-- ===== src/Queue.antt =====
-- cpp-source/queue.hpp: a queue of linked nodes. A pointer is a number, the null pointer 0, and the
-- nodes that are allocated stand in a table.
pub mod Linked
pub mod Stored
pub mod Fifo
use libjaypea.Base.{ℕ, ◌+◌, ◌-◌, [], ◌∷◌, List, Bool, ◌==◌, if◌then◌else◌, Option, none, some}
use libjaypea.Base.Tables.{Table, find, set, remove}

pub data QueueNode {ℓ} (A : Type ℓ) : Type ℓ where
  node : (value : A) → (prev : ℕ) → (next : ℕ) → QueueNode A

-- `fresh` is the next pointer that `new` gives.
pub record Queue {ℓ} (A : Type ℓ) : Type ℓ where
  pub head : ℕ
  pub tail : ℕ
  pub size : ℕ
  pub nodes : Table (QueueNode A)
  pub fresh : ℕ

-- `dequeue` throws, follows a pointer without a node, or gives a value.
pub data Dequeued {ℓ} (A : Type ℓ) : Type ℓ where
  thrown : Dequeued A
  dangling : Dequeued A
  taken : A → Queue A → Dequeued A

module _ {ℓ} {A : Type ℓ} where
  abbrev pub empty : Queue A
  empty = record { head = 0; tail = 0; size = 0; nodes = []; fresh = 1 }

  abbrev pub with_prev : ℕ → QueueNode A → QueueNode A
  with_prev p (node value prev next) = node value p next

  abbrev pub with_next : ℕ → QueueNode A → QueueNode A
  with_next n (node value prev next) = node value prev n

  abbrev pub change :
      ℕ
      → (QueueNode A → QueueNode A)
      → Table (QueueNode A)
      → Option (QueueNode A)
      → Option (Table (QueueNode A))
  change p f nodes none = none
  change p f nodes (some found) = some (set p (f found) nodes)

  -- `new_node->next->prev = this->head`, where there is a next node.
  abbrev pub link_back : ℕ → ℕ → Table (QueueNode A) → Option (Table (QueueNode A))
  link_back new next nodes =
      if next == 0 then some nodes else change next (with_prev new) nodes (find next nodes)

  abbrev pub with_nodes : Queue A → Option (Table (QueueNode A)) → Option (Queue A)
  with_nodes q none = none
  with_nodes q (some nodes) = some (record q {
    head = q.fresh;
    tail = if q.tail == 0 then q.fresh else q.tail;
    size = q.size + 1;
    nodes = nodes;
    fresh = q.fresh + 1;
  })

  -- `none` is a pointer without a node.
  unfoldable pub enqueue : A → Queue A → Option (Queue A)
  enqueue value q =
      with_nodes q (link_back q.fresh q.head (set q.fresh (node value 0 q.head) q.nodes))

  -- The node in front of the tail is the new tail.
  abbrev pub shorten : Queue A → A → ℕ → Option (Table (QueueNode A)) → Dequeued A
  shorten q value prev none = dangling
  shorten q value prev (some nodes) =
      taken value (record q { tail = prev; nodes = remove q.tail nodes; size = q.size - 1 })

  abbrev pub take_tail : Queue A → Option (QueueNode A) → Dequeued A
  take_tail q none = dangling
  take_tail q (some (node value prev next)) =
      if prev == 0
      then taken value
          (record q { head = 0; tail = 0; nodes = remove q.tail q.nodes; size = q.size - 1 })
      else shorten q value prev (change prev (with_next 0) q.nodes (find prev q.nodes))

  unfoldable pub dequeue : Queue A → Dequeued A
  dequeue q = if q.tail == 0 then thrown else take_tail q (find q.tail q.nodes)
