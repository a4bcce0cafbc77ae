-- ===== src/Stack.antt =====
-- cpp-source/stack.hpp: a stack of linked nodes. A pointer is a number, the null pointer 0, and the
-- nodes that are allocated stand in a table.
pub mod Lifo
use libjaypea.Base.{ℕ, ◌+◌, ◌-◌, [], List, ◌==◌, if◌then◌else◌, Option, none, some}
use libjaypea.Base.Tables.{Table, find, set, remove}

pub data StackNode {ℓ} (A : Type ℓ) : Type ℓ where
  node : (value : A) → (next : ℕ) → StackNode A

-- `fresh` is the next pointer that `new` gives.
pub record Stack {ℓ} (A : Type ℓ) : Type ℓ where
  pub head : ℕ
  pub size : ℕ
  pub nodes : Table (StackNode A)
  pub fresh : ℕ

-- `pop` throws, follows a pointer without a node, or gives a value.
pub data Popped {ℓ} (A : Type ℓ) : Type ℓ where
  thrown : Popped A
  dangling : Popped A
  popped : A → Stack A → Popped A

module _ {ℓ} {A : Type ℓ} where
  abbrev pub empty : Stack A
  empty = record { head = 0; size = 0; nodes = []; fresh = 1 }

  unfoldable pub push : A → Stack A → Stack A
  push value s = record s {
    head = s.fresh;
    size = s.size + 1;
    nodes = set s.fresh (node value s.head) s.nodes;
    fresh = s.fresh + 1;
  }

  abbrev pub take_head : Stack A → Option (StackNode A) → Popped A
  take_head s none = dangling
  take_head s (some (node value next)) =
      popped value (record s { head = next; nodes = remove s.head s.nodes; size = s.size - 1 })

  unfoldable pub pop : Stack A → Popped A
  pop s = if s.head == 0 then thrown else take_head s (find s.head s.nodes)
