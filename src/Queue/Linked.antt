-- ===== src/Queue/Linked.antt =====
-- The nodes of cpp-source/queue.hpp as a chain from the tail to the head.
use libjaypea.Base.{ℕ, [], ◌∷◌, ◌++◌, false, ◌==◌, some, ◌≡◌, ◌∙◌}
use libjaypea.Base.Tables.{
  Table, find, set, remove, find-set_same, find-set_other, find-remove_other,
}
use libjaypea.Base.Cells.{apart_sym, first, NotIn, IsDistinct}
use libjaypea.Queue.{QueueNode, node}

module _ {ℓ} {A : Type ℓ} where
  abbrev pub last : Table A → ℕ
  last [] = 0
  last ((p, value) ∷ []) = p
  last ((p, value) ∷ c ∷ cells) = last (c ∷ cells)

  -- The nodes of the cells, each with its neighbours.
  abbrev pub IsLinked : Table (QueueNode A) → ℕ → Table A → Type ℓ
  IsLinked nodes older [] = Unit
  IsLinked nodes older ((p, value) ∷ cells) =
      (find p nodes ≡ some (node value (first cells) older)) × IsLinked nodes p cells

  pub IsLinked-set :
      (k : ℕ) (n : QueueNode A) (nodes : Table (QueueNode A)) (older : ℕ) (cells : Table A)
      → NotIn k cells
      → IsLinked nodes older cells
      → IsLinked (set k n nodes) older cells
  IsLinked-set k n nodes older [] free linked = tt
  IsLinked-set k n nodes older ((p, value) ∷ cells) (apart, free) (found, linked) =
      (find-set_other k p n nodes apart ∙ found, IsLinked-set k n nodes p cells free linked)

  pub IsLinked-remove :
      (k : ℕ) (nodes : Table (QueueNode A)) (older : ℕ) (cells : Table A)
      → NotIn k cells
      → IsLinked nodes older cells
      → IsLinked (remove k nodes) older cells
  IsLinked-remove k nodes older [] free linked = tt
  IsLinked-remove k nodes older ((p, value) ∷ cells) (apart, free) (found, linked) =
      (find-remove_other k p nodes apart ∙ found, IsLinked-remove k nodes p cells free linked)

  pub NotIn-last :
      (p : ℕ) (c : ℕ × A) (cells : Table A) → NotIn p (c ∷ cells) → (last (c ∷ cells) == p) ≡ false
  NotIn-last p (q, value) [] (apart, free) = apart_sym p q apart
  NotIn-last p c (d ∷ cells) (apart, free) = NotIn-last p d cells free

  abbrev pub End : Table (QueueNode A) → ℕ → Table A → ℕ → A → Type ℓ
  End nodes older cells new v =
      (value : A) × (next : ℕ) × (find (last cells) nodes ≡ some (node value 0 next))
      × IsLinked (set (last cells) (node value new next) (set new (node v 0 (last cells)) nodes))
          older (cells ++ (new, v) ∷ [])

  pub linked-End :
      (nodes : Table (QueueNode A)) (older : ℕ) (c : ℕ × A) (cells : Table A) (new : ℕ) (v : A)
      → IsLinked nodes older (c ∷ cells)
      → IsDistinct (c ∷ cells)
      → NotIn new (c ∷ cells)
      → End nodes older (c ∷ cells) new v
  linked-End nodes older (p, value) [] new v (found, linked) distinct (apart, free) = (
    value,
    older,
    found,
    (
      find-set_same p (node value new older) (set new (node v 0 p) nodes),
      (
        find-set_other p new (node value new older) (set new (node v 0 p) nodes)
              (apart_sym new p apart)
            ∙ find-set_same new (node v 0 p) nodes,
        tt,
      ),
    ),
  )
  linked-End nodes older (p, value) (d ∷ cells) new v (found, linked) (here_apart, distinct)
        (apart, free) =
      let rest = linked-End nodes p d cells new v linked distinct free in
      (
        rest.0,
        rest.1,
        rest.2,
        (
          find-set_other (last (d ∷ cells)) p (node rest.0 new rest.1)
                (set new (node v 0 (last (d ∷ cells))) nodes) (NotIn-last p d cells here_apart)
              ∙ (find-set_other new p (node v 0 (last (d ∷ cells))) nodes apart ∙ found),
          rest.3,
        ),
      )
