-- ===== src/Jph2/Owners.antt =====
-- Who may change what through the handlers of cpp-source/examples/jph2.
use libjaypea.Base.{
  Bytes, codes, equal, equal_iff, if◌then◌else◌, Option, none, some, ◌≡◌, refl, sym, ap, ◌⊎◌, inl,
  inr, Bool-cases,
}
use libjaypea.Json.{JsonObject, array_values}
use libjaypea.Json.Access.{get_str}
use libjaypea.PgSqlModel.{Model, Database, Reply, returned, null_pointer, thrown, undefined}
use libjaypea.PgSqlModel.Operations.{where_equal, delete}
use libjaypea.Jph2.{
  Result, ok, raised, crashed, Action, pure, ◌>>=◌, after, or_raise, object_of, first_item,
  no_such_item, insufficient_access,
}
use libjaypea.Jph2.Records.{if_owner, for_owner, updated, update_item, delete_item, shown_reply}

-- The first row of a reply belongs to the token.
abbrev pub IsOwner : Reply → JsonObject → Type 0
IsOwner reply token =
    (found row : JsonObject) × (owner : Bytes) × (reply ≡ returned found)
    × (first_item (array_values found) ≡ some row)
    × (get_str (codes "owner_id") row ≡ some owner)
    × (get_str (codes "id") token ≡ some owner)

-- A handler that ends without a change.
abbrev pub IsRefusal : Result Bytes → Type 0
IsRefusal r = (r ≡ ok no_such_item) ⊎ (r ≡ ok insufficient_access) ⊎ (r ≡ raised) ⊎ (r ≡ crashed)

-- A handler that ends so, with the database as it was.
abbrev pub Unchanged {ℓ} : {D : Type ℓ} → Result Bytes × D → D → Type ℓ
Unchanged r d = IsRefusal r.0 × (r.1 ≡ d)

module _ {ℓ} {D : Type ℓ} (act : Action D Bytes) (d : D) where
  same_owner :
      (owner id : Bytes)
      → Unchanged ((if equal owner id then act else pure insufficient_access) d) d ⊎ (owner ≡ id)
  same_owner owner id = elim (Bool-cases (equal owner id)) [
    | inl same ↦ inr ((equal_iff owner id).0 same)
    | inr other ↦ inl (rw other (inr (inl refl), refl))
  ]

  tested_owner :
      (owner id : Option Bytes)
      → Unchanged
          ((do
            o ← or_raise owner
            i ← or_raise id
            if equal o i then act else pure insufficient_access)
            d)
          d
        ⊎ ((both : Bytes) × (owner ≡ some both) × (id ≡ some both))
  tested_owner none id = inl (inr (inr (inl refl)), refl)
  tested_owner (some owner) none = inl (inr (inr (inl refl)), refl)
  tested_owner (some owner) (some id) = elim (same_owner owner id) [
    | inl refused ↦ inl refused
    | inr same ↦ inr (owner, refl, ap some (sym same))
  ]

module _ {ℓ} {D : Type ℓ} where
  pub object_of-state : (answer : Reply × D) → (object_of answer).1 ≡ answer.1
  object_of-state (returned o, d) = refl
  object_of-state (null_pointer, d) = refl
  object_of-state (thrown, d) = refl
  object_of-state (undefined, d) = refl

  pub after-state :
      {A : Type 0} (f : A → Action D Bytes) (r : Result A) (d : D)
      → ((a : A) → (f a d).1 ≡ d)
      → (after f r d).1 ≡ d
  after-state f (ok a) d h = h a
  after-state f raised d h = refl
  after-state f crashed d h = refl

module _ {ℓ} {D : Type ℓ} (db : Database D) (token : JsonObject) where
  if_owner-IsOwner :
      (first : Option JsonObject) (found : JsonObject) (act : Action D Bytes) (d : D)
      → first_item (array_values found) ≡ first
      → Unchanged (if_owner db first token act d) d ⊎ IsOwner (returned found) token
  if_owner-IsOwner none found act d h = inl (inl refl, refl)
  if_owner-IsOwner (some row) found act d h =
      elim (tested_owner act d (get_str (codes "owner_id") row) (get_str (codes "id") token)) [
        | inl refused ↦ inl refused
        | inr (owner, e, f) ↦ inr (found, row, owner, refl, h, e, f)
      ]

  found-IsOwner :
      (act : Action D Bytes) (answer : Reply × D)
      → Unchanged
          (after
            (λ found. if_owner db (first_item (array_values found)) token act)
            (object_of answer).0
            (object_of answer).1)
          answer.1
        ⊎ IsOwner answer.0 token
  found-IsOwner act (returned found, d) =
      if_owner-IsOwner (first_item (array_values found)) found act d refl
  found-IsOwner act (null_pointer, d) = inl (inr (inr (inr refl)), refl)
  found-IsOwner act (thrown, d) = inl (inr (inr (inl refl)), refl)
  found-IsOwner act (undefined, d) = inl (inr (inr (inr refl)), refl)

  for_owner-IsOwner :
      (m : Model) (json : JsonObject) (act : Bytes → Action D Bytes) (id : Bytes) (d : D)
      → get_str (codes "id") json ≡ some id
      → Unchanged (for_owner db m json token act d) (where_equal db m (codes "id") id d).1
        ⊎ IsOwner (where_equal db m (codes "id") id d).0 token
  for_owner-IsOwner m json act id d h =
      rw h (found-IsOwner (act id) (where_equal db m (codes "id") id d))

  -- A request to update or to delete a row, of messages, threads or points, reads the rows of its
  -- `id`. If the first of them does not carry the `id` of the token as its `owner_id`, both
  -- handlers end in one of the two errors, an exception or a crash, and the database stays as that
  -- reading left it.
  pub update_item-IsOwner :
      (m : Model) (json : JsonObject) (id : Bytes) (d : D)
      → get_str (codes "id") json ≡ some id
      → (Unchanged (update_item db m json token d) (where_equal db m (codes "id") id d).1
          × Unchanged (delete_item db m json token d) (where_equal db m (codes "id") id d).1)
        ⊎ IsOwner (where_equal db m (codes "id") id d).0 token
  unfolding update_item delete_item
  update_item-IsOwner m json id d h = elim (for_owner-IsOwner m json (updated db m json) id d h) [
    | inl update_refused ↦
        elim (for_owner-IsOwner m json (λ i. shown_reply db (delete db m i)) id d h) [
          | inl delete_refused ↦ inl (update_refused, delete_refused)
          | inr own ↦ inr own
        ]
    | inr own ↦ inr own
  ]
