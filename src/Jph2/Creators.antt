-- ===== src/Jph2/Creators.antt =====
-- Who may create what through the handlers of cpp-source/examples/jph2.
use libjaypea.Base.{
  Bytes, codes, equal_refl, equal_iff, Bool, true, false, if◌then◌else◌, Option, none, some, Dict,
  lookup, insert, lookup-insert, ◌≡◌, refl, ap, Bool-cases, equal, ◌∙◌, ◌⊎◌, inl, inr,
}
use libjaypea.Json.{JsonObject, object_values, array_values, Fields, Items, nil, item, get}
use libjaypea.Json.Access.{get_str}
use libjaypea.PgSqlModel.{Model, Database, Reply, returned, null_pointer, thrown, undefined}
use libjaypea.PgSqlModel.Operations.{where_equal, insert_into}
use libjaypea.Jph2.{
  Action, pure, ◌>>=◌, after, or_raise, or_crash, object_of, member_values, dict_of, access,
}
use libjaypea.Jph2.Records.{
  shown, shown_reply, typed, any_type, is_blogger, create_item, insert_owned, bloggers_only,
}
use libjaypea.Jph2.Owners.{object_of-state, after-state}

-- A row of `access` with the type of an administrator, `1`, or of a blogger, `2`.
abbrev pub IsWriter : JsonObject → Type 0
IsWriter row =
    (get_str (codes "access_type_id") row ≡ some (codes "1"))
    ⊎ (get_str (codes "access_type_id") row ≡ some (codes "2"))

abbrev pub HasWriter : Items → Type 0
HasWriter nil = ⊥
HasWriter (item row rows) = IsWriter row ⊎ HasWriter rows

any_type-HasWriter : (rows : Items) → any_type is_blogger rows ≡ some true → HasWriter rows
unfolding any_type
any_type-HasWriter nil h = cc
any_type-HasWriter (item row rows) h =
    go (get_str (codes "access_type_id") row) (any_type-HasWriter rows) refl h
  where
    blogger :
        (type : Bytes)
        → get_str (codes "access_type_id") row ≡ some type
        → is_blogger type ≡ true
        → IsWriter row
    blogger type e writes = elim (Bool-cases (equal type (codes "1"))) [
      | inl one ↦ inl (e ∙ ap some ((equal_iff type (codes "1")).0 one))
      | inr other ↦ inr (e ∙ ap some ((equal_iff type (codes "2")).0 (rw other at writes)))
    ]

    go :
        (type : Option Bytes)
        → (any_type is_blogger rows ≡ some true → HasWriter rows)
        → get_str (codes "access_type_id") row ≡ type
        → typed is_blogger type (any_type is_blogger rows) ≡ some true
        → HasWriter (item row rows)
    go none rest e t = cc
    go (some type) rest e t = elim (Bool-cases (is_blogger type)) [
      | inl writes ↦ inl (blogger type e writes)
      | inr other ↦ inr (rest (rw other at t))
    ]

module _ {ℓ} {D : Type ℓ} (db : Database D) (token : JsonObject) where
  -- Values whose owner is the token are inserted.
  abbrev pub InsertsOwn : Model → D → D → Type ℓ
  InsertsOwn m d e =
      (values : Dict JsonObject) × (owner : JsonObject) × (get (codes "id") (object_values token)
        ≡ some owner)
      × (lookup (codes "owner_id") values ≡ some owner)
      × (e ≡ (insert_into db m values d).1)

  shown_reply-state : (ask : D → Reply × D) (d : D) → (shown_reply db ask d).1 ≡ (ask d).1
  shown_reply-state ask d =
      after-state (λ o. pure (shown o)) (object_of (ask d)).0 (object_of (ask d)).1 (λ a. refl)
      ∙ object_of-state (ask d)

  insert_owned-InsertsOwn :
      (m : Model) (json : JsonObject) (d : D)
      → ((insert_owned db m json token d).1 ≡ d) ⊎ InsertsOwn m d (insert_owned db m json token d).1
  unfolding insert_owned
  insert_owned-InsertsOwn m json d =
      made (member_values (get (codes "values") (object_values json)))
        (get (codes "id") (object_values token)) refl
    where
      made :
          (values : Option Fields) (owner : Option JsonObject)
          → get (codes "id") (object_values token) ≡ owner
          → let r =
              (do
                v ← or_crash values
                o ← or_crash owner
                shown_reply db (insert_into db m (insert (codes "owner_id") o (dict_of v))))
                d in
            (r.1 ≡ d) ⊎ InsertsOwn m d r.1
      made none owner e = inl refl
      made (some values) none e = inl refl
      made (some values) (some owner) e =
          let all_values : Dict JsonObject = insert (codes "owner_id") owner (dict_of values) in
          inr (
            all_values,
            owner,
            e,
            lookup-insert (codes "owner_id") (codes "owner_id") owner (dict_of values)
                ∙ rw (equal_refl (codes "owner_id")) refl,
            shown_reply-state (insert_into db m all_values) d,
          )

  -- The reply of the query of `access` has a row of an administrator or a blogger.
  abbrev pub Allows : Reply → Type 0
  Allows reply = (found : JsonObject) × (reply ≡ returned found) × HasWriter (array_values found)

  abbrev if_allowed : Model → JsonObject → Bool → Action D Bytes
  if_allowed m json allowed = if allowed then insert_owned db m json token else pure bloggers_only

  allowed-InsertsOwn :
      (m : Model) (json : JsonObject) (allowed : Option Bool) (d : D)
      → let r = (do a ← or_raise allowed; if_allowed m json a) d in
        (r.1 ≡ d) ⊎ ((allowed ≡ some true) × InsertsOwn m d r.1)
  allowed-InsertsOwn m json none d = inl refl
  allowed-InsertsOwn m json (some false) d = inl refl
  allowed-InsertsOwn m json (some true) d = elim (insert_owned-InsertsOwn m json d) [
    | inl same ↦ inl same
    | inr own ↦ inr (refl, own)
  ]

  answered-InsertsOwn :
      (m : Model) (json : JsonObject) (answer : Reply × D)
      → let r =
          after
            (if_allowed m json)
            (after
              (λ found. or_raise (any_type is_blogger (array_values found)))
              (object_of answer).0
              (object_of answer).1).0
            (after
              (λ found. or_raise (any_type is_blogger (array_values found)))
              (object_of answer).0
              (object_of answer).1).1 in
        (r.1 ≡ answer.1) ⊎ (Allows answer.0 × InsertsOwn m answer.1 r.1)
  answered-InsertsOwn m json (returned found, d) =
      elim (allowed-InsertsOwn m json (any_type is_blogger (array_values found)) d) [
        | inl same ↦ inl same
        | inr (allowed, own) ↦
            inr ((found, refl, any_type-HasWriter (array_values found) allowed), own)
      ]
  answered-InsertsOwn m json (null_pointer, d) = inl refl
  answered-InsertsOwn m json (thrown, d) = inl refl
  answered-InsertsOwn m json (undefined, d) = inl refl

  -- For a token with an `id`: a request to create a message or a thread reads the rows of `access`
  -- that belong to the token. The database then stays as that reading left it, or one of the rows
  -- has the type `1` of an administrator or `2` of a blogger, and the database is as one insert
  -- leaves it, of values whose `owner_id` is the `id` of the token, whatever the request gave.
  pub create_item-InsertsOwn :
      (m : Model) (json : JsonObject) (id : Bytes) (d : D)
      → get_str (codes "id") token ≡ some id
      → let asked = where_equal db access (codes "owner_id") id d in
        ((create_item db m json token d).1 ≡ asked.1)
        ⊎ (Allows asked.0 × InsertsOwn m asked.1 (create_item db m json token d).1)
  unfolding create_item
  create_item-InsertsOwn m json id d h =
      rw h (answered-InsertsOwn m json (where_equal db access (codes "owner_id") id d))
