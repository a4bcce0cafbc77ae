-- ===== src/Jph2/Grants.antt =====
-- What `create_user` of cpp-source/examples/jph2/users.cpp writes.
use libjaypea.Base.{
  Bytes, codes, true, if◌then◌else◌, ◌≤◌, ltb, length, Option, none, some, ◌≡◌, refl, ◌⊎◌, inl, inr,
  Bool-cases, arith,
}
use libjaypea.Json.{
  JsonObject, string_value, set_string, object_values, array_values, Fields, get, put,
}
use libjaypea.PgSqlModel.{Database, Reply, returned}
use libjaypea.PgSqlModel.Operations.{insert_into}
use libjaypea.Jph2.{◌>>=◌, member_values, dict_of, first_item, users, access}
use libjaypea.Jph2.Users.{hash_found, hash_password, is_string, admin_row}

module _ (hash : Bytes → Bytes) where
  -- The values of a request have a text for the password.
  abbrev pub HasText : Fields → Type 0
  HasText given =
      (password : JsonObject) × (get (codes "password") given ≡ some password)
      × (is_string password ≡ true)

  -- The values of a request, and those that are stored. A text for the password has 16 bytes or
  -- more and its hash is put in its place; without such a text the values are stored as given.
  abbrev pub IsStored : Fields → Fields → Type 0
  IsStored given values =
      (¬ HasText given × (values ≡ given))
      ⊎ ((password : JsonObject) × (get (codes "password") given ≡ some password)
          × (is_string password ≡ true)
          × (16 ≤ length (string_value password))
          × (values
              ≡ put (codes "password") (set_string (hash (string_value password)) password) given))

  long_password :
      (password : JsonObject) (given values : Fields)
      → (if ltb (length (string_value password)) 16
          then none
          else some
              (put (codes "password") (set_string (hash (string_value password)) password) given))
        ≡ some values
      → (16 ≤ length (string_value password))
        × (values
            ≡ put (codes "password") (set_string (hash (string_value password)) password) given)
  long_password password given values h =
      elim (Bool-cases (ltb (length (string_value password)) 16)) [
        | inl short ↦ cc (rw short at h)
        | inr long ↦ (ground (arith, long), cc (rw long at h))
      ]

  pub hash_password-IsStored :
      (given values : Fields)
      → hash_password hash is_string given ≡ some values
      → IsStored given values
  hash_password-IsStored given values h = go (get (codes "password") given) refl h
    where
      go :
          (found : Option JsonObject)
          → get (codes "password") given ≡ found
          → hash_found hash is_string found given ≡ some values
          → IsStored given values
      go none e t = inl (λ (password, g, text). cc (e, g), cc)
      go (some password) e t = elim (Bool-cases (is_string password)) [
        | inl text ↦
            let (long, put) = long_password password given values (rw text at t) in
            inr (password, e, text, long, put)
        | inr other ↦ inl (λ (password', g, text). cc (e, g, other, text), cc (rw other at t))
      ]

module _ {ℓ} {D : Type ℓ} (db : Database D) where
  -- The `access` row of an administrator is inserted.
  abbrev pub Grants : D → D → Type ℓ
  Grants d e = (id : Bytes) × (e ≡ (insert_into db access (admin_row id) d).1)

  -- The values are inserted into `users`, and then, if there was no user, an administrator.
  abbrev pub Registers : Option JsonObject → Fields → D → D → Type ℓ
  Registers first values d e =
      let made = (insert_into db users (dict_of values) d).1 in
      (e ≡ made) ⊎ ((first ≡ none) × Grants made e)

  -- What `create_user` writes behind its reading of the users.
  abbrev pub Creates : (Bytes → Bytes) → JsonObject → Reply → D → D → Type ℓ
  Creates hash json reply d e =
      (others : JsonObject) × (given values : Fields) × (reply ≡ returned others)
      × (member_values (get (codes "values") (object_values json)) ≡ some given)
      × IsStored hash given values
      × Registers (first_item (array_values others)) values d e
