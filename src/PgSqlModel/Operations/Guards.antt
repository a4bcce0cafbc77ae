-- ===== src/PgSqlModel/Operations/Guards.antt =====
-- What the operations of cpp-source/pgsql-model.cpp let through.
use libjaypea.Base.{
  Bytes, codes, equal, equal_iff, [], ◌∷◌, List, Bool, true, false, if◌then◌else◌, Option, none,
  some, Dict, lookup, ◌≡◌, refl, sym, ap, ◌∙◌, ◌⊎◌, inl, inr, Bool-cases,
}
use libjaypea.Json.{JsonObject}
use libjaypea.PgSqlModel.{Model, Column, has_column, error, Row, Database, returned}
use libjaypea.PgSqlModel.Rows.{row_to_json}
use libjaypea.PgSqlModel.Statements.{
  access_sql, with_location, insert_text, update_text, name_entry, value_entry, set_entry,
}
use libjaypea.PgSqlModel.Statements.Lists.{
  commas, entries, all_columns, insert_sql-commas, update_sql-commas,
}
use libjaypea.PgSqlModel.Operations.{
  bad_key, no_access, or_else, id_reply, insert_reply, password_field, access_reply, run_insert,
  insert_into, run_update, update, access,
}

module _ {ℓ} {D : Type ℓ} (db : Database D) where
  run_update-if :
      (b : Bool) (sql : Bytes) (d : D)
      → run_update db (if b then some sql else none) d
        ≡ (if b then (id_reply (db.exec sql d).0, (db.exec sql d).1) else (bad_key, d))
  run_update-if true sql d = refl
  run_update-if false sql d = refl

  run_insert-if :
      (m : Model) (b : Bool) (sql : Bytes) (d : D)
      → run_insert db m (if b then some sql else none) d ≡ (
          if b
          then (insert_reply (has_column m.cols (codes "id")) (db.exec sql d).0, (db.exec sql d).1)
          else (bad_key, d))
  run_insert-if m true sql d = refl
  run_insert-if m false sql d = refl

-- The message of an error, or the first row, whose password is the one that was given.
abbrev pub Admitted : List Column → Bytes → Option (List Row) → JsonObject → Type 0
Admitted cols password answer o =
    ((message : Bytes) × (o ≡ error message))
    ⊎ ((row : Row) × (rows : List Row) × (answer ≡ some (row ∷ rows))
        × (lookup (codes "password") row ≡ some (some password))
        × (row_to_json cols row ≡ some o))

returned_is : (o p : JsonObject) → returned o ≡ returned p → o ≡ p
returned_is o p h = cc h

or_else-Admitted :
    (cols : List Column) (password : Bytes) (row : Row) (rows : List Row) (o : JsonObject)
    (made : Option JsonObject)
    → lookup (codes "password") row ≡ some (some password)
    → row_to_json cols row ≡ made
    → or_else no_access made ≡ returned o
    → Admitted cols password (some (row ∷ rows)) o
or_else-Admitted cols password row rows o none found made h =
    inl (codes "Bad data.", sym (returned_is _ o h))
or_else-Admitted cols password row rows o (some p) found made h =
    inr (row, rows, refl, found, made ∙ ap some (returned_is p o h))

password_field-Admitted :
    (cols : List Column) (password : Bytes) (row : Row) (rows : List Row) (o : JsonObject)
    (found : Option (Option Bytes))
    → lookup (codes "password") row ≡ found
    → password_field cols password row found ≡ returned o
    → Admitted cols password (some (row ∷ rows)) o
password_field-Admitted cols password row rows o none found h =
    inl (codes "Bad data.", sym (returned_is _ o h))
password_field-Admitted cols password row rows o (some none) found h =
    inl (codes "Bad data.", sym (returned_is _ o h))
password_field-Admitted cols password row rows o (some (some text)) found h =
    elim (Bool-cases (equal text password)) [
      | inl same ↦
          let right : password_field cols password row (some (some text))
              ≡ or_else no_access (row_to_json cols row) =
            rw same refl in
          or_else-Admitted cols password row rows o (row_to_json cols row)
            (found ∙ ap (λ (t : Bytes). some (some t)) ((equal_iff text password).0 same)) refl
            (sym right ∙ h)
      | inr other ↦
          let wrong : password_field cols password row (some (some text))
              ≡ returned (error (codes "Bad password.")) =
            rw other refl in
          inl (codes "Bad password.", sym (returned_is _ o (sym wrong ∙ h)))
    ]

access_reply-Admitted :
    (cols : List Column) (password : Bytes) (answer : Option (List Row)) (o : JsonObject)
    → access_reply cols password answer ≡ returned o
    → Admitted cols password answer o
access_reply-Admitted cols password none o h = inl (codes "Bad data.", sym (returned_is _ o h))
access_reply-Admitted cols password (some []) o h =
    inl (codes "Bad username.", sym (returned_is _ o h))
access_reply-Admitted cols password (some (row ∷ rows)) o h =
    password_field-Admitted cols password row rows o (lookup (codes "password") row) refl h

module _ {ℓ} {D : Type ℓ} (db : Database D) (m : Model) where
  -- `Update` asks the database only when every name is a column. Its statement then sets each
  -- column to its quoted value, with commas between them; otherwise the database is as before.
  pub update-commas :
      (id : Bytes) (values : Dict JsonObject) (d : D)
      → update db m id values d ≡ (
          let answer =
            db.exec (update_text db.quote m id (commas (entries (set_entry db.quote) values))) d in
          if all_columns m.cols values then (id_reply answer.0, answer.1) else (bad_key, d))
  unfolding update
  update-commas id values d = rw (update_sql-commas db.quote m id values) (
      run_update-if db (all_columns m.cols values)
        (update_text db.quote m id (commas (entries (set_entry db.quote) values))) d)

  -- `Insert`, of values whose location has been taken out, asks the database only when every name
  -- is a column. Its statement then lists the names and as many values in the same order, each
  -- quoted but the location; otherwise the database is as before.
  pub insert_into-commas :
      (values others : Dict JsonObject) (location : Bytes) (d : D)
      → with_location db.quote m.cols values ≡ some (location, others)
      → insert_into db m values d ≡ (
          let answer =
            db.exec
              (insert_text m
                (commas (entries name_entry others))
                (commas (entries (value_entry db.quote location) others)))
              d in
          if all_columns m.cols others
          then (insert_reply (has_column m.cols (codes "id")) answer.0, answer.1)
          else (bad_key, d))
  unfolding insert_into
  insert_into-commas values others location d h =
      rw (h, insert_sql-commas db.quote m location others)
        (run_insert-if db m (all_columns m.cols others)
          (insert_text m (commas (entries name_entry others))
            (commas (entries (value_entry db.quote location) others)))
          d)

  -- An object that `Access` returns is an error, or the first row that the database has for the
  -- key and the value, whose password is then the one that was given.
  pub access-Admitted :
      (key value password : Bytes) (d : D) (o : JsonObject)
      → (access db m key value password d).0 ≡ returned o
      → Admitted m.cols password (db.exec (access_sql db.quote m key value) d).0 o
  unfolding access
  access-Admitted key value password d o h =
      access_reply-Admitted m.cols password (db.exec (access_sql db.quote m key value) d).0 o h
