-- ===== src/PgSqlModel/Statements/Lists.antt =====
-- The lists of names and values in the statements of cpp-source/pgsql-model.cpp.
use libjaypea.Base.{
  Bytes, codes, [], ◌∷◌, ◌++◌, append-nil, append_assoc, List, map, Bool, true, false,
  if◌then◌else◌, none, some, Dict, ◌≡◌, refl, sym, ap, inl, inr, Bool-cases,
}
use libjaypea.Util.Replace.Laws.{join}
use libjaypea.Json.{JsonObject}
use libjaypea.PgSqlModel.{Column, is_hidden, Model, has_column}
use libjaypea.PgSqlModel.Statements.{
  comma, selected, col_list, each_value, name_entry, value_entry, insert_text, insert_sql,
  set_entry, update_text, update_sql,
}

-- The texts with commas between them.
abbrev pub commas : List Bytes → Bytes
commas [] = []
commas (text ∷ texts) = join (codes ", ") text texts

abbrev pub entries : (Bytes → JsonObject → Bytes) → Dict JsonObject → List Bytes
entries entry [] = []
entries entry ((name, value) ∷ values) = entry name value ∷ entries entry values

-- Every name is a column.
unfoldable pub all_columns : List Column → Dict JsonObject → Bool
all_columns cols [] = true
all_columns cols ((name, value) ∷ values) =
    if has_column cols name then all_columns cols values else false

commas-entries :
    (entry : Bytes → JsonObject → Bytes) (text : Bytes) (values : Dict JsonObject)
    → text ++ (comma values ++ commas (entries entry values)) ≡ commas (text ∷ entries entry values)
commas-entries entry text [] = append-nil text
commas-entries entry text ((name, value) ∷ values) = refl

each_value-commas :
    (cols : List Column) (entry : Bytes → JsonObject → Bytes) (values : Dict JsonObject)
    → each_value cols entry values
      ≡ (if all_columns cols values then some (commas (entries entry values)) else none)
unfolding each_value all_columns
each_value-commas cols entry [] = refl
each_value-commas cols entry ((name, value) ∷ values) = elim (Bool-cases (has_column cols name)) [
  | inl column ↦ elim (Bool-cases (all_columns cols values)) [
    | inl others ↦
        rw (column, each_value-commas cols entry values, others)
          (ap some (commas-entries entry (entry name value) values))
    | inr unknown ↦ rw (column, each_value-commas cols entry values, unknown) refl
  ]
  | inr unknown ↦ rw unknown refl
]

pub insert_sql-commas :
    (quote : Bytes → Bytes) (m : Model) (location : Bytes) (values : Dict JsonObject)
    → insert_sql quote m location values ≡ (
        if all_columns m.cols values
        then some (
            insert_text m
              (commas (entries name_entry values))
              (commas (entries (value_entry quote location) values)))
        else none)
unfolding insert_sql
insert_sql-commas quote m location values = elim (Bool-cases (all_columns m.cols values)) [
  | inl columns ↦
      rw
        (
          each_value-commas m.cols name_entry values,
          each_value-commas m.cols (value_entry quote location) values,
          columns,
        )
        refl
  | inr unknown ↦
      rw
        (
          each_value-commas m.cols name_entry values,
          each_value-commas m.cols (value_entry quote location) values,
          unknown,
        )
        refl
]

pub update_sql-commas :
    (quote : Bytes → Bytes) (m : Model) (id : Bytes) (values : Dict JsonObject)
    → update_sql quote m id values ≡ (
        if all_columns m.cols values
        then some (update_text quote m id (commas (entries (set_entry quote) values)))
        else none)
unfolding update_sql
update_sql-commas quote m id values = elim (Bool-cases (all_columns m.cols values)) [
  | inl columns ↦ rw (each_value-commas m.cols (set_entry quote) values, columns) refl
  | inr unknown ↦ rw (each_value-commas m.cols (set_entry quote) values, unknown) refl
]

unfoldable pub visible : List Column → List Column
visible [] = []
visible (c ∷ cols) = if is_hidden c then visible cols else c ∷ visible cols

unfoldable pub ends_hidden : List Column → Bool
ends_hidden [] = false
ends_hidden (c ∷ []) = is_hidden c
ends_hidden (c ∷ d ∷ cols) = ends_hidden (d ∷ cols)

abbrev trailing : List Column → Bytes
trailing cols = if ends_hidden cols then comma (visible cols) else []

if_nil :
    (b : Bool) (c : Column) (cols : List Column)
    → (if b then cols else c ∷ cols) ≡ []
    → (b ≡ true) × (cols ≡ [])
if_nil true c cols h = (refl, h)
if_nil false c cols h = absurd (cc h)

all_hidden :
    (c : Column) (cols : List Column) → visible (c ∷ cols) ≡ [] → ends_hidden (c ∷ cols) ≡ true
unfolding visible ends_hidden
all_hidden c [] h = (if_nil (is_hidden c) c [] h).0
all_hidden c (d ∷ cols) h = all_hidden d cols (if_nil (is_hidden c) c (visible (d ∷ cols)) h).1

-- The list behind a column that is shown.
behind_shown :
    (c d : Column) (cols shown : List Column)
    → visible (d ∷ cols) ≡ shown
    → selected c
        ++ (codes ", "
            ++ (commas (map selected shown)
                ++ (if ends_hidden (d ∷ cols) then comma shown else [])))
      ≡ commas (map selected (c ∷ shown)) ++ (if ends_hidden (d ∷ cols) then codes ", " else [])
behind_shown c d cols [] h = rw (all_hidden d cols h) refl
behind_shown c d cols (v ∷ shown) h = sym (
    append_assoc (selected c) (codes ", " ++ commas (map selected (v ∷ shown)))
      (if ends_hidden (d ∷ cols) then codes ", " else []))

col_list-visible :
    (c : Column) (cols : List Column)
    → is_hidden c ≡ false
    → col_list cols ≡ commas (map selected (visible cols)) ++ trailing cols
    → selected c ++ (comma cols ++ col_list cols)
      ≡ commas (map selected (c ∷ visible cols))
        ++ (if ends_hidden (c ∷ cols) then codes ", " else [])
unfolding ends_hidden visible
col_list-visible c [] shown h = rw (shown, h) refl
col_list-visible c (d ∷ cols) shown h = rw h (behind_shown c d cols (visible (d ∷ cols)) refl)

ends_hidden-hidden :
    (c : Column) (cols : List Column)
    → is_hidden c ≡ true
    → col_list cols ≡ commas (map selected (visible cols)) ++ trailing cols
    → col_list cols
      ≡ commas (map selected (visible cols))
        ++ (if ends_hidden (c ∷ cols) then comma (visible cols) else [])
unfolding ends_hidden visible
ends_hidden-hidden c [] hidden h = rw (hidden, h) refl
ends_hidden-hidden c (d ∷ cols) hidden h = h

ends_hidden-nil : ends_hidden [] ≡ false
unfolding ends_hidden
ends_hidden-nil = refl

-- The columns of a query are the names of those that are not hidden with commas between them, and
-- one more comma when some are shown and the last of the table is hidden.
pub col_list-commas :
    (cols : List Column)
    → col_list cols
      ≡ commas (map selected (visible cols))
        ++ (if ends_hidden cols then comma (visible cols) else [])
unfolding col_list visible
col_list-commas [] = rw ends_hidden-nil refl
col_list-commas (c ∷ cols) = elim (Bool-cases (is_hidden c)) [
  | inl hidden ↦ rw hidden (ends_hidden-hidden c cols hidden (col_list-commas cols))
  | inr shown ↦ rw shown (col_list-visible c cols shown (col_list-commas cols))
]
