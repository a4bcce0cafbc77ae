-- ===== src/PgSqlModel/Rows.antt =====
-- `AnyResultToJson` and `ResultToJson` of cpp-source/pgsql-model.cpp.
use libjaypea.Base.{
  Bytes, equal, equal_iff, [], ◌∷◌, List, Bool, true, false, if◌then◌else◌, Option, none, some, ◌≡◌,
  refl, ap, ◌∙◌, sym, subst, lookup, arith, inl, inr, Bool-cases,
}
use libjaypea.Json.{
  JsonObject, json_object, of_type, of_string, object_values, get, get-put, set_field, add_item,
  object, array,
}
use libjaypea.PgSqlModel.{Column, is_hidden, Row}

-- `field.c_str()` of a null is the empty text.
abbrev pub c_str_of : Option Bytes → Bytes
c_str_of none = []
c_str_of (some text) = text

unfoldable pub any_row_to_json : Row → JsonObject → JsonObject
any_row_to_json [] o = o
any_row_to_json ((name, value) ∷ row) o =
    any_row_to_json row (set_field name (of_string (c_str_of value)) o)

unfoldable pub any_rows_to_json : List Row → JsonObject → JsonObject
any_rows_to_json [] o = o
any_rows_to_json (row ∷ rows) o =
    any_rows_to_json rows (add_item (any_row_to_json row (of_type object)) o)

abbrev pub any_result_to_json : List Row → JsonObject
any_result_to_json rows = any_rows_to_json rows (of_type array)

-- A null is left out.
abbrev pub stored : Bytes → Option Bytes → JsonObject → JsonObject
stored name none o = o
stored name (some text) o = set_field name (of_string text) o

-- The loop over the columns. `none` is the exception of pqxx for a name that the row has not.
unfoldable pub row_loop : List Column → Row → JsonObject → Option JsonObject
row_loop [] row o = some o
row_loop (c ∷ cols) row o =
    let skipped = row_loop cols row o in
    let kept = λ (value : Option Bytes). row_loop cols row (stored c.name value o) in
    if is_hidden c
    then skipped
    else elim (lookup c.name row) [ none ↦ none | some value ↦ kept value ]

abbrev pub row_to_json : List Column → Row → Option JsonObject
row_to_json cols row = row_loop cols row (of_type object)

unfoldable pub rows_loop : List Column → List Row → JsonObject → Option JsonObject
rows_loop cols [] o = some o
rows_loop cols (row ∷ rows) o = elim (row_to_json cols row) [
  | none ↦ none
  | some next ↦ rows_loop cols rows (add_item next o)
]

abbrev pub result_to_json : List Column → List Row → Option JsonObject
result_to_json cols rows = rows_loop cols rows (of_type array)

-- A column of the name is not hidden.
unfoldable pub shows : List Column → Bytes → Bool
shows [] name = false
shows (c ∷ cols) name =
    if is_hidden c then shows cols name else if equal c.name name then true else shows cols name

abbrev pub seen : Option (Option Bytes) → Option JsonObject → Option JsonObject
seen none prior = prior
seen (some none) prior = prior
seen (some (some text)) prior = some (of_string text)

seen_twice :
    (value : Option (Option Bytes)) (prior : Option JsonObject)
    → seen value (seen value prior) ≡ seen value prior
seen_twice none prior = refl
seen_twice (some none) prior = refl
seen_twice (some (some text)) prior = refl

get-stored :
    (name other : Bytes) (value : Option Bytes) (o : JsonObject)
    → get other (object_values (stored name value o)) ≡ (
        if equal name other
        then seen (some value) (get other (object_values o))
        else get other (object_values o))
get-stored name other none o = ground arith
get-stored name other (some text) (json_object t s fs a) = get-put name other (of_string text) fs

-- The column is there, or the row's exception would have ended the loop.
row_loop-kept :
    (c : Column) (cols : List Column) (row : Row) (o p : JsonObject) (value : Option (Option Bytes))
    → lookup c.name row ≡ value
    → elim value [ none ↦ none | some v ↦ row_loop cols row (stored c.name v o) ] ≡ some p
    → (v : Option Bytes) × (lookup c.name row ≡ some v)
      × (row_loop cols row (stored c.name v o) ≡ some p)
row_loop-kept c cols row o p none found h = absurd (cc h)
row_loop-kept c cols row o p (some v) found h = (v, found, h)

row_loop-hidden :
    (c : Column) (cols : List Column) (row : Row) (o : JsonObject)
    → is_hidden c ≡ true
    → row_loop (c ∷ cols) row o ≡ row_loop cols row o
unfolding row_loop
row_loop-hidden c cols row o hidden = rw hidden refl

row_loop-visible :
    (c : Column) (cols : List Column) (row : Row) (o : JsonObject)
    → is_hidden c ≡ false
    → row_loop (c ∷ cols) row o
      ≡ elim (lookup c.name row) [ none ↦ none | some v ↦ row_loop cols row (stored c.name v o) ]
unfolding row_loop
row_loop-visible c cols row o visible = rw visible refl

shows-hidden :
    (c : Column) (cols : List Column) (name : Bytes)
    → is_hidden c ≡ true
    → shows (c ∷ cols) name ≡ shows cols name
unfolding shows
shows-hidden c cols name hidden = rw hidden refl

shows-visible :
    (c : Column) (cols : List Column) (name : Bytes)
    → is_hidden c ≡ false
    → shows (c ∷ cols) name ≡ (if equal c.name name then true else shows cols name)
unfolding shows
shows-visible c cols name visible = rw visible refl

get_behind :
    (name : Bytes) (b : Bool) (found : Option (Option Bytes)) (v : Option Bytes) (rest : Bool)
    (prior : Option JsonObject)
    → (b ≡ true → found ≡ some v)
    → (if rest
        then seen found (if b then seen (some v) prior else prior)
        else (if b then seen (some v) prior else prior))
      ≡ (if (if b then true else rest) then seen found prior else prior)
get_behind name true found v true prior h = rw (h refl) (seen_twice (some v) prior)
get_behind name true found v false prior h = rw (h refl) refl
get_behind name false found v rest prior h = refl

-- What the loop leaves under a name.
abbrev expected : List Column → Row → JsonObject → Bytes → Option JsonObject
expected cols row o name =
    if shows cols name
    then seen (lookup name row) (get name (object_values o))
    else get name (object_values o)

expected_behind :
    (c : Column) (cols : List Column) (row : Row) (o : JsonObject) (name : Bytes) (v : Option Bytes)
    → is_hidden c ≡ false
    → lookup c.name row ≡ some v
    → expected cols row (stored c.name v o) name ≡ expected (c ∷ cols) row o name
expected_behind c cols row o name v visible found =
    rw (get-stored c.name name v o, shows-visible c cols name visible)
      (get_behind name (equal c.name name) (lookup name row) v (shows cols name)
        (get name (object_values o))
        (λ (same : equal c.name name ≡ true).
          subst (λ (n : Bytes). lookup n row ≡ some v) ((equal_iff c.name name).0 same) found))

row_loop_end :
    (o p : JsonObject) (name : Bytes) (row : Row)
    → some o ≡ some p
    → get name (object_values p) ≡ expected [] row o name
unfolding shows
row_loop_end o p name row h =
    let same : o ≡ p = cc h in ap (λ (x : JsonObject). get name (object_values x)) (sym same)

row_loop-get :
    (cols : List Column) (row : Row) (o p : JsonObject) (name : Bytes)
    → row_loop cols row o ≡ some p
    → get name (object_values p) ≡ expected cols row o name
unfolding row_loop
row_loop-get [] row o p name h = row_loop_end o p name row h
row_loop-get (c ∷ cols) row o p name h = elim (Bool-cases (is_hidden c)) [
  | inl hidden ↦
      row_loop-get cols row o p name (sym (row_loop-hidden c cols row o hidden) ∙ h)
      ∙ ap
          (λ (b : Bool).
            if b
            then seen (lookup name row) (get name (object_values o))
            else get name (object_values o))
          (sym (shows-hidden c cols name hidden))
  | inr visible ↦
      let kept =
        row_loop-kept c cols row o p (lookup c.name row) refl
          (sym (row_loop-visible c cols row o visible) ∙ h) in
      row_loop-get cols row (stored c.name kept.0 o) p name kept.2
      ∙ expected_behind c cols row o name kept.0 visible kept.1
]

-- However the database answers, the object of a row has under a name the text that the row has
-- there, if a column of the name is not hidden and the text is no null, and nothing otherwise.
pub row_to_json-get :
    (cols : List Column) (row : Row) (o : JsonObject) (name : Bytes)
    → row_to_json cols row ≡ some o
    → get name (object_values o) ≡ (if shows cols name then seen (lookup name row) none else none)
unfolding get
row_to_json-get cols row o name h = row_loop-get cols row (of_type object) o name h
