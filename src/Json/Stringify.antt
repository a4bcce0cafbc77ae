-- ===== src/Json/Stringify.antt =====
-- `JsonObject::stringify` of cpp-source/json.cpp.
use libjaypea.Base.{ℕ, ◌+◌, Bytes, [], ◌∷◌, ◌++◌, Bool, if◌then◌else◌, replicate}
use libjaypea.Json.{
  no_type, string, object, array, JsonObject, json_object, Fields, end, field, Items, nil, item,
}
use libjaypea.Json.Text.{escape}

-- `if(pretty) ss << std::string(depth, '\t')`.
abbrev pub tabs : Bool → ℕ → Bytes
tabs pretty depth = if pretty then replicate depth b'\t' else []

-- `if(pretty) ss << '\n'`.
abbrev pub line : Bool → Bytes
line pretty = if pretty then b'\n' ∷ [] else []

-- `if(pretty) depth++`.
abbrev pub deeper : Bool → ℕ → ℕ
deeper pretty depth = if pretty then depth + 1 else depth

abbrev pub field_comma : Fields → Bytes
field_comma end = []
field_comma (field k v fs) = b',' ∷ []

abbrev pub item_comma : Items → Bytes
item_comma nil = []
item_comma (item v xs) = b',' ∷ []

unfoldable mutual
  pub stringify : Bool → ℕ → JsonObject → Bytes
  stringify pretty depth (json_object no_type s o a) = b'"' ∷ b'"' ∷ []
  stringify pretty depth (json_object string s o a) = escape s
  stringify pretty depth (json_object object s o a) =
      b'{'
      ∷ (line pretty
          ++ (stringify_fields pretty (deeper pretty depth) o ++ (tabs pretty depth ++ b'}' ∷ [])))
  stringify pretty depth (json_object array s o a) =
      b'['
      ∷ (line pretty
          ++ (stringify_items pretty (deeper pretty depth) a ++ (tabs pretty depth ++ b']' ∷ [])))

  pub stringify_fields : Bool → ℕ → Fields → Bytes
  stringify_fields pretty depth end = []
  stringify_fields pretty depth (field k v fs) =
      tabs pretty depth
      ++ (escape k
          ++ (b':'
              ∷ (stringify pretty depth v
                  ++ (field_comma fs ++ (line pretty ++ stringify_fields pretty depth fs)))))

  pub stringify_items : Bool → ℕ → Items → Bytes
  stringify_items pretty depth nil = []
  stringify_items pretty depth (item v xs) =
      tabs pretty depth
      ++ (stringify pretty depth v
          ++ (item_comma xs ++ (line pretty ++ stringify_items pretty depth xs)))
