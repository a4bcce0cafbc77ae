-- ===== src/HttpApi/Known.antt =====
-- Which session a request gets.
use libjaypea.Base.{
  [], Bytes, codes, ◌++◌, Bool, true, false, Bool-cases, equal, equal_refl, ◌≡◌, refl, ap, ◌∙◌, ◌⊎◌,
  inl, inr, Option, none, some, lookup,
}
use libjaypea.Json.{
  JsonObject, json_type, string_value, json_object, string, of_string, set_field, get, put, get-put,
  Fields, end, field,
}
use libjaypea.Json.Access.{has_obj, get_str, same_type}
use libjaypea.HttpApi.{Api, Environment}
use libjaypea.HttpApi.Identity.{
  session_name, text_of, without, erase_field, checked, identified, optional, is_current,
}
use libjaypea.HttpApi.Exceptions.{session_request}

get-without : (name : Bytes) (fields : Fields) → get name (without name fields) ≡ none
unfolding get without
get-without name end = refl
get-without name (field other v fields) = elim (Bool-cases (equal other name)) [
  | inl same ↦ rw same (get-without name fields)
  | inr differs ↦ rw (differs, differs) (get-without name fields)
]

has_obj-erase_field :
    (name : Bytes) (request : JsonObject) → has_obj name string (erase_field name request) ≡ false
unfolding has_obj
has_obj-erase_field name (json_object t s o a) =
    ap
      (λ (v : Option JsonObject). elim v as (λ x. Bool) [
        | none ↦ false
        | some w ↦ same_type (json_type w) string
      ])
      (get-without name o)

get-put_same : (name : Bytes) (v : JsonObject) (o : Fields) → get name (put name v o) ≡ some v
get-put_same name v o = get-put name name v o ∙ (rw (equal_refl name) refl)

text_of-set_field :
    (name text : Bytes) (request : JsonObject)
    → text_of name (set_field name (of_string text) request) ≡ text
unfolding get_str
text_of-set_field name text (json_object t s o a) =
    ap
      (λ (v : Option JsonObject).
        elim (elim v as (λ x. Option Bytes) [ none ↦ none | some w ↦ some (string_value w) ])
          as (λ x. Bytes) [ none ↦ [] | some found ↦ found ])
      (get-put_same name (of_string text) o)

identified_hash :
    (env : Environment) (request : JsonObject)
    → has_obj session_name string request ≡ false
    → (rest : Bytes) × (text_of session_name (identified env request)
        ≡ env.sha256_hash (env.details ++ rest))
unfolding identified
identified_hash env request unnamed =
    let rest = optional (codes "User-Agent") request ++ optional (codes "Host") request in
    (
      rest,
      rw unnamed (text_of-set_field session_name (env.sha256_hash (env.details ++ rest)) request),
    )

identified-named :
    (env : Environment) (request : JsonObject)
    → has_obj session_name string request ≡ true
    → identified env request ≡ request
unfolding identified
identified-named env request given = rw given refl

-- The session of a request is one that is known and at most an hour old, or its name is the hash
-- of a text that begins with the peer's details.
pub session_request_known :
    (env : Environment) (a : Api) (parsed : JsonObject)
    → (is_current env.now (lookup (text_of session_name (session_request env a parsed)) a.sessions)
        ≡ true)
      ⊎ ((rest : Bytes) × (text_of session_name (session_request env a parsed)
            ≡ env.sha256_hash (env.details ++ rest)))
unfolding checked
session_request_known env a parsed = elim (Bool-cases (has_obj session_name string parsed)) [
  | inr unnamed ↦ rw unnamed (inr (identified_hash env parsed unnamed))
  | inl given ↦
      elim (Bool-cases (is_current env.now (lookup (text_of session_name parsed) a.sessions))) [
        | inl current ↦
            rw (given, current)
              (inl (
                ap
                  (λ (r : JsonObject).
                    is_current env.now (lookup (text_of session_name r) a.sessions))
                  (identified-named env parsed given)
                ∙ current))
        | inr stale ↦
            rw (given, stale)
              (inr (
                identified_hash env (erase_field session_name parsed)
                  (has_obj-erase_field session_name parsed)))
      ]
]
