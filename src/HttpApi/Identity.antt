-- ===== src/HttpApi/Identity.antt =====
-- The session of a request: cpp-source/http-api.cpp, the first part of `on_read`.
use libjaypea.Base.{
  ℕ, ◌+◌, ◌/◌, Bytes, codes, [], ◌++◌, Bool, true, false, ltb, equal, if◌then◌else◌, Option, none,
  some, Dict, lookup, insert, is_some,
}
use libjaypea.Json.{JsonObject, json_object, Fields, end, field, string, of_string, set_field}
use libjaypea.Json.Access.{has_obj, get_str}
use libjaypea.HttpApi.{Session, Environment}

abbrev pub session_name : Bytes
session_name = codes "libjaypea-session"

-- `objectValues.erase(name)`.
unfoldable pub without : Bytes → Fields → Fields
without name end = end
without name (field other v fields) =
    if equal other name then without name fields else field other v (without name fields)

abbrev pub erase_field : Bytes → JsonObject → JsonObject
erase_field name (json_object t s o a) = json_object t s (without name o) a

-- `GetStr` where `HasObj` is asked first.
abbrev pub text_of : Bytes → JsonObject → Bytes
text_of name request = elim (get_str name request) [ none ↦ [] | some text ↦ text ]

-- Sessions are known for an hour.
abbrev pub is_current : ℕ → Option Session → Bool
is_current now none = false
is_current now (some session) = if ltb (session.created + 3600) (now / 1000) then false else true

unfoldable pub checked : Environment → Dict Session → JsonObject → JsonObject
checked env sessions request =
    if has_obj session_name string request
    then (if is_current env.now (lookup (text_of session_name request) sessions)
        then request
        else erase_field session_name request)
    else request

abbrev pub optional : Bytes → JsonObject → Bytes
optional name request = if has_obj name string request then text_of name request else []

unfoldable pub identified : Environment → JsonObject → JsonObject
identified env request =
    if has_obj session_name string request
    then request
    else set_field session_name
        (of_string (
          env.sha256_hash (
            env.details
            ++ (optional (codes "User-Agent") request ++ optional (codes "Host") request))))
        request

-- A missing session is made.
unfoldable pub open_session : Environment → Bytes → Dict Session → Dict Session
open_session env key sessions =
    if is_some (lookup key sessions)
    then sessions
    else insert key (record { captcha = []; created = env.now / 1000 }) sessions
