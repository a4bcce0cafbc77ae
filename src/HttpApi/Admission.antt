-- ===== src/HttpApi/Admission.antt =====
-- The checks of `on_read` in cpp-source/http-api.cpp on a request for a route: its parameters, its
-- rate, and the answer to the captcha.
use libjaypea.Base.{
  ℕ, ◌+◌, Bytes, codes, [], ◌∷◌, ◌++◌, Bool, true, false, ltb, equal, if◌then◌else◌, Option, none,
  some, Dict, lookup, insert,
}
use libjaypea.Json.{JsonType, no_type, string, object, array, JsonObject}
use libjaypea.Json.Access.{has_obj, get_url_decoded_str}
use libjaypea.Util.Http.{RequestResult, http, http_api, http_form, api}
use libjaypea.HttpApi.{HttpResponse, View, Route, Session, Environment}
use libjaypea.HttpApi.Identity.{text_of}

-- How a call of the handler ends: by a call of `respond`, `respond_http` or `respond_404`, by an
-- exception that nobody catches, or in a loop or a read outside of a text.
pub data Outcome : Type 0 where
  respond : HttpResponse → Outcome
  respond_http : View → HttpResponse → Outcome
  respond_404 : Outcome
  thrown : Outcome
  undefined : Outcome

-- An error is a page's status for a form, and the body for the others.
unfoldable pub refuse : RequestResult → View → HttpResponse → Bytes → Outcome
refuse http_form view response message =
    respond_http (record view { parameters = insert (codes "status") message view.parameters })
      response
refuse http view response message =
    respond (record response { body = codes "{\"error\":\"" ++ (message ++ codes "\"}") })
refuse http_api view response message =
    respond (record response { body = codes "{\"error\":\"" ++ (message ++ codes "\"}") })
refuse api view response message =
    respond (record response { body = codes "{\"error\":\"" ++ (message ++ codes "\"}") })

-- `JsonObject::typeString`.
abbrev pub type_string : JsonType → Bytes
type_string no_type = codes "No Json"
type_string string = codes "String"
type_string object = codes "Object"
type_string array = codes "Array"

-- The loop that copies the parameters to the view; `none` is the exception of `GetURLDecodedStr`.
unfoldable pub copy_parameters : ℕ → JsonObject → Dict JsonType → Dict Bytes → Option (Dict Bytes)
copy_parameters residue request [] parameters = some parameters
copy_parameters residue request ((name, t) ∷ required) parameters =
    elim (get_url_decoded_str residue name request) [
      | none ↦ none
      | some text ↦ copy_parameters residue request required (insert name text parameters)
    ]

-- The client called the route too short a time ago.
unfoldable pub is_early : Environment → Route → Bool
is_early env route =
    if ltb 0 route.minimum_ms_between_call
    then (elim (lookup env.details route.client_ms_at_call) [
      | none ↦ false
      | some last ↦ ltb env.now (last + route.minimum_ms_between_call)
    ])
    else false

-- The time of the call is kept.
unfoldable pub stamped : Environment → Route → Route
stamped env route =
    if ltb 0 route.minimum_ms_between_call
    then record route { client_ms_at_call = insert env.details env.now route.client_ms_at_call }
    else route

abbrev pub is_empty : Bytes → Bool
is_empty [] = true
is_empty (b ∷ r) = false

abbrev lacks : JsonObject → Bytes → JsonType → Bool
lacks request name t =
    if has_obj name t request
    then (if has_obj name string request then is_empty (text_of name request) else false)
    else true

-- The first parameter that is missing, empty or of another type.
unfoldable pub lacking : JsonObject → Dict JsonType → Option (Bytes × JsonType)
lacking request [] = none
lacking request ((name, t) ∷ required) =
    if lacks request name t then some (name, t) else lacking request required

-- What the checks come to: the session and the route behind them, and the view or the refusal.
pub data Verdict : Type 0 where
  refused : Outcome → Verdict
  admitted : View → Verdict

-- `requires_human`: an answer is compared with the session's captcha, which is cleared.
unfoldable pub ask_human :
    RequestResult → JsonObject → View → HttpResponse → Route → Session → Session × Verdict
ask_human kind request view response route session =
    if route.requires_human
    then (if has_obj (codes "captcha") string request
        then (if equal (text_of (codes "captcha") request) session.captcha
            then (record session { captcha = [] }, admitted view)
            else (
              record session { captcha = [] },
              refused (
                  refuse kind view response (codes "Provided answer to the captcha is incorrect.")),
            ))
        else (
          session,
          refused (refuse kind view response (codes "An answer is required for the captcha.")),
        ))
    else (session, admitted view)

abbrev pub after_parameters :
    RequestResult
    → JsonObject
    → View
    → HttpResponse
    → Route
    → Session
    → Option (Bytes × JsonType)
    → Session × Verdict
after_parameters kind request view response route session none =
    ask_human kind request view response route session
after_parameters kind request view response route session (some (name, t)) = (
  session,
  refused (
      refuse kind view response
        (codes "'" ++ (name ++ (codes "' requires a " ++ (type_string t ++ codes "."))))),
)

-- The flag says whether the call is early.
abbrev pub after_rate :
    Environment
    → RequestResult
    → JsonObject
    → View
    → HttpResponse
    → Route
    → Session
    → Bool
    → Route × (Session × Verdict)
after_rate env kind request view response route session true = (
  route,
  (session, refused (refuse kind view response (codes "This route is rate-limited, wait a bit."))),
)
after_rate env kind request view response route session false = (
  stamped env route,
  after_parameters kind request view response (stamped env route) session
      (lacking request route.required_parameters),
)

abbrev pub after_copy :
    Environment
    → RequestResult
    → JsonObject
    → View
    → HttpResponse
    → Route
    → Session
    → Option (Dict Bytes)
    → Route × (Session × Verdict)
after_copy env kind request view response route session none = (route, (session, refused thrown))
after_copy env kind request view response route session (some parameters) =
    after_rate env kind request (record view { parameters = parameters }) response route session
      (is_early env route)

-- The checks in their order, from the copied parameters to the captcha.
unfoldable pub admit :
    Environment
    → RequestResult
    → JsonObject
    → View
    → HttpResponse
    → Route
    → Session
    → Route × (Session × Verdict)
admit env kind request view response route session =
    after_copy env kind request view response route session
      (copy_parameters env.residue request route.required_parameters view.parameters)
