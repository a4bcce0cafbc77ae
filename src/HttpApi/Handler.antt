-- ===== src/HttpApi/Handler.antt =====
-- `on_read` of cpp-source/http-api.cpp, behind the request parser.
use libjaypea.Base.{
  ℕ, Bytes, codes, [], ◌∷◌, ◌++◌, ◌==◌, equal, if◌then◌else◌, Option, none, some, Run, done,
  overrun, out_of_fuel, lookup, insert, c_str,
}
use libjaypea.Json.{JsonObject, string, blank}
use libjaypea.Json.Access.{has_obj}
use libjaypea.Json.Cursor.{Cursor}
use libjaypea.Json.Parse.{parse}
use libjaypea.Json.Text.{deescape}
use libjaypea.Util.Http.{RequestResult, http, http_api, http_form, api}
use libjaypea.HttpApi.{
  HttpResponse, View, Called, gives, throws, throws_other, Function, function, form_function,
  token_function, Route, Session, Api, Environment, ok_response,
}
use libjaypea.HttpApi.Identity.{session_name, text_of, optional, checked, identified, open_session}
use libjaypea.HttpApi.Admission.{
  Outcome, respond, respond_http, respond_404, thrown, undefined, Verdict, refused, admitted,
  refuse, admit, is_empty,
}

-- A route that does not end with a slash gets one.
unfoldable pub slashed : Bytes → Bytes
slashed [] = codes "/"
slashed (b ∷ []) = if b == 47 then b ∷ [] else b ∷ codes "/"
slashed (b ∷ c ∷ r) = b ∷ slashed (c ∷ r)

abbrev pub named : JsonObject → Bytes
named request =
    if has_obj (codes "method") string request
    then (if has_obj (codes "route") string request
        then text_of (codes "method") request ++ (codes " " ++ text_of (codes "route") request)
        else codes "GET /404.html")
    else codes "GET /404.html"

unfoldable pub route_key : RequestResult → JsonObject → Bytes
route_key http request = named request
route_key http_form request = named request
route_key http_api request = slashed (named request)
route_key api request = slashed (named request)

-- The captcha of the session, a new one if the request asks for it or there is none.
unfoldable pub fresh_captcha : Environment → JsonObject → Bytes → Bytes
fresh_captcha env request old =
    if equal (optional (codes "new") request) (codes "true")
    then env.drawn_captcha
    else if is_empty old
    then env.drawn_captcha
    else old

unfoldable pub captcha_body : Environment → Bytes → Bytes
captcha_body env captcha =
    if is_empty env.secret_captcha_url
    then codes "<h3>" ++ (captcha ++ codes "</h3>\"}")
    else env.https_get (env.secret_captcha_url ++ captcha)

abbrev answered : HttpResponse → Bytes → Outcome
answered response body = respond (record response { body = body })

abbrev insufficient_access : Bytes
insufficient_access = codes "{\"error\":\"Insufficient access.\"}"

-- The calls of functions outside every handler of exceptions.
abbrev pub called : HttpResponse → Called Bytes → Outcome
called response (gives body) = answered response body
called response throws = thrown
called response throws_other = thrown

abbrev pub called_form : HttpResponse → Called View → Outcome
called_form response (gives view) = respond_http view response
called_form response throws = thrown
called_form response throws_other = thrown

-- The call of a token's function, inside the handler for `std::exception`.
abbrev pub called_token : HttpResponse → Called Bytes → Outcome
called_token response (gives body) = answered response body
called_token response throws = answered response insufficient_access
called_token response throws_other = thrown

abbrev pub on_token :
    (JsonObject → JsonObject → Called Bytes)
    → HttpResponse
    → JsonObject
    → Run (JsonObject × Cursor)
    → Outcome
on_token f response request overrun = undefined
on_token f response request out_of_fuel = undefined
on_token f response request (done (token, end)) = called_token response (f request token)

abbrev pub on_decrypted :
    ℕ
    → (JsonObject → JsonObject → Called Bytes)
    → HttpResponse
    → JsonObject
    → Option Bytes
    → Outcome
on_decrypted fuel f response request none = answered response insufficient_access
on_decrypted fuel f response request (some text) =
    on_token f response request (parse fuel blank (c_str text))

-- The calls of the route's function.
unfoldable pub dispatch :
    ℕ → Environment → RequestResult → JsonObject → View → HttpResponse → Function → Outcome
dispatch fuel env http request view response f = respond_http view response
dispatch fuel env http_form request view response (form_function f) =
    called_form response (f request)
dispatch fuel env http_form request view response (function f) =
    answered response (codes "{\"error\":\"Bad form route.\"}")
dispatch fuel env http_form request view response (token_function f) =
    answered response (codes "{\"error\":\"Bad form route.\"}")
dispatch fuel env http_api request view response (function f) = called response (f request)
dispatch fuel env http_api request view response (token_function f) =
    if has_obj (codes "token") string request
    then on_decrypted fuel f response request
        (env.decrypt (deescape (text_of (codes "token") request)))
    else answered response (codes "{\"error\":\"'token' requires a string.\"}")
dispatch fuel env http_api request view response (form_function f) = respond_http view response
dispatch fuel env api request view response f = respond_404

abbrev pub concluded :
    ℕ → Environment → RequestResult → JsonObject → HttpResponse → Function → Verdict → Outcome
concluded fuel env kind request response f (refused outcome) = outcome
concluded fuel env kind request response f (admitted view) =
    dispatch fuel env kind request view response f

-- A request that needs a route, by what `routemap` has under its key.
unfoldable pub routed :
    ℕ
    → Environment
    → RequestResult
    → JsonObject
    → View
    → HttpResponse
    → Bytes
    → Bytes
    → Session
    → Option Route
    → Api
    → Api × Outcome
routed fuel env kind request view response session_key key session none a =
    (a, refuse kind view response (codes "Bad route."))
routed fuel env kind request view response session_key key session (some route) a =
    let (route', (session', verdict)) = admit env kind request view response route session in
    (
      record {
        sessions = insert session_key session' a.sessions;
        routemap = insert key route' a.routemap;
      },
      concluded fuel env kind request response route.run verdict,
    )

abbrev pub captcha_page :
    Environment → JsonObject → HttpResponse → Bytes → Session → Api → Api × Outcome
captcha_page env request response session_key session a =
    let captcha = fresh_captcha env request session.captcha in
    (
      record a { sessions = insert session_key (record session { captcha = captcha }) a.sessions },
      answered
          (record response {
            headers = insert (codes "Content-Type") (codes "text/html") response.headers;
          })
          (captcha_body env captcha),
    )

abbrev pub initial_view : JsonObject → View
initial_view request = record {
  route = optional (codes "route") request;
  method = optional (codes "method") request;
  parameters = [];
}

abbrev pub initial_response : Bytes → HttpResponse
initial_response session_key = record ok_response { headers = (session_name, session_key) ∷ [] }

abbrev pub for_route :
    ℕ → Environment → RequestResult → JsonObject → Bytes → Session → Api → Api × Outcome
for_route fuel env kind request session_key session a =
    let key = route_key kind request in
    if equal key (codes "GET /api/captcha/")
    then captcha_page env request (initial_response session_key) session_key session a
    else routed fuel env kind request (initial_view request) (initial_response session_key)
        session_key key session (lookup key a.routemap) a

-- The handler behind the session.
unfoldable pub handled :
    ℕ → Environment → RequestResult → JsonObject → Bytes → Session → Api → Api × Outcome
handled fuel env http request session_key session a =
    (a, respond_http (initial_view request) (initial_response session_key))
handled fuel env http_api request session_key session a =
    for_route fuel env http_api request session_key session a
handled fuel env http_form request session_key session a =
    for_route fuel env http_form request session_key session a
handled fuel env api request session_key session a =
    for_route fuel env api request session_key session a

abbrev pub with_session :
    ℕ → Environment → RequestResult → JsonObject → Bytes → Option Session → Api → Api × Outcome
with_session fuel env kind request session_key none a = (a, undefined)
with_session fuel env kind request session_key (some session) a =
    handled fuel env kind request session_key session a

-- `on_read` on a parsed request. `parse` of a token runs on the fuel.
unfoldable pub on_read : ℕ → Environment → RequestResult → JsonObject → Api → Api × Outcome
on_read fuel env kind parsed a =
    let request = identified env (checked env a.sessions parsed) in
    let key = text_of session_name request in
    let sessions = open_session env key a.sessions in
    with_session fuel env kind request key (lookup key sessions) (record a { sessions = sessions })
