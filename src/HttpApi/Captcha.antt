-- ===== src/HttpApi/Captcha.antt =====
-- The captcha of a session and of a route that requires a human.
use libjaypea.Base.{
  Bytes, codes, [], Bool, true, false, equal, equal_iff, ◌≡◌, refl, Option, none, some, Dict,
  is_some, ◌∙◌, arith,
}
use libjaypea.Json.{JsonType, JsonObject, string}
use libjaypea.Json.Access.{has_obj}
use libjaypea.Util.Http.{RequestResult}
use libjaypea.HttpApi.{HttpResponse, View, Route, Session, Environment}
use libjaypea.HttpApi.Identity.{text_of}
use libjaypea.HttpApi.Admission.{
  Verdict, refused, admitted, admit, after_copy, after_rate, after_parameters, ask_human,
  copy_parameters, lacking, is_early, stamped,
}

-- A verdict that admits.
abbrev pub is_admitted : Verdict → Bool
is_admitted (refused outcome) = false
is_admitted (admitted view) = true

-- The request answers the captcha of the session, and the answer is used up.
pub record Answers (request : JsonObject) (before after : Session) : Type 0 where
  pub given : has_obj (codes "captcha") string request ≡ true
  pub right : text_of (codes "captcha") request ≡ before.captcha
  pub used : after.captcha ≡ []

ask_human-Answers :
    (kind : RequestResult) (request : JsonObject) (view : View) (response : HttpResponse)
    (route : Route) (session : Session)
    → route.requires_human ≡ true
    → is_admitted (ask_human kind request view response route session).1 ≡ true
    → Answers request session (ask_human kind request view response route session).0
unfolding ask_human
ask_human-Answers kind request view response route session human ok =
    let answer = text_of (codes "captcha") request in
    let given : has_obj (codes "captcha") string request ≡ true = ground arith in
    let right : equal answer session.captcha ≡ true = ground arith in
    record {
      given = given;
      right = (equal_iff answer session.captcha).0 right;
      used = rw (human, given, right) refl;
    }

after_parameters-Answers :
    (kind : RequestResult) (request : JsonObject) (view : View) (response : HttpResponse)
    (route : Route) (session : Session) (found : Option (Bytes × JsonType))
    → route.requires_human ≡ true
    → is_admitted (after_parameters kind request view response route session found).1 ≡ true
    → Answers request session (after_parameters kind request view response route session found).0
after_parameters-Answers kind request view response route session none human ok =
    ask_human-Answers kind request view response route session human ok
after_parameters-Answers kind request view response route session (some (name, t)) human ok =
    ground arith

stamped-requires_human :
    (env : Environment) (route : Route) → (stamped env route).requires_human ≡ route.requires_human
unfolding stamped
stamped-requires_human env route = ground arith

after_rate-Answers :
    (env : Environment) (kind : RequestResult) (request : JsonObject) (view : View)
    (response : HttpResponse) (route : Route) (session : Session) (early : Bool)
    → route.requires_human ≡ true
    → is_admitted (after_rate env kind request view response route session early).1.1 ≡ true
    → Answers request session (after_rate env kind request view response route session early).1.0
after_rate-Answers env kind request view response route session true human ok = ground arith
after_rate-Answers env kind request view response route session false human ok =
    after_parameters-Answers kind request view response (stamped env route) session
      (lacking request route.required_parameters) (stamped-requires_human env route ∙ human) ok

after_copy-Answers :
    (env : Environment) (kind : RequestResult) (request : JsonObject) (view : View)
    (response : HttpResponse) (route : Route) (session : Session) (copied : Option (Dict Bytes))
    → route.requires_human ≡ true
    → is_admitted (after_copy env kind request view response route session copied).1.1 ≡ true
    → Answers request session (after_copy env kind request view response route session copied).1.0
after_copy-Answers env kind request view response route session none human ok = ground arith
after_copy-Answers env kind request view response route session (some parameters) human ok =
    after_rate-Answers env kind request (record view { parameters = parameters }) response route
      session (is_early env route) human ok

-- A route that requires a human is open only to a request that answers the captcha of its
-- session, and then the session has no captcha left.
pub admit-Answers :
    (env : Environment) (kind : RequestResult) (request : JsonObject) (view : View)
    (response : HttpResponse) (route : Route) (session : Session)
    → route.requires_human ≡ true
    → is_admitted (admit env kind request view response route session).1.1 ≡ true
    → Answers request session (admit env kind request view response route session).1.0
unfolding admit
admit-Answers env kind request view response route session human ok =
    after_copy-Answers env kind request view response route session
      (copy_parameters env.residue request route.required_parameters view.parameters) human ok

-- The empty answer passes in a session that has no captcha, as a new one, when the other checks
-- pass.
pub admit_fresh :
    (env : Environment) (kind : RequestResult) (request : JsonObject) (view : View)
    (response : HttpResponse) (route : Route) (session : Session)
    → is_some (copy_parameters env.residue request route.required_parameters view.parameters) ≡ true
    → is_early env route ≡ false
    → lacking request route.required_parameters ≡ none
    → session.captcha ≡ []
    → has_obj (codes "captcha") string request ≡ true
    → text_of (codes "captcha") request ≡ []
    → is_admitted (admit env kind request view response route session).1.1 ≡ true
unfolding admit ask_human equal
admit_fresh env kind request view response route session copied late full clear given blank =
    elim (copy_parameters env.residue request route.required_parameters view.parameters)
        as (λ c.
          is_some c ≡ true
          → is_admitted (after_copy env kind request view response route session c).1.1 ≡ true) [
            | none ↦ λ bad. ground arith
            | some parameters ↦ λ fine. rw (late, full, given, blank, clear) (ground arith)
          ]
      copied
