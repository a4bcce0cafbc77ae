-- ===== src/HttpApi/Rate.antt =====
-- The rate limit of a route, per client.
use libjaypea.Base.{
  ◌+◌, ◌<◌, Bytes, Bool, true, false, ltb_iff, equal_refl, ◌≡◌, refl, ap, ◌∙◌, Option, none, some,
  Dict, insert, lookup-insert, arith,
}
use libjaypea.Json.{JsonObject}
use libjaypea.Util.Http.{RequestResult}
use libjaypea.HttpApi.{HttpResponse, View, Route, Session, Environment}
use libjaypea.HttpApi.Admission.{admit, after_copy, after_rate, copy_parameters, is_early, stamped}
use libjaypea.HttpApi.Captcha.{is_admitted}

stamped_limited :
    (env : Environment) (route : Route)
    → 0 < route.minimum_ms_between_call
    → stamped env route
      ≡ record route { client_ms_at_call = insert env.details env.now route.client_ms_at_call }
unfolding stamped
stamped_limited env route limited = rw ((ltb_iff 0 route.minimum_ms_between_call).1 limited) refl

-- The client's last call is kept with the route.
stamped-is_early :
    (env later : Environment) (route : Route)
    → later.details ≡ env.details
    → later.now < env.now + route.minimum_ms_between_call
    → 0 < route.minimum_ms_between_call
    → is_early later (stamped env route) ≡ true
unfolding is_early
stamped-is_early env later route same soon limited =
    ap (is_early later) (stamped_limited env route limited)
    ∙ (rw
        (
          (ltb_iff 0 route.minimum_ms_between_call).1 limited,
          same,
          lookup-insert env.details env.details env.now route.client_ms_at_call,
          equal_refl env.details,
        )
        ((ltb_iff later.now (env.now + route.minimum_ms_between_call)).1 soon))

after_rate-stamped :
    (env : Environment) (kind : RequestResult) (request : JsonObject) (view : View)
    (response : HttpResponse) (route : Route) (session : Session) (early : Bool)
    → is_admitted (after_rate env kind request view response route session early).1.1 ≡ true
    → (after_rate env kind request view response route session early).0 ≡ stamped env route
after_rate-stamped env kind request view response route session true ok = ground arith
after_rate-stamped env kind request view response route session false ok = refl

after_copy-stamped :
    (env : Environment) (kind : RequestResult) (request : JsonObject) (view : View)
    (response : HttpResponse) (route : Route) (session : Session) (copied : Option (Dict Bytes))
    → is_admitted (after_copy env kind request view response route session copied).1.1 ≡ true
    → (after_copy env kind request view response route session copied).0 ≡ stamped env route
after_copy-stamped env kind request view response route session none ok = ground arith
after_copy-stamped env kind request view response route session (some parameters) ok =
    after_rate-stamped env kind request (record view { parameters = parameters }) response route
      session (is_early env route) ok

after_copy_early :
    (env : Environment) (kind : RequestResult) (request : JsonObject) (view : View)
    (response : HttpResponse) (route : Route) (session : Session) (copied : Option (Dict Bytes))
    → is_early env route ≡ true
    → (is_admitted (after_copy env kind request view response route session copied).1.1 ≡ false)
      × ((after_copy env kind request view response route session copied).0 ≡ route)
after_copy_early env kind request view response route session none early = (refl, refl)
after_copy_early env kind request view response route session (some parameters) early =
    rw early (refl, refl)

-- Two requests of one client for a route with a rate limit: when the first one is admitted, the
-- second, whatever it asks for and in whatever session, is not admitted before the limit has
-- passed, and leaves the route as it is.
pub admit-admit :
    (env later : Environment) (kind kind' : RequestResult) (request request' : JsonObject)
    (view view' : View) (response response' : HttpResponse) (route : Route)
    (session session' : Session)
    → is_admitted (admit env kind request view response route session).1.1 ≡ true
    → later.details ≡ env.details
    → later.now < env.now + route.minimum_ms_between_call
    → 0 < route.minimum_ms_between_call
    → let between = (admit env kind request view response route session).0 in
      (is_admitted (admit later kind' request' view' response' between session').1.1 ≡ false)
      × ((admit later kind' request' view' response' between session').0 ≡ between)
unfolding admit
admit-admit env later kind kind' request request' view view' response response' route session
      session' ok same soon limited =
    let stamp =
      after_copy-stamped env kind request view response route session
        (copy_parameters env.residue request route.required_parameters view.parameters) ok in
    let between = (admit env kind request view response route session).0 in
    after_copy_early later kind' request' view' response' between session'
      (copy_parameters later.residue request' between.required_parameters view'.parameters)
      (ap (is_early later) stamp ∙ stamped-is_early env later route same soon limited)
