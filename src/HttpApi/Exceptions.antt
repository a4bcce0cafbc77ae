-- ===== src/HttpApi/Exceptions.antt =====
-- When the handler of requests ends in an exception.
use libjaypea.Base.{not, ◌≡◌, true, ◌⊎◌}
use libjaypea.Json.{JsonObject}
use libjaypea.Util.Http.{RequestResult}
use libjaypea.HttpApi.{Route, Environment, Api}
use libjaypea.HttpApi.Identity.{checked, identified}
use libjaypea.HttpApi.Admission.{Outcome}
use libjaypea.HttpApi.Caught.{has_all, is_thrown, FunctionThrows}

-- The outcome is an exception exactly when a required parameter has no value; or else each has one,
-- and the function of the route let the exception out.
abbrev pub MayThrow : RequestResult → JsonObject → Route → Outcome → Type 0
MayThrow kind request route outcome =
    (is_thrown outcome ≡ not (has_all request route.required_parameters))
    ⊎ ((has_all request route.required_parameters ≡ true)
        × FunctionThrows kind request route.run
        × (is_thrown outcome ≡ true))

-- The request as the handler sees it, with its session.
abbrev pub session_request : Environment → Api → JsonObject → JsonObject
session_request env a parsed = identified env (checked env a.sessions parsed)
