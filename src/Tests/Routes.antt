-- ===== src/Tests/Routes.antt =====
-- The registration of routes of cpp-source/http-api.cpp.
use libjaypea.Base.{false, codes, [], false}
use libjaypea.Json.{JsonObject, object, of_type, of_string, set_field}
use libjaypea.HttpApi.{Api}
use libjaypea.HttpApi.Routes.{Terms}

abbrev free : Terms
free = record { required_parameters = []; rate_limit = 0; requires_human = false }

abbrev no_routes : Api
no_routes = record { sessions = []; routemap = [] }

abbrev time_request : JsonObject
time_request =
    set_field (codes "route") (of_string (codes "/api/time/"))
      (set_field (codes "method") (of_string (codes "GET")) (of_type object))
