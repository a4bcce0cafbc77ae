-- ===== src/HttpApi/Routes.antt =====
-- The registration of routes, and `respond` and `respond_404`, of cpp-source/http-api.cpp.
use libjaypea.Base.{
  ℕ, Bytes, codes, [], ◌∷◌, ◌++◌, Bool, true, false, if◌then◌else◌, ◌≡◌, ◌≢◌, Option, none, some,
  is_some, Dict, ◌⊎◌, length, lookup, insert,
}
use libjaypea.Json.{JsonType, JsonObject}
use libjaypea.HttpApi.{
  HttpResponse, View, Called, Function, function, form_function, token_function, Route, Api,
}
use libjaypea.HttpApi.Files.{to_string}
use libjaypea.HttpApi.Handler.{slashed}

-- What every route has beside its function.
pub record Terms : Type 0 where
  pub required_parameters : Dict JsonType
  pub rate_limit : ℕ
  pub requires_human : Bool

abbrev pub new_route : Function → Terms → Route
new_route f terms = record {
  run = f;
  required_parameters = terms.required_parameters;
  requires_human = terms.requires_human;
  minimum_ms_between_call = terms.rate_limit;
  client_ms_at_call = [];
}

abbrev pub register : Bytes → Route → Api → Api
register key entry a = record a { routemap = insert key entry a.routemap }

-- `form_route`.
unfoldable pub add_form_route : Bytes → Bytes → (JsonObject → Called View) → Terms → Api → Api
add_form_route method path f terms a =
    register (method ++ (codes " " ++ path)) (new_route (form_function f) terms) a

-- The last byte of an empty path is read; the callers have none.
abbrev pub api_key : Bytes → Bytes → Bytes
api_key method path = method ++ (codes " /api" ++ slashed path)

-- `route`.
unfoldable pub add_route : Bytes → Bytes → (JsonObject → Called Bytes) → Terms → Api → Api
add_route method path f terms a = register (api_key method path) (new_route (function f) terms) a

-- `authenticated_route`; without an encryptor the program ends.
unfoldable pub add_authenticated_route :
    Bool → Bytes → Bytes → (JsonObject → JsonObject → Called Bytes) → Terms → Api → Option Api
add_authenticated_route false method path f terms a = none
add_authenticated_route true method path f terms a =
    some (register (api_key method path) (new_route (token_function f) terms) a)

-- `respond`: the response that is sent.
unfoldable pub with_length : HttpResponse → HttpResponse
with_length response =
    if is_some (lookup (codes "Content-Length") response.headers)
    then response
    else record response {
      headers = insert (codes "Content-Length") (to_string (length response.body)) response.headers;
    }

-- `respond_404`.
unfoldable pub response_404 : HttpResponse
response_404 = with_length (record {
  start = codes "HTTP/1.1";
  status = codes "302 Not Found";
  headers = (codes "Location", codes "404.html") ∷ [];
  body = codes "<h1 style='text-align:center;'>404 Not Found</h1>";
})

-- Nothing, or a slash.
abbrev pub slash : Bool → Bytes
slash false = []
slash true = codes "/"

-- The paths are equal, or differ only in one slash behind a last byte that is none.
abbrev pub IsAlike : Bytes → Bytes → Type 0
IsAlike path asked =
    (path ≡ asked)
    ⊎ ((start : Bytes) × (last : ℕ) × (left right : Bool) × (last ≢ b'/')
        × (path ≡ start ++ last ∷ slash left)
        × (asked ≡ start ++ last ∷ slash right))
