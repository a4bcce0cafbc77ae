-- ===== src/HttpApi.antt =====
-- `HttpApi` of cpp-source/http-api.cpp and the classes of cpp-source/http-api.hpp: the routes, the
-- sessions and the handler of requests.
pub mod Identity
pub mod Admission
pub mod Handler
pub mod Captcha
pub mod Rate
pub mod Caught
pub mod Exceptions
pub mod Known
pub mod Paths
pub mod Pages
pub mod Chunks
pub mod Files
pub mod Routes
use libjaypea.Base.{ℕ, Bytes, codes, [], ◌∷◌, ◌++◌, Bool, Option, Dict}
use libjaypea.Json.{JsonType, JsonObject}

pub record HttpResponse : Type 0 where
  pub start : Bytes
  pub status : Bytes
  pub headers : Dict Bytes
  pub body : Bytes

-- A `View` without its size, which `respond_http` sets from the file.
pub record View : Type 0 where
  pub route : Bytes
  pub method : Bytes
  pub parameters : Dict Bytes

-- What a call of a route's function ends with: a result, an exception that a handler for
-- `const std::exception&` takes, or another one, such as a pointer.
pub data Called (A : Type 0) : Type 0 where
  gives : A → Called A
  throws : Called A
  throws_other : Called A

-- Each constructor of `Route` sets one of three functions and leaves the others null. The
-- functions are those of the program that registers the route.
pub data Function : Type 0 where
  function : (JsonObject → Called Bytes) → Function
  form_function : (JsonObject → Called View) → Function
  token_function : (JsonObject → JsonObject → Called Bytes) → Function

pub record Route : Type 0 where
  pub run : Function
  pub required_parameters : Dict JsonType
  pub requires_human : Bool
  pub minimum_ms_between_call : ℕ
  pub client_ms_at_call : Dict ℕ

-- `created` is in seconds.
pub record Session : Type 0 where
  pub captcha : Bytes
  pub created : ℕ

pub record Api : Type 0 where
  pub sessions : Dict Session
  pub routemap : Dict Route

-- What a call of the handler finds around it: the peer's details, the clock in milliseconds, the
-- letters that `get_captcha` draws, the hash, the encryptor (`none` for an exception), the client
-- for other servers, and what is in an uninitialised variable of `url_decode`.
pub record Environment : Type 0 where
  pub details : Bytes
  pub now : ℕ
  pub drawn_captcha : Bytes
  pub sha256_hash : Bytes → Bytes
  pub decrypt : Bytes → Option Bytes
  pub secret_captcha_url : Bytes
  pub https_get : Bytes → Bytes
  pub residue : ℕ

abbrev pub ok_response : HttpResponse
ok_response = record { start = codes "HTTP/1.1"; status = codes "200 Ok"; headers = []; body = [] }

-- `HttpResponse::str`.
abbrev pub header_lines : Dict Bytes → Bytes
header_lines [] = []
header_lines ((name, value) ∷ headers) =
    name ++ (codes ": " ++ (value ++ (codes "\r\n" ++ header_lines headers)))

unfoldable pub str : HttpResponse → Bytes
str response =
    response.start
    ++ (codes " "
        ++ (response.status
            ++ (codes "\r\n"
                ++ (header_lines response.headers ++ (codes "\r\n" ++ response.body)))))
