-- ===== src/TlsClient/Target.antt =====
-- `get` of cpp-source/tls-client-manager.cpp, and its request on the side of a server.
use libjaypea.Base.{
  ℕ, ◌<◌, Bytes, codes, [], ◌∷◌, ◌++◌, List, equal, true, false, ◌==◌, if◌then◌else◌, ◌≡◌, refl,
  inl, Option, none, some, length, drop, arith,
}
use libjaypea.Json.{JsonObject}
use libjaypea.Util.Replace.{starts_with}
use libjaypea.Util.Http.{parse_http_request, read_body}
use libjaypea.Util.Http.Rounds.{IsRoute, IsLine}
use libjaypea.Util.Http.Requests.{Header, head_object, print_head, parse-print}
use libjaypea.TlsClient.{get_request}

abbrev pub in_host : ℕ → Option (Bytes × Bytes) → Option (Bytes × Bytes)
in_host b none = none
in_host b (some (hostname, path)) = some (b ∷ hostname, path)

-- The host in front of the first slash, and the path from it on. Without a slash `substr` throws.
unfoldable pub split_slash : Bytes → Option (Bytes × Bytes)
split_slash [] = none
split_slash (b ∷ url) = if b == b'/' then some ([], b ∷ url) else in_host b (split_slash url)

-- The host and the path of `get`; `none` is an exception.
unfoldable pub target : Bytes → Option (Bytes × Bytes)
target url =
    if starts_with url (codes "http://")
    then none
    else if starts_with url (codes "https://")
    then split_slash (drop 8 url)
    else split_slash url

-- No byte of the text is a slash.
abbrev pub NoSlash : Bytes → Type 0
NoSlash [] = Unit
NoSlash (b ∷ s) = ((b == b'/') ≡ false) × NoSlash s

split_slash-append :
    (hostname path : Bytes)
    → NoSlash hostname
    → split_slash (hostname ++ b'/' ∷ path) ≡ some (hostname, b'/' ∷ path)
unfolding split_slash
split_slash-append [] path h = refl
split_slash-append (b ∷ hostname) path (h, hs) = rw (h, split_slash-append hostname path hs) refl

not_http : (url : Bytes) → starts_with (codes "https://" ++ url) (codes "http://") ≡ false
unfolding starts_with equal
not_http url = ground arith

is_https : (url : Bytes) → starts_with (codes "https://" ++ url) (codes "https://") ≡ true
unfolding starts_with equal
is_https url = ground arith

-- A URL of a host without a slash and a path goes to this host and this path.
pub target-append :
    (hostname path : Bytes)
    → NoSlash hostname
    → target (codes "https://" ++ (hostname ++ b'/' ∷ path)) ≡ some (hostname, b'/' ∷ path)
unfolding target
target-append hostname path h =
    rw (not_http (hostname ++ b'/' ∷ path), is_https (hostname ++ b'/' ∷ path))
      (split_slash-append hostname path h)

abbrev pub client_headers : Bytes → List Header
client_headers hostname =
    (codes "Host", hostname)
    ∷ (codes "Connection", codes "close")
    ∷ (codes "User-Agent", codes "libjaypea")
    ∷ (codes "Accept", codes "*/*")
    ∷ []

get_request-print_head :
    (hostname path : Bytes)
    → get_request hostname (b'/' ∷ path)
      ≡ print_head
          (codes "GET")
          path
          (codes "HTTP/1.1")
          (client_headers hostname)
          (b'\r' ∷ b'\n' ∷ [])
unfolding get_request
get_request-print_head hostname path = refl

-- A server of this library reads from the request of the client what the client put there.
pub parse-get_request :
    (k f : ℕ) (hostname path : Bytes) (o : JsonObject)
    → IsRoute path
    → IsLine hostname
    → length (get_request hostname (b'/' ∷ path)) < k
    → parse_http_request k f (get_request hostname (b'/' ∷ path)) o
      ≡ read_body f
          (head_object (codes "GET") path (codes "HTTP/1.1") (client_headers hostname) o)
          []
unfolding get_request
parse-get_request k f hostname path o route host enough =
    parse-print k f (codes "GET") path (codes "HTTP/1.1") (client_headers hostname) [] o (inl refl)
      route (ground arith) (ground arith) enough
