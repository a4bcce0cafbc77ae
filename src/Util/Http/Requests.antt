-- ===== src/Util/Http/Requests.antt =====
-- What `parse_http_request` reads from a well-formed request.
use libjaypea.Base.{
  ℕ, zero, suc, ◌+◌, ◌≤◌, ◌<◌, Bytes, [], ◌∷◌, ◌++◌, List, true, ◌≡◌, refl, ◌∙◌, ap, codes, length,
  length-append, arith, Run, done, overrun, ◌>>=◌, ◌⊎◌, inl, inr, drop,
}
use libjaypea.Json.{JsonObject}
use libjaypea.Util.Http.{
  Request, round, http_loop, set_text, store_header, read_body, parse_http_request, initial,
  first_request, start, method,
}
use libjaypea.Util.Http.Rounds.{
  request, IsRoute, IsLine, IsKey, route_rounds, space_round, protocol_line, key_rounds,
  colon_round, value_line,
}
use libjaypea.Util.Replace.{strict_compare_inequal, differ}

abbrev pub Header : Type 0
Header = Bytes × Bytes

-- `Name: value`, each line with its end.
abbrev pub header_lines : List Header → Bytes → Bytes
header_lines [] r = r
header_lines ((k, v) ∷ hs) r = k ++ (b':' ∷ b' ' ∷ (v ++ (b'\r' ∷ b'\n' ∷ header_lines hs r)))

-- The first line and the headers, in front of `r`.
abbrev pub print_head : Bytes → Bytes → Bytes → List Header → Bytes → Bytes
print_head name path protocol hs r =
    name ++ (b' ' ∷ b'/' ∷ (path ++ (b' ' ∷ (protocol ++ (b'\r' ∷ b'\n' ∷ header_lines hs r)))))

abbrev pub store_headers : List Header → JsonObject → JsonObject
store_headers [] o = o
store_headers ((k, v) ∷ hs) o = store_headers hs (store_header k v o)

abbrev pub AreHeaders : List Header → Type 0
AreHeaders [] = Unit
AreHeaders ((k, v) ∷ hs) = IsKey k × IsLine v × AreHeaders hs

empty_line :
    (f k : ℕ) (o : JsonObject) (v body : Bytes)
    → 3 ≤ k
    → (m : Request) × (http_loop k f (request o 5 [] v) (b'\r' ∷ b'\n' ∷ body) ≡ done (m, body))
      × (m.obj ≡ o)
unfolding http_loop round
empty_line f (suc (suc (suc k))) o v [] l = (_, refl, refl)
empty_line f (suc (suc (suc k))) o v (c ∷ body) l = (
  record { obj = o; state = 8; new_key = b'\r' ∷ []; new_value = v; exit = true },
  ground arith,
  refl,
)
empty_line f _ o v body l = absurd (omega arith)

-- The loop comes to the headers' end with more fuel than there are bytes left.
abbrev Reaches : ℕ → ℕ → Request → Bytes → JsonObject → Bytes → Type 0
Reaches f k m it o r =
    (k' : ℕ) × (v : Bytes) × (length r < k')
    × (http_loop k f m it ≡ http_loop k' f (request o 5 [] v) r)

headers_lem :
    (f : ℕ) (hs : List Header) (k : ℕ) (o : JsonObject) (v r : Bytes)
    → AreHeaders hs
    → length (header_lines hs r) < k
    → Reaches f k (request o 5 [] v) (header_lines hs r) (store_headers hs o) r
headers_lem f [] k o v r h l = (k, v, l, refl)
headers_lem f ((key, val) ∷ hs) k o v r (hk, hv, h) l =
    let rest = header_lines hs r in
    let line = val ++ (b'\r' ∷ b'\n' ∷ rest) in
    let n1 : length (key ++ (b':' ∷ b' ' ∷ line)) ≡ length key + 4 + length val + length rest =
      omega
        (arith, length-append key (b':' ∷ b' ' ∷ line), length-append val (b'\r' ∷ b'\n' ∷ rest)) in
    let (k1, m1, e1) = key_rounds f o key k [] v (b':' ∷ b' ' ∷ line) hk (omega arith) in
    let (k2, m2, e2) = colon_round f o k1 key v line b' ' (omega arith) in
    let (k3, m3, e3) = value_line f o val k2 key rest hv (omega arith) in
    let (k4, v4, m4, e4) = headers_lem f hs k3 (store_header key val o) val r h (omega arith) in
    (k4, v4, m4, e1 ∙ e2 ∙ e3 ∙ e4)

-- The object with the three texts of the first line, and the headers.
abbrev pub head_object : Bytes → Bytes → Bytes → List Header → JsonObject → JsonObject
head_object name path protocol hs o = store_headers hs (
    set_text (codes "protocol") protocol
      (set_text (codes "route") (b'/' ∷ path) (set_text (codes "method") name (initial o))))

module _ (f : ℕ) (path protocol : Bytes) (hs : List Header) (is_route : IsRoute path)
    (is_line : IsLine protocol) (are_headers : AreHeaders hs) where
  first_line :
      (k : ℕ) (o : JsonObject) (r : Bytes)
      → length (path ++ (b' ' ∷ (protocol ++ (b'\r' ∷ b'\n' ∷ header_lines hs r)))) < k
      → Reaches f k
          (first_request o)
          (path ++ (b' ' ∷ (protocol ++ (b'\r' ∷ b'\n' ∷ header_lines hs r))))
          (store_headers hs
            (set_text (codes "protocol") protocol (set_text (codes "route") (b'/' ∷ path) o)))
          r
  first_line k o r l =
      let rest = header_lines hs r in
      let line = protocol ++ (b'\r' ∷ b'\n' ∷ rest) in
      let n1 : length (path ++ (b' ' ∷ line)) ≡ length path + 3 + length protocol + length rest =
        omega (
          arith,
          length-append path (b' ' ∷ line),
          length-append protocol (b'\r' ∷ b'\n' ∷ rest),
        ) in
      let (k1, m1, e1) =
        route_rounds f o path k [] (b'/' ∷ []) (b' ' ∷ line) is_route (omega arith) in
      let (k2, m2, e2) = space_round f o k1 [] (b'/' ∷ path) line (cc) (omega arith) in
      let (k3, m3, e3) =
        protocol_line f (set_text (codes "route") (b'/' ∷ path) o) protocol k2 [] rest is_line
          (omega arith) in
      let (k4, v4, m4, e4) =
        headers_lem f hs k3
          (set_text (codes "protocol") protocol (set_text (codes "route") (b'/' ∷ path) o)) protocol
          r are_headers (omega arith) in
      (k4, v4, m4, e1 ∙ e2 ∙ e3 ∙ e4)

-- The five methods that the parser knows.
abbrev pub IsMethod : Bytes → Type 0
IsMethod name =
    (name ≡ codes "GET")
    ⊎ (name ≡ codes "HEAD")
    ⊎ (name ≡ codes "POST")
    ⊎ (name ≡ codes "DELETE")
    ⊎ (name ≡ codes "PUT")

-- The start of a request with one of them is recognised.
pub start-method :
    (name r : Bytes)
    → IsMethod name
    → (n : ℕ) × (start (name ++ (b' ' ∷ b'/' ∷ r)) ≡ method name n)
      × (drop n (name ++ (b' ' ∷ b'/' ∷ r)) ≡ r)
unfolding start strict_compare_inequal differ
start-method name r (inl e) = (5, rw e, rw e)
start-method name r (inr (inl e)) = (6, rw e, rw e)
start-method name r (inr (inr (inl e))) = (6, rw e, rw e)
start-method name r (inr (inr (inr (inl e)))) = (8, rw e, rw e)
start-method name r (inr (inr (inr (inr e)))) = (5, rw e, rw e)

pub parse-method :
    (k f : ℕ) (s name rest : Bytes) (n : ℕ) (o : JsonObject)
    → start s ≡ method name n
    → drop n s ≡ rest
    → parse_http_request k f s o ≡ (
        http_loop k f (first_request (set_text (codes "method") name (initial o))) rest
        >>= λ (m, it). read_body f m.obj it)
unfolding parse_http_request
parse-method k f s name rest n o e d = rw (e, parse_http_request) (rw d)

pub parse-head :
    (k f : ℕ) (name path protocol : Bytes) (hs : List Header) (r : Bytes) (o : JsonObject)
    → IsMethod name
    → IsRoute path
    → IsLine protocol
    → AreHeaders hs
    → length (print_head name path protocol hs r) < k
    → (k' : ℕ) × (v : Bytes) × (length r < k')
      × (parse_http_request k f (print_head name path protocol hs r) o ≡ (
          http_loop k' f (request (head_object name path protocol hs o) 5 [] v) r >>= λ (m, it).
          read_body f m.obj it))
parse-head k f name path protocol hs r o hm hp hl hh l =
    let rest = path ++ (b' ' ∷ (protocol ++ (b'\r' ∷ b'\n' ∷ header_lines hs r))) in
    let (n, e, d) = start-method name rest hm in
    let (k', v, m, q) =
      first_line f path protocol hs hp hl hh k (set_text (codes "method") name (initial o)) r
        (omega (arith, length-append name (b' ' ∷ b'/' ∷ rest))) in
    (
      k',
      v,
      m,
      parse-method k f (name ++ (b' ' ∷ b'/' ∷ rest)) name rest n o e d
          ∙ ap (λ (x : Run (Request × Bytes)). x >>= λ (m, it). read_body f m.obj it) q,
    )

-- A well-formed request of a known method, with fuel for each of its bytes: `parse_http_request`
-- returns what the body's reader makes of the body, and of an object with the method, the route,
-- the protocol and every header.
pub parse-print :
    (k f : ℕ) (name path protocol : Bytes) (hs : List Header) (body : Bytes) (o : JsonObject)
    → IsMethod name
    → IsRoute path
    → IsLine protocol
    → AreHeaders hs
    → length (print_head name path protocol hs (b'\r' ∷ b'\n' ∷ body)) < k
    → parse_http_request k f (print_head name path protocol hs (b'\r' ∷ b'\n' ∷ body)) o
      ≡ read_body f (head_object name path protocol hs o) body
parse-print k f name path protocol hs body o hm hp hl hh l =
    let (k', v, m, e) =
      parse-head k f name path protocol hs (b'\r' ∷ b'\n' ∷ body) o hm hp hl hh l in
    let (q, a, b) = empty_line f k' (head_object name path protocol hs o) v body (omega arith) in
    e
    ∙ ap (λ (x : Run (Request × Bytes)). x >>= λ (m, it). read_body f m.obj it) a
    ∙ ap (λ (x : JsonObject). read_body f x body) b

open_colon :
    (f k : ℕ) (o : JsonObject) (key v : Bytes)
    → 0 < k
    → http_loop k f (request o 5 key v) (b':' ∷ []) ≡ overrun
unfolding http_loop round
open_colon f zero o key v l = absurd (omega arith)
open_colon f (suc k) o key v l = refl

-- Where the text ends with the colon of a header, the parser reads on behind the terminating zero.
pub parse-overruns_colon :
    (k f : ℕ) (name path protocol : Bytes) (hs : List Header) (key : Bytes) (o : JsonObject)
    → IsMethod name
    → IsRoute path
    → IsLine protocol
    → AreHeaders hs
    → IsKey key
    → length (print_head name path protocol hs (key ++ b':' ∷ [])) < k
    → parse_http_request k f (print_head name path protocol hs (key ++ b':' ∷ [])) o ≡ overrun
parse-overruns_colon k f name path protocol hs key o hm hp hl hh hk l =
    let (k', v, m, e) = parse-head k f name path protocol hs (key ++ b':' ∷ []) o hm hp hl hh l in
    let (k2, m2, e2) =
      key_rounds f (head_object name path protocol hs o) key k' [] v (b':' ∷ []) hk
        (omega (arith, length-append key (b':' ∷ []))) in
    e
    ∙ ap (λ (x : Run (Request × Bytes)). x >>= λ (m, it). read_body f m.obj it)
        (e2
          ∙ open_colon f k2 (head_object name path protocol hs o) key v
              (omega (arith, length-append key (b':' ∷ []))))
