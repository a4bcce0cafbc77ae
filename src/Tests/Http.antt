-- ===== src/Tests/Http.antt =====
-- The request parser of cpp-source/util.cpp on small requests.
use libjaypea.Base.{Bytes, codes, [], ◌∷◌, ◌≡◌, refl, arith, inl, inr, done, overrun, equal, List}
use libjaypea.Json.{of_type, object, get, put, field, end, of_string, json_object, nil}
use libjaypea.Json.Access.{has_obj, get_str}
use libjaypea.Util.Http.{http, parse_http_request, read_body, start, http_loop, round}
use libjaypea.Util.Replace.{strict_compare_inequal, differ}
use libjaypea.Util.Http.Requests.{
  Header, head_object, print_head, parse-print, parse-overruns_colon,
}

abbrev headers : List Header
headers = (codes "Host", codes "a.b:80") ∷ []

abbrev head : Bytes → Bytes
head = print_head (codes "POST") (codes "x/y") (codes "HTTP/1.1") headers

head_text : head (codes "\r\n{}") ≡ codes "POST /x/y HTTP/1.1\r\nHost: a.b:80\r\n\r\n{}"
head_text = refl

parse-print_example :
    parse_http_request 100 9 (head (codes "\r\n{}")) (of_type object)
    ≡ read_body 9
        (head_object (codes "POST") (codes "x/y") (codes "HTTP/1.1") headers (of_type object))
        (codes "{}")
parse-print_example =
    parse-print 100 9 (codes "POST") (codes "x/y") (codes "HTTP/1.1") headers (codes "{}")
      (of_type object) (inr (inr (inl refl))) (ground arith) (ground arith) (ground arith)
      (omega arith)

colon_overruns : parse_http_request 100 9 (head (codes "Accept:")) (of_type object) ≡ overrun
colon_overruns =
    parse-overruns_colon 100 9 (codes "POST") (codes "x/y") (codes "HTTP/1.1") headers
      (codes "Accept") (of_type object) (inr (inr (inl refl))) (ground arith) (ground arith)
      (ground arith) (ground arith) (omega arith)

-- A parameter with no value: the route is left in front of the protocol.
bare_parameter :
    parse_http_request 100 9 (codes "GET /x?q HTTP/1.1\n\n") (of_type object)
    ≡ done (
      http,
      json_object object []
          (field (codes "method") (of_string (codes "GET")) (
            field
              (codes "route")
              (of_string (codes "/x"))
              (field (codes "protocol") (of_string (codes "/xHTTP/1.1")) end)))
          nil,
    )
unfolding parse_http_request start strict_compare_inequal differ http_loop round read_body has_obj
    get_str get put equal
bare_parameter = refl
