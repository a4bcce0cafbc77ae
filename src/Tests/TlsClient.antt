-- ===== src/Tests/TlsClient.antt =====
-- A request and answers of cpp-source/tls-client-manager.cpp.
use libjaypea.Base.{codes, false, [], ◌∷◌, ◌≡◌, refl, arith, some, done, c_str}
use libjaypea.Json.{of_type, object}
use libjaypea.Util.Replace.{find, behind, replace_all, replace_loop}
use libjaypea.Util.Http.{parse_http_request, read_body}
use libjaypea.Util.Http.Requests.{head_object}
use libjaypea.TlsClient.{get_request, post_request}
use libjaypea.TlsClient.Target.{target, target-append, client_headers, parse-get_request}
use libjaypea.TlsClient.Reading.{
  read_loop, in_time, bounded, read_loop-in_time, get_body, answer_body,
}

sliced : target (codes "https://a.b/c?d") ≡ some (codes "a.b", codes "/c?d")
sliced = target-append (codes "a.b") (codes "c?d") (ground arith)

parse_get_request_run :
    parse_http_request 200 9 (get_request (codes "a.b") (codes "/c")) (of_type object)
    ≡ read_body 9
        (head_object
          (codes "GET")
          (codes "c")
          (codes "HTTP/1.1")
          (client_headers (codes "a.b"))
          (of_type object))
        []
unfolding get_request
parse_get_request_run =
    parse-get_request 200 9 (codes "a.b") (codes "c") (of_type object) (ground arith) (ground arith)
      (omega arith)

read_loop-in_time_example :
    read_loop 0 [] (in_time ((codes "HTTP/1.1 200", 3) ∷ (codes " Ok\r\n\r\nhi", 9) ∷ []))
    ≡ bounded (codes "HTTP/1.1 200 Ok\r\n\r\nhi")
read_loop-in_time_example =
    read_loop-in_time ((codes "HTTP/1.1 200", 3) ∷ (codes " Ok\r\n\r\nhi", 9) ∷ [])
      (omega arith, (omega arith, tt))

body_of_answer :
    get_body
      (codes "a.b")
      false
      (in_time ((codes "HTTP/1.1 200", 3) ∷ (codes " Ok\r\n\r\nhi", 9) ∷ []))
    ≡ done (codes "hi")
unfolding get_body read_loop answer_body c_str find behind
body_of_answer = refl

posted :
    post_request 9 (codes "h") (codes "/") [] (codes "a\r\nb")
    ≡ some (
        codes
          "POST / HTTP/1.1\r\nHost: h\r\nConnection: close\r\nUser-Agent: libjaypea\r\nAccept: */*\r\nContent-Length: 6\r\n\r\na<br>b")
unfolding post_request replace_all replace_loop find behind
posted = refl
