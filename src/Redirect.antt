-- ===== src/Redirect.antt =====
-- `get_redirection_html` of cpp-source/util.cpp, and the server of
-- cpp-source/examples/jph2/http-redirecter.cpp that sends it for the target of a request.
use libjaypea.Base.{
  NoSpace, ℕ, Bytes, codes, [], ◌∷◌, ◌++◌, ◌==◌, Bool, false, ◌||◌, if◌then◌else◌, c_str,
  c_str-NoZero, NoZero, length, ◌≡◌, refl, ap, ◌∙◌,
}
use libjaypea.HttpApi.Files.{to_string}

abbrev pub response_body : Bytes → Bytes
response_body hostname =
    codes
      "<!doctype html><html>\n<head>\n<title>301 Moved Permanently</title>\n</head>\n<body>\n<h1>301 Moved Permanently</h1>\n<p>This page has permanently moved to <a href=\"https://"
    ++ (hostname ++ (codes "\">https://" ++ (hostname ++ codes "</a>.</p>\n</body>\n</html>")))

abbrev pub redirection_head : Bytes → Bytes
redirection_head hostname =
    codes "HTTP/1.1 301 Moved Permanently\nLocation: https://"
    ++ (hostname
        ++ (codes "\nAccept-Ranges: bytes\nContent-Type: text/html\nContent-Length: "
            ++ (to_string (length (response_body hostname)) ++ codes "\n\r\n\r\n")))

unfoldable pub get_redirection_html : Bytes → Bytes
get_redirection_html hostname = redirection_head hostname ++ response_body hostname

abbrev pub ends_url : ℕ → Bool
ends_url c = c == b'\r' || c == b'\n' || c == b' '

-- The loop with `state` 2.
unfoldable pub url_text : Bytes → Bytes
url_text [] = []
url_text (c ∷ data_read) = let rest = url_text data_read in if ends_url c then [] else c ∷ rest

-- The loop with `state` 1.
unfoldable pub behind_space : Bytes → Bytes
behind_space [] = []
behind_space (c ∷ data_read) =
    let rest = behind_space data_read in if c == b' ' then url_text data_read else rest

-- `on_read`: what is sent. The connection is then closed.
unfoldable pub on_read : Bytes → Bytes → Bytes
on_read hostname data_read = get_redirection_html (hostname ++ behind_space (c_str data_read))

abbrev pub IsUrl : Bytes → Type 0
IsUrl [] = Unit
IsUrl (c ∷ text) = (ends_url c ≡ false) × IsUrl text

url_text-append : (url rest : Bytes) → IsUrl url → url_text (url ++ (b' ' ∷ rest)) ≡ url
unfolding url_text
url_text-append [] rest u = refl
url_text-append (c ∷ url) rest (inside, u) = rw inside (ap (◌∷◌ c) (url_text-append url rest u))

behind_space-append :
    (method rest : Bytes) → NoSpace method → behind_space (method ++ (b' ' ∷ rest)) ≡ url_text rest
unfolding behind_space
behind_space-append [] rest n = refl
behind_space-append (c ∷ method) rest (apart, n) = rw apart (behind_space-append method rest n)

-- The answer to a request without zero bytes, whose first line has a method and a target between
-- spaces, is the redirection to the target on the host of the server.
pub on_read-get_redirection_html :
    (hostname method url rest : Bytes)
    → NoZero (method ++ (b' ' ∷ (url ++ (b' ' ∷ rest))))
    → NoSpace method
    → IsUrl url
    → on_read hostname (method ++ (b' ' ∷ (url ++ (b' ' ∷ rest))))
      ≡ get_redirection_html (hostname ++ url)
unfolding on_read
on_read-get_redirection_html hostname method url rest z n u =
    let whole = c_str-NoZero (method ++ (b' ' ∷ (url ++ (b' ' ∷ rest)))) z in
    ap (λ (text : Bytes). get_redirection_html (hostname ++ behind_space text)) whole
    ∙ ap (λ (text : Bytes). get_redirection_html (hostname ++ text))
        (behind_space-append method (url ++ (b' ' ∷ rest)) n ∙ url_text-append url rest u)
