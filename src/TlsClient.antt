-- ===== src/TlsClient.antt =====
-- `TlsClientManager` of cpp-source/tls-client-manager.cpp: the requests that it writes and the
-- answers that it reads. The socket and OpenSSL are left out.
pub mod Target
pub mod Reading
use libjaypea.Base.{ℕ, Bytes, codes, [], ◌∷◌, ◌++◌, Option, none, some, Dict, length}
use libjaypea.Util.Replace.{replace_all}
use libjaypea.HttpApi.Files.{to_string}

-- The request of `get_body`.
unfoldable pub get_request : Bytes → Bytes → Bytes
get_request hostname path =
    codes "GET "
    ++ (path
        ++ (codes " HTTP/1.1\r\n"
            ++ (codes "Host: "
                ++ (hostname
                    ++ (codes "\r\n"
                        ++ (codes "Connection: close\r\n"
                            ++ (codes "User-Agent: libjaypea\r\n"
                                ++ codes "Accept: */*\r\n\r\n")))))))

-- The headers that `post` is given end with a line feed only.
abbrev pub post_lines : Dict Bytes → Bytes
post_lines [] = []
post_lines ((name, value) ∷ headers) =
    name ++ (codes ": " ++ (value ++ (codes "\n" ++ post_lines headers)))

abbrev pub post_text : Bytes → Bytes → Dict Bytes → Bytes → Bytes
post_text hostname path headers body =
    codes "POST "
    ++ (path
        ++ (codes " HTTP/1.1\r\n"
            ++ (codes "Host: "
                ++ (hostname
                    ++ (codes "\r\n"
                        ++ (codes "Connection: close\r\n"
                            ++ (codes "User-Agent: libjaypea\r\n"
                                ++ (codes "Accept: */*\r\n"
                                    ++ (post_lines headers
                                        ++ (codes "Content-Length: "
                                            ++ (to_string (length body)
                                                ++ (codes "\r\n\r\n" ++ body))))))))))))

-- The request of `post`. `none` means that the fuel of `replace_all` ran out.
unfoldable pub post_request : ℕ → Bytes → Bytes → Dict Bytes → Bytes → Option Bytes
post_request f hostname path headers body =
    elim (replace_all f body (codes "\r\n") (codes "<br>")) [
      | none ↦ none
      | some replaced ↦ some (post_text hostname path headers replaced)
    ]
