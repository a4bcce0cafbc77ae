-- ===== src/Tests/Util.antt =====
-- The text helpers of cpp-source/util.cpp on small inputs.
use libjaypea.Base.{c_str, Bytes, codes, [], ◌∷◌, ◌≡◌, refl, arith, length, some, none}
use libjaypea.Util.Url.{url_encode, url_decode, encode_byte}
use libjaypea.Util.Url.RoundTrip.{url_decode-url_encode, url_decode-url_encode_high}
use libjaypea.Util.Replace.{replace_all, replace_loop, find, behind}
use libjaypea.Util.Replace.Laws.{Joined, replace_all-Joined, replace_all-nil}

encoded_text : url_encode (codes "a b&c\n") ≡ codes "a+b%26c%0A"
unfolding url_encode encode_byte c_str
encoded_text = refl

url_decode-url_encode_example : url_decode 7 (url_encode (codes "a b&c\n")) ≡ codes "a b&c\n"
url_decode-url_encode_example = url_decode-url_encode 7 (codes "a b&c\n") (omega arith)

url_decode-url_encode_high_run : length (url_decode 7 (url_encode (233 ∷ []))) ≡ 8
url_decode-url_encode_high_run = url_decode-url_encode_high 7 233 (omega arith) (omega arith)

replaced_text : replace_all 9 (codes "a--b-") (codes "-") (codes "+-") ≡ some (codes "a+-+-b+-")
unfolding replace_all replace_loop find behind
replaced_text = refl

replace_all-Joined_example :
    (t : Bytes) × (replace_all 9 (codes "a--b-") (codes "-") (codes "+-") ≡ some t)
    × Joined (codes "-") (codes "+-") (codes "a--b-") t
replace_all-Joined_example =
    replace_all-Joined 9 (codes "a--b-") (codes "-") (codes "+-") (cc) (omega arith)

nothing_to_find : replace_all 9 (codes "ab") [] (codes "x") ≡ none
nothing_to_find = replace_all-nil 9 (codes "ab") (codes "x")
