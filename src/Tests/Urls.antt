-- ===== src/Tests/Urls.antt =====
-- Escapes of `url_decode` in httpd/request_handler.cpp.
use bnc.Prelude.{ℕ, Bool, false, ◌∷◌, ◌++◌, ◌≡◌, refl, arith, All, some, none, ◌<◌}
use bnc.Prelude.Bytes.{codes}
use bnc.Http.Url.{url_decode, hex_digit, read_hex}
use bnc.Http.Url.RoundTrip.{url_encode, url_decode-url_encode, url_decode-BadEscape}

abbrev keep_none : ℕ → Bool
keep_none c = false

small : All (λ c. c < 256) (codes "a b")
small = (omega arith, (omega arith, (omega arith, tt)))

url_decode-url_encode_example : url_decode (url_encode keep_none (codes "a b")) ≡ some (codes "a b")
url_decode-url_encode_example = url_decode-url_encode keep_none (codes "a b") small

no_hex : read_hex (codes "zz") ≡ none
unfolding read_hex
no_hex = refl

url_decode-BadEscape_example :
    url_decode (url_encode keep_none (codes "a b") ++ (b'%' ∷ codes "zz1")) ≡ none
url_decode-BadEscape_example =
    url_decode-BadEscape keep_none (codes "a b") (codes "zz1") small no_hex

one : hex_digit b'1' ≡ some 1
unfolding hex_digit
one = refl

not_hex : hex_digit b'g' ≡ none
unfolding hex_digit
not_hex = refl
