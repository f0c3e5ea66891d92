-- ===== src/Http/Url/Lenient.antt =====
-- Malformed escapes in `url_decode` of httpd/request_handler.cpp.
use bnc.Prelude.{ℕ, [], ◌∷◌, none, some, ◌≡◌, ◌≤◌, ◌≢◌, arith}
use bnc.Http.Url.{read_hex, hex_digit, url_decode}

hex_digit_bounds : (c d : ℕ) → hex_digit c ≡ some d → (48 ≤ c) × (c ≤ 102) × (d ≤ 15)
unfolding hex_digit
hex_digit_bounds c d h = ground arith

read_hex_one :
    (a b d : ℕ)
    → hex_digit a ≡ some d
    → hex_digit b ≡ none
    → b ≢ b'x'
    → b ≢ b'X'
    → read_hex (a ∷ b ∷ []) ≡ some d
unfolding read_hex
read_hex_one a b d h k x y = ground (arith, hex_digit_bounds a d h)

-- An escape whose first byte is a hexadecimal digit and whose second byte is neither a digit nor an
-- x is taken: the decoder reads the one digit and drops the second byte.
pub url_decode_one_digit :
    (a b d : ℕ)
    → hex_digit a ≡ some d
    → hex_digit b ≡ none
    → b ≢ b'x'
    → b ≢ b'X'
    → url_decode (b'%' ∷ a ∷ b ∷ []) ≡ some (d ∷ [])
unfolding url_decode
url_decode_one_digit a b d h k x y =
    ground (arith, hex_digit_bounds a d h, read_hex_one a b d h k x y)
