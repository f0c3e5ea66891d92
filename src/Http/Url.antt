-- ===== src/Http/Url.antt =====
-- `url_decode` of httpd/request_handler.cpp, with the parts of the standard library that it rests
-- on: `is >> std::hex >> value` reads an int as num_get does, in the C locale.
pub mod RoundTrip
pub mod Lenient
use bnc.Prelude.{
  ℕ, ◌+◌, ◌-◌, ◌*◌, ◌%◌, ◌^◌, Bool, true, false, ◌&&◌, ◌||◌, List, [], ◌∷◌, ◌++◌, Option, none,
  some, ltb, leb, ◌==◌, if◌then◌else◌,
}
use bnc.Prelude.Bytes.{Bytes}

is_space : ℕ → Bool
is_space c = c == 32 || (leb 9 c && leb c 13)

unfoldable pub hex_digit : ℕ → Option ℕ
hex_digit c =
    if leb b'0' c && leb c b'9'
    then some (c - 48)
    else if leb b'a' c && leb c b'f'
    then some (c - 87)
    else if leb b'A' c && leb c b'F'
    then some (c - 55)
    else none

skip_spaces : Bytes → Bytes
skip_spaces [] = []
skip_spaces (c ∷ s) = if is_space c then skip_spaces s else c ∷ s

-- The digits in front, on top of `n`; the stream is left at the first byte that is none.
hex_run : ℕ → Bytes → ℕ
hex_run n [] = n
hex_run n (c ∷ s) = elim (hex_digit c) [ none ↦ n | some d ↦ hex_run (n * 16 + d) s ]

-- No digit at all is a failure.
magnitude : Bytes → Option ℕ
magnitude [] = none
magnitude (c ∷ s) = elim (hex_digit c) [ none ↦ none | some d ↦ some (hex_run d s) ]

-- A prefix "0x" is taken, and then wants a digit.
prefixed : Bytes → Option ℕ
unfolding magnitude
prefixed [] = none
prefixed (c ∷ []) = magnitude (c ∷ [])
prefixed (c ∷ x ∷ s) =
    if c == b'0' && (x == b'x' || x == b'X') then magnitude s else magnitude (c ∷ x ∷ s)

-- A value out of the range of int is a failure. A negative int is written as its bit pattern.
positive : Option ℕ → Option ℕ
positive none = none
positive (some n) = if ltb n (2 ^ 31) then some n else none

negative : Option ℕ → Option ℕ
negative none = none
negative (some n) = if leb n (2 ^ 31) then some ((2 ^ 32 - n) % 2 ^ 32) else none

signed : Bytes → Option ℕ
unfolding positive negative prefixed
signed [] = none
signed (c ∷ s) =
    if c == b'-'
    then negative (prefixed s)
    else if c == b'+'
    then positive (prefixed s)
    else positive (prefixed (c ∷ s))

-- `is >> std::hex >> value` on a stream that holds `s`.
unfoldable pub read_hex : Bytes → Option ℕ
unfolding signed skip_spaces is_space hex_digit hex_run magnitude
read_hex s = signed (skip_spaces s)

abbrev plain : ℕ → ℕ
plain c = if c == b'+' then 32 else c

-- The loop, with what `out` holds so far. A '%' wants two more bytes.
unfoldable pub decode_onto : Bytes → Bytes → Option Bytes
decode_onto out [] = some out
decode_onto out (c ∷ []) = if c == b'%' then none else some (out ++ plain c ∷ [])
decode_onto out (c ∷ a ∷ []) =
    if c == b'%' then none else decode_onto (out ++ plain c ∷ []) (a ∷ [])
decode_onto out (c ∷ a ∷ b ∷ s) =
    let escaped : Option Bytes = elim (read_hex (a ∷ b ∷ [])) [
      | none ↦ none
      | some v ↦ decode_onto (out ++ (v % 256) ∷ []) s
    ] in
    let unescaped = decode_onto (out ++ plain c ∷ []) (a ∷ b ∷ s) in
    if c == b'%' then escaped else unescaped

-- `url_decode`: what it puts in `out`, or `none` where it returns false.
unfoldable pub url_decode : Bytes → Option Bytes
unfolding decode_onto
url_decode s = decode_onto [] s
