-- ===== src/Http/Url/RoundTrip.antt =====
-- `url_decode` of httpd/request_handler.cpp and an encoder.
use bnc.Prelude.{
  ℕ, Bool, [], ◌∷◌, ◌++◌, none, some, ◌/◌, all_below, ◌<◌, ◌≡◌, All, arith, append-nil, ◌%◌,
  all_below_sound, ◌∙◌, append_assoc, ◌==◌, if◌then◌else◌, ◌&&◌, refl, not, ◌+◌,
}
use bnc.Prelude.Bytes.{Bytes}
use bnc.Http.Url.{read_hex, decode_onto, url_decode, false, true, ltb}

abbrev hex_char : ℕ → ℕ
hex_char d = if ltb d 10 then 48 + d else 55 + d

-- A space is written '+'. Of the other bytes `keep` chooses those that stand for themselves, but
-- never '%' or '+'; the rest is written '%' and two digits.
abbrev pub encode_byte : (ℕ → Bool) → ℕ → Bytes
encode_byte keep c =
    if c == 32
    then b'+' ∷ []
    else if keep c && not (c == b'%') && not (c == b'+')
    then c ∷ []
    else b'%' ∷ hex_char (c / 16) ∷ hex_char (c % 16) ∷ []

abbrev pub url_encode : (ℕ → Bool) → Bytes → Bytes
url_encode keep [] = []
url_encode keep (c ∷ s) = encode_byte keep c ++ url_encode keep s

abbrev reads_back : ℕ → Bool
reads_back c = elim (read_hex (hex_char (c / 16) ∷ hex_char (c % 16) ∷ [])) [
  | none ↦ false
  | some v ↦ v == c
]

hex_table : all_below 256 reads_back ≡ true
unfolding all_below read_hex
hex_table = refl

read_hex-hex_char :
    (c : ℕ) → c < 256 → read_hex (hex_char (c / 16) ∷ hex_char (c % 16) ∷ []) ≡ some c
read_hex-hex_char c h = ground (arith, all_below_sound 256 reads_back c h hex_table)

decode_onto-plain :
    (out : Bytes) (c : ℕ) (s : Bytes)
    → (c == b'%') ≡ false
    → decode_onto out (c ∷ s) ≡ decode_onto (out ++ (if c == b'+' then 32 else c) ∷ []) s
unfolding decode_onto
decode_onto-plain out c [] h = ground arith
decode_onto-plain out c (a ∷ []) h = ground arith
decode_onto-plain out c (a ∷ b ∷ s) h = rw h

decode_onto-escaped :
    (out : Bytes) (a b v : ℕ) (s : Bytes)
    → read_hex (a ∷ b ∷ []) ≡ some v
    → decode_onto out (b'%' ∷ a ∷ b ∷ s) ≡ decode_onto (out ++ (v % 256) ∷ []) s
unfolding decode_onto
decode_onto-escaped out a b v s h = rw h

decode_onto-encode_byte :
    (keep : ℕ → Bool) (out : Bytes) (c : ℕ) (s : Bytes)
    → c < 256
    → decode_onto out (encode_byte keep c ++ s) ≡ decode_onto (out ++ c ∷ []) s
decode_onto-encode_byte keep out c s h = ground (
  arith,
  read_hex-hex_char c h,
  decode_onto-plain out c s,
  decode_onto-plain out b'+' s,
  decode_onto-escaped out (hex_char (c / 16)) (hex_char (c % 16)) c s,
)

decode_onto-url_encode :
    (keep : ℕ → Bool) (out s rest : Bytes)
    → All (λ c. c < 256) s
    → decode_onto out (url_encode keep s ++ rest) ≡ decode_onto (out ++ s) rest
decode_onto-url_encode keep out [] rest h = rw append-nil
decode_onto-url_encode keep out (c ∷ s) rest h = rw append_assoc (
    decode_onto-encode_byte keep out c (url_encode keep s ++ rest) h.0
    ∙ decode_onto-url_encode keep (out ++ c ∷ []) s rest h.1
    ∙ rw append_assoc)

-- Decoding gives back every string of bytes from its encoding, whichever bytes the encoder leaves
-- as they are.
pub url_decode-url_encode :
    (keep : ℕ → Bool) (s : Bytes) → All (λ c. c < 256) s → url_decode (url_encode keep s) ≡ some s
unfolding url_decode
url_decode-url_encode keep s h =
    rw append-nil at (decode_onto-url_encode keep [] s [] h ∙ unfold decode_onto in refl)

-- A '%' with no two bytes behind it, or with two bytes that are read as no number.
abbrev pub BadEscape : Bytes → Type 0
BadEscape [] = Unit
BadEscape (a ∷ []) = Unit
BadEscape (a ∷ b ∷ s) = read_hex (a ∷ b ∷ []) ≡ none

decode_onto-BadEscape : (out t : Bytes) → BadEscape t → decode_onto out (b'%' ∷ t) ≡ none
unfolding decode_onto
decode_onto-BadEscape out [] h = refl
decode_onto-BadEscape out (a ∷ []) h = refl
decode_onto-BadEscape out (a ∷ b ∷ s) h = rw h

-- Behind whatever well-encoded bytes, a '%' that lacks two bytes or whose two bytes are read as no
-- number makes the decoder return false.
pub url_decode-BadEscape :
    (keep : ℕ → Bool) (s t : Bytes)
    → All (λ c. c < 256) s
    → BadEscape t
    → url_decode (url_encode keep s ++ (b'%' ∷ t)) ≡ none
unfolding url_decode
url_decode-BadEscape keep s t h k =
    decode_onto-url_encode keep [] s (b'%' ∷ t) h ∙ decode_onto-BadEscape s t k
