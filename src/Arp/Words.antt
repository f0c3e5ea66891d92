-- ===== src/Arp/Words.antt =====
-- httpd/arpproxy.cpp: the arithmetic of uint32_t that the register commands use, a word being a
-- number below 2 ^ 32: its bytes, its complement, and the bits below a mask.
use Prim.Native.Nat.{bit_and, bit_or}
use bnc.Prelude.{
  true, false, ℕ, zero, suc, ◌+◌, ◌-◌, ◌*◌, ◌/◌, ◌%◌, ◌^◌, Option, none, some, [], ◌∷◌, ◌==◌,
}
use bnc.Prelude.Bytes.{Bytes}

-- The four bytes of `CmdRegRead` and `CmdRegWrite` for a word, the lowest first. A uint32_t in
-- memory has the same ones, on the machines that the program runs on.
abbrev pub le32 : ℕ → Bytes
le32 w = w % 256 ∷ w / 256 % 256 ∷ w / 65536 % 256 ∷ w / 16777216 % 256 ∷ []

-- `( d << 24 ) | ( c << 16 ) | ( b << 8 ) | a` on bytes.
abbrev pub of_bytes : ℕ → ℕ → ℕ → ℕ → ℕ
of_bytes a b c d = a + 256 * b + 65536 * c + 16777216 * d

-- `~w`.
unfoldable pub complement : ℕ → ℕ
complement w = 2 ^ 32 - 1 - w

-- `(value & ~mask) | (word & mask)`.
unfoldable pub merge : ℕ → ℕ → ℕ → ℕ
unfolding complement
merge value word mask = bit_or (bit_and value (complement mask)) (bit_and word mask)

-- The number of zeros below the lowest one of a mask, by `( mask >> j ) & 0x01`. A mask with none in
-- 32 bits shifts by too much, which is undefined. The fuel is the number of bits.
unfoldable pub lowest_bit : ℕ → ℕ → Option ℕ
lowest_bit zero mask = none
lowest_bit (suc bits) mask = elim (mask % 2 == 0) [
  | true ↦ elim (lowest_bit bits (mask / 2)) [ none ↦ none | some j ↦ some (suc j) ]
  | false ↦ some 0
]
