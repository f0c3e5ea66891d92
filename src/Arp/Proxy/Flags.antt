-- ===== src/Arp/Proxy/Flags.antt =====
-- httpd/arpproxy.cpp, `handle_device_setflag`: the bits of the words, and what is announced.
use Prim.Native.Nat.{bit_and, bit_or, max}
use bnc.Prelude.{
  all_below, all_below_sound, ℕ, ◌^◌, ◌<◌, ◌≡◌, refl, sym, ◌∙◌, Bool, true, false, Bool-cases, inl,
  inr, arith, ◌==◌, if◌then◌else◌, if_true, if_false,
}
use bnc.Arp.Bits.{
  bit, bit_le, bit-bit_and, bit-bit_or, bit-complement, bit_ext, flagged_lt, bit_zero,
}
use bnc.Arp.Words.{complement}
use bnc.Arp.Proxy.Synced.{pumps_on_lt}
use bnc.Arp.Proxy.{pumps_on, flagged, all_ones}

-- The word of an address after `handle_device_setflag`, from the one before.
unfoldable pub flag_word : ℕ → ℕ → ℕ → ℕ → ℕ → Bool → ℕ → ℕ
flag_word aux1 aux2 pump addr mask value v =
    if addr == aux1
    then if mask == all_ones then (if value then 0x1fff else 0x0001) else flagged v mask value
    else if addr == aux2
    then flagged v mask value
    else if addr == pump
    then flagged (pumps_on v) mask value
    else v

pub bit-flagged :
    (k v mask : ℕ) (value : Bool)
    → k < 32
    → mask < 2 ^ 32
    → bit k (flagged v mask value) ≡ (if bit k mask == 1 then (if value then 1 else 0) else bit k v)
unfolding flagged
bit-flagged k v mask true h w = ground (
  arith,
  bit-bit_or k (bit_and v (complement mask)) mask,
  bit-bit_and k v (complement mask),
  bit-complement 32 k mask h w,
  bit_le k v,
  bit_le k mask,
)
bit-flagged k v mask false h w = ground (
  arith,
  bit-bit_or k (bit_and v (complement mask)) 0,
  bit-bit_and k v (complement mask),
  bit-complement 32 k mask h w,
  bit_le k v,
  bit_le k mask,
  bit_zero k,
)

bit-pumps_on :
    (k v : ℕ)
    → k < 32
    → bit k (pumps_on v) ≡ (if bit k 0x2000 == 1 then 0 else max (bit k v) (bit k 0xc09f))
unfolding pumps_on complement
bit-pumps_on k v h = ground (
  arith,
  bit-bit_and k (bit_or v 0xc09f) (complement 0x2000),
  bit-bit_or k v 0xc09f,
  bit-complement 32 k 0x2000 h (omega arith),
  bit_le k v,
  bit_le k 0x2000,
  bit_le k 0xc09f,
)

flagged_word :
    (v mask : ℕ) (value : Bool) → v < 2 ^ 32 → mask < 2 ^ 32 → flagged v mask value < 2 ^ 32
unfolding flagged
flagged_word v mask value p w = flagged_lt v mask value p w

-- A flag that is put twice; `x` is what the second time starts from.
flagged_again :
    (x v mask : ℕ) (value : Bool)
    → x < 2 ^ 32
    → v < 2 ^ 32
    → mask < 2 ^ 32
    → ((k : ℕ) → k < 32 → (bit k mask == 1) ≡ false → bit k x ≡ bit k v)
    → flagged x mask value ≡ flagged v mask value
flagged_again x v mask value px pv w same =
    bit_ext 32 (flagged x mask value) (flagged v mask value) (flagged_word x mask value px w)
      (flagged_word v mask value pv w)
      (λ k h.
        let left = bit-flagged k x mask value h w in
        let right = bit-flagged k v mask value h w in
        elim (Bool-cases (bit k mask == 1)) [
          | inl t ↦ left ∙ if_true _ _ _ t ∙ sym (right ∙ if_true _ _ _ t)
          | inr f ↦ left ∙ if_false _ _ _ f ∙ same k h f ∙ sym (right ∙ if_false _ _ _ f)
        ])

-- Outside its mask, a flag leaves the bits.
bit-flagged_out :
    (k v mask : ℕ) (value : Bool)
    → k < 32
    → mask < 2 ^ 32
    → (bit k mask == 1) ≡ false
    → bit k (flagged v mask value) ≡ bit k v
bit-flagged_out k v mask value h w f = bit-flagged k v mask value h w ∙ if_false _ _ _ f

flagged_twice :
    (v mask : ℕ) (value : Bool)
    → v < 2 ^ 32
    → mask < 2 ^ 32
    → flagged (flagged v mask value) mask value ≡ flagged v mask value
flagged_twice v mask value p w =
    flagged_again (flagged v mask value) v mask value (flagged_word v mask value p w) p w
      (λ k h f. bit-flagged_out k v mask value h w f)

pumps_twice :
    (v mask : ℕ) (value : Bool)
    → v < 2 ^ 32
    → mask < 2 ^ 32
    → flagged (pumps_on (flagged (pumps_on v) mask value)) mask value
      ≡ flagged (pumps_on v) mask value
pumps_twice v mask value p w =
    let u = flagged (pumps_on v) mask value in
    let once = flagged_word (pumps_on v) mask value (pumps_on_lt v p) w in
    flagged_again (pumps_on u) (pumps_on v) mask value (pumps_on_lt u once) (pumps_on_lt v p) w
      (λ k h f. ground (
        arith,
        bit-pumps_on k u h,
        bit-pumps_on k v h,
        bit-flagged_out k (pumps_on v) mask value h w f,
      ))

pub flag_word_twice :
    (aux1 aux2 pump addr mask : ℕ) (value : Bool) (v : ℕ)
    → v < 2 ^ 32
    → mask < 2 ^ 32
    → flag_word aux1 aux2 pump addr mask value (flag_word aux1 aux2 pump addr mask value v)
      ≡ flag_word aux1 aux2 pump addr mask value v
unfolding flag_word
flag_word_twice aux1 aux2 pump addr mask value v p w =
    ground (arith, flagged_twice v mask value p w, pumps_twice v mask value p w)

vent_table : all_below 32 (λ k. bit k 0x2000 == (if k == 13 then 1 else 0)) ≡ true
unfolding all_below bit
vent_table = refl

-- The same by the number of the bit.
pub bit-pumps_word :
    (k v : ℕ)
    → k < 32
    → bit k (pumps_on v) ≡ (if k == 13 then 0 else if bit k 0xc09f == 1 then 1 else bit k v)
bit-pumps_word k v h = ground (
  arith,
  bit-pumps_on k v h,
  bit_le k v,
  bit_le k 0xc09f,
  all_below_sound 32 (λ k. bit k 0x2000 == (if k == 13 then 1 else 0)) k h vent_table,
)
