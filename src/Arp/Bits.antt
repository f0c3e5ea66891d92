-- ===== src/Arp/Bits.antt =====
-- The bits of a word, for the flags that httpd/arpproxy.cpp keeps in its set points.
use Prim.Native.Nat.{
  ℕ, zero, suc, ◌+◌, ◌-◌, ◌*◌, ◌/◌, ◌%◌, ◌^◌, ◌≤◌, ◌<◌, min, max, bit_and, bit_or, digits,
  bit_and-bitwise, bit_or-bitwise,
}
use native.Mathlib.Nat.{pow-succ'}
use bnc.Prelude.{◌≡◌, refl, arith, Bool, if◌then◌else◌}
use bnc.Arp.Words.{complement, merge}
use mathlib.Core.Bool.{true, false}

-- The bit at an index, 0 or 1.
unfoldable pub bit : ℕ → ℕ → ℕ
bit zero x = x % 2
bit (suc k) x = bit k (x / 2)

pub bit_le : (k x : ℕ) → bit k x ≤ 1
unfolding bit
bit_le zero x = omega arith
bit_le (suc k) x = bit_le k (x / 2)

-- One digit of the native operation `op`, from the digits that it stands for.
digits_fuel :
    (left : ℕ → ℕ) (op : ℕ → ℕ → ℕ) (n m x y : ℕ)
    → x ≤ n
    → x ≤ m
    → digits left op n x y ≡ digits left op m x y
digits_fuel left op zero zero x y h l = refl
digits_fuel left op zero (suc m) zero y h l = refl
digits_fuel left op zero (suc m) (suc x) y h l = absurd (omega arith)
digits_fuel left op (suc n) zero zero y h l = refl
digits_fuel left op (suc n) zero (suc x) y h l = absurd (omega arith)
digits_fuel left op (suc n) (suc m) zero y h l = refl
digits_fuel left op (suc n) (suc m) (suc x) y h l =
    omega (arith, digits_fuel left op n m (suc x / 2) (y / 2) (omega arith) (omega arith))

bit_and_step : (x y : ℕ) → bit_and x y ≡ bit_and (x / 2) (y / 2) * 2 + min (x % 2) (y % 2)
bit_and_step zero y = omega (arith, bit_and-bitwise 0 y, bit_and-bitwise 0 (y / 2))
bit_and_step (suc x) y = omega (
  arith,
  bit_and-bitwise (suc x) y,
  bit_and-bitwise (suc x / 2) (y / 2),
  digits_fuel (λ rest. zero) min x (suc x / 2) (suc x / 2) (y / 2) (omega arith) (omega arith),
)

bit_or_step : (x y : ℕ) → bit_or x y ≡ bit_or (x / 2) (y / 2) * 2 + max (x % 2) (y % 2)
bit_or_step zero y = omega (arith, bit_or-bitwise 0 y, bit_or-bitwise 0 (y / 2))
bit_or_step (suc x) y = omega (
  arith,
  bit_or-bitwise (suc x) y,
  bit_or-bitwise (suc x / 2) (y / 2),
  digits_fuel (λ rest. rest) max x (suc x / 2) (suc x / 2) (y / 2) (omega arith) (omega arith),
)

pub bit-bit_and : (k a b : ℕ) → bit k (bit_and a b) ≡ min (bit k a) (bit k b)
unfolding bit
bit-bit_and zero a b = omega (arith, bit_and_step a b)
bit-bit_and (suc k) a b =
    let half : bit_and a b / 2 ≡ bit_and (a / 2) (b / 2) = omega (arith, bit_and_step a b) in
    rw half (bit-bit_and k (a / 2) (b / 2))

pub bit-bit_or : (k a b : ℕ) → bit k (bit_or a b) ≡ max (bit k a) (bit k b)
unfolding bit
bit-bit_or zero a b = omega (arith, bit_or_step a b)
bit-bit_or (suc k) a b =
    let half : bit_or a b / 2 ≡ bit_or (a / 2) (b / 2) = omega (arith, bit_or_step a b) in
    rw half (bit-bit_or k (a / 2) (b / 2))

bit_and_le_fuel : (n a b : ℕ) → a ≤ n → bit_and a b ≤ a
bit_and_le_fuel n zero b h = omega (arith, bit_and-bitwise 0 b)
bit_and_le_fuel zero (suc a) b h = absurd (omega arith)
bit_and_le_fuel (suc n) (suc a) b h =
    omega (arith, bit_and_step (suc a) b, bit_and_le_fuel n (suc a / 2) (b / 2) (omega arith))

pub bit_and_le : (a b : ℕ) → bit_and a b ≤ a
bit_and_le a b = bit_and_le_fuel a a b (omega arith)

double : (n : ℕ) → 2 ^ suc n ≡ 2 * 2 ^ n
double n = pow-succ' 2 n

pub bit_or_lt : (n a b : ℕ) → a < 2 ^ n → b < 2 ^ n → bit_or a b < 2 ^ n
bit_or_lt zero a b p q =
    let e : a ≡ 0 = omega arith in let d : b ≡ 0 = omega arith in rw (e, d) (omega arith)
bit_or_lt (suc n) a b p q =
    let d = double n in
    omega (arith, bit_or_step a b, bit_or_lt n (a / 2) (b / 2) (omega arith) (omega arith), d)

pub bit-complement : (n k a : ℕ) → k < n → a < 2 ^ n → bit k (2 ^ n - 1 - a) ≡ 1 - bit k a
unfolding bit
bit-complement zero k a h l = absurd (omega arith)
bit-complement (suc n) zero a h l = let d = double n in omega arith
bit-complement (suc n) (suc k) a h l =
    let d = double n in
    let half : (2 ^ suc n - 1 - a) / 2 ≡ 2 ^ n - 1 - a / 2 = omega arith in
    rw half (bit-complement n k (a / 2) (omega arith) (omega arith))

-- Words with the same bits are equal.
pub bit_ext : (n a b : ℕ) → a < 2 ^ n → b < 2 ^ n → ((k : ℕ) → k < n → bit k a ≡ bit k b) → a ≡ b
unfolding bit
bit_ext zero a b p q h = omega arith
bit_ext (suc n) a b p q h =
    let d = double n in
    let low = h 0 (omega arith) in
    let high =
      bit_ext n (a / 2) (b / 2) (omega arith) (omega arith) (λ k l. h (suc k) (omega arith)) in
    omega arith

pub merge_lt :
    (value word mask : ℕ) → value < 2 ^ 32 → word < 2 ^ 32 → merge value word mask < 2 ^ 32
unfolding merge
merge_lt value word mask p q =
    bit_or_lt 32 _ _ (omega (arith, bit_and_le value (complement mask)))
      (omega (arith, bit_and_le word mask))

pub flagged_lt :
    (v mask : ℕ) (value : Bool)
    → v < 2 ^ 32
    → mask < 2 ^ 32
    → bit_or (bit_and v (complement mask)) (if value then mask else 0) < 2 ^ 32
flagged_lt v mask true p q = bit_or_lt 32 _ _ (omega (arith, bit_and_le v (complement mask))) q
flagged_lt v mask false p q =
    bit_or_lt 32 _ _ (omega (arith, bit_and_le v (complement mask))) (omega arith)

pub bit_zero : (k : ℕ) → bit k 0 ≡ 0
unfolding bit
bit_zero zero = refl
bit_zero (suc k) = bit_zero k
