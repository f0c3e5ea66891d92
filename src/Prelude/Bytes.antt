-- ===== src/Prelude/Bytes.antt =====
-- Byte strings: literals, comparison, prefixes, and the decimal print of a number, as the program
-- takes them from std::string and std::to_string.
use Prim.Native.Nat.{ℕ, zero, suc, ◌+◌, ◌-◌, ◌*◌, ◌/◌, ◌%◌, ◌<◌, ◌≤◌}
use Prim.Native.Char.{code}
use Prim.Native.String.{String}
use mathlib.Core.Path.{◌≡◌, refl}
use mathlib.Core.Logic.{◌↔◌, inl, inr}
use mathlib.Core.Bool.{not, Bool, true, false, ◌&&◌, ◌||◌}
use mathlib.Core.List.{List, [], ◌∷◌, ◌++◌}
use native.Mathlib.Omega.{arith}
use bnc.Prelude.Tests.{Bool-cases, ◌==◌, ltb, if◌then◌else◌}

abbrev pub Bytes : Type 0
Bytes = List ℕ

-- The bytes of an ASCII literal.
abbrev pub codes : String → Bytes
codes String.[] = []
codes (String.◌∷◌ c s) = code c ∷ codes s

-- `a == b` on std::string.
unfoldable pub equal : Bytes → Bytes → Bool
equal [] [] = true
equal [] (d ∷ t) = false
equal (c ∷ s) [] = false
equal (c ∷ s) (d ∷ t) = c == d && equal s t

pub equal_iff : (s t : Bytes) → (equal s t ≡ true) ↔ (s ≡ t)
unfolding equal
equal_iff [] [] = (λ h. refl, λ h. refl)
equal_iff [] (d ∷ t) = ground arith
equal_iff (c ∷ s) [] = ground arith
equal_iff (c ∷ s) (d ∷ t) = ground (arith, equal_iff s t)

pub equal_refl : (a : Bytes) → equal a a ≡ true
equal_refl a = (equal_iff a a).1 refl

-- `s.compare( 0, n, p, n ) == 0` where n is the length of `p`.
unfoldable pub starts_with : Bytes → Bytes → Bool
starts_with [] s = true
starts_with (x ∷ p) [] = false
starts_with (x ∷ p) (y ∷ s) = x == y && starts_with p s

pub starts_with-append : (p s : Bytes) → starts_with p (p ++ s) ≡ true
unfolding starts_with
starts_with-append [] s = refl
starts_with-append (x ∷ p) s = ground (arith, starts_with-append p s)

-- `s.find( p ) != npos`.
unfoldable pub contains : Bytes → Bytes → Bool
unfolding starts_with
contains p [] = starts_with p []
contains p (c ∷ s) = starts_with p (c ∷ s) || contains p s

-- std::to_string of an unsigned number: the digits, last first on `out`. The fuel is the number.
to_digits : ℕ → ℕ → Bytes → Bytes
to_digits zero n out = out
to_digits (suc f) n out =
    let more = to_digits f (n / 10) ((48 + n % 10) ∷ out) in
    if ltb n 10 then (48 + n) ∷ out else more

unfoldable pub to_string : ℕ → Bytes
unfolding to_digits
to_string n = to_digits (suc n) n []

-- The number that a run of digits is read as, on top of `n`.
unfoldable pub value_of : ℕ → Bytes → ℕ
value_of n [] = n
value_of n (c ∷ s) = value_of (n * 10 + (c - 48)) s

-- Reading what `to_digits` puts in front of `out`.
value_of-to_digits :
    (f n : ℕ) (out : Bytes) → n < f → value_of 0 (to_digits f n out) ≡ value_of n out
unfolding to_digits value_of
value_of-to_digits zero n out h = elim h [ ]
value_of-to_digits (suc f) n out h =
    ground (arith, value_of-to_digits f (n / 10) ((48 + n % 10) ∷ out))

pub value_of-to_string : (n : ℕ) → value_of 0 (to_string n) ≡ n
unfolding to_string value_of
value_of-to_string n = value_of-to_digits (suc n) n [] (omega arith)

-- Digits only.
abbrev pub IsDigits : Bytes → Type 0
IsDigits [] = Unit
IsDigits (c ∷ s) = (48 ≤ c) × (c ≤ 57) × IsDigits s

to_digits-IsDigits : (f n : ℕ) (out : Bytes) → IsDigits out → IsDigits (to_digits f n out)
unfolding to_digits
to_digits-IsDigits zero n out h = h
to_digits-IsDigits (suc f) n out h =
    ground (arith, to_digits-IsDigits f (n / 10) ((48 + n % 10) ∷ out))

to_digits-some :
    (f n : ℕ) (out : Bytes) → n < f → (c : ℕ) × (s : Bytes) × (to_digits f n out ≡ c ∷ s)
unfolding to_digits
to_digits-some zero n out h = elim h [ ]
to_digits-some (suc f) n out h = elim (Bool-cases (ltb n 10)) [
  | inl small ↦ (48 + n, out, rw small)
  | inr large ↦ rw large (to_digits-some f (n / 10) ((48 + n % 10) ∷ out) (ground arith))
]

pub to_string-some : (n : ℕ) → (c : ℕ) × (s : Bytes) × (to_string n ≡ c ∷ s)
unfolding to_string
to_string-some n = to_digits-some (suc n) n [] (omega arith)

pub to_string-IsDigits : (n : ℕ) → IsDigits (to_string n)
unfolding to_string
to_string-IsDigits n = to_digits-IsDigits (suc n) n [] tt

pub value_of-le : (n : ℕ) (s : Bytes) → n ≤ value_of n s
unfolding value_of
value_of-le n [] = omega arith
value_of-le n (c ∷ s) = omega (arith, value_of-le (n * 10 + (c - 48)) s)

-- The byte `stop` does not occur.
abbrev pub Lacks : ℕ → Bytes → Type 0
Lacks stop [] = Unit
Lacks stop (c ∷ s) = ((c == stop) ≡ false) × Lacks stop s

abbrev pub lacks : ℕ → Bytes → Bool
lacks stop [] = true
lacks stop (c ∷ s) = not (c == stop) && lacks stop s

-- For a literal the premise is `refl`.
pub lacks-Lacks : (stop : ℕ) (s : Bytes) → lacks stop s ≡ true → Lacks stop s
lacks-Lacks stop [] h = tt
lacks-Lacks stop (c ∷ s) h = ground (arith, lacks-Lacks stop s)

pub Lacks-append : (stop : ℕ) (s t : Bytes) → Lacks stop s → Lacks stop t → Lacks stop (s ++ t)
Lacks-append stop [] t h k = k
Lacks-append stop (c ∷ s) t h k = (h.0, Lacks-append stop s t h.1 k)
