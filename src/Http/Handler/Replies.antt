-- ===== src/Http/Handler/Replies.antt =====
-- What the handler answers: the framing of its replies, and the type of a file.
use bnc.Prelude.{
  ℕ, suc, List, [], ◌∷◌, ◌++◌, ◌≡◌, refl, arith, length, ◌-◌, ◌<◌, append-nil, ◌∙◌, append_assoc,
  ap,
}
use bnc.Prelude.Bytes.{Bytes}
use bnc.Http.Handler.{take, drop, read_loop, read_file, buf_size}
use Prim.Native.Nat.{zero}

take-append-drop {ℓ} : {A : Type ℓ} (n : ℕ) (xs : List A) → take n xs ++ drop n xs ≡ xs
take-append-drop zero xs = refl
take-append-drop (suc n) [] = refl
take-append-drop (suc n) (x ∷ xs) = rw (take-append-drop n xs)

length-drop {ℓ} : {A : Type ℓ} (n : ℕ) (xs : List A) → length (drop n xs) ≡ length xs - n
length-drop zero xs = omega arith
length-drop (suc n) [] = omega arith
length-drop (suc n) (x ∷ xs) = omega (arith, length-drop n xs)

read_loop_enough :
    (fuel : ℕ) (rest content : Bytes)
    → length rest < fuel
    → read_loop fuel rest content ≡ content ++ rest
unfolding read_loop
read_loop_enough zero rest content h = elim h [ ]
read_loop_enough (suc fuel) [] content h = rw append-nil
read_loop_enough (suc fuel) (c ∷ rest) content h =
    read_loop_enough fuel (drop buf_size (c ∷ rest)) (content ++ take buf_size (c ∷ rest))
      (omega (arith, length-drop buf_size (c ∷ rest)))
    ∙ append_assoc content (take buf_size (c ∷ rest)) (drop buf_size (c ∷ rest))
    ∙ ap (◌++◌ content) (take-append-drop buf_size (c ∷ rest))

-- The loop over the buffer of 4096 bytes appends the whole file, whatever its length.
pub read_file_lem : (file content : Bytes) → read_file file content ≡ content ++ file
unfolding read_file
read_file_lem file content = read_loop_enough (suc (length file)) file content (omega arith)
