-- ===== src/Http/Handler/Extension.antt =====
-- The extension of a file's path, which chooses the type of the reply.
use bnc.Prelude.{
  ℕ, [], ◌∷◌, ◌++◌, ◌≡◌, refl, arith, Option, none, some, length, ◌<◌, append_assoc, ◌+◌,
}
use bnc.Prelude.Bytes.{Bytes, Lacks, Lacks-append}
use bnc.Http.Handler.{find_last, extension_of, drop, extension_at}

find_last-Lacks : (c : ℕ) (s : Bytes) → Lacks c s → find_last c s ≡ none
unfolding find_last
find_last-Lacks c [] h = refl
find_last-Lacks c (x ∷ s) h = ground (arith, find_last-Lacks c s h.1)

find_last-append : (c : ℕ) (p s : Bytes) → Lacks c s → find_last c (p ++ c ∷ s) ≡ some (length p)
unfolding find_last
find_last-append c [] s h = ground (arith, find_last-Lacks c s h)
find_last-append c (x ∷ p) s h = ground (arith, find_last-append c p s h)

abbrev Below : ℕ → Option ℕ → Type 0
Below n none = Unit
Below n (some i) = i < n

-- With no `c` behind the front part, the last one stands in it.
find_last-Below : (c : ℕ) (p s : Bytes) → Lacks c s → Below (length p) (find_last c (p ++ s))
unfolding find_last
find_last-Below c [] s h = rw (find_last-Lacks c s h) tt
find_last-Below c (x ∷ p) s h = ground (arith, find_last-Below c p s h)

drop-append : (p s : Bytes) (c : ℕ) → drop (length p + 1) (p ++ c ∷ s) ≡ s
drop-append [] s c = refl
drop-append (x ∷ p) s c = ground (arith, drop-append p s c)

length-le : (p n : Bytes) (c : ℕ) → length p < length (p ++ c ∷ n)
length-le [] n c = omega arith
length-le (x ∷ p) n c = omega (arith, length-le p n c)

extension_at-dot :
    (p n e : Bytes)
    → extension_at (some (length (p ++ b'/' ∷ n))) (some (length p)) (p ++ b'/' ∷ n ++ b'.' ∷ e) ≡ e
unfolding extension_at
extension_at-dot p n e = ground (arith, length-le p n b'/', drop-append (p ++ b'/' ∷ n) e b'.')

-- In a file's path `p/n.e`, where `n` has no slash and `e` neither a dot nor a slash, the extension
-- is `e`.
pub extension_of-dot :
    (p n e : Bytes)
    → Lacks b'/' n
    → Lacks b'.' e
    → Lacks b'/' e
    → extension_of (p ++ b'/' ∷ (n ++ b'.' ∷ e)) ≡ e
unfolding extension_of
extension_of-dot p n e h d k =
    let slash =
      find_last-append b'/' p (n ++ b'.' ∷ e) (Lacks-append b'/' n (b'.' ∷ e) h (refl, k)) in
    let split = append_assoc p (b'/' ∷ n) (b'.' ∷ e) in
    let dot = find_last-append b'.' (p ++ b'/' ∷ n) e d in
    rw slash (rw (← split, dot) (extension_at-dot p n e))

extension_at-Below :
    (o : Option ℕ) (n : ℕ) (path : Bytes) → Below n o → extension_at o (some n) path ≡ []
unfolding extension_at
extension_at-Below none n path h = refl
extension_at-Below (some i) n path h = ground arith

-- A path whose last part has no dot has no extension, whatever dots stand before.
pub extension_of_none :
    (p n : Bytes) → Lacks b'.' n → Lacks b'/' n → extension_of (p ++ b'/' ∷ n) ≡ []
unfolding extension_of
extension_of_none p n d h =
    rw (find_last-append b'/' p n h) (
      extension_at-Below _ (length p) (p ++ b'/' ∷ n) (find_last-Below b'.' p (b'/' ∷ n) (refl, d)))
