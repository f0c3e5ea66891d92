-- ===== src/Http/Server/Counting.antt =====
-- How often a connection is in the sets, the outstanding operations and the writes.
use bnc.Prelude.{
  ℕ, ◌≤◌, ◌<◌, Bool, false, List, [], ◌∷◌, map, ◌==◌, ◌≡◌, if◌then◌else◌, refl, arith, count, ltb,
  All, Bool-cases, inl, inr,
}
use bnc.Prelude.Bytes.{Bytes}
use bnc.Http.Manager.{insert, erase}
use bnc.Http.Server.{
  Op, read_some, write_reply, write_opening, write_event, accept, wait_signal, Write, reply_to,
  stream_to, event_to,
}

abbrev pub is_read : ℕ → Op → Bool
is_read i (read_some j) = i == j
is_read i (write_reply j) = false
is_read i (write_opening j) = false
is_read i (write_event j) = false
is_read i accept = false
is_read i wait_signal = false

-- A reply or the opening of a stream, either of which is the answer to a request.
abbrev pub is_answer : ℕ → Write → Bool
is_answer i (reply_to j bytes) = i == j
is_answer i (stream_to j bytes) = i == j
is_answer i (event_to j bytes) = false

abbrev pub occurs : ℕ → List ℕ → ℕ
occurs i xs = count (λ j. i == j) xs

pub occurs-erase :
    (i c : ℕ) (xs : List ℕ) → occurs i (erase c xs) ≡ (if i == c then 0 else occurs i xs)
unfolding erase
occurs-erase i c [] = ground arith
occurs-erase i c (x ∷ xs) = ground (arith, occurs-erase i c xs)

pub occurs-insert_other :
    (i c : ℕ) (xs : List ℕ) → (i == c) ≡ false → occurs i (insert c xs) ≡ occurs i xs
unfolding insert
occurs-insert_other i c [] h = ground arith
occurs-insert_other i c (x ∷ xs) h = ground (arith, occurs-insert_other i c xs)

-- In ascending order, each once.
abbrev pub Ascending : List ℕ → Type 0
Ascending [] = Unit
Ascending (x ∷ xs) = All (λ y. x < y) xs × Ascending xs

All-below : (c x : ℕ) (xs : List ℕ) → c < x → All (λ y. x < y) xs → All (λ y. c < y) xs
All-below c x [] l h = tt
All-below c x (y ∷ ys) l h = (omega (arith, h.0), All-below c x ys l h.1)

All-insert : (x c : ℕ) (xs : List ℕ) → x < c → All (λ y. x < y) xs → All (λ y. x < y) (insert c xs)
unfolding insert
All-insert x c [] l h = (l, tt)
All-insert x c (y ∷ ys) l h = elim (Bool-cases (c == y)) [
  | inl e ↦ rw e h
  | inr e ↦ elim (Bool-cases (ltb c y)) [
    | inl k ↦ rw (e, k) (l, h)
    | inr k ↦ rw (e, k) (h.0, All-insert x c ys l h.1)
  ]
]

All-erase : (x c : ℕ) (xs : List ℕ) → All (λ y. x < y) xs → All (λ y. x < y) (erase c xs)
unfolding erase
All-erase x c [] h = tt
All-erase x c (y ∷ ys) h = elim (Bool-cases (c == y)) [
  | inl e ↦ rw e (All-erase x c ys h.1)
  | inr e ↦ rw e (h.0, All-erase x c ys h.1)
]

pub insert-Ascending : (c : ℕ) (xs : List ℕ) → Ascending xs → Ascending (insert c xs)
unfolding insert
insert-Ascending c [] h = (tt, tt)
insert-Ascending c (y ∷ ys) h = elim (Bool-cases (c == y)) [
  | inl e ↦ rw e h
  | inr e ↦ elim (Bool-cases (ltb c y)) [
    | inl k ↦ let l : c < y = ground arith in rw (e, k) ((l, All-below c y ys l h.0), h)
    | inr k ↦ rw (e, k) (All-insert y c ys (ground arith) h.0, insert-Ascending c ys h.1)
  ]
]

pub erase-Ascending : (c : ℕ) (xs : List ℕ) → Ascending xs → Ascending (erase c xs)
unfolding erase
erase-Ascending c [] h = tt
erase-Ascending c (y ∷ ys) h = elim (Bool-cases (c == y)) [
  | inl e ↦ rw e (erase-Ascending c ys h.1)
  | inr e ↦ rw e (All-erase y c ys h.0, erase-Ascending c ys h.1)
]

occurs-above : (i x : ℕ) (xs : List ℕ) → i ≤ x → All (λ y. x < y) xs → occurs i xs ≡ 0
occurs-above i x [] l h = refl
occurs-above i x (y ∷ ys) l h = ground (arith, occurs-above i x ys l h.1)

pub occurs-Ascending : (i : ℕ) (xs : List ℕ) → Ascending xs → occurs i xs ≤ 1
occurs-Ascending i [] h = omega arith
occurs-Ascending i (y ∷ ys) h = elim (Bool-cases (i == y)) [
  | inl e ↦ let z = occurs-above i y ys (ground arith) h.0 in ground arith
  | inr e ↦ ground (arith, occurs-Ascending i ys h.1)
]

pub count_reads-events : (i : ℕ) (xs : List ℕ) → count (is_read i) (map (λ j. write_event j) xs) ≡ 0
count_reads-events i [] = refl
count_reads-events i (x ∷ xs) = count_reads-events i xs

pub count_answers-events :
    (i : ℕ) (bytes : Bytes) (xs : List ℕ) → count (is_answer i) (map (λ j. event_to j bytes) xs) ≡ 0
count_answers-events i bytes [] = refl
count_answers-events i bytes (x ∷ xs) = count_answers-events i bytes xs
