-- ===== src/Tests/Boards.antt =====
-- A device that keeps registers, for the runs of httpd/arpproxy.cpp: it takes apart what it is sent,
-- and answers each command.
use bnc.Prelude.{
  ℕ, zero, suc, ◌+◌, ◌/◌, ◌%◌, ◌^◌, ◌<◌, ◌≤◌, ◌≡◌, refl, sym, ap, ◌∙◌, true, false, Bool-cases, inl,
  inr, none, some, List, [], ◌∷◌, ◌++◌, length, get_elem?, drop, All, arith, ◌==◌, if◌then◌else◌,
  if_true, if_false,
}
use mathlib.Core.Path.{fun_ext}
use bnc.Prelude.Bytes.{Bytes}
use bnc.Arp.Words.{of_bytes}
use bnc.Arp.Usb.{Usb, reg_bulk_out}
use bnc.Arp.Board.{Board, Registers, Command, store, effect, effects, frames, answers, Fits}

pub record Bench : Type 0 where
  pub memory : Registers
  pub queue : List Bytes

unfoldable pub byte_of : Bytes → ℕ → ℕ
byte_of bytes i = elim (get_elem? bytes i) [ none ↦ 0 | some c ↦ c ]

unfoldable pub word_of : Bytes → ℕ → ℕ
unfolding byte_of
word_of bytes i =
    of_bytes (byte_of bytes i) (byte_of bytes (i + 1)) (byte_of bytes (i + 2))
      (byte_of bytes (i + 3))

-- The fuel is at least the number of commands.
unfoldable pub decode : ℕ → Bytes → List Command
unfolding byte_of word_of
decode zero bytes = []
decode (suc fuel) bytes = elim (byte_of bytes 0 == 0x14) [
  | true ↦ Command.peek (word_of bytes 4) ∷ decode fuel (drop 8 bytes)
  | false ↦ elim (byte_of bytes 0 == 0x15) [
    | true ↦ Command.poke (word_of bytes 4) (word_of bytes 8) ∷ decode fuel (drop 12 bytes)
    | false ↦ []
  ]
]

abbrev no_stamp : ℕ → ℕ
no_stamp i = 0

-- A register has 32 bits.
unfoldable pub wrap : Registers → Registers
wrap f a = f a % 2 ^ 32

unfoldable pub bench_out : Bench → ℕ → Bytes → ℕ × Bench
unfolding decode wrap effects answers
bench_out b ep bytes =
    let cs = decode (length bytes) bytes in
    if ep == reg_bulk_out
    then (
      0,
      record {
        memory = effects cs b.memory;
        queue = b.queue ++ answers no_stamp cs (wrap b.memory);
      },
    )
    else (0, b)

unfoldable pub bench_in : Bench → ℕ → ℕ → ℕ × Bytes × Bench
bench_in b ep size = elim (b.queue) [ [] ↦ (1, [], b) | a ∷ q ↦ (0, a, record b { queue = q }) ]

abbrev pub bench : Usb
bench = record {
  Bus = Bench;
  bulk_out = bench_out;
  bulk_in = bench_in;
  wait = λ b t. b;
  left = λ b i. 0;
}

decode-frames :
    (cs : List Command) (fuel : ℕ) → length cs ≤ fuel → All Fits cs → decode fuel (frames cs) ≡ cs
unfolding decode frames byte_of word_of
decode-frames [] zero l h = refl
decode-frames [] (suc fuel) l h = refl
decode-frames (c ∷ cs) zero l h = absurd (omega arith)
decode-frames (Command.peek addr ∷ cs) (suc fuel) l (h, hs) =
    let word : of_bytes (addr % 256) (addr / 256 % 256) (addr / 65536 % 256) (addr / 16777216 % 256)
        ≡ addr =
      omega arith in
    rw word
      (ap (λ (r : List Command). Command.peek addr ∷ r) (decode-frames cs fuel (omega arith) hs))
decode-frames (Command.poke addr v ∷ cs) (suc fuel) l ((h, k), hs) =
    let word : of_bytes (addr % 256) (addr / 256 % 256) (addr / 65536 % 256) (addr / 16777216 % 256)
        ≡ addr =
      omega arith in
    let other : of_bytes (v % 256) (v / 256 % 256) (v / 65536 % 256) (v / 16777216 % 256) ≡ v =
      omega arith in
    rw word (
      rw other (
        ap (λ (r : List Command). Command.poke addr v ∷ r)
          (decode-frames cs fuel (omega arith) hs)))

length-frames : (cs : List Command) → length cs ≤ length (frames cs)
unfolding frames
length-frames [] = omega arith
length-frames (Command.peek addr ∷ cs) = omega (arith, length-frames cs)
length-frames (Command.poke addr v ∷ cs) = omega (arith, length-frames cs)

decoded : (cs : List Command) → All Fits cs → decode (length (frames cs)) (frames cs) ≡ cs
decoded cs h = decode-frames cs (length (frames cs)) (length-frames cs) h

wrap-store : (f : Registers) (a v : ℕ) → v < 2 ^ 32 → wrap (store f a v) ≡ store (wrap f) a v
unfolding wrap store
wrap-store f a v h = fun_ext λ x. elim (Bool-cases (x == a)) [
  | inl t ↦
      ap (λ (n : ℕ). n % 2 ^ 32) (if_true (x == a) v (f x) t)
      ∙ omega arith
      ∙ sym (if_true (x == a) v (f x % 2 ^ 32) t)
  | inr d ↦
      ap (λ (n : ℕ). n % 2 ^ 32) (if_false (x == a) v (f x) d)
      ∙ sym (if_false (x == a) v (f x % 2 ^ 32) d)
]

wrap-effects :
    (cs : List Command) (f : Registers) → All Fits cs → wrap (effects cs f) ≡ effects cs (wrap f)
unfolding effects effect
wrap-effects [] f h = refl
wrap-effects (Command.peek addr ∷ cs) f (h, hs) = wrap-effects cs f hs
wrap-effects (Command.poke addr v ∷ cs) f ((h, k), hs) =
    wrap-effects cs (store f addr v) hs ∙ ap (effects cs) (wrap-store f addr v k)

pub bench_in-queue :
    (b : Bench) (a : Bytes) (rest : List Bytes)
    → b.queue ≡ a ∷ rest
    → bench_in b 0x88 8 ≡ (0, a, record b { queue = rest })
unfolding bench_in
bench_in-queue b a rest e = rw (e, bench_in) refl

pub bench_in-memory :
    (b : Bench) (q : List Bytes) → b.queue ≡ q → (bench_in b 0x88 8).2.memory ≡ b.memory
unfolding bench_in
bench_in-memory b [] e = rw (e, bench_in) refl
bench_in-memory b (a ∷ q) e = rw (e, bench_in) refl

pub wrap_lt : (f : Registers) (a : ℕ) → wrap f a < 2 ^ 32
unfolding wrap
wrap_lt f a = omega arith

pub regs-bench_out :
    (b : Bench) (cs : List Command)
    → All Fits cs
    → wrap (bench_out b reg_bulk_out (frames cs)).1.memory ≡ effects cs (wrap b.memory)
unfolding bench_out
regs-bench_out b cs h =
    ap (λ (d : List Command). wrap (effects d b.memory)) (decoded cs h) ∙ wrap-effects cs b.memory h

pub queue-bench_out :
    (b : Bench) (cs : List Command)
    → b.queue ≡ []
    → All Fits cs
    → (bench_out b reg_bulk_out (frames cs)).1.queue ≡ answers no_stamp cs (wrap b.memory)
unfolding bench_out
queue-bench_out b cs idle h =
    ap
      (λ (q : List Bytes).
        q ++ answers no_stamp (decode (length (frames cs)) (frames cs)) (wrap b.memory))
      idle
    ∙ ap (λ (d : List Command). answers no_stamp d (wrap b.memory)) (decoded cs h)

pub sent-bench_out : (b : Bench) (cs : List Command) → (bench_out b reg_bulk_out (frames cs)).0 ≡ 0
unfolding bench_out
sent-bench_out b cs = refl

abbrev pub bench_board : Board bench
bench_board = record {
  regs = λ b. wrap b.memory;
  waiting = λ b. b.queue;
  stamp = no_stamp;
  regs_lt = λ b addr. wrap_lt b.memory addr;
  out_done = λ b cs idle h. sent-bench_out b cs;
  regs-out = λ b cs idle h. regs-bench_out b cs h;
  waiting-out = λ b cs idle h. queue-bench_out b cs idle h;
  in_lem = λ b a rest e. (
    ap (λ (r : ℕ × Bytes × Bench). r.0) (bench_in-queue b a rest e),
    ap (λ (r : ℕ × Bytes × Bench). r.1) (bench_in-queue b a rest e),
  );
  regs-in = λ b. ap wrap (bench_in-memory b b.queue refl);
  waiting-in = λ b a rest e. ap (λ (r : ℕ × Bytes × Bench). r.2.queue) (bench_in-queue b a rest e);
  regs-wait = λ b t. refl;
  waiting-wait = λ b t. refl;
}
