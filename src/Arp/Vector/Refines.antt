-- ===== src/Arp/Vector/Refines.antt =====
-- httpd/arpproxy.cpp, `VectorInterpreter` on a device that keeps registers, beside the reference
-- interpreter.
use Prim.Native.Nat.{bit_and}
use bnc.Prelude.{
  ℕ, zero, suc, ◌+◌, ◌*◌, ◌%◌, ◌^◌, ◌<◌, ◌≤◌, ◌≡◌, refl, ap, ◌∙◌, Bool, true, false, not, some,
  List, [], ◌∷◌, ◌++◌, ◌==◌, ltb, Bool-cases, inl, inr, All, arith,
}
use bnc.Arp.Usb.{Usb, Link, sleep_for, cmd_reg_read}
use bnc.Arp.Board.{Registers, store, Fits, effect, effects, Board}
use bnc.Arp.Board.Commands.{
  pokes, linked, Leaves, cmd_reg_read-Leaves, cmd_reg_bit_write-Leaves, cmd_reg_vector_write-Leaves,
}
use bnc.Arp.Vector.{
  CommandVector, Detail, is_write, Step, Run, compare_loop, compare_step, run_item, flush,
  keep_item, after_step, run_items, vector_interpreter,
}
use bnc.Arp.Vector.Ends.{EndsItem}
use bnc.Arp.Vector.Reference.{Reach, Outcome, masked, meaning, after_meaning, reference, FitsItem}

effects-snoc :
    (xs : List (ℕ × ℕ)) (a w : ℕ) (f : Registers)
    → effects (pokes (xs ++ (a, w) ∷ [])) f ≡ store (effects (pokes xs) f) a w
unfolding effects effect
effects-snoc [] a w f = refl
effects-snoc ((b, v) ∷ xs) a w f = effects-snoc xs a w (store f b v)

Fits-snoc :
    (xs : List (ℕ × ℕ)) (a w : ℕ)
    → All Fits (pokes xs)
    → a < 2 ^ 32
    → w < 2 ^ 32
    → All Fits (pokes (xs ++ (a, w) ∷ []))
Fits-snoc [] a w h p q = ((p, q), tt)
Fits-snoc ((b, v) ∷ xs) a w (h, hs) p q = (h, Fits-snoc xs a w hs p q)

write-meaning :
    (c : CommandVector) (ok : Bool) (d : Detail) (f : Registers)
    → is_write c ≡ true
    → meaning c ok d f ≡ Reach.go ok d (store f d.addr (d.value % 2 ^ 32))
unfolding meaning
write-meaning CommandVector.tblval_write ok d f h = refl
write-meaning CommandVector.tblval_read ok d f h = absurd (cc)
write-meaning CommandVector.tblval_readwrite ok d f h = absurd (cc)
write-meaning CommandVector.tblval_wait ok d f h = absurd (cc)
write-meaning CommandVector.tblval_comp ok d f h = absurd (cc)
write-meaning CommandVector.tblval_comp_n ok d f h = absurd (cc)
write-meaning CommandVector.tblval_comp_l ok d f h = absurd (cc)
write-meaning CommandVector.tblval_comp_h ok d f h = absurd (cc)

not-not : (b : Bool) → not (not b) ≡ b
not-not true = refl
not-not false = refl

module _ (U : Usb) (B : Board U) where
  open B use {regs, waiting, regs-wait, waiting-wait}

  -- One more round of the loop has read the register and left it.
  round :
      (b : U.Bus) (addr : ℕ)
      → waiting b ≡ []
      → addr < 2 ^ 32
      → Leaves U B
          (cmd_reg_read U (sleep_for U (linked U b) 1000) addr)
          (some (regs b addr))
          (regs b)
  unfolding sleep_for
  round b addr idle small =
      let (c, e, idle1, same) =
        cmd_reg_read-Leaves U B (U.wait b 1000) addr (waiting-wait b 1000 ∙ idle) small in
      (c, rw (← regs-wait b 1000) e, idle1, same ∙ regs-wait b 1000)

  module _ (again : ℕ → Bool) (addr max_loop : ℕ) (small : addr < 2 ^ 32)
      (bound : max_loop + 1 < 2 ^ 32) where
    -- While the word is not the one waited for, the loop runs to its bound and gives false.
    never-Leaves :
        (fuel loop : ℕ) (b : U.Bus)
        → waiting b ≡ []
        → again (regs b addr) ≡ true
        → loop ≤ max_loop + 1
        → max_loop + 2 ≤ fuel + loop
        → (c : U.Bus) × (compare_loop U again addr max_loop fuel loop (linked U b)
            ≡ some (false, linked U c))
          × (waiting c ≡ [])
          × (regs c ≡ regs b)
    unfolding compare_loop
    never-Leaves zero loop b idle h low enough = absurd (omega arith)
    never-Leaves (suc fuel) loop b idle h low enough = elim (Bool-cases (ltb max_loop loop)) [
      | inl e ↦ (b, rw (e, compare_loop) refl, idle, refl)
      | inr e ↦
          let below : loop ≤ max_loop = ground arith in
          let (c, read, idle1, same) = round b addr idle small in
          let (d, rest, idle2, same2) =
            never-Leaves fuel ((loop + 1) % 2 ^ 32) c idle1 (rw same h) (omega arith)
              (omega arith) in
          (d, rw (e, compare_loop) (rw read (rw h (rw read rest))), idle2, same2 ∙ same)
    ]

    compare_loop-Leaves :
        (b : U.Bus)
        → waiting b ≡ []
        → (c : U.Bus) × (compare_loop U again addr max_loop (max_loop + 2) 0 (linked U b)
            ≡ some (not (again (regs b addr)), linked U c))
          × (waiting c ≡ [])
          × (regs c ≡ regs b)
    unfolding compare_loop
    compare_loop-Leaves b idle = elim (Bool-cases (again (regs b addr))) [
      | inl e ↦ rw e (never-Leaves (max_loop + 2) 0 b idle e (omega arith) (omega arith))
      | inr e ↦
          let (c, read, idle1, same) = round b addr idle small in
          let more : max_loop + 2 ≡ suc (max_loop + 1) = omega arith in
          let first : ltb max_loop 0 ≡ false = ground arith in
          (c, rw (more, compare_loop) (rw first (rw read (rw e (rw read refl)))), idle1, same)
    ]

  -- A step of the loop beside the meaning of its item.
  abbrev Matches : Step U → Reach → Type 0
  Matches s (Reach.go ok d f) =
      (c : U.Bus) × (s ≡ Step.next ok d (linked U c)) × (waiting c ≡ []) × (regs c ≡ f)
  Matches s (Reach.halt f) =
      (c : U.Bus) × (s ≡ Step.stop (linked U c)) × (waiting c ≡ []) × (regs c ≡ f)

  run_item-Matches :
      (c : CommandVector) (ok : Bool) (d : Detail) (b : U.Bus)
      → is_write c ≡ false
      → waiting b ≡ []
      → d.addr < 2 ^ 32
      → EndsItem c d
      → Matches (run_item U c ok d (linked U b)) (meaning c ok d (regs b))
  unfolding run_item meaning compare_step masked sleep_for
  run_item-Matches CommandVector.tblval_write ok d b w idle small h = absurd (cc)
  run_item-Matches CommandVector.tblval_read ok d b w idle small h =
      let (c, read, idle1, same) = cmd_reg_read-Leaves U B b d.addr idle small in
      (c, rw (read, run_item) (rw read refl), idle1, same)
  run_item-Matches CommandVector.tblval_readwrite ok d b w idle small (shift, e) =
      let (c, done, idle1, now) =
        cmd_reg_bit_write-Leaves U B b d.addr (d.value * 2 ^ shift % 2 ^ 32) d.mask idle small
          (omega arith) in
      (c, rw (e, run_item) (rw done refl), idle1, rw (e, masked) now)
  run_item-Matches CommandVector.tblval_comp ok d b w idle small h =
      let (c, e, idle1, same) =
        compare_loop-Leaves (λ word. not (bit_and word d.mask == d.value % 2 ^ 32)) d.addr
          d.max_loop small h b idle in
      (c, rw (e, compare_step) (ap (λ ok1. Step.next ok1 d (linked U c)) (not-not _)), idle1, same)
  run_item-Matches CommandVector.tblval_comp_n ok d b w idle small h =
      let (c, e, idle1, same) =
        compare_loop-Leaves (λ word. bit_and word d.mask == d.value % 2 ^ 32) d.addr d.max_loop
          small h b idle in
      (c, rw (e, compare_step) refl, idle1, same)
  run_item-Matches CommandVector.tblval_wait ok d b w idle small h =
      (U.wait b d.value, refl, waiting-wait b d.value ∙ idle, regs-wait b d.value)
  run_item-Matches CommandVector.tblval_comp_l ok d b w idle small h = (b, refl, idle, refl)
  run_item-Matches CommandVector.tblval_comp_h ok d b w idle small h = (b, refl, idle, refl)

  -- A run beside its outcome.
  abbrev pub RefinesRun : Run U → Outcome → Type 0
  RefinesRun r o =
      (c : U.Bus) × (r
        ≡ Run.returned (record { ok = o.ok; details = o.details; link = linked U c }))
      × (waiting c ≡ [])
      × (regs c ≡ o.regs)

  after_step-RefinesRun :
      (d : Detail) (ds : List Detail) (go : Bool → Link U → Run U)
      (next : Bool → Registers → Outcome) (s : Step U) (m : Reach)
      → ((ok : Bool) (b : U.Bus)
          → waiting b ≡ []
          → RefinesRun (go ok (linked U b)) (next ok (regs b)))
      → Matches s m
      → RefinesRun (after_step U d ds go s) (after_meaning d ds next m)
  unfolding after_step after_meaning keep_item
  after_step-RefinesRun d ds go next s (Reach.go ok d1 f) all (b, e, idle, same) =
      let (c, r, idle1, now) = all ok b idle in
      (c, rw e (rw r (rw same refl)), idle1, now ∙ ap (λ g. (next ok g).regs) same)
  after_step-RefinesRun d ds go next s (Reach.halt f) all (b, e, idle, same) =
      (b, rw e refl, idle, same)

  flush-Leaves :
      (xdata : List (ℕ × ℕ)) (b : U.Bus)
      → waiting b ≡ []
      → All Fits (pokes xdata)
      → Leaves U B (flush U xdata (linked U b)) true (effects (pokes xdata) (regs b))
  unfolding flush effects
  flush-Leaves [] b idle h = (b, refl, idle, refl)
  flush-Leaves (x ∷ xs) b idle h = cmd_reg_vector_write-Leaves U B b (x ∷ xs) idle h

  run_items-RefinesRun :
      (ok : Bool) (xdata : List (ℕ × ℕ)) (details : List Detail) (b : U.Bus)
      → waiting b ≡ []
      → All Fits (pokes xdata)
      → All FitsItem details
      → RefinesRun
          (run_items U ok xdata details (linked U b))
          (reference ok details (effects (pokes xdata) (regs b)))
  unfolding run_items reference effects keep_item after_meaning
  run_items-RefinesRun ok xdata [] b idle fits h =
      let (c, e, idle1, same) = flush-Leaves xdata b idle fits in
      (c, rw (e, run_items) refl, idle1, same)
  run_items-RefinesRun ok xdata (d ∷ ds) b idle fits ((small, h), hs) =
      elim (Bool-cases (is_write d.command)) [
        | inl w ↦
            let fits1 = Fits-snoc xdata d.addr (d.value % 2 ^ 32) fits small (omega arith) in
            let (c, e, idle1, now) = run_items-RefinesRun ok _ ds b idle fits1 hs in
            let snoc = effects-snoc xdata d.addr (d.value % 2 ^ 32) (regs b) in
            rw (w, run_items)
              (rw (write-meaning d.command ok d _ w)
                (rw e (rw snoc (c, refl, idle1, rw (← snoc) now))))
        | inr w ↦
            let (b1, e, idle1, same) = flush-Leaves xdata b idle fits in
            rw (w, run_items)
              (rw e (
                rw e (
                  rw (← same) (
                    after_step-RefinesRun d ds _ _ _ _
                      (λ ok1 c idle2. run_items-RefinesRun ok1 [] ds c idle2 tt hs)
                      (run_item-Matches d.command ok d b1 w idle1 small h)))))
      ]

  -- On a device with no fault, `VectorInterpreter`, which sends the WRITE items that stand together in
  -- one transfer, leaves the registers, the values read into the table, and the result as the reference
  -- interpreter does, which takes the items one by one; every answer of the device has been read. The
  -- addresses are uint32_t, the mask of a READWRITE has a one, and the bound of a COMP or COMP_N is not
  -- the largest uint32_t.
  pub vector_interpreter-reference :
      (details : List Detail) (b : U.Bus)
      → waiting b ≡ []
      → All FitsItem details
      → RefinesRun (vector_interpreter U details (linked U b)) (reference true details (regs b))
  unfolding vector_interpreter effects
  vector_interpreter-reference details b idle h = run_items-RefinesRun true [] details b idle tt h
