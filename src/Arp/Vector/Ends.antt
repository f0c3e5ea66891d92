-- ===== src/Arp/Vector/Ends.antt =====
-- httpd/arpproxy.cpp, `VectorInterpreter`: which tables it comes to the end of.
use bnc.Prelude.{
  ℕ, zero, suc, ◌+◌, ◌*◌, ◌%◌, ◌^◌, ◌≤◌, ◌<◌, ◌≡◌, refl, Bool, true, false, some, List, [], ◌∷◌,
  ltb, Bool-cases, Option-cases, All, arith, inl, inr,
}
use bnc.Arp.Words.{lowest_bit}
use bnc.Arp.Usb.{Usb, Link, cmd_reg_read, sleep_for, cmd_reg_bit_write}
use bnc.Arp.Vector.{
  CommandVector, Detail, is_write, Step, Result, Run, compare_loop, compare_step, run_item, flush,
  keep_item, run_items, after_step, vector_interpreter,
}

-- The mask of a READWRITE has a one in its 32 bits, and the bound of a COMP or COMP_N leaves room
-- for the counter to pass it.
abbrev pub EndsItem : CommandVector → Detail → Type 0
EndsItem CommandVector.tblval_readwrite d = (s : ℕ) × (lowest_bit 32 d.mask ≡ some s)
EndsItem CommandVector.tblval_comp d = d.max_loop + 1 < 2 ^ 32
EndsItem CommandVector.tblval_comp_n d = d.max_loop + 1 < 2 ^ 32
EndsItem c d = Unit

module _ (U : Usb) where
  compare_loop-ends :
      (again : ℕ → Bool) (addr max_loop fuel loop : ℕ) (l : Link U)
      → max_loop + 1 < 2 ^ 32
      → loop ≤ max_loop + 1
      → max_loop + 2 ≤ fuel + loop
      → (r : Bool × Link U) × (compare_loop U again addr max_loop fuel loop l ≡ some r)
  unfolding compare_loop
  compare_loop-ends again addr max_loop zero loop l small low enough = absurd (omega arith)
  compare_loop-ends again addr max_loop (suc fuel) loop l small low enough =
      let got = cmd_reg_read U (sleep_for U l 1000) addr in
      elim (Bool-cases (ltb max_loop loop)) [
        | inl e ↦ ((false, l), rw (e, compare_loop) refl)
        | inr e ↦ elim (Option-cases got.0) [
          | inl n ↦ ((false, got.1), rw (e, compare_loop) (rw n refl))
          | inr (word, w) ↦ elim (Bool-cases (again word)) [
            | inr a ↦ ((true, got.1), rw (e, compare_loop) (rw w (rw a refl)))
            | inl a ↦
                let below : loop ≤ max_loop = ground arith in
                let (r, h) =
                  compare_loop-ends again addr max_loop fuel ((loop + 1) % 2 ^ 32) got.1 small
                    (omega arith) (omega arith) in
                (r, rw (e, compare_loop) (rw w (rw a h)))
          ]
        ]
      ]

  -- A step that the loop may go on from or return from.
  abbrev Ended : Step U → Type 0
  Ended (Step.next ok d l) = Unit
  Ended (Step.stop l) = Unit
  Ended Step.undefined = ⊥
  Ended Step.endless = ⊥

  compare_step-Ended :
      (again : ℕ → Bool) (d : Detail) (l : Link U)
      → d.max_loop + 1 < 2 ^ 32
      → Ended (compare_step U again d l)
  unfolding compare_step
  compare_step-Ended again d l small =
      let (r, h) =
        compare_loop-ends again d.addr d.max_loop (d.max_loop + 2) 0 l small (omega arith)
          (omega arith) in
      rw (h, compare_step) tt

  run_item-Ended :
      (c : CommandVector) (ok : Bool) (d : Detail) (l : Link U)
      → EndsItem c d
      → Ended (run_item U c ok d l)
  unfolding run_item
  run_item-Ended CommandVector.tblval_read ok d l h =
      elim (Option-cases (cmd_reg_read U l d.addr).0) [
        | inl e ↦ rw (e, run_item) tt
        | inr (w, e) ↦ rw (e, run_item) tt
      ]
  run_item-Ended CommandVector.tblval_readwrite ok d l (s, h) =
      let written = (cmd_reg_bit_write U l d.addr (d.value * 2 ^ s % 2 ^ 32) d.mask).0 in
      elim (Bool-cases written) [
        | inl e ↦ rw (h, run_item) (rw e tt)
        | inr e ↦ rw (h, run_item) (rw e tt)
      ]
  run_item-Ended CommandVector.tblval_comp ok d l h = compare_step-Ended _ d l h
  run_item-Ended CommandVector.tblval_comp_n ok d l h = compare_step-Ended _ d l h
  run_item-Ended CommandVector.tblval_wait ok d l h = tt
  run_item-Ended CommandVector.tblval_write ok d l h = tt
  run_item-Ended CommandVector.tblval_comp_l ok d l h = tt
  run_item-Ended CommandVector.tblval_comp_h ok d l h = tt

  Returned : Run U → Type 0
  Returned r = (s : Result U) × (r ≡ Run.returned s)

  keep_item-Returned : (d : Detail) (r : Run U) → Returned r → Returned (keep_item U d r)
  unfolding Returned keep_item
  keep_item-Returned d r (s, h) = rw h (record s { details = d ∷ s.details }, refl)

  after_step-Returned :
      (d : Detail) (ds : List Detail) (go : Bool → Link U → Run U)
      → ((ok : Bool) (l : Link U) → Returned (go ok l))
      → (s : Step U) → Ended s
      → Returned (after_step U d ds go s)
  unfolding after_step Returned
  after_step-Returned d ds go all (Step.next ok d1 l) h = keep_item-Returned d1 _ (all ok l)
  after_step-Returned d ds go all (Step.stop l) h = (_, refl)
  after_step-Returned d ds go all Step.undefined h = elim h [ ]
  after_step-Returned d ds go all Step.endless h = elim h [ ]

  run_items-Returned :
      (ok : Bool) (xdata : List (ℕ × ℕ)) (details : List Detail) (l : Link U)
      → All (λ d. EndsItem d.command d) details
      → Returned (run_items U ok xdata details l)
  unfolding run_items Returned
  run_items-Returned ok xdata [] l h = (_, refl)
  run_items-Returned ok xdata (d ∷ ds) l (h, hs) =
      let (sent, l1) = flush U xdata l in
      elim (Bool-cases (is_write d.command)) [
        | inl w ↦ rw (w, run_items) (keep_item-Returned d _ (run_items-Returned ok _ ds l hs))
        | inr w ↦ elim (Bool-cases sent) [
          | inr e ↦
              (record { ok = false; details = d ∷ ds; link = l1 }, rw (w, run_items) (rw e refl))
          | inl e ↦
              rw (w, run_items)
                (rw e (
                  after_step-Returned d ds _ (λ ok1 l2. run_items-Returned ok1 [] ds l2 hs) _
                    (run_item-Ended d.command ok d l1 h)))
        ]
      ]

  -- Whatever the device does, `VectorInterpreter` comes to an end, with a Boolean result: at a table
  -- where the mask of each READWRITE has a one among its 32 bits, and the bound on the rounds of each
  -- COMP and COMP_N is not the largest uint32_t.
  pub vector_interpreter-returned :
      (details : List Detail) (l : Link U)
      → All (λ d. EndsItem d.command d) details
      → (s : Result U) × (vector_interpreter U details l ≡ Run.returned s)
  unfolding vector_interpreter Returned
  vector_interpreter-returned details l h = run_items-Returned true [] details l h
