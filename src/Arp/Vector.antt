-- ===== src/Arp/Vector.antt =====
-- httpd/arpproxy.cpp: `VectorInterpreter`, which runs a table of register commands, over
-- array_wrapper.hpp. An item is `Arp_TblValueDetail`; a command that has no branch there does nothing.
pub mod Ends
pub mod Reference
pub mod Refines
use Prim.Native.Nat.{bit_and}
use bnc.Prelude.{
  ℕ, zero, suc, ◌+◌, ◌*◌, ◌%◌, ◌^◌, Bool, true, false, not, Option, none, some, List, [], ◌∷◌, ◌++◌,
  ◌==◌, ltb, if◌then◌else◌, is_empty,
}
use bnc.Arp.Words.{lowest_bit}
use bnc.Arp.Usb.{Usb, Link, sleep_for, cmd_reg_read, cmd_reg_bit_write, cmd_reg_vector_write}

-- `COMMAND_VECTOR`.
pub data CommandVector : Type 0 where
  tblval_write : CommandVector
  tblval_read : CommandVector
  tblval_readwrite : CommandVector
  tblval_wait : CommandVector
  tblval_comp : CommandVector
  tblval_comp_n : CommandVector
  tblval_comp_l : CommandVector
  tblval_comp_h : CommandVector

pub record Detail : Type 0 where
  pub command : CommandVector
  pub addr : ℕ
  pub value : ℕ
  pub mask : ℕ
  pub max_loop : ℕ

abbrev pub is_write : CommandVector → Bool
is_write c = elim c [ CommandVector.tblval_write ↦ true | _ ↦ false ]

module _ (U : Usb) where
  -- What an item leads to: on to the next one, with the Boolean result so far, the item, and the
  -- device; a return of false; undefined behaviour of the shift; or a loop that ran out of fuel.
  pub data Step : Type 0 where
    next : Bool → Detail → Link U → Step
    stop : Link U → Step
    undefined : Step
    endless : Step

  -- The table after the run, which READ writes to.
  pub record Result : Type 0 where
    pub ok : Bool
    pub details : List Detail
    pub link : Link U

  pub data Run : Type 0 where
    returned : Result → Run
    run_undefined : Run
    run_endless : Run

  -- The loop of COMP and COMP_N, which goes on while `again` holds of the word that was read. The
  -- counter is a uint32_t.
  unfoldable pub compare_loop : (ℕ → Bool) → ℕ → ℕ → ℕ → ℕ → Link U → Option (Bool × Link U)
  unfolding cmd_reg_read sleep_for
  compare_loop again addr max_loop zero loop l = none
  compare_loop again addr max_loop (suc fuel) loop l = elim (ltb max_loop loop) [
    | true ↦ some (false, l)
    | false ↦
        let (found, l1) = cmd_reg_read U (sleep_for U l 1000) addr in
        elim found [
          | none ↦ some (false, l1)
          | some word ↦ elim (again word) [
            | true ↦ compare_loop again addr max_loop fuel ((loop + 1) % 2 ^ 32) l1
            | false ↦ some (true, l1)
          ]
        ]
  ]

  unfoldable pub compare_step : (ℕ → Bool) → Detail → Link U → Step
  unfolding compare_loop
  compare_step again d l = elim (compare_loop again d.addr d.max_loop (d.max_loop + 2) 0 l) [
    | none ↦ Step.endless
    | some (ok, l1) ↦ Step.next ok d l1
  ]

  -- An item that is not WRITE, by its command.
  unfoldable pub run_item : CommandVector → Bool → Detail → Link U → Step
  unfolding cmd_reg_read cmd_reg_bit_write sleep_for compare_step lowest_bit
  run_item CommandVector.tblval_read ok d l =
      let (found, l1) = cmd_reg_read U l d.addr in
      elim found [ none ↦ Step.stop l1 | some word ↦ Step.next ok (record d { value = word }) l1 ]
  run_item CommandVector.tblval_readwrite ok d l = elim (lowest_bit 32 d.mask) [
    | none ↦ Step.undefined
    | some shift ↦
        let (written, l1) = cmd_reg_bit_write U l d.addr (d.value * 2 ^ shift % 2 ^ 32) d.mask in
        if written then Step.next ok d l1 else Step.stop l1
  ]
  run_item CommandVector.tblval_wait ok d l = Step.next ok d (sleep_for U l d.value)
  run_item CommandVector.tblval_comp ok d l =
      compare_step (λ word. not (bit_and word d.mask == d.value % 2 ^ 32)) d l
  run_item CommandVector.tblval_comp_n ok d l =
      compare_step (λ word. bit_and word d.mask == d.value % 2 ^ 32) d l
  run_item CommandVector.tblval_write ok d l = Step.next ok d l
  run_item CommandVector.tblval_comp_l ok d l = Step.next ok d l
  run_item CommandVector.tblval_comp_h ok d l = Step.next ok d l

  -- `CmdRegVectorWrite` of the WRITE items collected, where there are any.
  unfoldable pub flush : List (ℕ × ℕ) → Link U → Bool × Link U
  unfolding cmd_reg_vector_write
  flush xdata l = if is_empty xdata then (true, l) else cmd_reg_vector_write U l xdata

  unfoldable pub keep_item : Detail → Run → Run
  keep_item d r = elim r [
    | Run.returned s ↦ Run.returned (record s { details = d ∷ s.details })
    | other ↦ other
  ]

  -- What the loop does with the step of the item `d` in front of `ds`; `go` is its next round.
  unfoldable pub after_step : Detail → List Detail → (Bool → Link U → Run) → Step → Run
  unfolding keep_item
  after_step d ds go (Step.next ok d1 l) = keep_item d1 (go ok l)
  after_step d ds go (Step.stop l) =
      Run.returned (record { ok = false; details = d ∷ ds; link = l })
  after_step d ds go Step.undefined = Run.run_undefined
  after_step d ds go Step.endless = Run.run_endless

  -- The loop over the items. `xdata` are the WRITE items that the inner loop has collected; in the
  -- outer loop there are none.
  unfoldable pub run_items : Bool → List (ℕ × ℕ) → List Detail → Link U → Run
  unfolding flush run_item after_step
  run_items ok xdata [] l =
      let (sent, l1) = flush xdata l in
      Run.returned (record { ok = if sent then ok else false; details = []; link = l1 })
  run_items ok xdata (d ∷ ds) l = elim (is_write d.command) [
    | true ↦ keep_item d (run_items ok (xdata ++ (d.addr, d.value % 2 ^ 32) ∷ []) ds l)
    | false ↦
        let (sent, l1) = flush xdata l in
        elim sent [
          | false ↦ Run.returned (record { ok = false; details = d ∷ ds; link = l1 })
          | true ↦ after_step d ds (λ ok1 l2. run_items ok1 [] ds l2) (run_item d.command ok d l1)
        ]
  ]

  unfoldable pub vector_interpreter : List Detail → Link U → Run
  unfolding run_items
  vector_interpreter details l = run_items true [] details l
