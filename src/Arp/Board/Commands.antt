-- ===== src/Arp/Board/Commands.antt =====
-- httpd/arpproxy.cpp, the register commands with a device that keeps registers.
use bnc.Prelude.{
  ℕ, ◌/◌, ◌%◌, ◌^◌, ◌<◌, ◌≡◌, refl, true, some, [], ◌∷◌, arith, ◌∙◌, length, false, ap, suc,
}
use bnc.Arp.Words.{of_bytes, merge}
use bnc.Arp.Usb.{
  Usb, Link, cmd_reg_read, reg_bulk_out, reg_bulk_in, transfer_in, answer_of, transfer_out, byte_at,
  cmd_reg_write, cmd_reg_bit_write, read_answers, vector_bytes, cmd_reg_vector_write,
}
use bnc.Arp.Bits.{merge_lt}
use bnc.Arp.Board.{
  Registers, Command, frames, effect, effects, answers, Board, List, store, Bytes, All, Fits,
}

abbrev pub pokes : List (ℕ × ℕ) → List Command
pokes [] = []
pokes ((addr, word) ∷ items) = Command.poke addr word ∷ pokes items

vector_bytes-frames : (items : List (ℕ × ℕ)) → vector_bytes items ≡ frames (pokes items)
unfolding vector_bytes frames
vector_bytes-frames [] = refl
vector_bytes-frames ((addr, word) ∷ items) = rw (vector_bytes-frames items) refl

-- The open device.
abbrev pub linked : (U : Usb) → U.Bus → Link U
linked U b = record { is_open = true; bus = b }

module _ (U : Usb) (B : Board U) where
  open B use {
    regs, waiting, stamp, regs_lt, out_done, regs-out, waiting-out, in_lem, regs-in, waiting-in,
  }

  -- The value of an operation, and the registers after it, with no answer waiting.
  abbrev pub Leaves {ℓ} : {A : Type ℓ} → A × Link U → A → Registers → Type ℓ
  Leaves r v f = (c : U.Bus) × (r ≡ (v, linked U c)) × (waiting c ≡ []) × (regs c ≡ f)

  pub cmd_reg_read-Leaves :
      (b : U.Bus) (addr : ℕ)
      → waiting b ≡ []
      → addr < 2 ^ 32
      → Leaves (cmd_reg_read U (linked U b) addr) (some (regs b addr)) (regs b)
  unfolding cmd_reg_read transfer_out transfer_in answer_of byte_at frames answers effects effect
  cmd_reg_read-Leaves b addr idle small =
      let cs = Command.peek addr ∷ [] in
      let b1 = (U.bulk_out b reg_bulk_out (frames cs)).1 in
      let b2 = (U.bulk_in b1 reg_bulk_in 8).2 in
      let sent = out_done b cs idle (small, tt) in
      let asked = waiting-out b cs idle (small, tt) in
      let got = in_lem b1 _ [] asked in
      let fits = regs_lt b addr in
      let word : of_bytes (regs b addr % 256) (regs b addr / 256 % 256) (regs b addr / 65536 % 256)
            (regs b addr / 16777216 % 256)
          ≡ regs b addr =
        omega arith in
      (
        b2,
        rw sent (rw (got.0) (rw (got.1) (rw word refl))),
        waiting-in b1 _ [] asked,
        regs-in b1 ∙ regs-out b cs idle (small, tt),
      )

  pub cmd_reg_write-Leaves :
      (b : U.Bus) (addr word : ℕ)
      → waiting b ≡ []
      → addr < 2 ^ 32
      → word < 2 ^ 32
      → Leaves (cmd_reg_write U (linked U b) addr word) true (store (regs b) addr word)
  unfolding cmd_reg_write transfer_out transfer_in frames answers effects effect
  cmd_reg_write-Leaves b addr word idle small fits =
      let cs = Command.poke addr word ∷ [] in
      let ok : All Fits cs = ((small, fits), tt) in
      let b1 = (U.bulk_out b reg_bulk_out (frames cs)).1 in
      let asked = waiting-out b cs idle ok in
      let got = in_lem b1 _ [] asked in
      (
        (U.bulk_in b1 reg_bulk_in 8).2,
        rw (out_done b cs idle ok) (rw (got.0) refl),
        waiting-in b1 _ [] asked,
        regs-in b1 ∙ regs-out b cs idle ok,
      )

  -- On a device with no fault CmdRegBitWrite stores the register's word with the bits of the mask taken
  -- from the given word, and returns false, which its callers take for a failure. The address and the
  -- given word are uint32_t.
  pub cmd_reg_bit_write-Leaves :
      (b : U.Bus) (addr word mask : ℕ)
      → waiting b ≡ []
      → addr < 2 ^ 32
      → word < 2 ^ 32
      → Leaves
          (cmd_reg_bit_write U (linked U b) addr word mask)
          false
          (store (regs b) addr (merge (regs b addr) word mask))
  unfolding cmd_reg_bit_write
  cmd_reg_bit_write-Leaves b addr word mask idle small fits =
      let (b1, read, idle1, same) = cmd_reg_read-Leaves b addr idle small in
      let (b2, written, idle2, done) =
        cmd_reg_write-Leaves b1 addr (merge (regs b addr) word mask) idle1 small
          (merge_lt (regs b addr) word mask (regs_lt b addr) fits) in
      (
        b2,
        rw (read, cmd_reg_bit_write) (rw read (rw written refl)),
        idle2,
        done ∙ ap (λ f. store f addr (merge (regs b addr) word mask)) same,
      )

  -- One answer is read for each item.
  read_answers-Leaves :
      (queue : List Bytes) (b : U.Bus)
      → waiting b ≡ queue
      → Leaves (read_answers U (linked U b) (length queue)) true (regs b)
  unfolding read_answers transfer_in
  read_answers-Leaves [] b h = (b, refl, h, refl)
  read_answers-Leaves (a ∷ queue) b h =
      let (c, e, idle, same) =
        read_answers-Leaves queue (U.bulk_in b reg_bulk_in 8).2 (waiting-in b a queue h) in
      (c, rw ((in_lem b a queue h).0, read_answers, transfer_in) e, idle, same ∙ regs-in b)

  length-answers :
      (items : List (ℕ × ℕ)) (f : Registers) → length (answers stamp (pokes items) f) ≡ length items
  unfolding answers
  length-answers [] f = refl
  length-answers ((addr, word) ∷ items) f = ap suc (length-answers items (store f addr word))

  pub cmd_reg_vector_write-Leaves :
      (b : U.Bus) (items : List (ℕ × ℕ))
      → waiting b ≡ []
      → All Fits (pokes items)
      → Leaves (cmd_reg_vector_write U (linked U b) items) true (effects (pokes items) (regs b))
  unfolding cmd_reg_vector_write transfer_out
  cmd_reg_vector_write-Leaves b items idle ok =
      let cs = pokes items in
      let b1 = (U.bulk_out b reg_bulk_out (frames cs)).1 in
      let (c, e, idle1, same) = read_answers-Leaves _ b1 (waiting-out b cs idle ok) in
      (
        c,
        rw (vector_bytes-frames items, cmd_reg_vector_write, transfer_out)
            (rw (out_done b cs idle ok) (
              rw (vector_bytes-frames items, transfer_out)
                (rw (← length-answers items (regs b)) e))),
        idle1,
        same ∙ regs-out b cs idle ok,
      )
