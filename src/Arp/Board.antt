-- ===== src/Arp/Board.antt =====
-- The device that the register commands of httpd/arpproxy.cpp speak to, as they rely on it: it keeps
-- registers, takes commands of a read or a write, and answers each one with eight bytes, the last
-- four of which are the word.
pub mod Commands
use bnc.Prelude.{ℕ, ◌^◌, ◌<◌, ◌≡◌, List, [], ◌∷◌, ◌++◌, All, ◌==◌, if◌then◌else◌}
use bnc.Prelude.Bytes.{Bytes}
use bnc.Arp.Words.{le32}
use bnc.Arp.Usb.{Usb, reg_bulk_out, reg_bulk_in}

abbrev pub Registers : Type 0
Registers = ℕ → ℕ

unfoldable pub store : Registers → ℕ → ℕ → Registers
store regs addr word a = if a == addr then word else regs a

pub data Command : Type 0 where
  peek : ℕ → Command
  poke : ℕ → ℕ → Command

-- The bytes of a command: 4 bytes, the address, and the word.
abbrev pub frame : Command → Bytes
frame (Command.peek addr) = 0x14 ∷ 8 ∷ 0 ∷ 0 ∷ le32 addr
frame (Command.poke addr word) = 0x15 ∷ 12 ∷ 0 ∷ 15 ∷ (le32 addr ++ le32 word)

unfoldable pub frames : List Command → Bytes
frames [] = []
frames (c ∷ cs) = frame c ++ frames cs

abbrev pub Fits : Command → Type 0
Fits (Command.peek addr) = addr < 2 ^ 32
Fits (Command.poke addr word) = (addr < 2 ^ 32) × (word < 2 ^ 32)

unfoldable pub effect : Command → Registers → Registers
unfolding store
effect (Command.peek addr) regs = regs
effect (Command.poke addr word) regs = store regs addr word

unfoldable pub effects : List Command → Registers → Registers
unfolding effect
effects [] regs = regs
effects (c ∷ cs) regs = effects cs (effect c regs)

-- Four bytes of the device's own, and a word.
abbrev pub answer : (ℕ → ℕ) → ℕ → Bytes
answer stamp word = stamp 0 ∷ stamp 1 ∷ stamp 2 ∷ stamp 3 ∷ le32 word

abbrev pub answer_to : (ℕ → ℕ) → Registers → Command → Bytes
answer_to stamp regs (Command.peek addr) = answer stamp (regs addr)
answer_to stamp regs (Command.poke addr word) = answer stamp word

unfoldable pub answers : (ℕ → ℕ) → List Command → Registers → List Bytes
unfolding effect
answers stamp [] regs = []
answers stamp (c ∷ cs) regs = answer_to stamp regs c ∷ answers stamp cs (effect c regs)

-- What the program relies on, of a device with no fault: a transfer of commands to an idle device
-- is done, and leaves their answers waiting; a transfer from it takes the first one; waiting changes
-- nothing.
pub record Board (U : Usb) : Type 0 where
  pub regs : U.Bus → Registers
  pub waiting : U.Bus → List Bytes
  pub stamp : ℕ → ℕ
  pub regs_lt : (b : U.Bus) (addr : ℕ) → regs b addr < 2 ^ 32
  pub out_done :
      (b : U.Bus) (cs : List Command)
      → waiting b ≡ []
      → All Fits cs
      → (U.bulk_out b reg_bulk_out (frames cs)).0 ≡ 0
  pub regs-out :
      (b : U.Bus) (cs : List Command)
      → waiting b ≡ []
      → All Fits cs
      → regs (U.bulk_out b reg_bulk_out (frames cs)).1 ≡ effects cs (regs b)
  pub waiting-out :
      (b : U.Bus) (cs : List Command)
      → waiting b ≡ []
      → All Fits cs
      → waiting (U.bulk_out b reg_bulk_out (frames cs)).1 ≡ answers stamp cs (regs b)
  pub in_lem :
      (b : U.Bus) (a : Bytes) (rest : List Bytes)
      → waiting b ≡ a ∷ rest
      → ((U.bulk_in b reg_bulk_in 8).0 ≡ 0) × ((U.bulk_in b reg_bulk_in 8).1 ≡ a)
  pub regs-in : (b : U.Bus) → regs (U.bulk_in b reg_bulk_in 8).2 ≡ regs b
  pub waiting-in :
      (b : U.Bus) (a : Bytes) (rest : List Bytes)
      → waiting b ≡ a ∷ rest
      → waiting (U.bulk_in b reg_bulk_in 8).2 ≡ rest
  pub regs-wait : (b : U.Bus) (microseconds : ℕ) → regs (U.wait b microseconds) ≡ regs b
  pub waiting-wait : (b : U.Bus) (microseconds : ℕ) → waiting (U.wait b microseconds) ≡ waiting b
