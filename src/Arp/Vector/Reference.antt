-- ===== src/Arp/Vector/Reference.antt =====
-- What a table of register commands means, with one register at a time and no transfers: the
-- specification of `VectorInterpreter` in httpd/arpproxy.cpp. A READWRITE ends the run.
use Prim.Native.Nat.{bit_and}
use bnc.Prelude.{◌*◌, ◌%◌, ◌^◌, ◌<◌, Bool, false, not, none, some, List, [], ◌∷◌, ◌==◌}
use bnc.Arp.Words.{lowest_bit, merge}
use bnc.Arp.Vector.{CommandVector, Detail}
use bnc.Arp.Vector.Ends.{EndsItem}
use bnc.Arp.Board.{Registers, store}

pub data Reach : Type 0 where
  go : Bool → Detail → Registers → Reach
  halt : Registers → Reach

pub record Outcome : Type 0 where
  pub ok : Bool
  pub details : List Detail
  pub regs : Registers

-- The registers after a READWRITE: its value, moved up to the mask, stands in the mask's bits.
unfoldable pub masked : Detail → Registers → Registers
masked d f = elim (lowest_bit 32 d.mask) [
  | none ↦ f
  | some shift ↦ store f d.addr (merge (f d.addr) (d.value * 2 ^ shift % 2 ^ 32) d.mask)
]

unfoldable pub meaning : CommandVector → Bool → Detail → Registers → Reach
meaning CommandVector.tblval_write ok d f = Reach.go ok d (store f d.addr (d.value % 2 ^ 32))
meaning CommandVector.tblval_read ok d f = Reach.go ok (record d { value = f d.addr }) f
meaning CommandVector.tblval_readwrite ok d f = Reach.halt (masked d f)
meaning CommandVector.tblval_wait ok d f = Reach.go ok d f
meaning CommandVector.tblval_comp ok d f =
    Reach.go (bit_and (f d.addr) d.mask == d.value % 2 ^ 32) d f
meaning CommandVector.tblval_comp_n ok d f =
    Reach.go (not (bit_and (f d.addr) d.mask == d.value % 2 ^ 32)) d f
meaning CommandVector.tblval_comp_l ok d f = Reach.go ok d f
meaning CommandVector.tblval_comp_h ok d f = Reach.go ok d f

unfoldable pub after_meaning : Detail → List Detail → (Bool → Registers → Outcome) → Reach → Outcome
after_meaning d ds next (Reach.go ok d1 f) =
    let rest = next ok f in record rest { details = d1 ∷ rest.details }
after_meaning d ds next (Reach.halt f) = record { ok = false; details = d ∷ ds; regs = f }

-- One item after the other.
unfoldable pub reference : Bool → List Detail → Registers → Outcome
unfolding meaning after_meaning
reference ok [] f = record { ok = ok; details = []; regs = f }
reference ok (d ∷ ds) f =
    after_meaning d ds (λ ok1 f1. reference ok1 ds f1) (meaning d.command ok d f)

-- An item whose address is a uint32_t, and that `VectorInterpreter` comes to the end of.
abbrev pub FitsItem : Detail → Type 0
FitsItem d = (d.addr < 2 ^ 32) × EndsItem d.command d
