-- ===== src/Arp/Digitizer/Runs.antt =====
-- httpd/arpproxy.cpp, `handle_device_digitizer_initialize`: the run of its table.
use Prim.Native.Nat.{bit_and}
use bnc.Prelude.{◌≡◌, refl, true, [], All, arith, ◌==◌}
use bnc.Arp.Usb.{Usb, Link}
use bnc.Arp.Board.{Board, Registers, store}
use bnc.Arp.Vector.{Run, Result}
use bnc.Arp.Vector.Ends.{EndsItem, vector_interpreter-returned}
use bnc.Arp.Board.Commands.{linked}
use bnc.Arp.Vector.Refines.{vector_interpreter-reference}
use bnc.Arp.Vector.Reference.{FitsItem, reference, meaning, after_meaning}
use bnc.Arp.Digitizer.{digitizer_items, handle_device_digitizer_initialize}
use bnc.Arp.Digitizer.Addresses.{arp_ad_sadc_rg_srx0}

pub digitizer_items-FitsItem : All FitsItem digitizer_items
unfolding digitizer_items
digitizer_items-FitsItem = omega arith

digitizer_items-EndsItem : All (λ d. EndsItem d.command d) digitizer_items
unfolding digitizer_items
digitizer_items-EndsItem = omega arith

digitizer_ok :
    (f : Registers)
    → (reference true digitizer_items f).ok
      ≡ (bit_and (f arp_ad_sadc_rg_srx0) 0xffff_ffff == 0x1000_0000)
unfolding digitizer_items reference meaning after_meaning store
digitizer_ok f = refl

-- The result of the table on a device with no fault: it is decided by the last COMP, of the converter's
-- register, whatever the two COMP on the clock gave.
pub handle_device_digitizer_initialize-last :
    (U : Usb) (B : Board U) (b : U.Bus)
    → B.waiting b ≡ []
    → (s : Result U) × (handle_device_digitizer_initialize U (linked U b) ≡ Run.returned s)
      × (s.ok ≡ (bit_and (B.regs b arp_ad_sadc_rg_srx0) 0xffff_ffff == 0x1000_0000))
unfolding handle_device_digitizer_initialize
handle_device_digitizer_initialize-last U B b idle =
    let (c, e, idle1, now) =
      vector_interpreter-reference U B digitizer_items b idle digitizer_items-FitsItem in
    (_, e, digitizer_ok (B.regs b))

pub handle_device_digitizer_initialize-returned :
    (U : Usb) (l : Link U)
    → (s : Result U) × (handle_device_digitizer_initialize U l ≡ Run.returned s)
unfolding handle_device_digitizer_initialize
handle_device_digitizer_initialize-returned U l =
    vector_interpreter-returned U digitizer_items l digitizer_items-EndsItem
