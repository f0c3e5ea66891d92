-- ===== src/Arp/Digitizer/Outside.antt =====
-- httpd/arpproxy.cpp: the registers that the table of `handle_device_digitizer_initialize` leaves.
use bnc.Prelude.{
  ℕ, ◌<◌, ◌≤◌, ◌≡◌, ◌≢◌, refl, ◌∙◌, Bool, ◌⊎◌, inl, inr, [], Option-cases, arith, ◌==◌, List, ◌∷◌,
  All, if_false,
}
use bnc.Arp.Words.{lowest_bit}
use bnc.Arp.Board.{Registers, store}
use bnc.Arp.Vector.{CommandVector, Detail}
use bnc.Arp.Vector.Reference.{Reach, Outcome, reference, meaning, after_meaning, masked}
use bnc.Arp.Digitizer.{digitizer_items}
use bnc.Arp.Proxy.{hv_register}

module _ (r : ℕ) where
  -- The register has the value wherever the run goes on or ends.
  Holds : Reach → ℕ → Type 0
  Holds (Reach.go ok d f) v = f r ≡ v
  Holds (Reach.halt f) v = f r ≡ v

  store-other : (f : Registers) (a w : ℕ) → a ≢ r → store f a w r ≡ f r
  unfolding store
  store-other f a w n = if_false (r == a) w (f r) (ground arith)

  meaning-Holds :
      (c : CommandVector) (ok : Bool) (d : Detail) (f : Registers)
      → d.addr ≢ r
      → Holds (meaning c ok d f) (f r)
  unfolding meaning masked Holds
  meaning-Holds CommandVector.tblval_write ok d f n = store-other f d.addr _ n
  meaning-Holds CommandVector.tblval_read ok d f n = refl
  meaning-Holds CommandVector.tblval_readwrite ok d f n =
      elim (Option-cases (lowest_bit 32 d.mask)) [
        | inl e ↦ rw (e, masked) refl
        | inr (j, e) ↦ rw (e, masked) (store-other f d.addr _ n)
      ]
  meaning-Holds CommandVector.tblval_wait ok d f n = refl
  meaning-Holds CommandVector.tblval_comp ok d f n = refl
  meaning-Holds CommandVector.tblval_comp_n ok d f n = refl
  meaning-Holds CommandVector.tblval_comp_l ok d f n = refl
  meaning-Holds CommandVector.tblval_comp_h ok d f n = refl

  after_meaning-Holds :
      (d : Detail) (ds : List Detail) (next : Bool → Registers → Outcome) (v : ℕ) (m : Reach)
      → ((ok : Bool) (f : Registers) → (next ok f).regs r ≡ f r)
      → Holds m v
      → (after_meaning d ds next m).regs r ≡ v
  unfolding after_meaning Holds
  after_meaning-Holds d ds next v (Reach.go ok d1 f) all h = all ok f ∙ h
  after_meaning-Holds d ds next v (Reach.halt f) all h = h

  -- A register that no item writes keeps its word.
  pub reference-keeps :
      (ok : Bool) (ds : List Detail) (f : Registers)
      → All (λ d. d.addr ≢ r) ds
      → (reference ok ds f).regs r ≡ f r
  unfolding reference
  reference-keeps ok [] f h = refl
  reference-keeps ok (d ∷ ds) f (n, ns) =
      after_meaning-Holds d ds _ _ _ (λ ok1 f1. reference-keeps ok1 ds f1 ns)
        (meaning-Holds d.command ok d f n)

-- The table writes no register of a set point.
abbrev pub Outside : Detail → Type 0
Outside d = (d.addr < 0x4800) ⊎ (0x4880 ≤ d.addr)

pub digitizer_items-Outside : All Outside digitizer_items
unfolding digitizer_items
digitizer_items-Outside = omega arith

pub Outside-other :
    (a : ℕ) (ds : List Detail) → a < 32 → All Outside ds → All (λ d. d.addr ≢ hv_register a) ds
Outside-other a [] l h = tt
Outside-other a (d ∷ ds) l (h, hs) = (omega arith, Outside-other a ds l hs)
