-- ===== src/Device/Json/RoundTrip.antt =====
-- Settings that are written as JSON and read back, on what boost documents of its trees.
use bnc.Prelude.{
  ℕ, Bool, true, false, List, [], ◌∷◌, ◌++◌, none, some, ◌≡◌, ◌⊎◌, inl, inr, refl, sym, ◌∙◌,
  is_empty, if◌then◌else◌,
}
use bnc.Prelude.Bytes.{Bytes, codes, starts_with}
use bnc.Device.Floats.{Floats}
use bnc.Device.Protocols.{Pulse}
use bnc.Device.Json.{Trees, read_pulse, write_pulse, from_micro, to_micro}

-- Neither path leads to or through the other's node.
pub record Apart (p q : Bytes) : Type 0 where
  pub not_within : starts_with p q ≡ false
  pub not_around : starts_with q p ≡ false

pub record IsLawful (F : Floats) (T : Trees F) : Type 0 where
  pub get-put : (p v : Bytes) (t : T.Tree) → T.get p (T.put p v t) ≡ some v
  pub get-put_other : (p q v : Bytes) (t : T.Tree) → Apart p q → T.get q (T.put p v t) ≡ T.get q t
  pub get-add_child_other :
      (p q : Bytes) (u t : T.Tree) → Apart p q → T.get q (T.add_child p u t) ≡ T.get q t
  pub get_child-put_other :
      (p q v : Bytes) (t : T.Tree) → Apart p q → T.get_child q (T.put p v t) ≡ T.get_child q t
  pub get_child-add_child :
      (p : Bytes) (u t : T.Tree)
      → T.get_child p t ≡ none
      → T.get_child p (T.add_child p u t) ≡ T.get_child [] u
  pub get_child-empty : (p : Bytes) → is_empty p ≡ false → T.get_child p T.empty ≡ none
  pub get_child-empty_nil : T.get_child [] T.empty ≡ some []
  pub get_child-push_back :
      (u t : T.Tree) (ts : List T.Tree)
      → T.get_child [] t ≡ some ts
      → T.get_child [] (T.push_back u t) ≡ some (ts ++ u ∷ [])
  pub to_int-print_int : (n : ℕ) → T.to_int (T.print_int n) ≡ some n
  pub to_bool-print_bool : (v : Bool) → T.to_bool (T.print_bool v) ≡ some v
  pub to_bool-print_zero : T.to_bool (T.print_int 0) ≡ some false
  pub to_bool-print_one : T.to_bool (T.print_int 1) ≡ some true

module _ (F : Floats) (T : Trees F) where
  open F use {Double, print_g}
  open T use {Tree, get, get_child, to_double, to_bool, print_int, print_bool, empty}

  -- The six digits of %g are enough for this many microseconds, and dividing gives it back.
  pub record Exact (v : Double) : Type 0 where
    pub scaled : Double
    pub read_back : to_double (print_g (to_micro F T v)) ≡ some scaled
    pub divided : from_micro F T scaled ≡ v

  pub record ExactPulse (x : Pulse Double) : Type 0 where
    pub delay : Exact x.delay
    pub width : Exact x.width
    pub flag : (x.state ≡ 0) ⊎ (x.state ≡ 1)

  module _ (law : IsLawful F T) where
    pub apart : (p q : Bytes) → starts_with p q ≡ false → starts_with q p ≡ false → Apart p q
    apart p q h k = record { not_within = h; not_around = k }

    get_state :
        (x : Pulse Double) → get (codes "state") (write_pulse F T x) ≡ some (print_int x.state)
    unfolding write_pulse
    get_state x = law.get-put (codes "state") _ _

    get_polarity :
        (x : Pulse Double)
        → get (codes "polarity") (write_pulse F T x) ≡ some (print_bool x.polarity)
    unfolding write_pulse starts_with
    get_polarity x =
        law.get-put_other (codes "state") (codes "polarity") _ _ (apart _ _ refl refl)
        ∙ law.get-put (codes "polarity") _ _

    get_width :
        (x : Pulse Double)
        → get (codes "width") (write_pulse F T x) ≡ some (print_g (to_micro F T x.width))
    unfolding write_pulse starts_with
    get_width x =
        law.get-put_other (codes "state") (codes "width") _ _ (apart _ _ refl refl)
        ∙ law.get-put_other (codes "polarity") (codes "width") _ _ (apart _ _ refl refl)
        ∙ law.get-put (codes "width") _ _

    get_delay :
        (x : Pulse Double)
        → get (codes "delay") (write_pulse F T x) ≡ some (print_g (to_micro F T x.delay))
    unfolding write_pulse starts_with
    get_delay x =
        law.get-put_other (codes "state") (codes "delay") _ _ (apart _ _ refl refl)
        ∙ law.get-put_other (codes "polarity") (codes "delay") _ _ (apart _ _ refl refl)
        ∙ law.get-put_other (codes "width") (codes "delay") _ _ (apart _ _ refl refl)
        ∙ law.get-put (codes "delay") _ _

    to_bool-print_int :
        (n : ℕ)
        → (n ≡ 0) ⊎ (n ≡ 1)
        → (v : Bool) × (to_bool (print_int n) ≡ some v) × ((if v then 1 else 0) ≡ n)
    to_bool-print_int n (inl e) = (false, rw e law.to_bool-print_zero, sym e)
    to_bool-print_int n (inr e) = (true, rw e law.to_bool-print_one, sym e)

    pub read_pulse-write_pulse :
        (x y : Pulse Double) → ExactPulse x → read_pulse F T (write_pulse F T x) y ≡ x
    unfolding read_pulse
    read_pulse-write_pulse x y v =
        let (f, b, s) = to_bool-print_int x.state v.flag in
        rw
          (
            get_state x,
            get_polarity x,
            get_width x,
            get_delay x,
            b,
            law.to_bool-print_bool x.polarity,
            v.width.read_back,
            v.delay.read_back,
            v.width.divided,
            v.delay.divided,
            s,
          )
          refl
