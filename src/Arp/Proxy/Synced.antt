-- ===== src/Arp/Proxy/Synced.antt =====
-- httpd/arpproxy.cpp: what `handle_device_setflag`, `handle_device_setvoltage` and `handle_device_on`
-- do to the set points and to the registers of a device with no fault.
use bnc.Prelude.{
  ℕ, ◌^◌, ◌<◌, Bool, true, false, Bool-cases, inl, inr, arith, ◌==◌, if◌then◌else◌, Option, none,
  some,
}
use bnc.Device.Floats.{Floats}
use bnc.Arp.Bits.{bit_and_le, bit_or_lt, flagged_lt}
use bnc.Arp.Words.{complement}
use bnc.Arp.Usb.{Usb}
use bnc.Arp.Board.{Board}
use bnc.Arp.Setpoints.{Headers, Setpoint, Entry, Supply, setpts_map}
use bnc.Arp.Setpoints.Fits.{EntryFits, Found, find_addr-Found, setpts_map-Fits}
use bnc.Arp.Proxy.{
  Impl, notify, put_setpt, put_second, write_setpt, put_flag, pumps_on, flagged, switch_modules,
  change_flag, announce, handle_device_setflag, handle_device_setvoltage, handle_device_on,
  all_ones, second_of, bit_or, Bytes, bit_and, setvoltage_of,
}
use bnc.Arp.Proxy.Sync.{
  Good, Agrees, write_setpt-Good, write_setpt-Agrees, put_setpt-Good, put_setpt-Agrees,
}

-- What the headers say: the arrays have an element for each address, and a device value is a word.
pub record HeadersFit (F : Floats) (D : Headers F) : Type 0 where
  pub aux1_lt : D.setpt_aux1 < 32
  pub aux2_lt : D.setpt_aux2 < 32
  pub pump_lt : D.setpt_pump_valve_ctrl < 32
  pub setpt_lt : (s : Supply) → D.setpt s < 32
  pub device_value_lt : (s : Supply) (v : F.Double) → D.device_value s v < 2 ^ 32

pub pumps_on_lt : (v : ℕ) → v < 2 ^ 32 → pumps_on v < 2 ^ 32
unfolding pumps_on
pumps_on_lt v h =
    let fits = bit_or_lt 32 v 0xc09f h (omega arith) in
    omega (arith, bit_and_le (bit_or v 0xc09f) (complement 0x2000))

pub modules_lt : (value : Bool) → (if value then 0x1fff else 0x0001) < 2 ^ 32
modules_lt true = omega arith
modules_lt false = omega arith

pub aux2_fits :
    (value : Bool) (v : ℕ)
    → v < 2 ^ 32
    → (if value then bit_or v 0x001e else bit_and v (complement 0x001e)) < 2 ^ 32
aux2_fits true v h = bit_or_lt 32 v 0x001e h (omega arith)
aux2_fits false v h = omega (arith, bit_and_le v (complement 0x001e))

module _ (F : Floats) (D : Headers F) (U : Usb) (B : Board U) where
  -- From one state to a later one: the device is as idle, and what agreed still does.
  pub record Moves (p q : Impl F D U) : Type 0 where
    pub good : Good F D U B q
    pub kept : (a : ℕ) → a < 32 → Agrees F D U B p a → Agrees F D U B q a

  pub Moves-refl : (p : Impl F D U) → Good F D U B p → Moves p p
  Moves-refl p g = record { good = g; kept = λ a l h. h }

  pub Moves-trans : (p q r : Impl F D U) → Moves p q → Moves q r → Moves p r
  Moves-trans p q r m n = record { good = n.good; kept = λ a l h. n.kept a l (m.kept a l h) }

  pub Moves-if :
      (b : Bool) (p x y : Impl F D U) → Moves p x → Moves p y → Moves p (if b then x else y)
  Moves-if true p x y m n = m
  Moves-if false p x y m n = n

  pub notify-Moves :
      (text : Bytes) (p : Impl F D U) → Good F D U B p → Moves p (notify F D U text p)
  unfolding notify
  notify-Moves text p g = record {
    good = record { is_open = g.is_open; idle = g.idle; words = g.words };
    kept = λ a l h. h;
  }

  -- A set point that is put and written.
  pub stored-Moves :
      (addr : ℕ) (s : Setpoint F) (p : Impl F D U)
      → addr < 32
      → s.second < 2 ^ 32
      → Good F D U B p
      → Moves p (write_setpt F D U addr (put_setpt F D U addr s p))
  stored-Moves addr s p small w g =
      let good = put_setpt-Good F D U B addr s p w g in
      record {
        good = write_setpt-Good F D U B addr _ good;
        kept = λ a l h.
            write_setpt-Agrees F D U B addr a _ good small l (elim (Bool-cases (a == addr)) [
              | inl t ↦ inl (ground arith)
              | inr f ↦ inr (put_setpt-Agrees F D U B addr a s p (ground arith) h)
            ]);
      }

  put_flag-Moves :
      (addr mask : ℕ) (value : Bool) (p : Impl F D U)
      → addr < 32
      → mask < 2 ^ 32
      → Good F D U B p
      → Moves p (put_flag F D U addr mask value p)
  unfolding put_flag put_second flagged
  put_flag-Moves addr mask value p small w g =
      stored-Moves addr _ p small (flagged_lt _ mask value (g.words addr) w) g

  -- The same where another value was put first.
  put_pumps-Moves :
      (addr mask : ℕ) (value : Bool) (p : Impl F D U)
      → addr < 32
      → mask < 2 ^ 32
      → Good F D U B p
      → Moves p (
          put_flag F D U addr mask value
            (put_second F D U addr (pumps_on (second_of F D U p addr)) p))
  unfolding put_flag put_second flagged
  put_pumps-Moves addr mask value p small w g =
      let p1 = put_second F D U addr (pumps_on (second_of F D U p addr)) p in
      let good1 = put_setpt-Good F D U B addr _ p (pumps_on_lt _ (g.words addr)) g in
      let good2 =
        put_setpt-Good F D U B addr _ p1 (flagged_lt _ mask value (good1.words addr) w) good1 in
      record {
        good = write_setpt-Good F D U B addr _ good2;
        kept = λ a l h.
            write_setpt-Agrees F D U B addr a _ good2 small l (elim (Bool-cases (a == addr)) [
              | inl t ↦ inl (ground arith)
              | inr f ↦ inr (
                  put_setpt-Agrees F D U B addr a _ p1 (ground arith)
                    (put_setpt-Agrees F D U B addr a _ p (ground arith) h))
            ]);
      }

  pub switch_modules-Moves :
      (value : Bool) (p : Impl F D U)
      → HeadersFit F D
      → Good F D U B p
      → Moves p (switch_modules F D U value p)
  unfolding switch_modules put_second
  switch_modules-Moves value p fit g =
      let p1 = put_second F D U D.setpt_aux1 (if value then 0x1fff else 0x0001) p in
      let aux2 = second_of F D U p1 D.setpt_aux2 in
      let s2 : Setpoint F = record {
        first = (p1.setpts D.setpt_aux2).first;
        second = if value then bit_or aux2 0x001e else bit_and aux2 (complement 0x001e);
      } in
      let p2 = put_setpt F D U D.setpt_aux2 s2 p1 in
      let good1 = put_setpt-Good F D U B D.setpt_aux1 _ p (modules_lt value) g in
      let good2 =
        put_setpt-Good F D U B D.setpt_aux2 s2 p1 (aux2_fits value aux2 (good1.words D.setpt_aux2))
          good1 in
      let good3 = write_setpt-Good F D U B D.setpt_aux1 p2 good2 in
      record {
        good = write_setpt-Good F D U B D.setpt_aux2 _ good3;
        kept = λ a l h.
            write_setpt-Agrees F D U B D.setpt_aux2 a _ good3 fit.aux2_lt l
              (elim (Bool-cases (a == D.setpt_aux2)) [
                | inl t ↦ inl (ground arith)
                | inr f ↦ inr (
                    write_setpt-Agrees F D U B D.setpt_aux1 a p2 good2 fit.aux1_lt l
                      (elim (Bool-cases (a == D.setpt_aux1)) [
                        | inl t ↦ inl (ground arith)
                        | inr d ↦ inr (
                            put_setpt-Agrees F D U B D.setpt_aux2 a s2 p1 (ground arith)
                              (put_setpt-Agrees F D U B D.setpt_aux1 a _ p (ground arith) h))
                      ]))
              ]);
      }

  pub announce-Moves :
      (addr mask : ℕ) (p : Impl F D U) → Good F D U B p → Moves p (announce F D U addr mask p)
  unfolding announce
  announce-Moves addr mask p g =
      let first = Moves-if _ p _ _ (Moves-refl p g) (notify-Moves _ p g) in
      Moves-trans p _ _ first (notify-Moves _ _ first.good)

  pub handle_device_setflag-Moves :
      (addr mask : ℕ) (value : Bool) (p : Impl F D U)
      → HeadersFit F D
      → addr < 32
      → mask < 2 ^ 32
      → Good F D U B p
      → Moves p (handle_device_setflag F D U addr mask value p)
  unfolding handle_device_setflag change_flag
  handle_device_setflag-Moves addr mask value p fit small w g =
      let one = put_flag-Moves addr mask value p small w g in
      let m =
        Moves-if (addr == D.setpt_aux1) p _ _
          (Moves-if (mask == all_ones) p _ _ (switch_modules-Moves value p fit g) one)
          (Moves-if (addr == D.setpt_aux2) p _ _ one (
            Moves-if (addr == D.setpt_pump_valve_ctrl) p _ _
              (put_pumps-Moves addr mask value p small w g) (Moves-refl p g))) in
      Moves-trans p _ _ m
        (Moves-if _ _ _ _ (Moves-refl _ m.good) (announce-Moves addr mask _ m.good))

  pub handle_device_on-Moves :
      (on : Bool) (p : Impl F D U)
      → HeadersFit F D
      → Good F D U B p
      → Moves p (handle_device_on F D U on p)
  unfolding handle_device_on put_second
  handle_device_on-Moves on p fit g =
      let m = stored-Moves D.setpt_pump_valve_ctrl _ p fit.pump_lt (pumps_on_lt _ (g.words _)) g in
      Moves-trans p _ _ m (
        handle_device_setflag-Moves D.setpt_aux1 all_ones on _ fit fit.aux1_lt (omega arith) m.good)

  setvoltage_of-Moves :
      (o : Option (Entry F)) (addr : ℕ) (v : F.Double) (p : Impl F D U)
      → Found F (EntryFits F) o
      → addr < 32
      → Good F D U B p
      → Moves p (setvoltage_of F D U o addr v p)
  unfolding setvoltage_of
  setvoltage_of-Moves none addr v p h small g = Moves-refl p g
  setvoltage_of-Moves (some e) addr v p h small g =
      let m = stored-Moves addr (record { first = v; second = e.device_value v }) p small (h v) g in
      Moves-trans p _ _ m (notify-Moves _ _ m.good)

  pub handle_device_setvoltage-Moves :
      (addr : ℕ) (v : F.Double) (p : Impl F D U)
      → HeadersFit F D
      → addr < 32
      → Good F D U B p
      → Moves p (handle_device_setvoltage F D U addr v p)
  unfolding handle_device_setvoltage
  handle_device_setvoltage-Moves addr v p fit small g =
      setvoltage_of-Moves _ addr v p
        (find_addr-Found F (EntryFits F) addr (setpts_map F D)
          (setpts_map-Fits F D fit.device_value_lt))
        small g
