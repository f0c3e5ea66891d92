-- ===== src/Arp/Proxy/Switched.antt =====
-- httpd/arpproxy.cpp, `handle_device_on` and the modules' words, on a device with no fault.
use Prim.Native.Nat.{bit_and, bit_or}
use bnc.Prelude.{◌≡◌, refl, Bool, inl, inr, arith, ◌==◌, if◌then◌else◌, if_true}
use bnc.Device.Floats.{Floats}
use bnc.Arp.Words.{complement}
use bnc.Arp.Usb.{Usb}
use bnc.Arp.Board.{Board}
use bnc.Arp.Setpoints.{Headers, Setpoint}
use bnc.Arp.Proxy.{
  Impl, put_setpt, put_second, write_setpt, pumps_on, switch_modules, change_flag,
  handle_device_setflag, handle_device_on, all_ones, second_of,
}
use bnc.Arp.Proxy.Sync.{Good, Agrees, write_setpt-Good, write_setpt-Agrees, put_setpt-Good}
use bnc.Arp.Proxy.Synced.{
  HeadersFit, Moves-refl, Moves-if, announce-Moves, modules_lt, aux2_fits, pumps_on_lt,
  switch_modules-Moves, handle_device_setflag-Moves,
}

module _ (F : Floats) (D : Headers F) (U : Usb) (B : Board U) where
  -- Both words of the modules agree.
  ModulesAgree : Impl F D U → Type 0
  ModulesAgree p = Agrees F D U B p D.setpt_aux1 × Agrees F D U B p D.setpt_aux2

  switch_modules-ModulesAgree :
      (value : Bool) (p : Impl F D U)
      → HeadersFit F D
      → Good F D U B p
      → ModulesAgree (switch_modules F D U value p)
  unfolding switch_modules put_second ModulesAgree
  switch_modules-ModulesAgree value p fit g =
      let p1 = put_second F D U D.setpt_aux1 (if value then 0x1fff else 0x0001) p in
      let aux2 = second_of F D U p1 D.setpt_aux2 in
      let s2 : Setpoint F = record {
        first = (p1.setpts D.setpt_aux2).first;
        second = if value then bit_or aux2 0x001e else bit_and aux2 (complement 0x001e);
      } in
      let p2 = put_setpt F D U D.setpt_aux2 s2 p1 in
      let good1 = put_setpt-Good F D U B D.setpt_aux1 _ p (modules_lt value) g in
      let good2 =
        put_setpt-Good F D U B D.setpt_aux2 s2 p1 (aux2_fits value aux2 (good1.words D.setpt_aux2))
          good1 in
      let good3 = write_setpt-Good F D U B D.setpt_aux1 p2 good2 in
      let first =
        write_setpt-Agrees F D U B D.setpt_aux1 D.setpt_aux1 p2 good2 fit.aux1_lt fit.aux1_lt
          (inl refl) in
      (
        write_setpt-Agrees F D U B D.setpt_aux2 D.setpt_aux1 _ good3 fit.aux2_lt fit.aux1_lt
            (inr first),
        write_setpt-Agrees F D U B D.setpt_aux2 D.setpt_aux2 _ good3 fit.aux2_lt fit.aux2_lt
            (inl refl),
      )

  -- The flag of all modules is their switch.
  all_modules :
      (value : Bool) (p : Impl F D U)
      → change_flag F D U D.setpt_aux1 all_ones value p ≡ switch_modules F D U value p
  unfolding change_flag
  all_modules value p = if_true (D.setpt_aux1 == D.setpt_aux1) _ _ (ground arith)

  setflag-ModulesAgree :
      (value : Bool) (p : Impl F D U)
      → HeadersFit F D
      → Good F D U B p
      → ModulesAgree (handle_device_setflag F D U D.setpt_aux1 all_ones value p)
  unfolding handle_device_setflag ModulesAgree
  setflag-ModulesAgree value p fit g =
      let p1 = switch_modules F D U value p in
      let m = switch_modules-Moves F D U B value p fit g in
      let both = switch_modules-ModulesAgree value p fit g in
      let n =
        Moves-if F D U B (second_of F D U p D.setpt_aux1 == second_of F D U p1 D.setpt_aux1) p1 p1 _
          (Moves-refl F D U B p1 m.good) (announce-Moves F D U B D.setpt_aux1 all_ones p1 m.good) in
      rw (all_modules value p)
        (n.kept D.setpt_aux1 fit.aux1_lt both.0, n.kept D.setpt_aux2 fit.aux2_lt both.1)

  pub handle_device_on-Agrees :
      (on : Bool) (p : Impl F D U)
      → HeadersFit F D
      → Good F D U B p
      → Agrees F D U B (handle_device_on F D U on p) D.setpt_aux1
        × Agrees F D U B (handle_device_on F D U on p) D.setpt_aux2
        × Agrees F D U B (handle_device_on F D U on p) D.setpt_pump_valve_ctrl
  unfolding handle_device_on put_second ModulesAgree
  handle_device_on-Agrees on p fit g =
      let addr = D.setpt_pump_valve_ctrl in
      let s : Setpoint F = record {
        first = (p.setpts addr).first;
        second = pumps_on (second_of F D U p addr);
      } in
      let good = put_setpt-Good F D U B addr s p (pumps_on_lt _ (g.words addr)) g in
      let p1 = write_setpt F D U addr (put_setpt F D U addr s p) in
      let good1 = write_setpt-Good F D U B addr _ good in
      let pump = write_setpt-Agrees F D U B addr addr _ good fit.pump_lt fit.pump_lt (inl refl) in
      let m =
        handle_device_setflag-Moves F D U B D.setpt_aux1 all_ones on p1 fit fit.aux1_lt
          (omega arith) good1 in
      let both = setflag-ModulesAgree on p1 fit good1 in
      (both.0, both.1, m.kept addr fit.pump_lt pump)
