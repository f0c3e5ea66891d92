-- ===== src/Arp/Status.antt =====
-- httpd/arpproxy.cpp, `make_actual_status`: the line of text about the vacuum, the pumps and the
-- valves, from the words that the device was last read to have.
use Prim.Native.Nat.{bit_and}
use bnc.Prelude.{
  ℕ, zero, suc, ◌+◌, ◌-◌, ◌/◌, ◌%◌, Bool, not, [], ◌∷◌, ◌++◌, ◌==◌, ltb, if◌then◌else◌,
}
use bnc.Prelude.Bytes.{Bytes, codes}
use bnc.Device.Floats.{Floats}
use bnc.Arp.Setpoints.{Headers}

hex_digit : ℕ → ℕ
hex_digit d = if ltb d 10 then b'0' + d else b'a' + (d - 10)

-- The digits of %x, last first on `out`. The fuel is the number of digits that a word may have.
hex_digits : ℕ → ℕ → Bytes → Bytes
unfolding hex_digit
hex_digits zero n out = out
hex_digits (suc fuel) n out =
    let more = hex_digits fuel (n / 16) (hex_digit (n % 16) ∷ out) in
    if ltb n 16 then hex_digit n ∷ out else more

unfoldable pub to_hex : ℕ → Bytes
unfolding hex_digits
to_hex n = hex_digits 8 n []

-- `textcolor`, with its default colours.
unfoldable pub textile : Bool → Bytes → Bytes → Bytes
textile state true_text false_text =
    codes "<font color='"
    ++ ((if state then codes "blue" else codes "red")
        ++ (codes "'>" ++ ((if state then true_text else false_text) ++ codes "</font>")))

abbrev has : ℕ → ℕ → Bool
has word mask = not (bit_and word mask == 0)

module _ (F : Floats) (D : Headers F) where
  -- `actuals` is `actuals_data_`.
  unfoldable pub make_actual_status : (ℕ → ℕ) → Bytes
  unfolding textile to_hex
  make_actual_status actuals =
      let pump = actuals D.act_pump_valve_ctrl in
      let state = actuals D.act_dev_state_monitor in
      let on_off = λ (mask : ℕ). textile (has state mask) (codes "ON") (codes "OFF") in
      let valve = λ (mask : ℕ). textile (not (has state mask)) (codes "CLOSE") (codes "OPEN") in
      let ready = λ (mask : ℕ). textile (has pump mask) (codes "RDY") (codes "!RDY") in
      codes "<b>I.S.:</b> VAC["
      ++ (ready 0x800
          ++ (codes "] TMP["
              ++ (on_off 0x20
                  ++ (codes "] DFP["
                      ++ (on_off 0x80
                          ++ (codes "] ST[0x"
                              ++ (to_hex (bit_and pump 0xf0 / 16)
                                  ++ (codes "] <b>Analyzer:</b> VAC["
                                      ++ (ready 0x400
                                          ++ (codes "] TMP["
                                              ++ (on_off 0x10
                                                  ++ (codes "] DFP["
                                                      ++ (on_off 0x40
                                                          ++ (codes "] ST[0x"
                                                            ++ (to_hex (bit_and pump 0x0f)
                                                            ++ (codes "] <b>ALARM</b>[0x"
                                                            ++ (to_hex (actuals D.act_aux1_alarm)
                                                            ++ (codes ", 0x"
                                                            ++ (to_hex (actuals D.act_aux2_alarm)
                                                            ++ (codes "] DOOR=["
                                                            ++ (valve 0x800
                                                            ++ (codes "] GAUGE["
                                                            ++ (on_off 0x100
                                                            ++ (codes "] VENT["
                                                            ++ (valve 0x08
                                                            ++ (codes "] STD.V["
                                                            ++ (valve 0x04
                                                            ++ (codes "] SAMP.V["
                                                            ++ (valve 0x02
                                                            ++ (codes "] IS.V["
                                                            ++ (valve 0x01
                                                            ++ codes
                                                            "]")))))))))))))))))))))))))))))))
