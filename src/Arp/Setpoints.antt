-- ===== src/Arp/Setpoints.antt =====
-- httpd/arpproxy.cpp: `__idHVSetpts`, the table of what a client can set, and `setpt_handler`. The
-- headers that have the addresses and the conversions between a world value and a device value are
-- not of this repository: they are the record `Headers`.
pub mod Fits
use Prim.Native.Nat.{bit_and}
use bnc.Prelude.{
  ℕ, ◌-◌, ◌^◌, Bool, true, false, not, Option, none, some, List, [], ◌∷◌, ◌++◌, ◌==◌, ltb,
  if◌then◌else◌,
}
use bnc.Prelude.Bytes.{Bytes, codes, equal}
use bnc.Device.Floats.{Floats}

-- The supplies that the headers name, as in `setpt_detVoltage`, `act_detVoltage` and `Vdet`.
pub data Supply : Type 0 where
  det : Supply
  ext_in : Supply
  ext_out : Supply
  ent_in : Supply
  ent_out : Supply
  sel_in : Supply
  sel_out : Supply
  turn_in : Supply
  turn_out : Supply
  turn_m : Supply
  einzel : Supply
  acc : Supply
  push : Supply
  filament : Supply
  ion : Supply
  heater_20w : Supply
  heater_50w : Supply
  heater_100w : Supply
  press_gauge : Supply

-- `print_2` and `print_e4` are boost::format with %.2lf and %.4e; `pow10` is std::pow( 10.0, x ).
pub record Headers (F : Floats) : Type 0 where
  pub setpt : Supply → ℕ
  pub setpt_aux1 : ℕ
  pub setpt_aux2 : ℕ
  pub setpt_pump_valve_ctrl : ℕ
  pub act : Supply → ℕ
  pub act_pump_valve_ctrl : ℕ
  pub act_dev_state_monitor : ℕ
  pub act_aux1_alarm : ℕ
  pub act_aux2_alarm : ℕ
  pub device_value : Supply → F.Double → ℕ
  pub world_value : Supply → ℕ → F.Double
  pub sub : F.Double → F.Double → F.Double
  pub pow10 : F.Double → F.Double
  pub print_2 : F.Double → Bytes
  pub print_e4 : F.Double → Bytes

-- operator< of std::string.
unfoldable pub before : Bytes → Bytes → Bool
before s [] = false
before [] (d ∷ t) = true
before (c ∷ s) (d ∷ t) = if c == d then before s t else ltb c d

module _ (F : Floats) where
  -- `device_value_type`: the user's value and the device's.
  pub record Setpoint : Type 0 where
    pub first : F.Double
    pub second : ℕ

  -- `idHVSetpt`, with its key. A switch has no conversion of its own: it gives 0.
  pub record Entry : Type 0 where
    pub id : Bytes
    pub addr : ℕ
    pub mask : ℕ
    pub is_voltage : Bool
    pub to_string : Setpoint → Bytes
    pub device_value : F.Double → ℕ

  -- std::map in the order of its keys, which are all different.
  unfoldable pub insert : Entry → List Entry → List Entry
  unfolding before
  insert e [] = e ∷ []
  insert e (x ∷ xs) = let later = insert e xs in if before e.id x.id then e ∷ x ∷ xs else x ∷ later

  unfoldable pub to_map : List Entry → List Entry
  unfolding insert
  to_map [] = []
  to_map (e ∷ es) = insert e (to_map es)

  module _ (D : Headers F) where
    unfoldable pub flag_text : ℕ → Setpoint → Bytes
    flag_text mask d = if bit_and d.second mask == 0 then codes "off" else codes "on"

    unfoldable pub switch : Bytes → ℕ → ℕ → Bool → Entry
    unfolding flag_text
    switch id addr mask is_voltage = record {
      id = id;
      addr = addr;
      mask = mask;
      is_voltage = is_voltage;
      to_string = flag_text mask;
      device_value = λ v. 0;
    }

    -- "switch-hv", which is on where all its bits are.
    unfoldable pub switch_hv : Entry
    switch_hv = record {
      id = codes "switch-hv";
      addr = D.setpt_aux1;
      mask = 2 ^ 32 - 1;
      is_voltage = false;
      to_string = λ d. if bit_and d.second 0x1fff == 0x1fff then codes "on" else codes "off";
      device_value = λ v. 0;
    }

    unfoldable pub voltage : Bytes → Supply → Entry
    voltage id supply = record {
      id = id;
      addr = D.setpt supply;
      mask = 0;
      is_voltage = true;
      to_string = λ d. D.print_2 d.first;
      device_value = D.device_value supply;
    }

    -- In the order of the source.
    unfoldable pub id_hv_setpts : List Entry
    unfolding switch switch_hv voltage
    id_hv_setpts =
        switch_hv
        ∷ switch (codes "switch-isovalve") D.setpt_pump_valve_ctrl 0x1000 false
        ∷ switch (codes "switch-stdinlet") D.setpt_pump_valve_ctrl 0x0800 false
        ∷ switch (codes "switch-sampleinlet") D.setpt_pump_valve_ctrl 0x0400 false
        ∷ switch (codes "switch-filsel") D.setpt_aux2 0x0001 false
        ∷ voltage (codes "Vdetector.SET") Supply.det
        ∷ voltage (codes "EJECTION.INNER.SET") Supply.ext_in
        ∷ voltage (codes "EJECTION.OUTER.SET") Supply.ext_out
        ∷ voltage (codes "INJECTION.INNER.SET") Supply.ent_in
        ∷ voltage (codes "INJECTION.OUTER.SET") Supply.ent_out
        ∷ voltage (codes "GATE.OUTER.SET") Supply.sel_out
        ∷ voltage (codes "GATE.INNER.SET") Supply.sel_in
        ∷ voltage (codes "ORBIT.INNER.SET") Supply.turn_in
        ∷ voltage (codes "ORBIT.OUTER.SET") Supply.turn_out
        ∷ voltage (codes "Vmatsuda.SET") Supply.turn_m
        ∷ voltage (codes "Veinzel.SET") Supply.einzel
        ∷ voltage (codes "Vacc.SET") Supply.acc
        ∷ voltage (codes "Vpush.SET") Supply.push
        ∷ voltage (codes "Afilament.SET") Supply.filament
        ∷ voltage (codes "Vion.SET") Supply.ion
        ∷ voltage (codes "H20W.SET") Supply.heater_20w
        ∷ voltage (codes "H50W.SET") Supply.heater_50w
        ∷ voltage (codes "H100W.SET") Supply.heater_100w
        ∷ switch (codes "switch-h20w") D.setpt_aux2 0x0020 false
        ∷ switch (codes "switch-h50w") D.setpt_aux1 0x2000 true
        ∷ switch (codes "switch-h100w") D.setpt_aux1 0x4000 true
        ∷ []

    unfoldable pub setpts_map : List Entry
    unfolding id_hv_setpts to_map
    setpts_map = to_map id_hv_setpts

  -- `setpt_handler::find`, of an address and of a name; `none` is `end()`.
  unfoldable pub find_addr : ℕ → List Entry → Option Entry
  find_addr addr [] = none
  find_addr addr (e ∷ es) = let rest = find_addr addr es in if e.addr == addr then some e else rest

  unfoldable pub find_id : Bytes → List Entry → Option Entry
  unfolding equal
  find_id id [] = none
  find_id id (e ∷ es) = let rest = find_id id es in if equal e.id id then some e else rest
