-- ===== src/Arp/Responses.antt =====
-- httpd/arpproxy.cpp: `setpts_json_response`, `flags_json_response`, `actuals_json_response`, and
-- `__actuals`, the table of what is read.
use bnc.Prelude.{ℕ, Bool, true, false, not, List, [], ◌∷◌, ◌++◌, if◌then◌else◌, is_empty}
use bnc.Prelude.Bytes.{Bytes, codes, to_string}
use bnc.Device.Floats.{Floats}
use bnc.Arp.Setpoints.{Headers, Setpoint, Entry, Supply, setpts_map}

unfoldable pub json_item : Bytes → Bytes → Bytes
json_item id value =
    codes "{ \"id\": \"" ++ (id ++ (codes "\", \"value\": \"" ++ (value ++ codes "\" }")))

module _ (F : Floats) (D : Headers F) (setpts : ℕ → Setpoint F) where
  -- The loop of both responses over the map: the items whose `is_voltage` is `wanted`, with ", "
  -- between them.
  unfoldable pub setpt_items : Bool → List (Entry F) → Bytes → Bytes
  unfolding json_item
  setpt_items wanted [] out = out
  setpt_items wanted (e ∷ es) out =
      let item = json_item e.id (e.to_string (setpts e.addr)) in
      let more = if is_empty out then item else out ++ (codes ", " ++ item) in
      let chosen = if wanted then e.is_voltage else not e.is_voltage in
      setpt_items wanted es (if chosen then more else out)

  unfoldable pub setpts_json_response : Bytes
  unfolding setpt_items setpts_map
  setpts_json_response =
      codes "\"setpts\": [" ++ (setpt_items true (setpts_map F D) [] ++ codes "]")

  unfoldable pub flags_json_response : Bytes
  unfolding setpt_items setpts_map
  flags_json_response =
      codes "\"checkbox\": [ " ++ (setpt_items false (setpts_map F D) [] ++ codes "]")

module _ (F : Floats) (D : Headers F) (actuals : ℕ → ℕ) where
  unfoldable pub supply_text : Supply → Bytes
  supply_text s = D.print_2 (D.world_value s (actuals (D.act s)))

  -- "PressureGauge": 10 to the power of ( u - 7.75 ) / 0.75 + 2.
  unfoldable pub pressure_text : Bytes
  pressure_text =
      let u = D.world_value Supply.press_gauge (actuals (D.act Supply.press_gauge)) in
      D.print_e4 (D.pow10 (F.add (F.div (D.sub u (F.lit 775 2)) (F.lit 75 2)) (F.of_int 2)))

  unfoldable pub actual_items : List (Bytes × Bytes)
  unfolding supply_text pressure_text
  actual_items =
      (codes "INJECTION.OUTER.ACT", supply_text Supply.ent_out)
      ∷ (codes "INJECTION.INNER.ACT", supply_text Supply.ent_in)
      ∷ (codes "EJECTION.OUTER.ACT", supply_text Supply.ext_out)
      ∷ (codes "EJECTION.INNER.ACT", supply_text Supply.ext_in)
      ∷ (codes "GATE.OUTER.ACT", supply_text Supply.sel_out)
      ∷ (codes "GATE.INNER.ACT", supply_text Supply.sel_in)
      ∷ (codes "ORBIT.OUTER.ACT", supply_text Supply.turn_out)
      ∷ (codes "ORBIT.INNER.ACT", supply_text Supply.turn_in)
      ∷ (codes "Vmatsuda.ACT", supply_text Supply.turn_m)
      ∷ (codes "Veinzel.ACT", supply_text Supply.einzel)
      ∷ (codes "Vacc.ACT", supply_text Supply.acc)
      ∷ (codes "Vpush.ACT", supply_text Supply.push)
      ∷ (codes "Afilament.ACT", supply_text Supply.filament)
      ∷ (codes "Vion.ACT", supply_text Supply.ion)
      ∷ (codes "Vdetector.ACT", supply_text Supply.det)
      ∷ (codes "PressureGauge", pressure_text)
      ∷ (codes "H20W.ACT", supply_text Supply.heater_20w)
      ∷ (codes "H50W.ACT", supply_text Supply.heater_50w)
      ∷ (codes "H100W.ACT", supply_text Supply.heater_100w)
      ∷ []

  unfoldable pub list_items : List (Bytes × Bytes) → Bytes
  unfolding json_item
  list_items [] = []
  list_items ((id, value) ∷ items) = codes ", " ++ (json_item id value ++ list_items items)

  unfoldable pub actuals_json_response : ℕ → Bytes
  unfolding json_item actual_items list_items
  actuals_json_response tick =
      codes "\"acts\": ["
      ++ (json_item (codes "hvtick") (to_string tick) ++ (list_items actual_items ++ codes "]"))
