-- ===== src/Device/Bnc565/Query.antt =====
-- httpd/bnc565.cpp: reading the settings back, `fetch` and `peripheral_query_device_data`.
pub mod Asks
pub mod Fetched
pub mod Filled
use bnc.Prelude.{
  ℕ, zero, suc, ◌+◌, ◌%◌, Bool, true, false, not, ◌&&◌, ◌||◌, List, [], ◌∷◌, ◌++◌, Option, none,
  some, ◌==◌, if◌then◌else◌,
}
use bnc.Prelude.Bytes.{Bytes, codes, equal, to_string}
use bnc.Device.Floats.{Floats}
use bnc.Device.Protocols.{Pulse, Protocols}
use bnc.Device.Bnc565.{Exchange, Driver, Sent, xsend_once}

-- `reply[0] == '?'`; behind an empty string stands a byte 0.
unfoldable pub is_question : Bytes → Bool
is_question [] = false
is_question (c ∷ s) = c == b'?'

-- ":PULSE%1%:...?\r\n"
unfoldable pub ask_pulse : ℕ → Bytes → Bytes
ask_pulse ch what = codes ":PULSE" ++ (to_string ch ++ (b':' ∷ (what ++ codes "?\r\n")))

-- The driver and the settings that are being filled.
pub record Filling (D : Type 0) : Type 0 where
  pub driver : Driver D
  pub settings : Protocols D

-- The driver, the pulse that is being filled, and whether no conversion has failed.
pub record Channel (D : Type 0) : Type 0 where
  pub driver : Driver D
  pub pulse : Pulse D
  pub going : Bool

-- `( reply == "NORM" || reply == "HIGH" ) ? dg::positive_polarity : dg::negative_polarity`
unfoldable pub polarity_of : Bytes → Bool
unfolding equal
polarity_of reply = if equal reply (codes "NORM") || equal reply (codes "HIGH") then false else true

module _ (F : Floats) (line : ℕ → Exchange) where
  open F use {Double, lit, of_int, add, mul, read, read_int}

  -- A reply that is no "?" is handed to `use_reply`.
  pub ask : Bytes → (Bytes → Protocols Double → Protocols Double) → Filling Double → Filling Double
  ask cmd use_reply s =
      let r = xsend_once line s.driver cmd in
      record {
        driver = r.driver;
        settings =
            if r.res && not (is_question r.reply) then use_reply r.reply s.settings else s.settings;
      }

  abbrev set_state : Option ℕ → Protocols Double → Protocols Double
  set_state none p = p
  set_state (some v) p = record p { state = v }

  abbrev set_interval : Option Double → Protocols Double → Protocols Double
  set_interval none p = p
  set_interval (some v) p = record p { interval = v }

  pub ask_identity : Filling Double → Filling Double
  unfolding ask is_question
  ask_identity s =
      ask (codes ":INST:FULL?\r\n") (λ reply p. record p { full = reply })
        (ask (codes "*IDN?\r\n") (λ reply p. record p { idn = reply }) s)

  -- A conversion that throws is logged.
  pub ask_state : Filling Double → Filling Double
  unfolding ask is_question
  ask_state = ask (codes ":PULSE0:STATE?\r\n") (λ reply p. set_state (read_int reply) p)

  ask_interval : Filling Double → Filling Double
  unfolding ask is_question
  ask_interval = ask (codes ":PULSE0:PER?\r\n") (λ reply p. set_interval (read reply) p)

  abbrev set_pulse : Option (Pulse Double) → Pulse Double → Pulse Double
  set_pulse none p = p
  set_pulse (some q) p = q

  abbrev is_set : Option (Pulse Double) → Bool
  is_set none = false
  is_set (some q) = true

  -- One query of a channel. Where the conversion throws, the queries that follow are skipped.
  unfoldable pub ask_channel :
      Bytes → (Bytes → Pulse Double → Option (Pulse Double)) → Channel Double → Channel Double
  ask_channel cmd convert c =
      let r = xsend_once line c.driver cmd in
      let q = convert r.reply c.pulse in
      let asked =
        if r.res
        then record { driver = r.driver; pulse = set_pulse q c.pulse; going = is_set q }
        else record c { driver = r.driver } in
      if c.going then asked else c

  abbrev with_double :
      (Double → Pulse Double → Pulse Double) → Bytes → Pulse Double → Option (Pulse Double)
  with_double f reply p = elim (read reply) [ none ↦ none | some v ↦ some (f v p) ]

  abbrev with_int : (ℕ → Pulse Double → Pulse Double) → Bytes → Pulse Double → Option (Pulse Double)
  with_int f reply p = elim (read_int reply) [ none ↦ none | some v ↦ some (f v p) ]

  query_state : ℕ → Channel Double → Channel Double
  unfolding ask_channel ask_pulse
  query_state ch =
      ask_channel (ask_pulse (ch + 1) (codes "STATE")) (with_int λ v q. record q { state = v })

  query_width : ℕ → Channel Double → Channel Double
  unfolding ask_channel ask_pulse
  query_width ch =
      ask_channel (ask_pulse (ch + 1) (codes "WIDTH")) (with_double λ v q. record q { width = v })

  query_delay : ℕ → Channel Double → Channel Double
  unfolding ask_channel ask_pulse
  query_delay ch =
      ask_channel (ask_pulse (ch + 1) (codes "DELAY")) (with_double λ v q. record q { delay = v })

  unfoldable pub query_polarity : ℕ → Channel Double → Channel Double
  unfolding ask_channel ask_pulse polarity_of
  query_polarity ch =
      ask_channel (ask_pulse (ch + 1) (codes "POL"))
        (λ reply q. some (record q { polarity = polarity_of reply }))

  -- The four queries of the channel at index `ch`.
  query_channel : ℕ → Driver Double → Pulse Double → Channel Double
  query_channel ch d p =
      let c : Channel Double = record { driver = d; pulse = p; going = true } in
      query_polarity ch (query_delay ch (query_width ch (query_state ch c)))

  -- The loop over the channels from index `ch` on.
  pub query_channels : ℕ → Driver Double → List (Pulse Double) → Driver Double × List (Pulse Double)
  unfolding query_channel query_state query_width query_delay query_polarity
  query_channels ch d [] = (d, [])
  query_channels ch d (p ∷ ps) =
      let c = query_channel ch d p in
      let (e, qs) = query_channels (suc ch) c.driver ps in (e, c.pulse ∷ qs)

  -- `*d.begin()` is undefined where there is no protocol.
  query_first : Filling Double → List (List (Pulse Double)) → Option (Filling Double)
  unfolding query_channels
  query_first s [] = none
  query_first s (ps ∷ rest) =
      let (e, qs) = query_channels 0 s.driver ps in
      some (record { driver = e; settings = record s.settings { protocols = qs ∷ rest } })

  -- What `fetch` fills in with no generator.
  debug_pulses : ℕ → List (Pulse Double) → List (Pulse Double)
  debug_pulses i [] = []
  debug_pulses i (p ∷ ps) =
      record {
        delay = add (mul (of_int i) (lit 1 6)) (lit 1 7);
        width = mul (mul (of_int (i + 1)) (lit 10 2)) (lit 1 6);
        polarity = i % 2 == 1;
        state = if i % 2 == 1 then 0 else 1;
      }
      ∷ debug_pulses (suc i) ps

  unfoldable pub debug_first : Filling Double → List (List (Pulse Double)) → Option (Filling Double)
  unfolding debug_pulses
  debug_first s [] = none
  debug_first s (ps ∷ rest) = some (record s {
    settings = record s.settings {
      idn = codes "debug::IDN";
      full = codes "debug::inst::full";
      protocols = debug_pulses 0 ps ∷ rest;
    };
  })

  pub fill_open : Filling Double → Option (Filling Double)
  unfolding query_first ask_identity ask_state ask_interval
  fill_open s =
      let t = ask_interval (ask_state (ask_identity s)) in query_first t t.settings.protocols

  -- `protocols_ = d`
  abbrev pub keep_settings : Option (Filling Double) → Option (Filling Double)
  keep_settings none = none
  keep_settings (some s) = some (record s { driver = record s.driver { protocols = s.settings } })

  unfoldable pub fetch : Driver Double → Protocols Double → Option (Filling Double)
  unfolding fill_open debug_first
  fetch d p =
      let s : Filling Double = record { driver = d; settings = p } in
      keep_settings (if d.is_open then fill_open s else debug_first s p.protocols)

  -- The queries but for the interval, into the driver's own settings.
  unfoldable pub peripheral_query_device_data : Driver Double → Option (Filling Double)
  unfolding query_first ask_identity ask_state
  peripheral_query_device_data d =
      let t = ask_state (ask_identity (record { driver = d; settings = d.protocols })) in
      keep_settings (query_first t t.settings.protocols)
