-- ===== src/Device/Protocols.antt =====
-- httpd/dgprotocol.hpp and httpd/dgprotocols.hpp: the settings of the generator. Double is `D`.
use bnc.Prelude.{ℕ, Bool, false, List, [], ◌∷◌, replicate, take, ◌++◌, ◌-◌, length}
use bnc.Prelude.Bytes.{Bytes}
use bnc.Device.Floats.{Floats}

-- `delay_pulse_type`. The polarity is true for `negative_polarity`.
pub record Pulse (D : Type 0) : Type 0 where
  pub delay : D
  pub width : D
  pub polarity : Bool
  pub state : ℕ

abbrev pub delay_pulse_count : ℕ
delay_pulse_count = 8

-- `protocols`, each with its array of pulses.
pub record Protocols (D : Type 0) : Type 0 where
  pub idn : Bytes
  pub full : Bytes
  pub interval : D
  pub state : ℕ
  pub protocols : List (List (Pulse D))

module _ (F : Floats) where
  open F use {Double, lit}

  -- A std::tuple is made of zeros.
  abbrev pub zero_pulse : Pulse Double
  zero_pulse = record { delay = lit 0 0; width = lit 0 0; polarity = false; state = 0 }

  -- The constructor `protocol()`.
  abbrev pub new_protocol : List (Pulse Double)
  new_protocol = replicate delay_pulse_count zero_pulse

  -- The constructor `protocols()`.
  abbrev pub new_protocols : Protocols Double
  new_protocols = record {
    idn = [];
    full = [];
    interval = lit 1 3;
    state = 0;
    protocols = new_protocol ∷ [];
  }

  -- `resize`
  unfoldable pub resize : Protocols Double → ℕ → Protocols Double
  resize d sz = record d {
    protocols = take sz d.protocols ++ replicate (sz - length d.protocols) new_protocol;
  }

  -- The copy constructor, which leaves the texts empty and the state as it is found.
  unfoldable pub copied : ℕ → Protocols Double → Protocols Double
  copied found t = record {
    idn = [];
    full = [];
    interval = t.interval;
    state = found;
    protocols = t.protocols;
  }
