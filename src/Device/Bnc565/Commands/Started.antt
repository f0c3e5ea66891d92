-- ===== src/Device/Bnc565/Commands/Started.antt =====
-- httpd/bnc565.cpp, `initialize`: it is defined where there is a protocol.
use bnc.Prelude.{
  Option, none, Bool-cases, inl, inr, if_true, if_false, ◌==◌, ℕ, Bool, true, false, some, ◌≡◌,
  refl, ◌∙◌, ap,
}
use bnc.Prelude.Bytes.{Bytes}
use bnc.Device.Serial.{Opening}
use bnc.Device.Floats.{Floats}
use bnc.Device.Bnc565.{Exchange, Driver}
use bnc.Device.Bnc565.Query.{Filling, ask_identity}
use bnc.Device.Bnc565.Query.Fetched.{ask_identity_protocols}
use bnc.Device.Bnc565.Query.Filled.{HasProtocol, peripheral_query_device_data-some}
use bnc.Device.Bnc565.Commands.{initialize, after_open, after_query}

module _ (F : Floats) (line : ℕ → Exchange) where
  open F use {Double}

  after_open-some :
      (d : Driver Double) (tty : Bytes) (baud : ℕ)
      → HasProtocol F line d
      → (r : Option Bool) × (e : Driver Double) × (after_open F line d tty baud ≡ some (r, e))
        × HasProtocol F line e
  unfolding after_open
  after_open-some d tty baud h =
      let named = record d { is_open = true; ttyname = tty; baud = baud } in
      let start : Filling Double = record { driver = named; settings = named.protocols } in
      let asked = ask_identity F line start in
      let ready = record asked.driver { protocols = asked.settings } in
      let has : HasProtocol F line ready = record {
        pulses = h.pulses;
        rest = h.rest;
        same = ask_identity_protocols F line start ∙ h.same;
      } in
      let (s, e, k) = peripheral_query_device_data-some F line ready has in
      (some true, s.driver, ap (after_query F line) e, k)

  pub initialize-some :
      (d : Driver Double) (tty : Bytes) (baud : ℕ) (o : Opening)
      → HasProtocol F line d
      → (r : Option Bool) × (e : Driver Double) × (initialize F line d tty baud o ≡ some (r, e))
        × HasProtocol F line e
  unfolding initialize
  initialize-some d tty baud Opening.refused h =
      (some false, _, refl, record { pulses = h.pulses; rest = h.rest; same = h.same })
  initialize-some d tty baud Opening.ready h =
      after_open-some (record d { xsend_timeout_c = 0; reply_timeout_c = 0 }) tty baud
        (record { pulses = h.pulses; rest = h.rest; same = h.same })
  initialize-some d tty baud Opening.no_option h =
      let fresh = record d { xsend_timeout_c = 0; reply_timeout_c = 0 } in
      elim (Bool-cases (baud == 0)) [
        | inl z ↦
            let (r, e, eq, k) =
              after_open-some fresh tty baud
                (record { pulses = h.pulses; rest = h.rest; same = h.same }) in
            (r, e, if_true _ _ _ z ∙ eq, k)
        | inr z ↦ (
          none,
          record fresh { is_open = true },
          if_false _ _ _ z,
          record { pulses = h.pulses; rest = h.rest; same = h.same },
        )
      ]
