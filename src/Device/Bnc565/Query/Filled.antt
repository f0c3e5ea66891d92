-- ===== src/Device/Bnc565/Query/Filled.antt =====
-- httpd/bnc565.cpp, `peripheral_query_device_data`: it is defined where there is a protocol.
use bnc.Prelude.{ℕ, List, ◌∷◌, some, ◌≡◌, refl, ◌∙◌, ap}
use bnc.Device.Floats.{Floats}
use bnc.Device.Protocols.{Pulse}
use bnc.Device.Bnc565.{Exchange, Driver}
use bnc.Device.Bnc565.Query.{
  Filling, ask_identity, ask_state, query_first, query_channels, keep_settings,
  peripheral_query_device_data,
}
use bnc.Device.Bnc565.Query.Fetched.{ask_identity_protocols, ask_state_protocols}

module _ (F : Floats) (line : ℕ → Exchange) where
  open F use {Double}

  -- The driver has a protocol.
  pub record HasProtocol (d : Driver Double) : Type 0 where
    pub pulses : List (Pulse Double)
    pub rest : List (List (Pulse Double))
    pub same : d.protocols.protocols ≡ pulses ∷ rest

  filled_first :
      (t : Filling Double) (ps : List (Pulse Double)) (rest : List (List (Pulse Double)))
      → (s : Filling Double) × (keep_settings F line (query_first F line t (ps ∷ rest)) ≡ some s)
        × HasProtocol s.driver
  unfolding query_first
  filled_first t ps rest =
      let (e, qs) = query_channels F line 0 t.driver ps in
      (_, refl, record { pulses = qs; rest = rest; same = refl })

  pub peripheral_query_device_data-some :
      (d : Driver Double)
      → HasProtocol d
      → (s : Filling Double) × (peripheral_query_device_data F line d ≡ some s)
        × HasProtocol s.driver
  unfolding peripheral_query_device_data
  peripheral_query_device_data-some d h =
      let start : Filling Double = record { driver = d; settings = d.protocols } in
      let t = ask_state F line (ask_identity F line start) in
      let same =
        ask_state_protocols F line (ask_identity F line start)
        ∙ ask_identity_protocols F line start
        ∙ h.same in
      let (s, e, k) = filled_first t h.pulses h.rest in
      (
        s,
        ap (λ (x : List (List (Pulse Double))). keep_settings F line (query_first F line t x)) same
            ∙ e,
        k,
      )
