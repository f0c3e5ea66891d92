-- ===== src/Device/Bnc565/Query/Fetched.antt =====
-- What `fetch` does to the generator and to the settings.
use bnc.Prelude.{
  ℕ, ◌+◌, true, List, ◌∷◌, Option, none, some, ◌≡◌, refl, arith, length, ◌∙◌, ◌*◌, ap, if_true,
}
use bnc.Prelude.Bytes.{Bytes, codes}
use bnc.Device.Floats.{Floats}
use bnc.Device.Protocols.{Pulse, Protocols}
use bnc.Device.Bnc565.{Exchange, Driver, xsend_once}
use bnc.Device.Bnc565.Query.{
  fetch, Filling, ask, query_channels, set_state, set_interval, ask_identity, ask_state,
  ask_interval, keep_settings, fill_open, query_first,
}
use bnc.Device.Bnc565.Query.Asks.{Asks, Asks-trans, ask-Asks, query_channels-Asks}

module _ (F : Floats) (line : ℕ → Exchange) where
  open F use {Double}

  -- What `fetch` gives for settings whose first protocol has the pulses `ps`.
  pub record Fetched (d : Driver Double) (ps : List (Pulse Double))
      (rest : List (List (Pulse Double))) (r : Option (Filling Double)) : Type 0 where
    pub filled : Filling Double
    pub pulses : List (Pulse Double)
    pub returned : r ≡ some filled
    pub asked : Asks (4 + 4 * length ps) d filled.driver
    pub kept : filled.driver.protocols ≡ filled.settings
    pub first : filled.settings.protocols ≡ pulses ∷ rest
    pub same_length : length pulses ≡ length ps

  ask_protocols :
      (cmd : Bytes) (f : Bytes → Protocols Double → Protocols Double) (s : Filling Double)
      → ((reply : Bytes) (p : Protocols Double) → (f reply p).protocols ≡ p.protocols)
      → (ask F line cmd f s).settings.protocols ≡ s.settings.protocols
  unfolding ask
  ask_protocols cmd f s h = ground (arith, h (xsend_once line s.driver cmd).reply s.settings)

  set_state_protocols :
      (o : Option ℕ) (p : Protocols Double) → (set_state F line o p).protocols ≡ p.protocols
  set_state_protocols none p = refl
  set_state_protocols (some v) p = refl

  set_interval_protocols :
      (o : Option Double) (p : Protocols Double) → (set_interval F line o p).protocols ≡ p.protocols
  set_interval_protocols none p = refl
  set_interval_protocols (some v) p = refl

  pub ask_identity_protocols :
      (s : Filling Double) → (ask_identity F line s).settings.protocols ≡ s.settings.protocols
  unfolding ask_identity
  ask_identity_protocols s =
      let idn = λ (reply : Bytes) (p : Protocols Double). record p { idn = reply } in
      let full = λ (reply : Bytes) (p : Protocols Double). record p { full = reply } in
      let t = ask F line (codes "*IDN?\r\n") idn s in
      ask_protocols (codes ":INST:FULL?\r\n") full t (λ _ _. refl)
      ∙ ask_protocols (codes "*IDN?\r\n") idn s (λ _ _. refl)

  pub ask_state_protocols :
      (s : Filling Double) → (ask_state F line s).settings.protocols ≡ s.settings.protocols
  unfolding ask_state
  ask_state_protocols s =
      ask_protocols (codes ":PULSE0:STATE?\r\n") (λ reply p. set_state F line (F.read_int reply) p)
        s (λ reply p. set_state_protocols (F.read_int reply) p)

  -- The queries before those of the channels, which leave the pulses alone.
  ask_identity-Asks :
      (s : Filling Double)
      → s.driver.is_open ≡ true
      → Asks 2 s.driver (ask_identity F line s).driver
        × ((ask_identity F line s).settings.protocols ≡ s.settings.protocols)
  unfolding ask_identity
  ask_identity-Asks s o =
      let idn = λ (reply : Bytes) (p : Protocols Double). record p { idn = reply } in
      let full = λ (reply : Bytes) (p : Protocols Double). record p { full = reply } in
      let t = ask F line (codes "*IDN?\r\n") idn s in
      let a = ask-Asks F line (codes "*IDN?\r\n") idn s (codes "*IDN", refl) o in
      let b =
        ask-Asks F line (codes ":INST:FULL?\r\n") full t (codes ":INST:FULL", refl) a.still_open in
      (Asks-trans 1 1 a b, ask_identity_protocols s)

  ask_state-Asks :
      (s : Filling Double)
      → s.driver.is_open ≡ true
      → Asks 1 s.driver (ask_state F line s).driver
        × ((ask_state F line s).settings.protocols ≡ s.settings.protocols)
  unfolding ask_state
  ask_state-Asks s o = (
    ask-Asks F line (codes ":PULSE0:STATE?\r\n") (λ reply p. set_state F line (F.read_int reply) p)
        s (codes ":PULSE0:STATE", refl) o,
    ask_state_protocols s,
  )

  ask_interval-Asks :
      (s : Filling Double)
      → s.driver.is_open ≡ true
      → Asks 1 s.driver (ask_interval F line s).driver
        × ((ask_interval F line s).settings.protocols ≡ s.settings.protocols)
  unfolding ask_interval
  ask_interval-Asks s o = (
    ask-Asks F line (codes ":PULSE0:PER?\r\n") (λ reply p. set_interval F line (F.read reply) p) s
        (codes ":PULSE0:PER", refl) o,
    ask_protocols (codes ":PULSE0:PER?\r\n") (λ reply p. set_interval F line (F.read reply) p) s
        (λ reply p. set_interval_protocols (F.read reply) p),
  )

  module _ (d : Driver Double) (p : Protocols Double) (ps : List (Pulse Double))
      (rest : List (List (Pulse Double))) where
    fetch-open :
        d.is_open ≡ true
        → fetch F line d p
          ≡ keep_settings F line (fill_open F line (record { driver = d; settings = p }))
    unfolding fetch
    fetch-open o = ap (keep_settings F line) (if_true _ _ _ o)

    -- With the generator connected, `fetch` into settings that have a protocol gives it queries
    -- only, four and four more for each pulse at most; it returns, keeps the number of protocols and
    -- pulses, and the driver's own settings are then what it returned.
    pub fetch-Fetched :
        d.is_open ≡ true → p.protocols ≡ ps ∷ rest → Fetched d ps rest (fetch F line d p)
    unfolding fill_open
    fetch-Fetched o e =
        let s : Filling Double = record { driver = d; settings = p } in
        let (a, x) = ask_identity-Asks s o in
        let (b, y) = ask_state-Asks (ask_identity F line s) a.still_open in
        let (c, z) = ask_interval-Asks (ask_state F line (ask_identity F line s)) b.still_open in
        let t = ask_interval F line (ask_state F line (ask_identity F line s)) in
        let (q, n) = query_channels-Asks F line ps 0 t.driver c.still_open in
        let r = query_channels F line 0 t.driver ps in
        let all = Asks-trans 4 (4 * length ps) (Asks-trans 3 1 (Asks-trans 2 1 a b) c) q in
        let whole = record t.settings { protocols = r.1 ∷ rest } in
        record {
          filled = record { driver = record r.0 { protocols = whole }; settings = whole };
          pulses = r.1;
          returned =
              fetch-open o
              ∙ ap (λ l. keep_settings F line (query_first F line t l)) (z ∙ y ∙ x ∙ e);
          asked = record {
            commands = all.commands;
            sends = all.sends;
            queries = all.queries;
            at_most = all.at_most;
            still_open = all.still_open;
          };
          kept = refl;
          first = refl;
          same_length = n;
        }
