-- ===== src/Device/Bnc565/Query/Asks.antt =====
-- The commands that `fetch` of httpd/bnc565.cpp gives the generator.
use bnc.Prelude.{
  ℕ, suc, ◌+◌, ◌≤◌, true, false, List, [], ◌∷◌, ◌++◌, Option, some, ◌≡◌, refl, arith, length, All,
  All-append, is_empty, append-nil, ◌∙◌, append_assoc, length-append, ◌*◌, ap,
}
use bnc.Prelude.Bytes.{Bytes, codes}
use bnc.Device.Floats.{Floats}
use bnc.Device.Protocols.{Pulse, Protocols}
use bnc.Device.Bnc565.{Exchange, Driver, Sent, xsend_once}
use bnc.Device.Bnc565.Retry.{Once, xsend_once-Once}
use bnc.Device.Bnc565.Query.{
  Filling, Channel, ask, ask_pulse, ask_channel, to_string, query_channel, query_channels,
  query_state, query_width, query_delay, with_int, with_double, query_polarity, polarity_of,
}

-- A command that asks: it ends in "?\r\n".
abbrev pub IsQuery : Bytes → Type 0
IsQuery cmd = (p : Bytes) × (cmd ≡ p ++ codes "?\r\n")

-- From `d` to `e` at most `n` commands were given to the open port, all of them queries.
pub record Asks {D : Type 0} (n : ℕ) (d e : Driver D) : Type 0 where
  pub commands : List Bytes
  pub sends : e.sent ≡ d.sent ++ commands
  pub queries : All IsQuery commands
  pub at_most : length commands ≤ n
  pub still_open : e.is_open ≡ true

module _ {D : Type 0} where
  Asks-none : (n : ℕ) (d : Driver D) → d.is_open ≡ true → Asks n d d
  Asks-none n d o = record {
    commands = [];
    sends = rw append-nil;
    queries = tt;
    at_most = omega arith;
    still_open = o;
  }

  pub Asks-trans : (m n : ℕ) {d e f : Driver D} → Asks m d e → Asks n e f → Asks (m + n) d f
  Asks-trans m n a b = record {
    commands = a.commands ++ b.commands;
    sends = b.sends ∙ rw (a.sends, append_assoc);
    queries = All-append _ a.commands b.commands a.queries b.queries;
    at_most = omega (arith, length-append a.commands b.commands, a.at_most, b.at_most);
    still_open = b.still_open;
  }

  Once-Asks :
      (d : Driver D) (p cmd : Bytes) (r : Sent D)
      → cmd ≡ p ++ codes "?\r\n"
      → Once d cmd r
      → Asks 1 d r.driver
  Once-Asks d p cmd r q o = record {
    commands = cmd ∷ [];
    sends = o.sent_once;
    queries = ((p, q), tt);
    at_most = omega arith;
    still_open = o.still_open;
  }

is_empty_query : (p : Bytes) → is_empty (p ++ codes "?\r\n") ≡ false
is_empty_query [] = refl
is_empty_query (c ∷ p) = refl

ask_pulse-IsQuery : (ch : ℕ) (what : Bytes) → IsQuery (ask_pulse ch what)
unfolding ask_pulse
ask_pulse-IsQuery ch what = (codes ":PULSE" ++ (to_string ch ++ (b':' ∷ what)), simp append_assoc)

module _ {D : Type 0} (line : ℕ → Exchange) where
  xsend_once-Asks :
      (d : Driver D) (p cmd : Bytes)
      → cmd ≡ p ++ codes "?\r\n"
      → d.is_open ≡ true
      → Asks 1 d (xsend_once line d cmd).driver
  xsend_once-Asks d p cmd q o =
      Once-Asks d p cmd _ q (xsend_once-Once line d cmd o (rw q (is_empty_query p)))

module _ (F : Floats) (line : ℕ → Exchange) where
  open F use {Double}

  pub ask-Asks :
      (cmd : Bytes) (f : Bytes → Protocols Double → Protocols Double) (s : Filling Double)
      → IsQuery cmd
      → s.driver.is_open ≡ true
      → Asks 1 s.driver (ask F line cmd f s).driver
  unfolding ask
  ask-Asks cmd f s (p, q) o = xsend_once-Asks line s.driver p cmd q o

  ask_channel-Asks :
      (cmd : Bytes) (f : Bytes → Pulse Double → Option (Pulse Double)) (c : Channel Double)
      → IsQuery cmd
      → c.driver.is_open ≡ true
      → Asks 1 c.driver (ask_channel F line cmd f c).driver
  unfolding ask_channel
  ask_channel-Asks cmd f c (p, q) o =
      ground (arith, xsend_once-Asks line c.driver p cmd q o, Asks-none 1 c.driver o)

  query_state-Asks :
      (ch : ℕ) (c : Channel Double)
      → c.driver.is_open ≡ true
      → Asks 1 c.driver (query_state F line ch c).driver
  unfolding query_state
  query_state-Asks ch c =
      ask_channel-Asks (ask_pulse (ch + 1) (codes "STATE"))
        (with_int F line λ v q. record q { state = v }) c
        (ask_pulse-IsQuery (ch + 1) (codes "STATE"))

  query_width-Asks :
      (ch : ℕ) (c : Channel Double)
      → c.driver.is_open ≡ true
      → Asks 1 c.driver (query_width F line ch c).driver
  unfolding query_width
  query_width-Asks ch c =
      ask_channel-Asks (ask_pulse (ch + 1) (codes "WIDTH"))
        (with_double F line λ v q. record q { width = v }) c
        (ask_pulse-IsQuery (ch + 1) (codes "WIDTH"))

  query_delay-Asks :
      (ch : ℕ) (c : Channel Double)
      → c.driver.is_open ≡ true
      → Asks 1 c.driver (query_delay F line ch c).driver
  unfolding query_delay
  query_delay-Asks ch c =
      ask_channel-Asks (ask_pulse (ch + 1) (codes "DELAY"))
        (with_double F line λ v q. record q { delay = v }) c
        (ask_pulse-IsQuery (ch + 1) (codes "DELAY"))

  query_polarity-Asks :
      (ch : ℕ) (c : Channel Double)
      → c.driver.is_open ≡ true
      → Asks 1 c.driver (query_polarity F line ch c).driver
  unfolding query_polarity
  query_polarity-Asks ch c =
      ask_channel-Asks (ask_pulse (ch + 1) (codes "POL"))
        (λ reply q. some (record q { polarity = polarity_of reply })) c
        (ask_pulse-IsQuery (ch + 1) (codes "POL"))

  query_channel-Asks :
      (ch : ℕ) (d : Driver Double) (p : Pulse Double)
      → d.is_open ≡ true
      → Asks 4 d (query_channel F line ch d p).driver
  unfolding query_channel
  query_channel-Asks ch d p o =
      let c : Channel Double = record { driver = d; pulse = p; going = true } in
      let a = query_state-Asks ch c o in
      let b = query_width-Asks ch _ a.still_open in
      let e = query_delay-Asks ch _ b.still_open in
      let f = query_polarity-Asks ch _ e.still_open in
      Asks-trans 3 1 (Asks-trans 2 1 (Asks-trans 1 1 a b) e) f

  pub query_channels-Asks :
      (ps : List (Pulse Double)) (ch : ℕ) (d : Driver Double)
      → d.is_open ≡ true
      → Asks (4 * length ps) d (query_channels F line ch d ps).0
        × (length (query_channels F line ch d ps).1 ≡ length ps)
  unfolding query_channels
  query_channels-Asks [] ch d o = (Asks-none 0 d o, refl)
  query_channels-Asks (p ∷ ps) ch d o =
      let a = query_channel-Asks ch d p o in
      let (b, n) =
        query_channels-Asks ps (suc ch) (query_channel F line ch d p).driver a.still_open in
      let t = Asks-trans 4 (4 * length ps) a b in
      (
        record {
          commands = t.commands;
          sends = t.sends;
          queries = t.queries;
          at_most = omega (arith, t.at_most);
          still_open = t.still_open;
        },
        ap suc n,
      )
