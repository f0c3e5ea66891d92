-- ===== src/Device/Bnc565/Commands/Polarity.antt =====
-- The polarity that is read back, in `fetch` of httpd/bnc565.cpp, and the one that `commit` sends.
use bnc.Prelude.{ℕ, ◌+◌, true, if◌then◌else◌, ◌≡◌, ◌||◌, arith}
use bnc.Prelude.Bytes.{codes, equal}
use bnc.Device.Floats.{Floats}
use bnc.Device.Bnc565.{Exchange, xsend_once}
use bnc.Device.Bnc565.Query.{Channel, query_polarity, ask_pulse, polarity_of}
use bnc.Device.Bnc565.Commands.{polarity_text}

module _ (F : Floats) (line : ℕ → Exchange) where
  open F use {Double}

  -- If no conversion has failed on the channel and the query of its polarity is replied to, what
  -- `commit` sends for the polarity that `fetch` stores is INV where the reply was NORM or HIGH, and
  -- NORM where it was anything else: the generator's own polarity is inverted.
  pub polarity_text-query_polarity :
      (ch : ℕ) (c : Channel Double)
      → c.going ≡ true
      → (xsend_once line c.driver (ask_pulse (ch + 1) (codes "POL"))).res ≡ true
      → let reply = (xsend_once line c.driver (ask_pulse (ch + 1) (codes "POL"))).reply in
        polarity_text (query_polarity F line ch c).pulse.polarity ≡ (
          if equal reply (codes "NORM") || equal reply (codes "HIGH")
          then codes "INV"
          else codes "NORM")
  unfolding query_polarity polarity_of polarity_text
  polarity_text-query_polarity ch c g r = ground arith
