-- ===== src/Device/Bnc565/Commands.antt =====
-- httpd/bnc565.cpp: the operations that set the generator up.
pub mod Commit
pub mod Polarity
pub mod Started
pub mod Reset
use bnc.Prelude.{
  ℕ, zero, suc, ◌+◌, Bool, true, false, not, ◌&&◌, List, [], ◌∷◌, ◌++◌, Option, none, some, ◌==◌,
  if◌then◌else◌, ◌%◌, ◌^◌,
}
use bnc.Prelude.Bytes.{Bytes, codes, to_string}
use bnc.Device.Serial.{Opening}
use bnc.Device.Floats.{Floats}
use bnc.Device.Protocols.{Pulse, Protocols}
use bnc.Device.Bnc565.{Exchange, Driver, Sent, xsend_once, xsend_expect}
use bnc.Device.Bnc565.Query.{Filling, peripheral_query_device_data, ask_identity}

-- ":PULSE%1%:... %2%\r\n"
abbrev pub pulse_command : ℕ → Bytes → Bytes → Bytes
pulse_command ch what value =
    codes ":PULSE" ++ (to_string ch ++ (b':' ∷ (what ++ (b' ' ∷ (value ++ codes "\r\n")))))

unfoldable pub state_text : ℕ → Bytes
state_text state = if state == 0 then codes "OFF" else codes "ON"

unfoldable pub polarity_text : Bool → Bytes
polarity_text polarity = if polarity then codes "NORM" else codes "INV"

abbrev pub start_trigger : List Bytes
start_trigger =
    codes ":PULSE5:SYNC CHA\r\n"
    ∷ codes ":PULSE5:WIDTH 0.000001\r\n"
    ∷ codes ":PULSE0:STATE ON\r\n"
    ∷ []

abbrev pub simulated_peak : List Bytes
simulated_peak =
    codes ":PULSE6:SYNC CHD\r\n"
    ∷ codes ":PULSE6:STATE ON\r\n"
    ∷ codes ":PULSE6:POL INV\r\n"
    ∷ codes ":PULSE6:WIDTH 4.0E-9\r\n"
    ∷ codes ":PULSE6:DELAY 1.8E-6\r\n"
    ∷ codes ":SYST:KLOCK OFF\r\n"
    ∷ []

module _ {D : Type 0} (line : ℕ → Exchange) where
  -- `_xsend( ..., reply, "ok", 10 )`, the reply of the last call in hand.
  abbrev pub send_ok : Sent D → Bytes → Sent D
  send_ok s cmd = xsend_expect line s.driver cmd s.reply (codes "ok") 10

  -- `xsend`: `text`, which is cut at the first '\r', is used for nothing.
  unfoldable pub xsend : Driver D → Bytes → Sent D
  xsend d cmd = xsend_once line d cmd

  -- `state`
  unfoldable pub state : Driver D → Bool
  state d = if d.is_open then not (d.protocols.state == 0) else false

-- `on_timer` with the subscribers' handler: a tick that was not cancelled.
unfoldable pub on_timer {ℓ} :
    {D : Type 0} {S : Type ℓ} → (ℕ → S → S) → Bool → Driver D × S → Driver D × S
on_timer handler error (d, s) =
    let n = (d.tick + 1) % 2 ^ 64 in if error then (d, s) else (record d { tick = n }, handler n s)

module _ (F : Floats) where
  open F use {Double, print}

  abbrev pub interval_command : Double → Bytes
  interval_command v = codes ":PULSE0:PER " ++ (print v ++ codes "\r\n")

module _ (F : Floats) (line : ℕ → Exchange) where
  open F use {Double, lit, of_int, mul, print, print_g}

  -- The four commands of a channel, in `commit`.
  unfoldable pub commit_channel : ℕ → Pulse Double → Sent Double → Sent Double
  unfolding state_text polarity_text
  commit_channel ch v s =
      send_ok line
        (send_ok line
          (send_ok line (send_ok line s (pulse_command ch (codes "STATE") (state_text v.state)))
            (pulse_command ch (codes "POL") (polarity_text v.polarity)))
          (pulse_command ch (codes "DELAY") (print_g v.delay)))
        (pulse_command ch (codes "WIDTH") (print_g v.width))

  -- The loop over the channels from `ch` on.
  unfoldable pub commit_channels : ℕ → List (Pulse Double) → Sent Double → Sent Double
  unfolding commit_channel
  commit_channels ch [] s = s
  commit_channels ch (v ∷ vs) s = commit_channels (suc ch) vs (commit_channel ch v s)

  -- `*d.begin()` is undefined where there is no protocol.
  unfoldable pub commit_first :
      Driver Double → Double → List (List (Pulse Double)) → Option (Driver Double)
  unfolding commit_channels
  commit_first d interval [] = none
  commit_first d interval (vs ∷ rest) =
      let s : Sent Double = record { res = true; reply = []; driver = d } in
      some (commit_channels 1 vs (send_ok line s (interval_command F interval))).driver

  unfoldable pub commit : Driver Double → Protocols Double → Option (Driver Double)
  unfolding commit_first
  commit d p = commit_first d p.interval p.protocols

  -- The loop of `reset` over the channels `ch` to 8, `n` of them.
  reset_channels : ℕ → ℕ → Sent Double → Sent Double
  reset_channels zero ch s = s
  reset_channels (suc n) ch s =
      let width = send_ok line s (pulse_command ch (codes "WIDTH") (print (lit 1 6))) in
      let delay =
        send_ok line width (pulse_command ch (codes "DELAY") (print (mul (of_int ch) (lit 1 5)))) in
      let pol = send_ok line delay (codes ":PULSE" ++ (to_string ch ++ codes ":POL NORM\r\n")) in
      reset_channels n (suc ch)
        (send_ok line pol (codes ":PULSE" ++ (to_string ch ++ codes ":STATE ON\r\n")))

  abbrev send_all : Sent Double → List Bytes → Sent Double
  send_all s [] = s
  send_all s (c ∷ cs) = send_all (send_ok line s c) cs

  -- `a && b && c`: the first command that is not acknowledged is the last.
  abbrev send_while_ok : Sent Double → List Bytes → Sent Double
  send_while_ok s [] = s
  send_while_ok s (c ∷ cs) = if s.res then send_while_ok (send_ok line s c) cs else s

  -- What follows the loop: true where the trigger was started.
  reset_rest : Sent Double → Bool × Driver Double
  reset_rest s =
      let t = send_while_ok (record s { res = true }) start_trigger in
      if t.res then (true, (send_all t simulated_peak).driver) else (false, t.driver)

  unfoldable pub reset : Driver Double → Bool × Driver Double
  unfolding reset_rest reset_channels
  reset d =
      let e = record d { xsend_timeout_c = 0; reply_timeout_c = 0 } in
      let first : Sent Double = record { res = true; reply = []; driver = e } in
      let rst = send_ok line first (codes "*RST\r\n") in
      if rst.res then reset_rest (reset_channels 8 1 rst) else (false, rst.driver)

  -- What `initialize` makes of the driver where `protocols_` has a protocol.
  after_query : Option (Filling Double) → Option (Option Bool × Driver Double)
  after_query none = none
  after_query (some s) = some (some true, s.driver)

  -- What follows on the port's `open` where that returns true.
  after_open : Driver Double → Bytes → ℕ → Option (Option Bool × Driver Double)
  unfolding after_query
  after_open d ttyname baud =
      let named = record d { is_open = true; ttyname = ttyname; baud = baud } in
      let asked = ask_identity F line (record { driver = named; settings = named.protocols }) in
      let ready = record asked.driver { protocols = asked.settings } in
      after_query (peripheral_query_device_data F line ready)

  -- `initialize`, where the port's `open` comes to that: what it returns, or `none` where it throws.
  unfoldable pub initialize :
      Driver Double → Bytes → ℕ → Opening → Option (Option Bool × Driver Double)
  unfolding after_open
  initialize d ttyname baud Opening.ready =
      after_open (record d { xsend_timeout_c = 0; reply_timeout_c = 0 }) ttyname baud
  initialize d ttyname baud Opening.refused =
      some (some false, record d { xsend_timeout_c = 0; reply_timeout_c = 0; is_open = false })
  initialize d ttyname baud Opening.no_option =
      if baud == 0
      then after_open (record d { xsend_timeout_c = 0; reply_timeout_c = 0 }) ttyname baud
      else some (none, record d { xsend_timeout_c = 0; reply_timeout_c = 0; is_open = true })

  -- The end of `switch_connect`: the result, the reply and the driver.
  switch_state : Bool → Bytes → Driver Double → Sent Double
  switch_state onoff reply d =
      let cmd =
        codes ":PULSE0:STATE " ++ ((if onoff then codes "ON" else codes "OFF") ++ codes "\r\n") in
      let r = send_ok line (record { res = true; reply = []; driver = d }) cmd in
      if r.res
      then record {
        res = true;
        reply = reply ++ r.reply;
        driver = record r.driver {
          protocols = record r.driver.protocols { state = if onoff then 1 else 0 };
        };
      }
      else record { res = false; reply = reply; driver = r.driver }

  switch_opened :
      Bool → Bytes → Bytes → Option (Option Bool × Driver Double) → Option (Bool × Sent Double)
  unfolding switch_state
  switch_opened onoff reply error none = none
  switch_opened onoff reply error (some (none, d)) =
      some (true, record { res = false; reply = reply; driver = d })
  switch_opened onoff reply error (some (some ok, d)) =
      some (false, switch_state onoff (if ok then reply else error) d)

  -- `switch_connect`: whether it throws, and what it comes to. `error` is the message with the port's
  -- error code and the device's name.
  unfoldable pub switch_connect :
      Driver Double → Bool → Bytes → Opening → Bytes → Option (Bool × Sent Double)
  unfolding switch_opened initialize
  switch_connect d onoff reply o error =
      if d.is_open
      then some (false, switch_state onoff reply d)
      else switch_opened onoff reply error (initialize d d.ttyname d.baud o)
