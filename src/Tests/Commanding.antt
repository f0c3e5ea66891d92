-- ===== src/Tests/Commanding.antt =====
-- The generator's driver, httpd/bnc565.cpp, with whole numbers for the settings.
use bnc.Prelude.{
  ℕ, ◌+◌, ◌*◌, true, false, [], ◌∷◌, ◌≡◌, refl, some, none, is_empty, if◌then◌else◌, ◌||◌,
  replicate, ◌/◌,
}
use bnc.Prelude.Bytes.{codes, equal, to_string, value_of}
use bnc.Device.Floats.{Floats}
use bnc.Device.Protocols.{zero_pulse, new_protocol, new_protocols}
use bnc.Device.Receive.{handle_receive}
use bnc.Device.Bnc565.{Exchange, Driver, xsend_once, xsend_expect}
use bnc.Device.Bnc565.Retry.{Tries, xsend_expect-Tries}
use bnc.Device.Bnc565.Stale.{xsend_once-que}
use bnc.Device.Bnc565.Query.{Channel, fetch, query_polarity, ask_pulse}
use bnc.Device.Bnc565.Query.Fetched.{Fetched, fetch-Fetched}
use bnc.Device.Bnc565.Commands.Reset.{reset_commands, reset-Carries}
use bnc.Device.Bnc565.Commands.Commit.{Carries}
use bnc.Device.Bnc565.Commands.{reset, commit, polarity_text}
use bnc.Device.Bnc565.Commands.Commit.{Commits, commit-Commits}
use bnc.Device.Bnc565.Commands.Polarity.{polarity_text-query_polarity}

abbrev pub whole : Floats
whole = record {
  Double = ℕ;
  lit = λ m e. m;
  of_int = λ n. n;
  add = λ a b. a + b;
  mul = λ a b. a * b;
  div = λ a b. a / b;
  print = to_string;
  print_g = to_string;
  read = λ s. if is_empty s then none else some (value_of 0 s);
  read_int = λ s. if is_empty s then none else some (value_of 0 s);
}

-- A generator that answers every command with "NORM".
abbrev pub normal : ℕ → Exchange
normal n = record { early = []; written = true; late = codes "NORM\r\n"; timed_out = false }

abbrev pub driver : Driver ℕ
driver = record {
  is_open = true;
  ttyname = codes "/dev/ttyUSB0";
  baud = 115200;
  receiver = record { receiving_data = []; que = [] };
  xsend_timeout_c = 0;
  reply_timeout_c = 0;
  protocols = new_protocols whole;
  tick = 0;
  sent = [];
  now = 0;
}

xsend_expect-Tries_example :
    Tries 10 driver
      (codes "*RST\r\n")
      (codes "ok")
      (xsend_expect normal driver (codes "*RST\r\n") [] (codes "ok") 10)
xsend_expect-Tries_example =
    xsend_expect-Tries normal 10 driver (codes "*RST\r\n") [] (codes "ok") refl refl

-- The generator never says "ok", so that the command is sent ten times.
given_up :
    (xsend_expect normal driver (codes "*RST\r\n") [] (codes "ok") 10).driver.sent
    ≡ replicate 10 (codes "*RST\r\n")
unfolding xsend_expect xsend_once handle_receive equal
given_up = refl

commit-Commits_example :
    Commits whole driver 1 (new_protocol whole) (commit whole normal driver (new_protocols whole))
commit-Commits_example =
    commit-Commits whole normal driver (new_protocols whole) (new_protocol whole) [] refl refl

fetch-Fetched_example :
    Fetched whole normal driver
      (new_protocol whole)
      []
      (fetch whole normal driver (new_protocols whole))
fetch-Fetched_example =
    fetch-Fetched whole normal driver (new_protocols whole) (new_protocol whole) [] refl refl

abbrev late_driver : Driver ℕ
late_driver = record driver { receiver = record { receiving_data = []; que = codes "OFF" ∷ [] } }

xsend_once-que_example :
    let r = xsend_once normal late_driver (codes "*IDN?\r\n") in
    (r.res ≡ true) × (r.reply ≡ codes "OFF") × (r.driver.receiver.que ≡ [])
xsend_once-que_example =
    xsend_once-que normal late_driver (codes "*IDN?\r\n") (codes "OFF") [] refl refl refl refl refl

abbrev channel : Channel ℕ
channel = record { driver = driver; pulse = zero_pulse whole; going = true }

replied : (xsend_once normal driver (ask_pulse (0 + 1) (codes "POL"))).res ≡ true
unfolding xsend_once handle_receive ask_pulse
replied = refl

polarity_text-query_polarity_example :
    let reply = (xsend_once normal driver (ask_pulse (0 + 1) (codes "POL"))).reply in
    polarity_text (query_polarity whole normal 0 channel).pulse.polarity ≡ (
      if equal reply (codes "NORM") || equal reply (codes "HIGH")
      then codes "INV"
      else codes "NORM")
polarity_text-query_polarity_example =
    polarity_text-query_polarity whole normal 0 channel refl replied

-- A generator that acknowledges everything.
abbrev agreeing : ℕ → Exchange
agreeing n = record { early = []; written = true; late = codes "ok\r\n"; timed_out = false }

acknowledged : (reset whole agreeing driver).0 ≡ true
unfolding reset xsend_expect xsend_once handle_receive equal
acknowledged = refl

reset-Carries_example : Carries (reset_commands whole) driver (reset whole agreeing driver).1
reset-Carries_example = reset-Carries whole agreeing driver refl acknowledged
