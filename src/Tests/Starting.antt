-- ===== src/Tests/Starting.antt =====
-- Starts of the program, httpd/main.cpp.
use bnc.Prelude.{ℕ, true, false, ◌≡◌, none, some, Option, refl}
use bnc.Prelude.Bytes.{codes}
use bnc.Device.Serial.{Opening}
use bnc.Program.{Surroundings, Endpoint, Given, PidFile, Outcome, run_main}
use bnc.Device.Bnc565.Service.{Found, new_driver}
use bnc.Tests.Commanding.{whole, normal}

-- bnc565 --port 80
abbrev given : Given
given = record {
  help = false;
  version = false;
  debug = false;
  query = false;
  reset = false;
  tty = none;
  port = some (codes "80");
  recv = none;
  doc_root = none;
  baud = none;
  verbose = none;
}

-- What the constructor of the driver finds in the members that it leaves as they are.
abbrev found : Found
found = record { baud = 7; xsend_timeout_c = 8; reply_timeout_c = 9 }

abbrev surroundings : Surroundings
surroundings = record { tty = Opening.ready; pid = PidFile.held; binds = true }

-- The rate is refused by the device: no server is run.
abbrev odd_rate : Surroundings
odd_rate = record surroundings { tty = Opening.no_option }

abbrev has_server : Option (Outcome ℕ) → Option Endpoint
has_server none = none
has_server (some o) = o.server

no_server :
    has_server
      (run_main whole normal (codes "/var/www") odd_rate (some given) (new_driver whole found))
    ≡ none
unfolding run_main
no_server = refl

-- With a tty that cannot be opened it is run nevertheless.
abbrev no_tty : Surroundings
no_tty = record surroundings { tty = Opening.refused }

server :
    has_server
      (run_main whole normal (codes "/var/www") no_tty (some given) (new_driver whole found))
    ≡ some (record { recv = codes "0.0.0.0"; port = codes "80"; doc_root = codes "/var/www" })
unfolding run_main
server = refl
