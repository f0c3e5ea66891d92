-- ===== src/Program.antt =====
-- httpd/main.cpp: what the options make of a start of the program. DOC_ROOT, which the build sets, is
-- a parameter. What the operating system does is given: what comes of opening the tty and the file with
-- the process id, and whether the server's constructor finds and binds its address. What the server
-- throws while it runs is left out.
pub mod Served
pub mod Log
use bnc.Prelude.{ℕ, Bool, true, false, not, ◌&&◌, ◌||◌, Option, none, some, if◌then◌else◌}
use bnc.Prelude.Bytes.{Bytes, codes}
use bnc.Device.Serial.{Opening}
use bnc.Device.Floats.{Floats}
use bnc.Device.Bnc565.{Exchange, Driver}
use bnc.Device.Bnc565.Query.{Filling, peripheral_query_device_data}
use bnc.Device.Bnc565.Commands.{initialize, reset}

-- The variables map of boost: the options that were given. Numbers are int, as bit patterns.
pub record Given : Type 0 where
  pub help : Bool
  pub version : Bool
  pub debug : Bool
  pub query : Bool
  pub reset : Bool
  pub tty : Option Bytes
  pub port : Option Bytes
  pub recv : Option Bytes
  pub doc_root : Option Bytes
  pub baud : Option ℕ
  pub verbose : Option ℕ

unfoldable pub value_or {ℓ} : {A : Type ℓ} → A → Option A → A
value_or d none = d
value_or d (some v) = v

pub data PidFile : Type 0 where
  not_opened : PidFile
  locked_by_other : PidFile
  held : PidFile

-- What the program finds.
pub record Surroundings : Type 0 where
  pub tty : Opening
  pub pid : PidFile
  pub binds : Bool

-- What is written to the standard output.
pub data Printed : Type 0 where
  nothing : Printed
  description : Printed
  package_version : Printed

-- The address, the port and the document root that the server is run with.
pub record Endpoint : Type 0 where
  pub recv : Bytes
  pub port : Bytes
  pub doc_root : Bytes

-- What the program has done when the server runs, where it does, or when it ends, with its exit code.
pub record Outcome (D : Type 0) : Type 0 where
  pub code : ℕ
  pub printed : Printed
  pub driver : Driver D
  pub server : Option Endpoint
  pub debug_mode : Bool
  pub verbose_level : ℕ

module _ (F : Floats) (line : ℕ → Exchange) (default_root : Bytes) where
  open F use {Double}

  -- The defaults of the options.
  unfoldable pub endpoint_of : Given → Endpoint
  unfolding value_or
  endpoint_of g = record {
    recv = value_or (codes "0.0.0.0") g.recv;
    port = value_or (codes "8080") g.port;
    doc_root = value_or default_root g.doc_root;
  }

  unfoldable pub finish : ℕ → Printed → Bool → Driver Double → Outcome Double
  finish code printed debug d = record {
    code = code;
    printed = printed;
    driver = d;
    server = none;
    debug_mode = debug;
    verbose_level = 0;
  }

  -- Where the constructor of the server throws, the exception is caught, and the code is 0.
  unfoldable pub run_server : Surroundings → Given → Driver Double → Outcome Double
  unfolding finish endpoint_of value_or
  run_server w g d = record (finish 0 Printed.nothing g.debug d) {
    server = if w.binds then some (endpoint_of g) else none;
    verbose_level = value_or 0 g.verbose;
  }

  -- Without --debug the server is run only by a process that holds the file.
  unfoldable pub with_pid : PidFile → Surroundings → Given → Driver Double → Outcome Double
  unfolding finish run_server
  with_pid PidFile.not_opened w g d = finish 1 Printed.nothing g.debug d
  with_pid PidFile.locked_by_other w g d = finish 1 Printed.nothing g.debug d
  with_pid PidFile.held w g d = run_server w g d

  unfoldable pub serve : Surroundings → Given → Driver Double → Outcome Double
  unfolding with_pid run_server finish
  serve w g d =
      if g.query || g.reset
      then finish 0 Printed.nothing g.debug d
      else if g.debug
      then run_server w g d
      else with_pid w.pid w g d

  -- --query and --reset; `none` is undefined behaviour of the query.
  unfoldable pub query_device : Bool → Driver Double → Option (Driver Double)
  unfolding peripheral_query_device_data
  query_device false d = some d
  query_device true d = elim (peripheral_query_device_data F line d) [
    | none ↦ none
    | some s ↦ some s.driver
  ]

  unfoldable pub reset_device : Bool → Driver Double → Driver Double
  unfolding reset
  reset_device asked d = if asked then (reset F line d).1 else d

  -- What `initialize` returns is not looked at; what it throws is caught, and the code is 0.
  unfoldable pub after_initialize :
      Surroundings → Given → Option (Option Bool × Driver Double) → Option (Outcome Double)
  unfolding query_device reset_device serve finish
  after_initialize w g none = none
  after_initialize w g (some (none, d)) = some (finish 0 Printed.nothing g.debug d)
  after_initialize w g (some (some res, d)) = elim (query_device g.query d) [
    | none ↦ none
    | some e ↦ some (serve w g (reset_device g.reset e))
  ]

  -- `main`. Where the options do not parse, an exception is caught, and the code is 0.
  unfoldable pub run_main : Surroundings → Option Given → Driver Double → Option (Outcome Double)
  unfolding after_initialize finish initialize value_or
  run_main w none d = some (finish 0 Printed.nothing false d)
  run_main w (some g) d =
      if g.help
      then some (finish 0 Printed.description false d)
      else if g.version
      then some (finish 0 Printed.package_version false d)
      else after_initialize w g
          (initialize F line d (value_or (codes "/dev/ttyUSB0") g.tty) (value_or 4800 g.baud) w.tty)
