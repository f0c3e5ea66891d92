-- ===== src/Device/Bnc565/Service.antt =====
-- httpd/bnc565.cpp: the start and the end of the driver, with its threads.
use bnc.Prelude.{ℕ, suc, Bool, true, false, [], Option, none, some, if◌then◌else◌, refl}
use bnc.Prelude.Bytes.{Bytes}
use bnc.Device.Serial.{Opening}
use bnc.Device.Floats.{Floats}
use bnc.Device.Protocols.{new_protocol, new_protocols}
use bnc.Device.Bnc565.{Exchange, Driver}
use bnc.Device.Bnc565.Commands.{initialize}
use bnc.Device.Bnc565.Query.Filled.{HasProtocol}

-- Whether there is a port, the threads that run the handlers, and whether they were told to stop.
pub record Service (D : Type 0) : Type 0 where
  pub driver : Driver D
  pub usb : Bool
  pub threads : ℕ
  pub stopped : Bool

-- The members that the constructor leaves as they are found: `baud_` and the counters.
pub record Found : Type 0 where
  pub baud : ℕ
  pub xsend_timeout_c : ℕ
  pub reply_timeout_c : ℕ

module _ (F : Floats) where
  open F use {Double}

  abbrev pub new_driver : Found → Driver Double
  new_driver found = record {
    is_open = false;
    ttyname = [];
    baud = found.baud;
    receiver = record { receiving_data = []; que = [] };
    xsend_timeout_c = found.xsend_timeout_c;
    reply_timeout_c = found.reply_timeout_c;
    protocols = new_protocols F;
    tick = 0;
    sent = [];
    now = 0;
  }

  -- The constructor, which starts a thread.
  unfoldable pub new_service : Found → Service Double
  new_service found = record {
    driver = new_driver found;
    usb = false;
    threads = 1;
    stopped = false;
  }

  pub new_driver-HasProtocol :
      (line : ℕ → Exchange) (found : Found) → HasProtocol F line (new_driver found)
  new_driver-HasProtocol line found = record { pulses = new_protocol F; rest = []; same = refl }

-- `initialize` makes a port, and starts a thread for it where it could be opened.
module _ (F : Floats) (line : ℕ → Exchange) where
  open F use {Double}

  initialized :
      Service Double → Option (Option Bool × Driver Double) → Option (Option Bool × Service Double)
  initialized s none = none
  initialized s (some (res, d)) =
      let made = record s { driver = d; usb = true } in
      some (
        res,
        elim res [
          | none ↦ made
          | some ok ↦ if ok then record made { threads = suc s.threads } else made
        ],
      )

  unfoldable pub initialize_service :
      Service Double → Bytes → ℕ → Opening → Option (Option Bool × Service Double)
  unfolding initialized initialize
  initialize_service s ttyname baud o = initialized s (initialize F line s.driver ttyname baud o)

module _ {D : Type 0} where
  -- The threads end once the service is stopped, and are waited for.
  unfoldable pub join_all : Service D → Service D
  join_all s = record s { stopped = true; threads = 0 }

  -- The driver's port is closed and destroyed.
  unfoldable pub peripheral_terminate : Service D → Bool × Service D
  unfolding join_all
  peripheral_terminate s =
      let closed = record s { driver = record s.driver { is_open = false }; usb = false } in
      (true, join_all (if s.usb then closed else s))
