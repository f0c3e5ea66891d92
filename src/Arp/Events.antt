-- ===== src/Arp/Events.antt =====
-- httpd/arpproxy.cpp, `arpproxy::impl`: the events that come to it in any order, and the handlers that
-- its thread takes from the queue between them.
pub mod Count
pub mod Reads
use bnc.Prelude.{Bool, List, [], ◌∷◌, Option, none, some}
use bnc.Prelude.Bytes.{Bytes}
use bnc.Device.Floats.{Floats}
use bnc.Arp.Usb.{Usb}
use bnc.Arp.Setpoints.{Headers}
use bnc.Arp.Proxy.{Job, Impl}
use bnc.Arp.Worker.{
  run_job, on_timer, on_device_attached, on_device_detached, device_setvoltage, device_setflag,
}

module _ (F : Floats) where
  -- The timer, with or without an error; usbmanager's calls, with what comes of the handle; a number or
  -- a flag that a client sets, `arpproxy::set`; and the thread, which takes the next handler.
  pub data Event : Type 0 where
    timer : Bool → Event
    attached : Bool → Bool → Bool → Event
    detached : Bool → Event
    set_value : Bytes → F.Double → Event
    set_flag : Bytes → Bool → Event
    take_job : Event

module _ (F : Floats) (D : Headers F) (U : Usb) where
  -- The next handler is off the queue while it runs.
  run_first : List (Job F) → Impl F D U → Option (Impl F D U)
  unfolding run_job
  run_first [] p = some p
  run_first (j ∷ js) p = run_job F D U j (record p { posted = js })

  unfoldable pub react : Event F → Impl F D U → Option (Impl F D U)
  unfolding run_first on_timer on_device_attached on_device_detached device_setvoltage
      device_setflag
  react (Event.timer error) p = some (on_timer F D U error p)
  react (Event.attached handle opened claimed) p =
      some (on_device_attached F D U handle opened claimed p)
  react (Event.detached handle) p = some (on_device_detached F D U handle p)
  react (Event.set_value id v) p = some (device_setvoltage F D U id v p)
  react (Event.set_flag id value) p = some (device_setflag F D U id value p)
  react Event.take_job p = run_first p.posted p
