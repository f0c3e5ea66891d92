-- ===== src/Arp/Facade.antt =====
-- httpd/arpproxy.cpp, `arpproxy`: the interface to `arpproxy::impl`, with the two callbacks. To call
-- one that is not registered throws in the thread, where nothing catches it: the program ends.
pub mod Registered
use bnc.Prelude.{
  ℕ, Bool, true, false, ◌&&◌, ◌||◌, Option, none, some, List, [], ◌∷◌, length, ◌==◌, if◌then◌else◌,
}
use bnc.Prelude.Bytes.{Bytes}
use bnc.Device.Floats.{Floats}
use bnc.Arp.Usb.{Usb}
use bnc.Arp.Setpoints.{Headers}
use bnc.Arp.Proxy.{Impl, new_impl}
use bnc.Arp.Worker.{device_setvoltage, device_setflag}
use bnc.Arp.Events.{Event, react}

module _ (F : Floats) (D : Headers F) (U : Usb) where
  pub record Arpproxy : Type 0 where
    pub impl : Impl F D U
    pub actuals_handler : Bool
    pub notification_handler : Bool

  -- The constructor.
  unfoldable pub new_arpproxy : U.Bus → Arpproxy
  unfolding new_impl
  new_arpproxy b = record {
    impl = new_impl F D U b;
    actuals_handler = false;
    notification_handler = false;
  }

  unfoldable pub register_actuals_handler : Arpproxy → Arpproxy
  register_actuals_handler a = record a { actuals_handler = true }

  unfoldable pub register_notification_handler : Arpproxy → Arpproxy
  register_notification_handler a = record a { notification_handler = true }

  -- Both forms of `set`.
  unfoldable pub set_value : Bytes → F.Double → Arpproxy → Arpproxy
  unfolding device_setvoltage
  set_value item v a = record a { impl = device_setvoltage F D U item v a.impl }

  unfoldable pub set_flag : Bytes → Bool → Arpproxy → Arpproxy
  unfolding device_setflag
  set_flag item value a = record a { impl = device_setflag F D U item value a.impl }

  -- The destructor: the timer is cancelled, and what is in the queue is not run.
  unfoldable pub destroy : Arpproxy → Arpproxy
  destroy a = record a { impl = record a.impl { timer = none; posted = [] } }

  -- Whatever callback was called between the two states was registered.
  unfoldable pub callable : Arpproxy → Impl F D U → Bool
  callable a q =
      (a.actuals_handler || length q.reported == length a.impl.reported)
      && (a.notification_handler || length q.notices == length a.impl.notices)

  -- `none` is the end of the program.
  finished : Arpproxy → Option (Impl F D U) → Option Arpproxy
  unfolding callable
  finished a none = none
  finished a (some q) = if callable a q then some (record a { impl = q }) else none

  unfoldable pub arpproxy_react : Event F → Arpproxy → Option Arpproxy
  unfolding finished react
  arpproxy_react e a = finished a (react F D U e a.impl)

  unfoldable pub arpproxy_react_all : List (Event F) → Arpproxy → Option Arpproxy
  unfolding arpproxy_react
  arpproxy_react_all [] a = some a
  arpproxy_react_all (e ∷ es) a = elim (arpproxy_react e a) [
    | none ↦ none
    | some b ↦ arpproxy_react_all es b
  ]
