-- ===== src/Arp/Facade/Registered.antt =====
-- httpd/arpproxy.cpp: with both callbacks registered, no event ends the program.
use bnc.Prelude.{◌≡◌, refl, true, List, [], ◌∷◌, some}
use bnc.Device.Floats.{Floats}
use bnc.Arp.Usb.{Usb}
use bnc.Arp.Setpoints.{Headers}
use bnc.Arp.Proxy.{Impl, new_impl}
use bnc.Arp.Events.{Event}
use bnc.Arp.Events.Reads.{OneRead, react-OneRead, new_impl-OneRead}
use bnc.Arp.Facade.{
  Arpproxy, new_arpproxy, register_actuals_handler, register_notification_handler, callable,
  finished, arpproxy_react, arpproxy_react_all,
}

module _ (F : Floats) (D : Headers F) (U : Usb) where
  registered : Impl F D U → Arpproxy F D U
  registered p = record { impl = p; actuals_handler = true; notification_handler = true }

  arpproxy_react_all-from :
      (es : List (Event F)) (p : Impl F D U)
      → OneRead F D U p
      → (q : Impl F D U) × (arpproxy_react_all F D U es (registered p) ≡ some (registered q))
        × OneRead F D U q
  unfolding arpproxy_react_all arpproxy_react finished callable registered
  arpproxy_react_all-from [] p o = (p, refl, o)
  arpproxy_react_all-from (e ∷ es) p o =
      let (p1, r, o1) = react-OneRead F D U e p o in
      let (q, t, o2) = arpproxy_react_all-from es p1 o1 in
      (q, rw (r, arpproxy_react_all, arpproxy_react, finished, callable) t, o2)

  -- Once both callbacks are registered, whatever events come in whatever order and whatever the device
  -- does, the proxy goes on, and `service_count_` is the number of reads of the actual values in the
  -- queue, which is at most one.
  pub arpproxy_react_all-OneRead :
      (b : U.Bus) (es : List (Event F))
      → (a : Arpproxy F D U) × (arpproxy_react_all F D U es (
            register_notification_handler F D U
              (register_actuals_handler F D U (new_arpproxy F D U b)))
          ≡ some a)
        × OneRead F D U a.impl
  unfolding new_arpproxy register_notification_handler register_actuals_handler registered
  arpproxy_react_all-OneRead b es =
      let (q, r, o) = arpproxy_react_all-from es (new_impl F D U b) (new_impl-OneRead F D U b) in
      (registered q, r, o)
