-- ===== src/Tests/Arriving.antt =====
-- Events that come to the proxy of httpd/arpproxy.cpp.
use bnc.Prelude.{true, false, List, [], ◌∷◌, ◌≡◌, some, none, refl}
use bnc.Prelude.Bytes.{codes}
use bnc.Arp.Worker.{on_device_detached}
use bnc.Arp.Events.{Event}
use bnc.Arp.Facade.{
  Arpproxy, arpproxy_react_all, register_notification_handler, register_actuals_handler,
  new_arpproxy,
}
use bnc.Arp.Facade.Registered.{arpproxy_react_all-OneRead}
use bnc.Arp.Events.Reads.{OneRead}
use bnc.Tests.Boards.{bench}
use bnc.Tests.Commanding.{whole}
use bnc.Tests.Proxying.{headers, blank}

-- A device comes, the timer runs out twice before the thread has taken a handler, and a flag is set.
abbrev events : List (Event whole)
events =
    Event.attached true true true
    ∷ Event.timer false
    ∷ Event.timer false
    ∷ Event.set_flag (codes "switch-hv") true
    ∷ Event.take_job
    ∷ Event.take_job
    ∷ Event.timer false
    ∷ Event.detached false
    ∷ []

arpproxy_react_all-OneRead_example :
    (a : Arpproxy whole headers bench) × (arpproxy_react_all whole headers bench events (
        register_notification_handler whole headers bench
          (register_actuals_handler whole headers bench (new_arpproxy whole headers bench blank)))
      ≡ some a)
    × OneRead whole headers bench a.impl
arpproxy_react_all-OneRead_example = arpproxy_react_all-OneRead whole headers bench blank events

-- With no callback registered, a device that goes ends the program.
abbrev gone : List (Event whole)
gone = Event.detached false ∷ []

unregistered :
    arpproxy_react_all whole headers bench gone (new_arpproxy whole headers bench blank) ≡ none
unfolding arpproxy_react_all new_arpproxy on_device_detached
unregistered = refl
