-- ===== src/Endpoints/Examples.antt =====
-- src/driver/endpoints.c: events for posted requests.
use virt_bth_usb.Common.{ℕ, true, List, [], ◌∷◌, Option, some, none}
use virt_bth_usb.Bridge.{Bridge, bridge_init}
use virt_bth_usb.Bridge.Inbound.{Stream, on_inbound}
use virt_bth_usb.Stub.{stub_init}
use virt_bth_usb.Stub.Transport.{transport_submit}
use virt_bth_usb.Endpoints.{drain}
use virt_bth_usb.Endpoints.Drained.{Drained, drain-Drained}
use virt_bth_usb.Endpoints.Transports.{bridge_polled, stub_polled}

-- An inquiry-complete event in a bridge that is ready.
abbrev one_event : Bridge
one_event = (on_inbound (record bridge_init { ready = true }) Stream.event (1 ∷ 1 ∷ 0 ∷ [])).0

abbrev posted : List (Option ℕ)
posted = none ∷ some 16 ∷ some 16 ∷ []

drain-Drained_example :
    Drained
      (bridge_polled Stream.event)
      one_event
      (drain (bridge_polled Stream.event) one_event posted)
drain-Drained_example = drain-Drained (bridge_polled Stream.event) one_event posted (λ e. cc)

-- The same requests at the synthetic controller.
stub-Drained :
    (let t = (transport_submit (some stub_init) (3 ∷ 12 ∷ 0 ∷ [])).0 in
      Drained (stub_polled Stream.event) t (drain (stub_polled Stream.event) t posted))
stub-Drained = drain-Drained (stub_polled Stream.event) _ posted (λ e. cc)
