-- ===== src/Stub/Queueing.antt =====
-- src/driver/hci_stub.c, HciStubTransportPopStream: the synthetic controller's streams as queues.
use virt_bth_usb.Common.{
  ℕ, ◌≡◌, refl, ap, arith, Option, none, some, List, [], length, ltb, ◌==◌, Bool-cases, inl, inr,
}
use virt_bth_usb.Fifo.{front}
use virt_bth_usb.Fifo.Queue.{contents, contents-front, contents_empty}
use virt_bth_usb.Bridge.Inbound.{Stream}
use virt_bth_usb.Bridge.Delivery.{poll_queue}
use virt_bth_usb.Stub.{HciStub, event_depth, pop_event}
use virt_bth_usb.Stub.Transport.{transport_pop}

-- The packets that wait on a stream: events only, since there is no radio.
unfoldable pub queue_of : Option HciStub → Stream → List (List ℕ)
queue_of none stream = []
queue_of (some stub) Stream.event = contents event_depth stub.fifo
queue_of (some stub) Stream.acl = []
queue_of (some stub) Stream.sco = []

-- The synthetic controller's streams are polled like those of the bridge.
pub transport_pop-poll_queue :
    (stub : Option HciStub) (stream : Stream) (capacity : ℕ)
    → (
      queue_of (transport_pop stub stream capacity).0 stream,
      (transport_pop stub stream capacity).1,
    )
      ≡ poll_queue stream capacity (queue_of stub stream)
unfolding queue_of transport_pop poll_queue pop_event
transport_pop-poll_queue none stream capacity = refl
transport_pop-poll_queue (some stub) Stream.acl capacity = refl
transport_pop-poll_queue (some stub) Stream.sco capacity = refl
transport_pop-poll_queue (some stub) Stream.event capacity =
    elim (Bool-cases (stub.fifo.count == 0)) [
      | inl y ↦ rw (y, contents_empty event_depth stub.fifo (ground arith)) refl
      | inr n ↦
          let first = contents-front event_depth stub.fifo (ground arith) in
          elim (Bool-cases (ltb capacity (length (front stub.fifo)))) [
            | inl big ↦ rw (n, first, big, poll_queue) (ap (λ (q : List (List ℕ)). (q, none)) first)
            | inr fits ↦ rw (n, first, fits, poll_queue) refl
          ]
    ]
