-- ===== src/Endpoints/Transports.antt =====
-- The two transports that the front end is bound to, the bridge and the synthetic controller, by the
-- contract of their streams.
use virt_bth_usb.Common.{◌≡◌, refl, sym, ap, ltb, length, Option, some, none}
use virt_bth_usb.Fifo.Queue.{length-contents}
use virt_bth_usb.Bridge.{Bridge, event_fifo_depth, acl_in_fifo_depth, sco_fifo_depth}
use virt_bth_usb.Bridge.Inbound.{Stream, has_stream, pop_stream}
use virt_bth_usb.Bridge.Delivery.{waiting, pop_stream-poll_queue}
use virt_bth_usb.Stub.{HciStub, event_depth, has_event}
use virt_bth_usb.Stub.Transport.{transport_has, transport_pop}
use virt_bth_usb.Stub.Queueing.{queue_of, transport_pop-poll_queue}
use virt_bth_usb.Endpoints.{Polled}

pub has_stream-waiting : (b : Bridge) (s : Stream) → has_stream b s ≡ ltb 0 (length (waiting b s))
unfolding has_stream waiting
has_stream-waiting b Stream.event = ap (ltb 0) (sym (length-contents event_fifo_depth b.event_fifo))
has_stream-waiting b Stream.acl = ap (ltb 0) (sym (length-contents acl_in_fifo_depth b.acl_in_fifo))
has_stream-waiting b Stream.sco = ap (ltb 0) (sym (length-contents sco_fifo_depth b.sco_in_fifo))

pub transport_has-queue_of :
    (stub : Option HciStub) (s : Stream) → transport_has stub s ≡ ltb 0 (length (queue_of stub s))
unfolding transport_has queue_of has_event
transport_has-queue_of none s = refl
transport_has-queue_of (some stub) Stream.event =
    ap (ltb 0) (sym (length-contents event_depth stub.fifo))
transport_has-queue_of (some stub) Stream.acl = refl
transport_has-queue_of (some stub) Stream.sco = refl

abbrev pub bridge_polled : (s : Stream) → Polled Bridge s
bridge_polled s = record {
  has = λ b. has_stream b s;
  pop = λ b capacity. pop_stream b s capacity;
  queued = λ b. waiting b s;
  has-queued = λ b. has_stream-waiting b s;
  pop-queued = λ b capacity. pop_stream-poll_queue b s capacity;
}

abbrev pub stub_polled : (s : Stream) → Polled (Option HciStub) s
stub_polled s = record {
  has = λ t. transport_has t s;
  pop = λ t capacity. transport_pop t s capacity;
  queued = λ t. queue_of t s;
  has-queued = λ t. transport_has-queue_of t s;
  pop-queued = λ t capacity. transport_pop-poll_queue t s capacity;
}
