-- ===== src/Data/Transports.antt =====
-- The bridge with its wire as the transport of the data endpoints: polling a stream and submitting
-- ACL data leave the other packets queued.
use virt_bth_usb.Common.{
  ℕ, ◌≡◌, refl, ap, Bool, not, Option, either, List, ◌==◌, ltb, length, Option-cases, inl, inr,
}
use virt_bth_usb.Fifo.Queue.{contents}
use virt_bth_usb.Fifo.{front}
use virt_bth_usb.Bridge.{Bridge, WireOps, event_fifo_depth, acl_in_fifo_depth}
use virt_bth_usb.Bridge.Credits.{find_handle, first_free, reserve_handle_slot}
use virt_bth_usb.Bridge.Submit.{is_acl, handle_at, send_reserved, send_with_credit, submit_acl}
use virt_bth_usb.Bridge.Inbound.{Stream, has_stream, pop_stream}
use virt_bth_usb.Bridge.Delivery.{waiting, pop_stream-poll_queue}
use virt_bth_usb.Bridge.Untouched.{Untouched}
use virt_bth_usb.Endpoints.{Polled}
use virt_bth_usb.Endpoints.Transports.{has_stream-waiting}
use virt_bth_usb.Data.{DataTransport}

pub pop_event-acl :
    (b : Bridge) (capacity : ℕ)
    → waiting (pop_stream b Stream.event capacity).0 Stream.acl ≡ waiting b Stream.acl
unfolding pop_stream waiting
pop_event-acl b capacity =
    let P : Bridge × Option (List ℕ) → Type 0 =
      λ r. waiting r.0 Stream.acl ≡ waiting b Stream.acl in
    either P (b.event_fifo.count == 0) refl
      (either P (ltb capacity (length (front b.event_fifo))) refl refl)

pub pop_acl-event :
    (b : Bridge) (capacity : ℕ)
    → waiting (pop_stream b Stream.acl capacity).0 Stream.event ≡ waiting b Stream.event
unfolding pop_stream waiting
pop_acl-event b capacity =
    let P : Bridge × Option (List ℕ) → Type 0 =
      λ r. waiting r.0 Stream.event ≡ waiting b Stream.event in
    either P (b.acl_in_fifo.count == 0) refl
      (either P (ltb capacity (length (front b.acl_in_fifo))) refl refl)

reserve-Untouched :
    (b b' : Bridge) (handle : ℕ) → Untouched b b' → Untouched b (reserve_handle_slot b' handle).0
unfolding reserve_handle_slot
reserve-Untouched b b' handle u = elim (Option-cases (find_handle b'.handles handle 0)) [
  | inr (i, e) ↦ rw (e, reserve_handle_slot) u
  | inl n ↦ elim (Option-cases (first_free b'.handles 0)) [
    | inl m ↦ rw (n, m, reserve_handle_slot) u
    | inr (i, e) ↦ rw (n, e, reserve_handle_slot) u
  ]
]

module _ {W : Type 0} (ops : WireOps W) where
  abbrev pub Same : Bridge → (Bridge × W) × Bool → Type 0
  Same b r = Untouched b r.0.0

  send_reserved-Untouched :
      (b b' : Bridge) (w : W) (p : List ℕ) (i : ℕ)
      → Untouched b b'
      → Same b (send_reserved ops b' w p i)
  unfolding send_reserved
  send_reserved-Untouched b b' w p i u = elim (Option-cases ops.send_acl) [
    | inl n ↦ rw (n, send_reserved) u
    | inr (send, e) ↦ rw (e, send_reserved) (either (Same b) (send w p).1 u u)
  ]

  send_with_credit-Untouched :
      (b b' : Bridge) (w : W) (p : List ℕ) → Untouched b b' → Same b (send_with_credit ops b' w p)
  unfolding send_with_credit
  send_with_credit-Untouched b b' w p u =
      let reserved : Untouched b (reserve_handle_slot b' (handle_at p 0)).0 =
        reserve-Untouched b b' (handle_at p 0) u in
      elim (Option-cases (reserve_handle_slot b' (handle_at p 0)).1) [
        | inl n ↦ rw (n, send_with_credit) reserved
        | inr (i, s) ↦ rw (s, send_with_credit) (send_reserved-Untouched b _ w p i reserved)
      ]

  pub submit_acl-Untouched : (b : Bridge) (w : W) (p : List ℕ) → Same b (submit_acl ops b w p)
  unfolding submit_acl
  submit_acl-Untouched b w p =
      let same : Untouched b b = (refl, refl, refl, refl) in
      either (Same b) (not (is_acl p)) same (
        either (Same b) (not b.ready) same (
          either (Same b) (b.available_acl_credits == 0) same
            (send_with_credit-Untouched b _ w p same)))

  abbrev pub bridge_stream : (s : Stream) → Polled (Bridge × W) s
  bridge_stream s = record {
    has = λ t. has_stream t.0 s;
    pop = λ t capacity. (((pop_stream t.0 s capacity).0, t.1), (pop_stream t.0 s capacity).1);
    queued = λ t. waiting t.0 s;
    has-queued = λ t. has_stream-waiting t.0 s;
    pop-queued = λ t capacity. pop_stream-poll_queue t.0 s capacity;
  }

  pub waiting-events :
      (b b' : Bridge) → Untouched b b' → waiting b' Stream.event ≡ waiting b Stream.event
  unfolding waiting
  waiting-events b b' (events, ready, acl, sco) = ap (contents event_fifo_depth) events

  pub waiting-acl : (b b' : Bridge) → Untouched b b' → waiting b' Stream.acl ≡ waiting b Stream.acl
  unfolding waiting
  waiting-acl b b' (events, ready, acl, sco) = ap (contents acl_in_fifo_depth) acl

  abbrev pub bridge_data : DataTransport (Bridge × W)
  bridge_data = record {
    events = bridge_stream Stream.event;
    acl = bridge_stream Stream.acl;
    submit_acl = λ t p. submit_acl ops t.0 t.1 p;
    pop_events-acl = λ t capacity. pop_event-acl t.0 capacity;
    pop_acl-events = λ t capacity. pop_acl-event t.0 capacity;
    submit-events = λ t p. waiting-events t.0 _ (submit_acl-Untouched t.0 t.1 p);
    submit-acl = λ t p. waiting-acl t.0 _ (submit_acl-Untouched t.0 t.1 p);
  }
