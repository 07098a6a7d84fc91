-- ===== src/Bridge/Invariant.antt =====
-- src/common/hci_bridge.c: the wire's feeds and the polls, and the order of rings and credits.
use virt_bth_usb.Bridge.Rings.{
  with_events, with_acl, with_sco, HasRings, IsSound, flying-replicate, clamp_credits-HasRings,
}
use virt_bth_usb.Common.{
  ℕ, zero, suc, ◌+◌, ◌^◌, ◌<◌, ◌≡◌, refl, arith, Bool, true, not, Option, inl, inr,
}
use virt_bth_usb.Common.{
  List, length, byte, le16, byte-lt, IsByte, All, ltb, leb, ◌==◌, either, cases, Option-cases,
}
use virt_bth_usb.Fifo.{Fifo, drop_front, append_back}
use virt_bth_usb.Fifo.Queue.{IsRing, drop_front-IsRing, append_back-IsRing}
use virt_bth_usb.Bridge.{Bridge, max_handles, event_fifo_depth, acl_in_fifo_depth, sco_fifo_depth}
use virt_bth_usb.Bridge.Credits.{find_handle, record_acl_completed, record_disconnection}
use virt_bth_usb.Bridge.Submit.{is_acl, is_sco}
use virt_bth_usb.Bridge.Inbound.{
  set_acl_buffers, snoop_buffer_size, complete_each, snoop_completed, snoop_disconnection, suppress,
  queue_event, count_event, snoop, on_event, on_acl, enqueue_sco_in, on_sco, Stream, on_inbound,
  pop_stream, is_event, is_vendor_answer,
}
use virt_bth_usb.Fifo.{front}
use virt_bth_usb.Bridge.Accounting.{
  IsUnclamped, clamp_credits-IsBalanced, record_acl_completed-IsBalanced,
  record_disconnection-IsBalanced,
}

set_acl_buffers-IsSound :
    (b : Bridge) (total : ℕ) → total < 2 ^ 16 → IsSound b → IsSound (set_acl_buffers b total)
unfolding set_acl_buffers
set_acl_buffers-IsSound b total h v = (
  clamp_credits-IsBalanced _ (
      either IsUnclamped (b.total_acl_buffers == 0)
        (record {
          table = refl;
          total_fits = h;
          flying_fits = omega (arith, flying-replicate max_handles);
        })
        (record { table = v.0.table; total_fits = h; flying_fits = v.0.flying_fits })),
  clamp_credits-HasRings _ (either HasRings (b.total_acl_buffers == 0) v.1 v.1),
)

record_acl_completed-HasRings :
    (b : Bridge) (handle completed : ℕ)
    → HasRings b
    → HasRings (record_acl_completed b handle completed)
unfolding record_acl_completed
record_acl_completed-HasRings b handle completed v =
    elim (Option-cases (find_handle b.handles handle 0)) [
      | inl n ↦ rw (n, record_acl_completed) v
      | inr (i, s) ↦ rw (s, record_acl_completed) (clamp_credits-HasRings _ v)
    ]

record_disconnection-HasRings :
    (b : Bridge) (handle : ℕ) → HasRings b → HasRings (record_disconnection b handle)
unfolding record_disconnection
record_disconnection-HasRings b handle v = elim (Option-cases (find_handle b.handles handle 0)) [
  | inl n ↦ rw (n, record_disconnection) v
  | inr (i, s) ↦ rw (s, record_disconnection) (clamp_credits-HasRings _ v)
]

complete_each-IsSound :
    (n i : ℕ) (b : Bridge) (p : List ℕ) → IsSound b → IsSound (complete_each n i b p)
unfolding complete_each
complete_each-IsSound zero i b p v = v
complete_each-IsSound (suc n) i b p v =
    complete_each-IsSound n (i + 1) _ p
      (record_acl_completed-IsBalanced b _ _ v.0, record_acl_completed-HasRings b _ _ v.1)

snoop-IsSound : (b : Bridge) (p : List ℕ) → All IsByte p → IsSound b → IsSound (snoop b p)
unfolding snoop snoop_buffer_size snoop_completed snoop_disconnection
snoop-IsSound b p bytes v =
    let b1 = snoop_buffer_size b p in
    let b2 = snoop_completed b1 p in
    let v1 : IsSound b1 =
      either IsSound _
        (set_acl_buffers-IsSound b (le16 p 9) (omega (arith, byte-lt p 9 bytes, byte-lt p 10 bytes))
          v)
        v in
    let v2 : IsSound b2 = either IsSound _ (complete_each-IsSound (byte p 2) 0 b1 p v1) v1 in
    either IsSound _
      (record_disconnection-IsBalanced b2 _ v2.0, record_disconnection-HasRings b2 _ v2.1) v2

-- A verdict beside a sound bridge.
abbrev pub Good : Bridge × Bool → Type 0
Good r = IsSound r.0

queue_event-IsSound : (b : Bridge) (p : List ℕ) → IsSound b → Good (queue_event b p)
unfolding queue_event
queue_event-IsSound b p v = either Good (not b.ready) v (
    cases Good (leb event_fifo_depth b.event_fifo.count) (λ full. v)
      (λ room. (
        v.0,
        with_events v.1
            (append_back-IsRing event_fifo_depth b.event_fifo p v.1.events_ring (ground arith)),
      )))

on_event-IsSound : (b : Bridge) (p : List ℕ) → All IsByte p → IsSound b → Good (on_event b p)
unfolding on_event count_event suppress
on_event-IsSound b p bytes v =
    let s = snoop-IsSound (count_event b) p bytes v in
    either Good (not (is_event p)) v (
      either Good (byte p 0 == 0xFF) v
        (either Good (is_vendor_answer p) s (queue_event-IsSound _ p s)))

on_acl-IsSound : (b : Bridge) (p : List ℕ) → IsSound b → Good (on_acl b p)
unfolding on_acl
on_acl-IsSound b p v = either Good (not (is_acl p)) v (
    either Good (not b.ready) v (
      cases Good (leb acl_in_fifo_depth b.acl_in_fifo.count) (λ full. v)
        (λ room. (
          v.0,
          with_acl v.1
              (append_back-IsRing acl_in_fifo_depth b.acl_in_fifo p v.1.acl_ring (ground arith)),
        ))))

-- A full ring loses its oldest packet and takes the new one.
pub overwrite-IsRing :
    (depth : ℕ) (f : Fifo) (p : List ℕ)
    → IsRing depth f
    → leb depth f.count ≡ true
    → IsRing depth (append_back depth (drop_front depth f) p)
unfolding drop_front
overwrite-IsRing depth f p v full =
    append_back-IsRing depth (drop_front depth f) p
      (drop_front-IsRing depth f v (ground (arith, v.positive)))
      (ground (arith, v.positive, v.count_in))

on_sco-IsSound : (b : Bridge) (p : List ℕ) → IsSound b → Good (on_sco b p)
unfolding on_sco enqueue_sco_in
on_sco-IsSound b p v = either Good (not (is_sco p)) v (
    either Good (not b.ready) v (
      cases IsSound (leb sco_fifo_depth b.sco_in_fifo.count)
        (λ full.
          (v.0, with_sco v.1 (overwrite-IsRing sco_fifo_depth b.sco_in_fifo p v.1.sco_ring full)))
        (λ room. (
          v.0,
          with_sco v.1
              (append_back-IsRing sco_fifo_depth b.sco_in_fifo p v.1.sco_ring (ground arith)),
        ))))

pub on_inbound-IsSound :
    (b : Bridge) (s : Stream) (p : List ℕ) → All IsByte p → IsSound b → Good (on_inbound b s p)
unfolding on_inbound
on_inbound-IsSound b Stream.event p bytes v = on_event-IsSound b p bytes v
on_inbound-IsSound b Stream.acl p bytes v = on_acl-IsSound b p v
on_inbound-IsSound b Stream.sco p bytes v = on_sco-IsSound b p v

pub pop_stream-IsSound :
    (b : Bridge) (s : Stream) (capacity : ℕ) → IsSound b → IsSound (pop_stream b s capacity).0
unfolding pop_stream
pop_stream-IsSound b Stream.event capacity v =
    cases (λ (r : Bridge × Option (List ℕ)). IsSound r.0) (b.event_fifo.count == 0) (λ empty. v)
      (λ some_left.
        either (λ (r : Bridge × Option (List ℕ)). IsSound r.0)
          (ltb capacity (length (front b.event_fifo))) v
          (
            v.0,
            with_events v.1
                (drop_front-IsRing event_fifo_depth b.event_fifo v.1.events_ring (ground arith)),
          ))
pop_stream-IsSound b Stream.acl capacity v =
    cases (λ (r : Bridge × Option (List ℕ)). IsSound r.0) (b.acl_in_fifo.count == 0) (λ empty. v)
      (λ some_left.
        either (λ (r : Bridge × Option (List ℕ)). IsSound r.0)
          (ltb capacity (length (front b.acl_in_fifo))) v
          (
            v.0,
            with_acl v.1
                (drop_front-IsRing acl_in_fifo_depth b.acl_in_fifo v.1.acl_ring (ground arith)),
          ))
pop_stream-IsSound b Stream.sco capacity v =
    cases (λ (r : Bridge × Option (List ℕ)). IsSound r.0) (b.sco_in_fifo.count == 0) (λ empty. v)
      (λ some_left.
        let w : IsSound (record b { sco_in_fifo = drop_front sco_fifo_depth b.sco_in_fifo }) = (
          v.0,
          with_sco v.1 (drop_front-IsRing sco_fifo_depth b.sco_in_fifo v.1.sco_ring (ground arith)),
        ) in
        either (λ (r : Bridge × Option (List ℕ)). IsSound r.0)
          (ltb capacity (length (front b.sco_in_fifo))) w w)
