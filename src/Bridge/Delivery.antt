-- ===== src/Bridge/Delivery.antt =====
-- src/common/hci_bridge.c: the three inbound streams as queues.
use virt_bth_usb.Bridge.Untouched.{snoop-Untouched}
use virt_bth_usb.Common.{
  ℕ, ◌<◌, ◌≡◌, refl, sym, ap, subst, arith, Bool, true, false, not, Option, none, some, inl, inr,
}
use virt_bth_usb.Common.{
  List, [], ◌∷◌, ◌++◌, length, drop, ltb, leb, ◌==◌, ◌&&◌, if◌then◌else◌, byte, Bool-cases,
}
use virt_bth_usb.Fifo.{Fifo, front, drop_front, append_back}
use virt_bth_usb.Fifo.Queue.{
  IsRing, contents, contents-append_back, contents-front, contents_empty, length-contents,
  drop_front-IsRing,
}
use virt_bth_usb.Bridge.{Bridge, event_fifo_depth, acl_in_fifo_depth, sco_fifo_depth}
use virt_bth_usb.Bridge.Submit.{is_acl, is_sco}
use virt_bth_usb.Bridge.Inbound.{
  snoop_disconnection, queue_event, snoop, count_event, suppress, on_event, on_acl, on_sco,
  enqueue_sco_in, Stream, on_inbound, pop_stream, is_event, is_vendor_answer,
}
use virt_bth_usb.Bridge.Rings.{HasRings}

-- The packets that wait on a stream, oldest first.
unfoldable pub waiting : Bridge → Stream → List (List ℕ)
waiting b Stream.event = contents event_fifo_depth b.event_fifo
waiting b Stream.acl = contents acl_in_fifo_depth b.acl_in_fifo
waiting b Stream.sco = contents sco_fifo_depth b.sco_in_fifo

-- What a poll is for a queue: the oldest packet comes out if the caller's buffer holds it; one that
-- it does not hold stays, on the SCO stream it is dropped.
unfoldable pub poll_queue : Stream → ℕ → List (List ℕ) → List (List ℕ) × Option (List ℕ)
poll_queue s capacity [] = ([], none)
poll_queue Stream.sco capacity (p ∷ q) = if ltb capacity (length p) then (q, none) else (q, some p)
poll_queue Stream.event capacity (p ∷ q) =
    if ltb capacity (length p) then (p ∷ q, none) else (q, some p)
poll_queue Stream.acl capacity (p ∷ q) =
    if ltb capacity (length p) then (p ∷ q, none) else (q, some p)

-- Polling a stream is polling the queue of its packets.
pub pop_stream-poll_queue :
    (b : Bridge) (s : Stream) (capacity : ℕ)
    → (waiting (pop_stream b s capacity).0 s, (pop_stream b s capacity).1)
      ≡ poll_queue s capacity (waiting b s)
unfolding waiting pop_stream poll_queue
pop_stream-poll_queue b Stream.event capacity = elim (Bool-cases (b.event_fifo.count == 0)) [
  | inl y ↦ rw (y, contents_empty event_fifo_depth b.event_fifo (ground arith)) refl
  | inr n ↦
      let first = contents-front event_fifo_depth b.event_fifo (ground arith) in
      elim (Bool-cases (ltb capacity (length (front b.event_fifo)))) [
        | inl big ↦ rw (n, first, big, poll_queue) (ap (λ (q : List (List ℕ)). (q, none)) first)
        | inr fits ↦ rw (n, first, fits, poll_queue) refl
      ]
]
pop_stream-poll_queue b Stream.acl capacity = elim (Bool-cases (b.acl_in_fifo.count == 0)) [
  | inl y ↦ rw (y, contents_empty acl_in_fifo_depth b.acl_in_fifo (ground arith)) refl
  | inr n ↦
      let first = contents-front acl_in_fifo_depth b.acl_in_fifo (ground arith) in
      elim (Bool-cases (ltb capacity (length (front b.acl_in_fifo)))) [
        | inl big ↦ rw (n, first, big, poll_queue) (ap (λ (q : List (List ℕ)). (q, none)) first)
        | inr fits ↦ rw (n, first, fits, poll_queue) refl
      ]
]
pop_stream-poll_queue b Stream.sco capacity = elim (Bool-cases (b.sco_in_fifo.count == 0)) [
  | inl y ↦ rw (y, contents_empty sco_fifo_depth b.sco_in_fifo (ground arith)) refl
  | inr n ↦
      let first = contents-front sco_fifo_depth b.sco_in_fifo (ground arith) in
      elim (Bool-cases (ltb capacity (length (front b.sco_in_fifo)))) [
        | inl big ↦ rw (n, first, big, poll_queue) refl
        | inr fits ↦ rw (n, first, fits, poll_queue) refl
      ]
]

-- What a feed is for a queue: an accepted packet goes to the end; the SCO queue, when full, loses
-- its oldest packet for it.
unfoldable pub feed_queue : Stream → List ℕ → List (List ℕ) → List (List ℕ)
feed_queue Stream.event p q = q ++ (p ∷ [])
feed_queue Stream.acl p q = q ++ (p ∷ [])
feed_queue Stream.sco p q = (if leb sco_fifo_depth (length q) then drop 1 q else q) ++ (p ∷ [])

-- Is a packet queued? Vendor events and answers to vendor commands never are, a malformed packet
-- never is, nothing is before the host is ready, and a full event or ACL queue takes nothing.
unfoldable pub accepts : Bridge → Stream → List ℕ → Bool
accepts b Stream.event p =
    is_event p
    && not (byte p 0 == 0xFF)
    && not (is_vendor_answer p)
    && b.ready
    && ltb (length (waiting b Stream.event)) event_fifo_depth
accepts b Stream.acl p =
    is_acl p && b.ready && ltb (length (waiting b Stream.acl)) acl_in_fifo_depth
accepts b Stream.sco p = is_sco p && b.ready

not_ltb : (a b : ℕ) → leb b a ≡ true → ltb a b ≡ false
not_ltb a b h = ground arith

is_ltb : (a b : ℕ) → leb b a ≡ false → ltb a b ≡ true
is_ltb a b h = ground arith

-- The queue and the verdict after an attempt to queue.
abbrev pub attempt : Bool → Stream → List ℕ → List (List ℕ) → List (List ℕ) × Bool
attempt ok s p q = if ok then (feed_queue s p q, true) else (q, false)

queue_event-attempt :
    (b : Bridge) (p : List ℕ)
    → IsRing event_fifo_depth b.event_fifo
    → (waiting (queue_event b p).0 Stream.event, (queue_event b p).1)
      ≡ attempt
          (b.ready && ltb (length (waiting b Stream.event)) event_fifo_depth)
          Stream.event
          p
          (waiting b Stream.event)
unfolding queue_event waiting feed_queue
queue_event-attempt b p v =
    let len = length-contents event_fifo_depth b.event_fifo in
    elim (Bool-cases b.ready) [
      | inl y ↦ elim (Bool-cases (leb event_fifo_depth b.event_fifo.count)) [
        | inl full ↦ rw (y, full, len, not_ltb b.event_fifo.count 16 full) refl
        | inr room ↦
            rw (y, room, len, is_ltb b.event_fifo.count 16 room)
              (ap (λ (q : List (List ℕ)). (q, true))
                (contents-append_back event_fifo_depth b.event_fifo p v (ground arith)))
      ]
      | inr n ↦ rw n refl
    ]

on_event-attempt :
    (b : Bridge) (p : List ℕ)
    → IsRing event_fifo_depth b.event_fifo
    → (waiting (on_event b p).0 Stream.event, (on_event b p).1)
      ≡ attempt (accepts b Stream.event p) Stream.event p (waiting b Stream.event)
unfolding on_event waiting accepts count_event suppress snoop snoop_disconnection
on_event-attempt b p v =
    let counted = count_event b in
    let u = snoop-Untouched counted p in
    elim (Bool-cases (is_event p)) [
      | inr n ↦ rw n refl
      | inl y ↦ elim (Bool-cases (byte p 0 == 0xFF)) [
        | inl ff ↦ rw (y, ff) refl
        | inr other ↦ elim (Bool-cases (is_vendor_answer p)) [
          | inl vendor ↦ rw (y, other, vendor, u.0) refl
          | inr plain ↦
              rw (y, other, plain)
                (rw (u.0, u.1) at
                  (queue_event-attempt (snoop counted p) p
                    (subst (IsRing event_fifo_depth) (sym u.0) v)))
        ]
      ]
    ]

on_acl-attempt :
    (b : Bridge) (p : List ℕ)
    → IsRing acl_in_fifo_depth b.acl_in_fifo
    → (waiting (on_acl b p).0 Stream.acl, (on_acl b p).1)
      ≡ attempt (accepts b Stream.acl p) Stream.acl p (waiting b Stream.acl)
unfolding on_acl waiting accepts feed_queue
on_acl-attempt b p v =
    let len = length-contents acl_in_fifo_depth b.acl_in_fifo in
    elim (Bool-cases (is_acl p)) [
      | inr n ↦ rw n refl
      | inl a ↦ elim (Bool-cases b.ready) [
        | inr n ↦ rw (a, n) refl
        | inl y ↦ elim (Bool-cases (leb acl_in_fifo_depth b.acl_in_fifo.count)) [
          | inl full ↦ rw (a, y, full, len, not_ltb b.acl_in_fifo.count 8 full) refl
          | inr room ↦
              rw (a, y, room, len, is_ltb b.acl_in_fifo.count 8 room)
                (ap (λ (q : List (List ℕ)). (q, true))
                  (contents-append_back acl_in_fifo_depth b.acl_in_fifo p v (ground arith)))
        ]
      ]
    ]

count_lt :
    (depth : ℕ) (f : Fifo)
    → IsRing depth f
    → leb depth f.count ≡ true
    → (drop_front depth f).count < depth
unfolding drop_front
count_lt depth f v full = ground (arith, v.positive, v.count_in)

-- A full ring that loses its oldest packet and takes a new one.
overwrite-contents :
    (depth : ℕ) (f : Fifo) (p : List ℕ)
    → IsRing depth f
    → leb depth f.count ≡ true
    → contents depth (append_back depth (drop_front depth f) p)
      ≡ drop 1 (contents depth f) ++ (p ∷ [])
overwrite-contents depth f p v full = rw (contents-front depth f (ground (arith, v.positive))) (
    contents-append_back depth (drop_front depth f) p
      (drop_front-IsRing depth f v (ground (arith, v.positive))) (count_lt depth f v full))

on_sco-attempt :
    (b : Bridge) (p : List ℕ)
    → IsRing sco_fifo_depth b.sco_in_fifo
    → (waiting (on_sco b p).0 Stream.sco, (on_sco b p).1)
      ≡ attempt (accepts b Stream.sco p) Stream.sco p (waiting b Stream.sco)
unfolding on_sco enqueue_sco_in waiting accepts feed_queue
on_sco-attempt b p v =
    let len = length-contents sco_fifo_depth b.sco_in_fifo in
    elim (Bool-cases (is_sco p)) [
      | inr n ↦ rw n refl
      | inl a ↦ elim (Bool-cases b.ready) [
        | inr n ↦ rw (a, n) refl
        | inl y ↦ elim (Bool-cases (leb sco_fifo_depth b.sco_in_fifo.count)) [
          | inl full ↦
              rw (a, y, len, full)
                (ap (λ (q : List (List ℕ)). (q, true))
                  (overwrite-contents sco_fifo_depth b.sco_in_fifo p v full))
          | inr room ↦
              rw (a, y, len, room)
                (ap (λ (q : List (List ℕ)). (q, true))
                  (contents-append_back sco_fifo_depth b.sco_in_fifo p v (ground arith)))
        ]
      ]
    ]

-- Feeding a stream of a bridge whose rings are well formed is an attempt to queue on the queue of
-- the stream's packets, and the verdict says whether the packet was queued.
pub on_inbound-attempt :
    (b : Bridge) (s : Stream) (p : List ℕ)
    → HasRings b
    → (waiting (on_inbound b s p).0 s, (on_inbound b s p).1)
      ≡ attempt (accepts b s p) s p (waiting b s)
unfolding on_inbound
on_inbound-attempt b Stream.event p v = on_event-attempt b p v.events_ring
on_inbound-attempt b Stream.acl p v = on_acl-attempt b p v.acl_ring
on_inbound-attempt b Stream.sco p v = on_sco-attempt b p v.sco_ring
