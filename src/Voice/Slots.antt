-- ===== src/Voice/Slots.antt =====
-- src/driver/endpoints.c, DeckBtScoAccept: the slots that it gives to transfers.
use virt_bth_usb.Common.{ℕ, ◌+◌, ◌*◌, ◌^◌, ◌<◌, ◌≤◌, ◌≡◌, refl, arith, Bool, true, false, cases}
use virt_bth_usb.Common.{List, [], ◌∷◌, length, if◌then◌else◌}
use virt_bth_usb.ScoUsb.{schedule, out_packet_span}
use virt_bth_usb.Voice.{Isoch, IsoPacket, Voice}
use virt_bth_usb.Voice.Accept.{
  Scan, no_scan, scan_packet, scan_packets, is_outside, accept_out, accept_in, accept_locked,
}

span_bound : (max_packet_size size : ℕ) → out_packet_span max_packet_size size ≤ 75000
unfolding out_packet_span
span_bound max_packet_size size = ground arith

scan_packet-span :
    (buffer_length max_packet_size : ℕ) (s : Scan) (p : IsoPacket)
    → (scan_packet buffer_length max_packet_size s p).0.span ≤ s.span + 75000
unfolding scan_packet
scan_packet-span buffer_length m s p =
    let spans = span_bound m p.size in
    cases (λ (r : Scan × IsoPacket). r.0.span ≤ s.span + 75000) (is_outside buffer_length p)
      (λ _. omega arith) (λ _. omega arith)

scan_packets-span :
    (buffer_length max_packet_size : ℕ) (s : Scan) (packets : List IsoPacket)
    → (scan_packets buffer_length max_packet_size s packets).0.span
      ≤ s.span + 75000 * length packets
unfolding scan_packets
scan_packets-span buffer_length m s [] = omega arith
scan_packets-span buffer_length m s (p ∷ packets) = omega (
  arith,
  scan_packets-span buffer_length m (scan_packet buffer_length m s p).0 packets,
  scan_packet-span buffer_length m s p,
)

schedule-later :
    (clock now span : ℕ)
    → clock < 2 ^ 63
    → now < 2 ^ 63
    → span < 2 ^ 63
    → clock ≤ schedule clock now span
unfolding schedule
schedule-later clock now span h k l = ground arith

-- The slot of a transfer on its endpoint's clock, and the other endpoint's clock as it was.
pub record Advances {T : Type 0} (is_out : Bool) (v w : Voice T) (due : ℕ) : Type 0 where
  pub out_clock : w.out_clock ≡ (if is_out then due else v.out_clock)
  pub in_clock : w.in_clock ≡ (if is_out then v.in_clock else due)
  pub later : (if is_out then v.out_clock else v.in_clock) ≤ due
  pub out_queue : w.out_queue ≡ v.out_queue
  pub in_queue : w.in_queue ≡ v.in_queue

-- Times that have not passed the middle of their range.
pub record IsEarly {T : Type 0} (now : ℕ) (v : Voice T) : Type 0 where
  pub time : now < 2 ^ 63
  pub out_clock : v.out_clock < 2 ^ 63
  pub in_clock : v.in_clock < 2 ^ 63

module _ {T : Type 0} (now max_packet_size : ℕ) (v : Voice T) (e : IsEarly now v) where
  accept_out-Advances :
      (isoch : Isoch)
      → length isoch.packets < 2 ^ 32
      → Advances true v
          (accept_out now max_packet_size isoch v).1
          (accept_out now max_packet_size isoch v).0.due
  unfolding accept_out
  accept_out-Advances isoch h = record {
    out_clock = refl;
    in_clock = refl;
    later = schedule-later v.out_clock now _ e.out_clock e.time (
        omega
          (arith, scan_packets-span (length isoch.buffer) max_packet_size no_scan isoch.packets));
    out_queue = refl;
    in_queue = refl;
  }

  accept_in-Advances :
      (isoch : Isoch)
      → length isoch.packets < 2 ^ 32
      → Advances false v
          (accept_in now max_packet_size isoch v).1
          (accept_in now max_packet_size isoch v).0.due
  unfolding accept_in
  accept_in-Advances isoch h = record {
    out_clock = refl;
    in_clock = refl;
    later = schedule-later v.in_clock now _ e.in_clock e.time (omega (arith, h));
    out_queue = refl;
    in_queue = refl;
  }

  pub accept_locked-Advances :
      (is_out has_context : Bool) (isoch : Isoch)
      → length isoch.packets < 2 ^ 32
      → Advances is_out v
          (accept_locked now max_packet_size is_out has_context isoch v).1
          (accept_locked now max_packet_size is_out has_context isoch v).0.due
  unfolding accept_locked
  accept_locked-Advances true true isoch h = accept_out-Advances isoch h
  accept_locked-Advances true false isoch h =
      let a = accept_out-Advances isoch h in
      record {
        out_clock = a.out_clock;
        in_clock = a.in_clock;
        later = a.later;
        out_queue = a.out_queue;
        in_queue = a.in_queue;
      }
  accept_locked-Advances false true isoch h = accept_in-Advances isoch h
  accept_locked-Advances false false isoch h =
      let a = accept_in-Advances isoch h in
      record {
        out_clock = a.out_clock;
        in_clock = a.in_clock;
        later = a.later;
        out_queue = a.out_queue;
        in_queue = a.in_queue;
      }
