-- ===== src/Voice/Examples.antt =====
-- src/driver/endpoints.c, voice: concrete transfers.
use virt_bth_usb.Common.{
  ℕ, ◌+◌, ◌%◌, ◌^◌, ◌≤◌, ◌<◌, ◌≡◌, ◌⊎◌, refl, arith, true, false, none, some, List, [], ◌∷◌,
}
use virt_bth_usb.ScoUsb.Out.{out_reset}
use virt_bth_usb.ScoUsb.In.{in_reset}
use virt_bth_usb.Voice.{success, IsoPacket, Isoch, Parked, Voice, ScoTransport, no_stats}
use virt_bth_usb.Voice.Accept.{accept_locked, kick}
use virt_bth_usb.Voice.Tick.{tick_complete, complete_due, complete_one, fill_in, is_pending}
use virt_bth_usb.Voice.Filling.{AllFilled, total_size, fill_in-AllFilled}
use virt_bth_usb.Voice.Sections.{System, one_if, here, next, accepts, kicks}
use virt_bth_usb.Voice.Configure.{
  Endpoint, configure, sco_packet_size_in, largest_from, larger, is_sco, IsEnded, by_size,
  configure-recognises,
}
use virt_bth_usb.Voice.Armed.{IsPaced, Reach-attends}
use virt_bth_usb.Voice.Order.{IsOrdered, Completes, tick_complete-Completes}
use virt_bth_usb.Voice.Order.{InOrder}
use virt_bth_usb.Common.{inr}
use virt_bth_usb.ScoUsb.{schedule, out_packet_span}
use virt_bth_usb.Voice.Accept.{park, accept_out, scan_packets, scan_packet, is_outside}
use virt_bth_usb.Voice.Slots.{IsEarly}
use virt_bth_usb.Voice.Arrivals.{Taken, Arrivals, take_slot, takes_out, parks_out}
use virt_bth_usb.Voice.Overtaking.{Within}
use virt_bth_usb.Voice.Parking.{IsArriving, Reach-InOrder}
use virt_bth_usb.Voice.Arrivals

-- A transport that keeps what it is given, newest first, and has no voice to read.
abbrev sink : ScoTransport (List (List ℕ))
sink = record { submit_sco = λ t p. (p ∷ t, true); pop_sco = λ t. none }

abbrev quiet : Voice (List (List ℕ))
quiet = record {
  transport = [];
  out_queue = [];
  in_queue = [];
  timer_armed = false;
  out_clock = 0;
  in_clock = 0;
  sco_out = out_reset;
  sco_in = in_reset;
  stats = no_stats;
}

-- Two isochronous packets, of three and of two bytes.
abbrev two_packets : List IsoPacket
two_packets =
    record { offset = 0; size = 3; status = success }
    ∷ record { offset = 3; size = 2; status = success }
    ∷ []

abbrev voice_bytes : List ℕ
voice_bytes = 1 ∷ 0 ∷ 31 ∷ 0 ∷ 0 ∷ []

abbrev parked_at : ℕ → Parked
parked_at due = record {
  due = due;
  bytes = 5;
  status = success;
  max_packet_size = 17;
  isoch = record {
    packets = two_packets;
    buffer = voice_bytes;
    transfer_flags = 0;
    status = success;
    error_count = 0;
  };
}

abbrev two_parked : Voice (List (List ℕ))
two_parked = record quiet { out_queue = parked_at 10000 ∷ parked_at 30000 ∷ []; out_clock = 30000 }

two_parked-IsOrdered : IsOrdered two_parked
two_parked-IsOrdered = record {
  out = record { ascends = omega arith; by_clock = omega arith };
  in_ = record { ascends = tt; by_clock = tt };
}

tick_complete-Completes_example :
    IsOrdered (tick_complete sink 8 false 15000 two_parked).0
    × Completes 15000
        (parked_at 10000 ∷ parked_at 30000 ∷ [])
        (tick_complete sink 8 false 15000 two_parked).0.out_queue
        (tick_complete sink 8 false 15000 two_parked).1
tick_complete-Completes_example =
    tick_complete-Completes sink 8 false 15000 two_parked two_parked-IsOrdered

one_left : (tick_complete sink 8 false 15000 two_parked).0.out_queue ≡ parked_at 30000 ∷ []
unfolding tick_complete complete_due complete_one
one_left = refl

-- A transfer has been given its slot, and its request has not been parked.
abbrev resting : System (List (List ℕ))
resting = record { voice = quiet; accepting = 0; starting = 0; scheduled = 0; ticking = 0 }

resting-IsPaced : IsPaced resting
unfolding is_pending out_reset
resting-IsPaced = record { one = refl; covered = λ e. absurd (ground (arith, e)) }

abbrev isoch : Isoch
isoch = record {
  packets = two_packets;
  buffer = voice_bytes;
  transfer_flags = 0;
  status = success;
  error_count = 0;
}

abbrev accepted : Voice (List (List ℕ))
accepted = (accept_locked 5000 17 true true isoch quiet).1

abbrev kicked : System (List (List ℕ))
kicked = record {
  voice = (kick accepted).0;
  accepting = 0;
  starting = 0 + one_if (kick accepted).1;
  scheduled = 0;
  ticking = 0;
}

Reach-attends_example :
    (kicked.starting + kicked.scheduled + kicked.ticking ≤ 1)
    × ((is_pending kicked.voice ≡ false)
        ⊎ (0 < kicked.accepting)
        ⊎ (kicked.starting + kicked.scheduled + kicked.ticking ≡ 1))
Reach-attends_example =
    Reach-attends {ops = sink} resting kicked resting-IsPaced
      (next (next here (accepts 5000 17 true true isoch)) (kicks (omega arith)))

-- The transport has no voice, and the transfer comes back empty.
fill_in-AllFilled_example :
    AllFilled 17 5 two_packets
      (fill_in sink 8 (parked_at 10000) quiet).1.packets
      (fill_in sink 8 (parked_at 10000) quiet).1.voice
    × ((fill_in sink 8 (parked_at 10000) quiet).1.bytes
        ≡ total_size (fill_in sink 8 (parked_at 10000) quiet).1.packets % 2 ^ 32)
fill_in-AllFilled_example = fill_in-AllFilled sink 8 (parked_at 10000) quiet

-- The endpoints of setting 2.
abbrev setting_two : List Endpoint
setting_two =
    record { address = 0x03; max_packet_size = 17 }
    ∷ record { address = 0x83; max_packet_size = 17 }
    ∷ []

setting_two-size : sco_packet_size_in setting_two ≡ some 17
unfolding sco_packet_size_in largest_from larger is_sco
setting_two-size = refl

configure-recognises_example :
    (let r = configure setting_two [] (record { alt_setting = 0; alt_changes = 4 }) quiet in
      (r.0.alt_setting ≡ 2) × (r.0.alt_changes ≡ 5) × IsEnded r.1)
configure-recognises_example =
    configure-recognises 2 setting_two [] (record { alt_setting = 0; alt_changes = 4 }) quiet
      (omega arith) (by_size setting_two-size)

-- Two transfers take their slots, and the second is parked first.
abbrev before_arrivals : Arrivals (List (List ℕ))
before_arrivals = record {
  voice = quiet;
  out = record { taken = []; overtakes = 0 };
  in_ = record { taken = []; overtakes = 0 };
}

before_arrivals-IsArriving : IsArriving before_arrivals
before_arrivals-IsArriving = record {
  out = record { within = tt; order = inr tt };
  in_ = record { within = tt; order = inr tt };
}

abbrev take_one : Arrivals (List (List ℕ)) → Arrivals (List (List ℕ))
take_one s = record s {
  voice = (accept_locked 5000 17 true true isoch s.voice).1;
  out = take_slot 17 (accept_locked 5000 17 true true isoch s.voice).0 s.out;
}

abbrev first_taken : Taken
first_taken = record {
  max_packet_size = 17;
  slot = (accept_locked 5000 17 true true isoch quiet).0;
}

abbrev second_taken : Taken
second_taken = record {
  max_packet_size = 17;
  slot = (accept_locked 5000 17 true true isoch (take_one before_arrivals).voice).0;
}

abbrev both_taken : Arrivals (List (List ℕ))
both_taken = take_one (take_one before_arrivals)

abbrev second_parked : Arrivals (List (List ℕ))
second_parked = record both_taken {
  voice = park 17 true second_taken.slot both_taken.voice;
  out = record { taken = first_taken ∷ []; overtakes = 1 };
}

quiet-IsEarly : IsEarly 5000 quiet
quiet-IsEarly = record { time = omega arith; out_clock = omega arith; in_clock = omega arith }

taken-IsEarly : IsEarly 5000 (take_one before_arrivals).voice
unfolding accept_locked accept_out schedule scan_packets scan_packet is_outside out_packet_span
taken-IsEarly = record { time = omega arith; out_clock = omega arith; in_clock = omega arith }

Reach-InOrder_example :
    Within second_parked.voice.out_clock second_parked.voice.out_queue
    × Within second_parked.voice.in_clock second_parked.voice.in_queue
    × ((0 < second_parked.out.overtakes)
        ⊎ InOrder second_parked.voice.out_clock second_parked.voice.out_queue)
    × ((0 < second_parked.in_.overtakes)
        ⊎ InOrder second_parked.voice.in_clock second_parked.voice.in_queue)
Reach-InOrder_example =
    Reach-InOrder sink before_arrivals second_parked before_arrivals-IsArriving (
      Arrivals.next
        (Arrivals.next
          (Arrivals.next Arrivals.here (takes_out 5000 17 true isoch quiet-IsEarly (omega arith)))
          (takes_out 5000 17 true isoch taken-IsEarly (omega arith)))
        (parks_out (first_taken ∷ []) [] second_taken refl))
