-- ===== src/Voice/Accept.antt =====
-- src/driver/endpoints.c, DeckBtScoAccept: a transfer is given its slot on the endpoint's frame clock and
-- parked. Whether the request has room for its context and whether the queue takes it are the
-- framework's answers, and parameters, as is the time.
use virt_bth_usb.Common.{
  ℕ, ◌+◌, ◌-◌, ◌*◌, ◌%◌, Bool, true, false, not, ◌&&◌, ◌||◌, Option, none, some,
}
use virt_bth_usb.Common.{
  List, [], ◌∷◌, ◌++◌, length, map, take, drop, ltb, ◌==◌, if◌then◌else◌, inc32, add32, ◌^◌,
}
use virt_bth_usb.ScoUsb.{schedule, out_packet_span, frame_100ns}
use virt_bth_usb.ScoUsb.Out.{ScoOut, out_push}
use virt_bth_usb.Voice.{
  UsbdStatus, success, data_overrun, invalid_parameter, cancelled, IsoPacket, Isoch, ScoRequest,
  sco_urb, Parked, Voice, Completed, add64, sub64,
}

abbrev pub is_success : UsbdStatus → Bool
is_success success = true
is_success data_overrun = false
is_success invalid_parameter = false
is_success cancelled = false

-- The variables of the first loop.
pub record Scan : Type 0 where
  pub span : ℕ
  pub total : ℕ
  pub errors : ℕ
  pub overall : UsbdStatus

abbrev pub no_scan : Scan
no_scan = record { span = 0; total = 0; errors = 0; overall = success }

-- The packet is not inside the transfer's buffer.
unfoldable pub is_outside : ℕ → IsoPacket → Bool
is_outside buffer_length p = ltb buffer_length p.offset || ltb (buffer_length - p.offset) p.size

unfoldable pub scan_packet : ℕ → ℕ → Scan → IsoPacket → Scan × IsoPacket
scan_packet buffer_length max_packet_size s p =
    if is_outside buffer_length p
    then (
      record s { span = add64 s.span frame_100ns; errors = inc32 s.errors; overall = data_overrun },
      record p { status = data_overrun },
    )
    else (
      record s {
        span = add64 s.span (out_packet_span max_packet_size p.size);
        total = add32 s.total p.size;
      },
      record p { status = success },
    )

unfoldable pub scan_packets : ℕ → ℕ → Scan → List IsoPacket → Scan × List IsoPacket
scan_packets buffer_length max_packet_size s [] = (s, [])
scan_packets buffer_length max_packet_size s (p ∷ packets) =
    let (s', p') = scan_packet buffer_length max_packet_size s p in
    let (z, packets') = scan_packets buffer_length max_packet_size s' packets in (z, p' ∷ packets')

unfoldable pub packet_span : ℕ → IsoPacket → ℕ
packet_span max_packet_size p =
    if is_success p.status then out_packet_span max_packet_size p.size else frame_100ns

-- The bytes of a packet.
unfoldable pub packet_bytes : List ℕ → IsoPacket → List ℕ
packet_bytes buffer p = take p.size (drop p.offset buffer)

-- The second loop, from the time `at`.
unfoldable pub push_packets : ℕ → List ℕ → ℕ → List IsoPacket → ScoOut → ScoOut
push_packets max_packet_size buffer at [] out = out
push_packets max_packet_size buffer at (p ∷ packets) out =
    let at' = add64 at (packet_span max_packet_size p) in
    push_packets max_packet_size buffer at' packets
      (if is_success p.status then out_push out at' (packet_bytes buffer p) else out)

unfoldable pub geometry : ℕ → ℕ → ℕ
geometry packets low = packets * 65536 % 2 ^ 32 + low % 65536

unfoldable pub first_size : List IsoPacket → ℕ
first_size [] = 0
first_size (p ∷ packets) = p.size

-- What the section under the lock decides for a transfer.
pub record Slot : Type 0 where
  pub due : ℕ
  pub total : ℕ
  pub overall : UsbdStatus
  pub isoch : Isoch

module _ {T : Type 0} (now max_packet_size : ℕ) where
  unfoldable pub accept_out : Isoch → Voice T → Slot × Voice T
  accept_out isoch v =
      let (scan, packets) =
        scan_packets (length isoch.buffer) max_packet_size no_scan isoch.packets in
      let due = schedule v.out_clock now scan.span in
      let start = sub64 due scan.span in
      let stats = v.stats in
      (
        record {
          due = due;
          total = scan.total;
          overall = scan.overall;
          isoch = record isoch {
            packets = packets;
            status = scan.overall;
            error_count = scan.errors;
          };
        },
        record v {
          out_clock = due;
          sco_out = push_packets max_packet_size isoch.buffer start packets v.sco_out;
          stats = record stats {
            first_out_geometry =
                if stats.out_urbs == 0
                then geometry (length packets) (first_size packets)
                else stats.first_out_geometry;
            out_urbs = inc32 stats.out_urbs;
            out_iso_packets = add32 stats.out_iso_packets (length packets);
            out_bytes = add32 stats.out_bytes scan.total;
            out_max_packet = max_packet_size;
            last_transfer_flags = isoch.transfer_flags;
          };
        },
      )

  unfoldable pub accept_in : Isoch → Voice T → Slot × Voice T
  accept_in isoch v =
      let packets = length isoch.packets in
      let due = schedule v.in_clock now (packets * frame_100ns % 2 ^ 64) in
      let stats = v.stats in
      (
        record { due = due; total = 0; overall = success; isoch = isoch },
        record v {
          in_clock = due;
          stats = record stats {
            first_in_geometry =
                if stats.in_urbs == 0
                then geometry packets (length isoch.buffer)
                else stats.first_in_geometry;
            in_urbs = inc32 stats.in_urbs;
            in_iso_packets = add32 stats.in_iso_packets packets;
            in_max_packet = max_packet_size;
            last_transfer_flags = isoch.transfer_flags;
          };
        },
      )

  -- The section under the lock, for an OUT or an IN transfer, with or without a context.
  unfoldable pub accept_locked : Bool → Bool → Isoch → Voice T → Slot × Voice T
  accept_locked is_out has_context isoch v =
      let (slot, w) = if is_out then accept_out isoch v else accept_in isoch v in
      let stats = w.stats in
      let unpaced = record w { stats = record stats { unpaced_urbs = inc32 stats.unpaced_urbs } } in
      (slot, if has_context then w else unpaced)

unfoldable pub parked_of : ℕ → Slot → Parked
parked_of max_packet_size slot = record {
  due = slot.due;
  bytes = slot.total;
  status = slot.overall;
  max_packet_size = max_packet_size;
  isoch = slot.isoch;
}

-- WdfRequestForwardToIoQueue, when it succeeds.
unfoldable pub park : {T : Type 0} → ℕ → Bool → Slot → Voice T → Voice T
park max_packet_size is_out slot v =
    let parked = parked_of max_packet_size slot ∷ [] in
    if is_out
    then record v { out_queue = v.out_queue ++ parked }
    else record v { in_queue = v.in_queue ++ parked }

-- DeckBtScoCompleteEmptyIn.
unfoldable pub complete_empty_in : Isoch → Completed
complete_empty_in isoch = record {
  status = success;
  bytes = 0;
  packets = map (λ (p : IsoPacket). record p { size = 0; status = success }) isoch.packets;
  voice = map (λ (p : IsoPacket). []) isoch.packets;
}

-- Completed at once, since it cannot be parked.
unfoldable pub complete_now : Bool → Slot → Completed
complete_now is_out slot =
    if is_out
    then record {
      status = slot.overall;
      bytes = slot.total;
      packets = slot.isoch.packets;
      voice = [];
    }
    else complete_empty_in slot.isoch

-- DeckBtScoKick: whether the timer is to be started.
unfoldable pub kick : {T : Type 0} → Voice T → Voice T × Bool
kick v = (record v { timer_armed = true }, not v.timer_armed)

-- DeckBtScoAccept of the transfer found, with nothing in between, no other arrival either: the state,
-- whether the timer is started and the completion, if the transfer is not parked. Arrivals that
-- interleave are in Voice.Arrivals.
unfoldable pub accept_found :
    {T : Type 0}
    → ℕ
    → ℕ
    → Bool
    → Bool
    → Bool
    → Voice T
    → Option Isoch
    → Voice T × Bool × Option Completed
accept_found now max_packet_size is_out has_context is_forwarded v none =
    let stats = v.stats in
    (
      record v { stats = record stats { bad_urbs = inc32 stats.bad_urbs } },
      false,
      some (record { status = invalid_parameter; bytes = 0; packets = []; voice = [] }),
    )
accept_found now max_packet_size is_out has_context is_forwarded v (some isoch) =
    let (slot, w) = accept_locked now max_packet_size is_out has_context isoch v in
    let kept = kick (park max_packet_size is_out slot w) in
    let refused = kick w in
    if has_context && is_forwarded
    then (kept.0, kept.1, none)
    else (refused.0, refused.1, some (complete_now is_out slot))

unfoldable pub sco_accept :
    {T : Type 0}
    → ℕ
    → ℕ
    → Bool
    → Bool
    → Bool
    → ScoRequest
    → Voice T
    → Voice T × Bool × Option Completed
sco_accept now max_packet_size is_out has_context is_forwarded request v =
    accept_found now max_packet_size is_out has_context is_forwarded v (sco_urb request)
