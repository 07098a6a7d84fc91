-- ===== src/Voice/Tick.antt =====
-- src/driver/endpoints.c, DeckBtEvtScoTimer and what it calls, and DeckBtScoFlush.
use virt_bth_usb.Common.{ℕ, ◌+◌, ◌-◌, ◌*◌, ◌/◌, ◌^◌, min, Bool, true, false, ◌||◌}
use virt_bth_usb.Common.{List, [], ◌∷◌, length, byte, ltb, leb, ◌!=◌, if◌then◌else◌, inc32, add32}
use virt_bth_usb.ScoUsb.Out.{out_reset, out_release}
use virt_bth_usb.ScoUsb.In.{ScoIn, in_reset, in_fill}
use virt_bth_usb.Voice.{
  UsbdStatus, success, data_overrun, IsoPacket, ScoStats, Parked, Voice, ScoTransport, Completed,
  sub64,
}

-- The variables of the loop of DeckBtScoFillIn.
pub record Filled (T : Type 0) : Type 0 where
  pub sco_in : ScoIn
  pub transport : T
  pub total : ℕ
  pub errors : ℕ
  pub overall : UsbdStatus

-- The worst lateness of a completion, in microseconds.
unfoldable pub note_late : ℕ → ℕ → ScoStats → ScoStats
note_late now due stats =
    let late_us = sub64 now due / 10 in
    if ltb stats.max_late_us late_us
    then record stats { max_late_us = min late_us (2 ^ 32 - 1) }
    else stats

unfoldable pub complete_out : Parked → Completed
complete_out p = record {
  status = p.status;
  bytes = p.bytes;
  packets = p.isoch.packets;
  voice = [];
}

module _ {T : Type 0} (ops : ScoTransport T) where
  -- DeckBtScoEmit: a reassembled packet goes to the bridge.
  unfoldable pub sco_emit : T × ScoStats → List ℕ → T × ScoStats
  sco_emit (t, stats) packet =
      let (t', accepted) = ops.submit_sco t packet in
      let counted =
        if accepted
        then record stats { out_hci_packets = inc32 stats.out_hci_packets }
        else record stats { out_rejected = inc32 stats.out_rejected } in
      (
        t',
        record counted {
          last_out_header = byte packet 0 + byte packet 1 * 256 + byte packet 2 * 65536;
        },
      )

  -- The first section of the tick: voice whose frame has ended is released.
  unfoldable pub tick_release : ℕ → Voice T → Voice T
  tick_release now v =
      let released = out_release sco_emit v.sco_out now (v.transport, v.stats) in
      record v {
        sco_out = released.out;
        transport = released.context.0;
        stats = released.context.1;
      }

  -- One isochronous packet; `fuel` bounds the packets pulled for it.
  unfoldable pub fill_packet : ℕ → ℕ → ℕ → Filled T → IsoPacket → Filled T × IsoPacket × List ℕ
  fill_packet fuel max_packet_size buffer_length f p =
      let capacity = min max_packet_size (buffer_length - p.offset) in
      let (sco_in, transport, bytes) =
        in_fill ops.pop_sco fuel f.sco_in max_packet_size capacity f.transport in
      if leb p.offset buffer_length
      then (
        record f { sco_in = sco_in; transport = transport; total = add32 f.total (length bytes) },
        record p { status = success; size = length bytes },
        bytes,
      )
      else (
        record f { errors = inc32 f.errors; overall = data_overrun },
        record p { status = data_overrun; size = 0 },
        [],
      )

  unfoldable pub fill_packets :
      ℕ → ℕ → ℕ → Filled T → List IsoPacket → Filled T × List IsoPacket × List (List ℕ)
  fill_packets fuel max_packet_size buffer_length f [] = (f, [], [])
  fill_packets fuel max_packet_size buffer_length f (p ∷ packets) =
      let (f', p', bytes) = fill_packet fuel max_packet_size buffer_length f p in
      let (z, packets', voice) = fill_packets fuel max_packet_size buffer_length f' packets in
      (z, p' ∷ packets', bytes ∷ voice)

  -- DeckBtScoFillIn; the URB of a parked request is still what it was when it was parked.
  unfoldable pub fill_in : ℕ → Parked → Voice T → Voice T × Completed
  fill_in fuel p v =
      let start : Filled T = record {
        sco_in = v.sco_in;
        transport = v.transport;
        total = 0;
        errors = 0;
        overall = success;
      } in
      let (f, packets, voice) =
        fill_packets fuel p.max_packet_size (length p.isoch.buffer) start p.isoch.packets in
      let stats = v.stats in
      (
        record v {
          sco_in = f.sco_in;
          transport = f.transport;
          stats = record stats { in_bytes = add32 stats.in_bytes f.total };
        },
        record { status = f.overall; bytes = f.total; packets = packets; voice = voice },
      )

  -- A transfer whose slot has ended.
  unfoldable pub complete_one : ℕ → Bool → ℕ → Parked → Voice T → Voice T × Completed
  complete_one fuel is_in now p v =
      let noted = record v { stats = note_late now p.due v.stats } in
      if is_in then fill_in fuel p noted else (noted, complete_out p)

  -- The loop of DeckBtScoCompleteDue over a queue, with no cancellation in between: the state, the
  -- transfers left and those completed.
  unfoldable pub complete_due :
      ℕ → Bool → ℕ → List Parked → Voice T → Voice T × List Parked × List Completed
  complete_due fuel is_in now [] v = (v, [], [])
  complete_due fuel is_in now (p ∷ queue) v =
      let (w, c) = complete_one fuel is_in now p v in
      let (z, left, done) = complete_due fuel is_in now queue w in
      if ltb now p.due then (v, p ∷ queue, []) else (z, left, c ∷ done)

  unfoldable pub tick_complete : ℕ → Bool → ℕ → Voice T → Voice T × List Completed
  tick_complete fuel is_in now v =
      let (z, left, done) =
        complete_due fuel is_in now (if is_in then v.in_queue else v.out_queue) v in
      (if is_in then record z { in_queue = left } else record z { out_queue = left }, done)

-- The last section of the tick: whether it starts the timer again.
unfoldable pub is_pending : {T : Type 0} → Voice T → Bool
is_pending v = v.sco_out.count != 0 || length v.out_queue != 0 || length v.in_queue != 0

unfoldable pub tick_check : {T : Type 0} → Voice T → Voice T × Bool
tick_check v = if is_pending v then (v, true) else (record v { timer_armed = false }, false)

-- The last section of DeckBtScoFlush, for as many transfers as were cancelled.
unfoldable pub flush_framers : {T : Type 0} → ℕ → Voice T → Voice T
flush_framers flushed v =
    let stats = v.stats in
    let out = v.sco_out in
    let voice = v.sco_in in
    record v {
      stats = record stats {
        out_ring_drops = add32 stats.out_ring_drops out.ring_drops;
        out_resync_skips = add32 stats.out_resync_skips out.resync_skips;
        in_hci_packets = add32 stats.in_hci_packets voice.framed_packets;
        in_source_packets = add32 stats.in_source_packets voice.source_packets;
        in_source_rejected = add32 stats.in_source_rejected voice.source_rejected;
        in_dropped_bytes = add32 stats.in_dropped_bytes voice.dropped_bytes;
        in_last_source_length =
            if voice.last_source_length != 0
            then voice.last_source_length
            else stats.in_last_source_length;
        flushed = add32 stats.flushed flushed;
      };
      sco_out = out_reset;
      sco_in = in_reset;
      out_clock = 0;
      in_clock = 0;
    }

-- DeckBtScoFlush with nothing in between: the state and the number of transfers cancelled.
unfoldable pub flush : {T : Type 0} → Voice T → Voice T × ℕ
flush v =
    let flushed = length v.out_queue + length v.in_queue in
    (flush_framers flushed (record v { out_queue = []; in_queue = [] }), flushed)
