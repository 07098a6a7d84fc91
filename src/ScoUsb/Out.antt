-- ===== src/ScoUsb/Out.antt =====
-- src/common/sco_usb.c, host to controller: isochronous packets are queued with the time of their
-- frame, and released as a byte stream that HCI SCO packets are reassembled from. `Packet` with
-- `Have` is the list of the bytes reassembled so far; `Emit` takes and returns the caller's context.
pub mod Reassembly
pub mod Packets
pub mod Ring
pub mod Push
pub mod Release
pub mod Delivery
use virt_bth_usb.Common.{ℕ, zero, suc, ◌+◌, ◌-◌, ◌%◌, Bool, true, false, not, ◌&&◌, ◌||◌}
use virt_bth_usb.Common.{List, [], ◌∷◌, ◌++◌, length, get_or, set, take, drop, replicate, byte}
use virt_bth_usb.Common.{◌==◌, ◌!=◌, ltb, leb, if◌then◌else◌, inc32}
use virt_bth_usb.ScoUsb.{header_size, max_iso_packet, handle_of}

abbrev pub ring_slots : ℕ
ring_slots = 128

-- SCO_USB_NO_HANDLE.
abbrev pub no_handle : ℕ
no_handle = 0xFFFF

-- SCO_USB_OUT_CHUNK: Data[0..Length) and its time.
pub record Chunk : Type 0 where
  pub due : ℕ
  pub bytes : List ℕ

abbrev pub no_chunk : Chunk
no_chunk = record { due = 0; bytes = [] }

-- SCO_USB_OUT.
pub record ScoOut : Type 0 where
  pub ring : List Chunk
  pub head : ℕ
  pub count : ℕ
  pub packet : List ℕ
  pub resync : Bool
  pub last_handle : ℕ
  pub emitted : ℕ
  pub ring_drops : ℕ
  pub resync_skips : ℕ

unfoldable pub out_reset : ScoOut
out_reset = record {
  ring = replicate ring_slots no_chunk;
  head = 0;
  count = 0;
  packet = [];
  resync = false;
  last_handle = no_handle;
  emitted = 0;
  ring_drops = 0;
  resync_skips = 0;
}

-- A full ring loses its oldest frame, and with it the packet being reassembled.
unfoldable pub make_room : ScoOut → ScoOut
make_room out =
    if out.count == ring_slots
    then record out {
      head = (out.head + 1) % ring_slots;
      count = out.count - 1;
      ring_drops = inc32 out.ring_drops;
      packet = [];
      resync = true;
    }
    else out

unfoldable pub append_chunk : ScoOut → Chunk → ScoOut
append_chunk out chunk = record out {
  ring = set out.ring ((out.head + out.count) % ring_slots) chunk;
  count = out.count + 1;
}

-- The while loop; every round takes a byte at least, so one round for each byte is enough.
unfoldable pub push_frames : ℕ → ScoOut → ℕ → List ℕ → ScoOut
push_frames zero out due bytes = out
push_frames (suc fuel) out due bytes =
    let chunk : Chunk = record { due = due; bytes = take max_iso_packet bytes } in
    let rest =
      push_frames fuel (append_chunk (make_room out) chunk) due (drop max_iso_packet bytes) in
    if length bytes == 0 then out else rest

unfoldable pub out_push : ScoOut → ℕ → List ℕ → ScoOut
out_push out due bytes = push_frames (length bytes) out due bytes

-- The state, the caller's context and the number of packets emitted in this call.
pub record Progress (C : Type 0) : Type 0 where
  pub out : ScoOut
  pub context : C
  pub now_emitted : ℕ

-- The first bytes of a frame are not those of a packet of the stream in progress.
unfoldable pub is_off_stream : ScoOut → List ℕ → Bool
is_off_stream out bytes =
    out.last_handle != no_handle && (ltb (length bytes) 2 || handle_of bytes != out.last_handle)

-- What of the frame at the head is reassembled, after the check for resynchronisation.
unfoldable pub resynchronise : ScoOut → List ℕ → ScoOut × List ℕ
resynchronise out bytes =
    if out.resync
    then (if is_off_stream out bytes
        then (record out { resync_skips = inc32 out.resync_skips }, [])
        else (record out { resync = false }, bytes))
    else (out, bytes)

-- The packet is whole.
unfoldable pub is_whole : List ℕ → Bool
is_whole packet = leb header_size (length packet) && length packet == header_size + byte packet 2

-- The bytes the packet lacks: of its header, then of its payload.
unfoldable pub lacks : List ℕ → ℕ
lacks packet =
    (if ltb (length packet) header_size then header_size else header_size + byte packet 2)
    - length packet

unfoldable pub drop_chunk : ScoOut → ScoOut
drop_chunk out = record out { head = (out.head + 1) % ring_slots; count = out.count - 1 }

module _ {C : Type 0} (emit : C → List ℕ → C) where
  -- The packet with the bytes just copied: handed over if it is whole.
  unfoldable pub hand_over : Progress C → List ℕ → Progress C
  hand_over p packet =
      let out = p.out in
      if is_whole packet
      then record {
        out = record out {
          packet = [];
          last_handle = handle_of packet;
          emitted = inc32 out.emitted;
        };
        context = emit p.context packet;
        now_emitted = inc32 p.now_emitted;
      }
      else record p { out = record out { packet = packet } }

  -- The while loop over a frame's bytes; every round takes a byte at least.
  unfoldable pub reassemble : ℕ → Progress C → List ℕ → Progress C
  reassemble zero p bytes = p
  reassemble (suc fuel) p bytes =
      let n = lacks p.out.packet in
      let rest = reassemble fuel (hand_over p (p.out.packet ++ take n bytes)) (drop n bytes) in
      if length bytes == 0 then p else rest

  -- The frame at the head goes through the reassembly and leaves the ring.
  unfoldable pub release_chunk : Progress C → Progress C
  release_chunk p =
      let bytes = (get_or p.out.ring p.out.head no_chunk).bytes in
      let (out, rest) = resynchronise p.out bytes in
      let p' = reassemble (length rest) (record p { out = out }) rest in
      record p' { out = drop_chunk p'.out }

  -- The while loop over the frames that are due, at most the `n` queued ones.
  unfoldable pub release_due : ℕ → ℕ → Progress C → Progress C
  release_due zero now p = p
  release_due (suc n) now p =
      let rest = release_due n now (release_chunk p) in
      if ltb 0 p.out.count && leb (get_or p.out.ring p.out.head no_chunk).due now then rest else p

  unfoldable pub out_release : ScoOut → ℕ → C → Progress C
  out_release out now context =
      release_due out.count now (record { out = out; context = context; now_emitted = 0 })
