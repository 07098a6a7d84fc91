-- ===== src/ScoUsb/In.antt =====
-- src/common/sco_usb.c, controller to host: the voice of the pulled HCI SCO packets is queued byte by
-- byte and framed again into packets of the alternate setting's size. `Pull` returns none when
-- there is no packet, and else the packet it wrote with the caller's new context.
pub mod Voice
pub mod Accept
pub mod Gather
pub mod Frame
pub mod Fill
use virt_bth_usb.Common.{ℕ, zero, suc, ◌+◌, ◌-◌, ◌*◌, ◌/◌, ◌%◌, Bool, true, false, not, ◌&&◌, ◌||◌}
use virt_bth_usb.Common.{
  List, [], ◌∷◌, ◌++◌, length, get_or, set, take, drop, replicate, byte, le16,
}
use virt_bth_usb.Common.{◌==◌, ◌!=◌, ltb, leb, if◌then◌else◌, inc32, add32, Option, none, some, min}
use virt_bth_usb.ScoUsb.{header_size, max_iso_packet}

-- SCO_USB_IN_FIFO_BYTES.
abbrev pub fifo_bytes : ℕ
fifo_bytes = 512

-- SCO_USB_IN. The frame is Frame[0..FrameLength).
pub record ScoIn : Type 0 where
  pub fifo : List ℕ
  pub fifo_head : ℕ
  pub fifo_count : ℕ
  pub handle_field : ℕ
  pub have_handle : Bool
  pub frame : List ℕ
  pub frame_offset : ℕ
  pub source_packets : ℕ
  pub source_rejected : ℕ
  pub framed_packets : ℕ
  pub dropped_bytes : ℕ
  pub last_source_length : ℕ

unfoldable pub in_payload_size : ℕ → ℕ
in_payload_size max_packet_size =
    if ltb max_packet_size 4
    then 0
    else if leb max_iso_packet max_packet_size
    then min 255 (max_packet_size - header_size)
    else 3 * max_packet_size - header_size

unfoldable pub in_reset : ScoIn
in_reset = record {
  fifo = replicate fifo_bytes 0;
  fifo_head = 0;
  fifo_count = 0;
  handle_field = 0;
  have_handle = false;
  frame = [];
  frame_offset = 0;
  source_packets = 0;
  source_rejected = 0;
  framed_packets = 0;
  dropped_bytes = 0;
  last_source_length = 0;
}

unfoldable pub push_byte : ScoIn → ℕ → ScoIn
push_byte s b = record s {
  fifo = set s.fifo ((s.fifo_head + s.fifo_count) % fifo_bytes) b;
  fifo_count = s.fifo_count + 1;
}

-- The for loop over the payload.
unfoldable pub push_voice : ScoIn → List ℕ → ScoIn
push_voice s [] = s
push_voice s (b ∷ bytes) = push_voice (push_byte s b) bytes

-- Another link's voice is dropped.
unfoldable pub leave_link : ScoIn → ℕ → ScoIn
leave_link s field =
    if s.have_handle && field % 4096 != s.handle_field % 4096
    then record s {
      dropped_bytes = add32 s.dropped_bytes s.fifo_count;
      fifo_head = 0;
      fifo_count = 0;
    }
    else s

-- The packet is not one: too short for its header, or its length is not its payload's.
unfoldable pub is_malformed : List ℕ → Bool
is_malformed packet =
    ltb (length packet) header_size || length packet != header_size + byte packet 2

unfoldable pub in_accept : ScoIn → List ℕ → ScoIn
in_accept s packet =
    if is_malformed packet
    then record s { source_rejected = inc32 s.source_rejected }
    else push_voice
        (record (leave_link s (le16 packet 0)) {
          handle_field = le16 packet 0;
          have_handle = true;
          source_packets = inc32 s.source_packets;
          last_source_length = byte packet 2;
        })
        (drop header_size packet)

-- The for loop that takes the payload out of the queue.
unfoldable pub pull_voice : ℕ → ScoIn → List ℕ × ScoIn
pull_voice zero s = ([], s)
pull_voice (suc n) s =
    let (bytes, rest) = pull_voice n (record s { fifo_head = (s.fifo_head + 1) % fifo_bytes }) in
    (get_or s.fifo s.fifo_head 0 ∷ bytes, rest)

unfoldable pub build_frame : ℕ → ScoIn → ScoIn
build_frame payload s =
    let (bytes, rest) = pull_voice payload s in
    record rest {
      frame = (s.handle_field % 256) ∷ (s.handle_field / 256) ∷ (payload % 256) ∷ bytes;
      fifo_count = s.fifo_count - payload;
      framed_packets = inc32 s.framed_packets;
    }

-- The slice of the frame that goes into this isochronous packet.
unfoldable pub slice_frame : ℕ → ℕ → ScoIn → ScoIn × List ℕ
slice_frame max_packet_size capacity s =
    let n = min capacity (min max_packet_size (length s.frame - s.frame_offset)) in
    (record s { frame_offset = s.frame_offset + n }, take n (drop s.frame_offset s.frame))

module _ {C : Type 0} (pull : C → Option (List ℕ × C)) where
  -- The while loop; the fuel is how often it may pull.
  unfoldable pub gather : ℕ → ℕ → C → ScoIn → ScoIn × C
  gather zero payload context s = (s, context)
  gather (suc fuel) payload context s =
      if ltb s.fifo_count payload
      then (elim (pull context) [
        | none ↦ (s, context)
        | some (packet, context') ↦ gather fuel payload context' (in_accept s packet)
      ])
      else (s, context)

  -- The state, the caller's context and the bytes of this isochronous packet.
  unfoldable pub in_fill : ℕ → ScoIn → ℕ → ℕ → C → ScoIn × C × List ℕ
  in_fill fuel s max_packet_size capacity context =
      let payload = in_payload_size max_packet_size in
      let (gathered, context') =
        gather fuel payload context (record s { frame = []; frame_offset = 0 }) in
      let (framed, bytes) = slice_frame max_packet_size capacity (build_frame payload gathered) in
      let (going, more) = slice_frame max_packet_size capacity s in
      if leb (length s.frame) s.frame_offset
      then (if payload == 0
          then (record s { frame = []; frame_offset = 0 }, context, [])
          else if ltb gathered.fifo_count payload
          then (gathered, context', [])
          else (framed, context', bytes))
      else (going, context, more)
