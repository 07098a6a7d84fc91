-- ===== src/H4.antt =====
-- src/common/h4_codec.c and the types of src/include/h4_codec.h: the H4 packet codec of the UART
-- transport. A decoder pointer is a value and an updated decoder is a result; `Buffer` with
-- `BufferLength` is the list of the bytes written so far, so that `Buffer[BufferLength++] = Byte`
-- appends. The two callbacks take and return the caller's `Context`, of any type `C`. The NULL
-- guards on the decoder, the data and the packet callback have no counterpart.
pub mod Bounds
pub mod Bytes
pub mod Stream
pub mod RoundTrip
pub mod Account
pub mod Resync
mod Examples
use virt_bth_usb.Common.{
  ℕ, ◌+◌, ◌*◌, ◌^◌, Bool, true, false, Option, none, some, List, [], ◌∷◌, ◌++◌,
}
use virt_bth_usb.Common.{◌==◌, ltb, ◌&&◌, ◌!=◌, if◌then◌else◌, byte, length, add32, inc32}

-- Packet types, header and payload sizes (h4_codec.h).
abbrev pub pkt_command : ℕ
pkt_command = 0x01

abbrev pub pkt_acl : ℕ
pkt_acl = 0x02

abbrev pub pkt_sco : ℕ
pkt_sco = 0x03

abbrev pub pkt_event : ℕ
pkt_event = 0x04

-- H4_MAX_PACKET_SIZE, the size of the decoder's buffer: an ACL header and its largest payload.
abbrev pub max_packet_size : ℕ
max_packet_size = 4 + 1021

-- The type byte selects the header length; 0 for a byte that is no packet type.
unfoldable pub get_header_length : ℕ → ℕ
get_header_length type =
    if type == pkt_command
    then 3
    else if type == pkt_acl
    then 4
    else if type == pkt_sco
    then 3
    else if type == pkt_event
    then 2
    else 0

pub get_max_payload : ℕ → ℕ
get_max_payload type =
    if type == pkt_command
    then 255
    else if type == pkt_acl
    then 1021
    else if type == pkt_sco
    then 255
    else if type == pkt_event
    then 255
    else 0

pub parse_payload_length : ℕ → List ℕ → ℕ
parse_payload_length type hdr =
    if type == pkt_command
    then byte hdr 2
    else if type == pkt_acl
    then byte hdr 2 + byte hdr 3 * 256
    else if type == pkt_sco
    then byte hdr 2
    else if type == pkt_event
    then byte hdr 1
    else 0

pub data DecoderState : Type 0 where
  idle header payload : DecoderState

pub record Decoder : Type 0 where
  pub state : DecoderState
  pub current_type : ℕ
  pub header_length : ℕ
  pub payload_length : ℕ
  pub buffer : List ℕ
  pub bytes_consumed : ℕ
  pub commands_emitted : ℕ
  pub acl_packets_emitted : ℕ
  pub sco_packets_emitted : ℕ
  pub events_emitted : ℕ
  pub desynchronised : ℕ
  pub oversized_rejections : ℕ

pub record_emission : Decoder → ℕ → Decoder
record_emission d type =
    if type == pkt_command
    then record d { commands_emitted = inc32 d.commands_emitted }
    else if type == pkt_acl
    then record d { acl_packets_emitted = inc32 d.acl_packets_emitted }
    else if type == pkt_sco
    then record d { sco_packets_emitted = inc32 d.sco_packets_emitted }
    else if type == pkt_event
    then record d { events_emitted = inc32 d.events_emitted }
    else d

unfoldable pub decoder_init : Decoder
decoder_init = record {
  state = idle;
  current_type = 0;
  header_length = 0;
  payload_length = 0;
  buffer = [];
  bytes_consumed = 0;
  commands_emitted = 0;
  acl_packets_emitted = 0;
  sco_packets_emitted = 0;
  events_emitted = 0;
  desynchronised = 0;
  oversized_rejections = 0;
}

-- Drops a partial packet and keeps the counters.
pub decoder_reset : Decoder → Decoder
decoder_reset d = record d {
  state = idle;
  current_type = 0;
  header_length = 0;
  payload_length = 0;
  buffer = [];
}

-- The header is complete and declares more than the type allows.
pub reject_oversized : Decoder → Decoder
reject_oversized d = decoder_reset (record d {
  oversized_rejections = inc32 d.oversized_rejections;
  desynchronised = add32 d.desynchronised (1 + length d.buffer);
})

module _ {C : Type 0} (callback : C → ℕ → List ℕ → C) (oob : Option (C → ℕ → Bool × C)) where
  -- A complete packet: count it, hand it over, and go back to idle.
  pub emit_packet : Decoder → C → Decoder × C
  emit_packet d ctx =
      (decoder_reset (record_emission d d.current_type), callback ctx d.current_type d.buffer)

  -- Idle, on a byte that is no packet type.
  pub feed_stray : Decoder → C → ℕ → Decoder × C
  feed_stray d ctx b = elim oob [
    | none ↦ (record d { desynchronised = inc32 d.desynchronised }, ctx)
    | some claim ↦
        let (claimed, ctx') = claim ctx b in
        (if claimed then d else record d { desynchronised = inc32 d.desynchronised }, ctx')
  ]

  pub feed_idle : Decoder → C → ℕ → Decoder × C
  feed_idle d ctx b = if get_header_length b == 0 then feed_stray d ctx b else (
    record d {
      current_type = b;
      header_length = get_header_length b;
      payload_length = 0;
      buffer = [];
      state = header;
    },
    ctx,
  )

  -- `d` already holds the header's last byte.
  pub finish_header : Decoder → C → Decoder × C
  finish_header d ctx =
      let payload_len = parse_payload_length d.current_type d.buffer in
      if ltb (get_max_payload d.current_type) payload_len
      then (reject_oversized d, ctx)
      else if payload_len == 0
      then emit_packet (record d { payload_length = payload_len }) ctx
      else (record d { payload_length = payload_len; state = payload }, ctx)

  pub feed_header : Decoder → C → ℕ → Decoder × C
  feed_header d ctx b =
      let d' = record d { buffer = d.buffer ++ (b ∷ []) } in
      if length d'.buffer == d.header_length then finish_header d' ctx else (d', ctx)

  pub feed_payload : Decoder → C → ℕ → Decoder × C
  feed_payload d ctx b =
      let d' = record d { buffer = d.buffer ++ (b ∷ []) } in
      if length d'.buffer == d.header_length + d.payload_length
      then emit_packet d' ctx
      else (d', ctx)

  pub feed_state : DecoderState → Decoder → C → ℕ → Decoder × C
  feed_state idle d ctx b = feed_idle d ctx b
  feed_state header d ctx b = feed_header d ctx b
  feed_state payload d ctx b = feed_payload d ctx b

  pub feed_byte : Decoder → C → ℕ → Decoder × C
  unfolding feed_state
  feed_byte d ctx b = feed_state d.state d ctx b

  -- H4DecoderFeedEx; H4DecoderFeed is this with no out-of-band callback.
  pub feed : Decoder → C → List ℕ → Decoder × C
  feed d ctx [] = (d, ctx)
  feed d ctx (b ∷ bs) =
      let (d', ctx') = feed_byte (record d { bytes_consumed = inc32 d.bytes_consumed }) ctx b in
      feed d' ctx' bs

-- The bytes written to OutBuffer, whose length is the value returned; none are written where the C
-- function returns 0. `1u + PacketLength` is computed in 32 bits.
pub encode_packet : ℕ → List ℕ → ℕ → List ℕ
encode_packet type packet out_capacity =
    if ltb out_capacity (add32 1 (length packet))
    then []
    else if type != pkt_command && type != pkt_acl && type != pkt_sco && type != pkt_event
    then []
    else type ∷ packet
