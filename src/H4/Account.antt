-- ===== src/H4/Account.antt =====
-- src/common/h4_codec.c: the decoder's counters against what it did with the bytes.
use virt_bth_usb.Common.{ℕ, ◌+◌, ◌%◌, ◌^◌, ◌≡◌, refl, ap, subst, arith, none}
use virt_bth_usb.Common.{
  List, [], ◌∷◌, ◌++◌, length, length-append, inc32, ◌==◌, ltb, Bool-cases, inl, inr, if◌then◌else◌,
}
use virt_bth_usb.H4.{
  Decoder, DecoderState, idle, header, payload, get_max_payload, parse_payload_length,
  record_emission, decoder_reset, reject_oversized, emit_packet, decoder_init, feed_stray,
  feed_idle, finish_header, feed_header, feed_payload, feed_state, feed_byte, feed, pkt_command,
  pkt_acl, pkt_sco, pkt_event,
}

-- What a caller that only counts sees: bytes handed over, type bytes included, and packets by type.
pub record Tally : Type 0 where
  pub bytes : ℕ
  pub commands : ℕ
  pub acl_packets : ℕ
  pub sco_packets : ℕ
  pub events : ℕ

abbrev pub tally : Tally → ℕ → List ℕ → Tally
tally c t p = record {
  bytes = c.bytes + 1 + length p;
  commands = if t == pkt_command then c.commands + 1 else c.commands;
  acl_packets = if t == pkt_acl then c.acl_packets + 1 else c.acl_packets;
  sco_packets = if t == pkt_sco then c.sco_packets + 1 else c.sco_packets;
  events = if t == pkt_event then c.events + 1 else c.events;
}

abbrev pub no_tally : Tally
no_tally = record { bytes = 0; commands = 0; acl_packets = 0; sco_packets = 0; events = 0 }

-- The bytes of a packet that is still incomplete, its type byte included.
abbrev pending_in : DecoderState → List ℕ → ℕ
pending_in idle buf = 0
pending_in header buf = 1 + length buf
pending_in payload buf = 1 + length buf

abbrev pub pending : Decoder → ℕ
pending d = pending_in d.state d.buffer

-- `n` bytes were fed so far.
pub record Accounts (n : ℕ) (d : Decoder) (c : Tally) : Type 0 where
  pub consumed : d.bytes_consumed ≡ n % 2 ^ 32
  pub conserved : (c.bytes + d.desynchronised + pending d) % 2 ^ 32 ≡ n % 2 ^ 32
  pub commands : d.commands_emitted ≡ c.commands % 2 ^ 32
  pub acl_packets : d.acl_packets_emitted ≡ c.acl_packets % 2 ^ 32
  pub sco_packets : d.sco_packets_emitted ≡ c.sco_packets % 2 ^ 32
  pub events : d.events_emitted ≡ c.events % 2 ^ 32

-- The same before the byte in hand is dealt with, at a known state.
record Before (s : DecoderState) (n : ℕ) (d : Decoder) (c : Tally) : Type 0 where
  at : d.state ≡ s
  consumed : d.bytes_consumed ≡ n % 2 ^ 32
  conserved : (c.bytes + d.desynchronised + pending_in s d.buffer + 1) % 2 ^ 32 ≡ n % 2 ^ 32
  commands : d.commands_emitted ≡ c.commands % 2 ^ 32
  acl_packets : d.acl_packets_emitted ≡ c.acl_packets % 2 ^ 32
  sco_packets : d.sco_packets_emitted ≡ c.sco_packets % 2 ^ 32
  events : d.events_emitted ≡ c.events % 2 ^ 32

emit_packet-Accounts :
    (n : ℕ) (d : Decoder) (c : Tally)
    → d.bytes_consumed ≡ n % 2 ^ 32
    → (c.bytes + d.desynchronised + 1 + length d.buffer) % 2 ^ 32 ≡ n % 2 ^ 32
    → d.commands_emitted ≡ c.commands % 2 ^ 32
    → d.acl_packets_emitted ≡ c.acl_packets % 2 ^ 32
    → d.sco_packets_emitted ≡ c.sco_packets % 2 ^ 32
    → d.events_emitted ≡ c.events % 2 ^ 32
    → let (d', c') = emit_packet tally none d c in Accounts n d' c'
unfolding emit_packet record_emission decoder_reset
emit_packet-Accounts n d c a b e f g h = ground arith

feed_idle-Accounts :
    (n : ℕ) (d : Decoder) (c : Tally) (b : ℕ)
    → Before idle n d c
    → let (d', c') = feed_idle tally none d c b in Accounts n d' c'
unfolding feed_idle feed_stray
feed_idle-Accounts n d c b v = ground (arith, v.at)

feed_header-Accounts :
    (n : ℕ) (d : Decoder) (c : Tally) (b : ℕ)
    → Before header n d c
    → let (d', c') = feed_header tally none d c b in Accounts n d' c'
unfolding feed_header finish_header reject_oversized decoder_reset
feed_header-Accounts n d c b v =
    let buf = d.buffer ++ (b ∷ []) in
    let len : length buf ≡ length d.buffer + 1 = length-append d.buffer (b ∷ []) in
    let declared = parse_payload_length d.current_type buf in
    elim (Bool-cases (length buf == d.header_length)) [
      | inr n ↦ rw n (ground (arith, len, v.at))
      | inl y ↦ elim (Bool-cases (ltb (get_max_payload d.current_type) declared)) [
        | inl big ↦ rw (y, big) (ground (arith, len, v.at))
        | inr fits ↦ elim (Bool-cases (declared == 0)) [
          | inl z ↦
              rw (y, fits, z)
                (emit_packet-Accounts n (record d { buffer = buf; payload_length = declared }) c
                  v.consumed (omega (arith, len, v.conserved)) v.commands v.acl_packets
                  v.sco_packets v.events)
          | inr z ↦ rw (y, fits, z) (ground (arith, len, v.at))
        ]
      ]
    ]

feed_payload-Accounts :
    (n : ℕ) (d : Decoder) (c : Tally) (b : ℕ)
    → Before payload n d c
    → let (d', c') = feed_payload tally none d c b in Accounts n d' c'
unfolding feed_payload
feed_payload-Accounts n d c b v =
    let buf = d.buffer ++ (b ∷ []) in
    let len : length buf ≡ length d.buffer + 1 = length-append d.buffer (b ∷ []) in
    elim (Bool-cases (length buf == d.header_length + d.payload_length)) [
      | inl y ↦ rw y (
          emit_packet-Accounts n (record d { buffer = buf }) c v.consumed
            (omega (arith, len, v.conserved)) v.commands v.acl_packets v.sco_packets v.events)
      | inr n ↦ rw n (ground (arith, len, v.at))
    ]

feed_state-Accounts :
    (s : DecoderState) (n : ℕ) (d : Decoder) (c : Tally) (b : ℕ)
    → Before s n d c
    → let (d', c') = feed_state tally none s d c b in Accounts n d' c'
unfolding feed_state
feed_state-Accounts idle n d c b v = feed_idle-Accounts n d c b v
feed_state-Accounts header n d c b v = feed_header-Accounts n d c b v
feed_state-Accounts payload n d c b v = feed_payload-Accounts n d c b v

feed_byte-Accounts :
    (n : ℕ) (d : Decoder) (c : Tally) (b : ℕ)
    → Before d.state n d c
    → let (d', c') = feed_byte tally none d c b in Accounts n d' c'
unfolding feed_byte
feed_byte-Accounts n d c b v = feed_state-Accounts d.state n d c b v

before :
    (s : DecoderState) (n : ℕ) (d : Decoder) (c : Tally)
    → d.state ≡ s
    → Accounts n d c
    → Before s (n + 1) (record d { bytes_consumed = inc32 d.bytes_consumed }) c
before s n d c e v = record {
  at = e;
  consumed = omega arith;
  conserved = omega (arith, v.conserved, ap (λ (r : DecoderState). pending_in r d.buffer) e);
  commands = v.commands;
  acl_packets = v.acl_packets;
  sco_packets = v.sco_packets;
  events = v.events;
}

feed-Accounts :
    (bs : List ℕ) (n : ℕ) (d : Decoder) (c : Tally)
    → Accounts n d c
    → let (d', c') = feed tally none d c bs in Accounts (n + length bs) d' c'
unfolding feed
feed-Accounts [] n d c v = subst (λ (k : ℕ). Accounts k d c) (omega arith) v
feed-Accounts (b ∷ bs) n d c v =
    let d' : Decoder = record d { bytes_consumed = inc32 d.bytes_consumed } in
    let step = feed_byte-Accounts (n + 1) d' c b (before d.state n d c refl v) in
    let r : Decoder × Tally = feed tally none d c (b ∷ bs) in
    subst (λ (k : ℕ). Accounts k r.0 r.1) (omega arith) (feed-Accounts bs (n + 1) _ _ step)

-- A decoder that was only initialised and fed, with no out-of-band callback, accounts for every
-- byte modulo 2^32: the bytes consumed are those handed to the callback (type bytes included), those
-- counted as desynchronised and those of the packet still incomplete; and each emission counter is
-- the number of callbacks of its type.
pub feed_init-Accounts :
    (bs : List ℕ)
    → let (d, c) = feed tally none decoder_init no_tally bs in Accounts (length bs) d c
unfolding decoder_init
feed_init-Accounts bs =
    subst (λ (k : ℕ). let (d, c) = feed tally none decoder_init no_tally bs in Accounts k d c)
      (omega arith) (feed-Accounts bs 0 decoder_init no_tally (omega arith))
