-- ===== src/H4/Bounds.antt =====
-- src/common/h4_codec.c: what `Buffer`, `HeaderLength` and `PayloadLength` hold in each state.
use virt_bth_usb.Common.{
  ℕ, ◌+◌, ◌≤◌, ◌<◌, ◌≡◌, refl, sym, subst, ltb, ◌==◌, ==_iff, Bool-cases, inl, inr, arith, Bool,
  Option, none, some,
}
use virt_bth_usb.Common.{List, [], ◌∷◌, ◌++◌, length, length-append, inc32, get_or-append_left}
use virt_bth_usb.H4.{
  Decoder, DecoderState, idle, header, payload, get_header_length, get_max_payload,
  parse_payload_length, record_emission, decoder_reset, decoder_init, reject_oversized, emit_packet,
  feed_stray, feed_idle, finish_header, feed_header, feed_payload, feed_state, feed_byte, feed,
  max_packet_size,
}

-- The framing of a packet without its H4 type byte, as h4_codec.h documents it.
pub record IsPacket (type : ℕ) (p : List ℕ) : Type 0 where
  pub known : 0 < get_header_length type
  pub framed : length p ≡ get_header_length type + parse_payload_length type p
  pub legal : parse_payload_length type p ≤ get_max_payload type

pub header-add-payload-le : (t : ℕ) → get_header_length t + get_max_payload t ≤ max_packet_size
unfolding get_header_length get_max_payload
header-add-payload-le t = ground arith

pub IsPacket-length-le : {t : ℕ} {p : List ℕ} → IsPacket t p → length p ≤ max_packet_size
IsPacket-length-le {t} {p} w = omega (arith, w.framed, w.legal, header-add-payload-le t)

-- The declared length is read from the header alone.
pub parse_payload_length-append :
    (t : ℕ) (p q : List ℕ)
    → get_header_length t ≤ length p
    → 0 < get_header_length t
    → parse_payload_length t (p ++ q) ≡ parse_payload_length t p
unfolding get_header_length parse_payload_length
parse_payload_length-append t p q h k =
    ground
      (arith, get_or-append_left p q 1 0, get_or-append_left p q 2 0, get_or-append_left p q 3 0)

-- The fields in each state: type, header length, payload length and bytes received.
abbrev Shape : DecoderState → ℕ → ℕ → ℕ → List ℕ → Type 0
Shape idle t hl pl buf = length buf ≡ 0
Shape header t hl pl buf =
    (0 < get_header_length t) × (hl ≡ get_header_length t) × (length buf < hl)
Shape payload t hl pl buf =
    (0 < get_header_length t)
    × (hl ≡ get_header_length t)
    × (pl ≡ parse_payload_length t buf)
    × (pl ≤ get_max_payload t)
    × (hl ≤ length buf)
    × (length buf < hl + pl)

abbrev InState : DecoderState → Decoder → Type 0
InState s d = Shape s d.current_type d.header_length d.payload_length d.buffer

abbrev pub IsValid : Decoder → Type 0
IsValid d = InState d.state d

state_eq : (s : DecoderState) (d : Decoder) → d.state ≡ s → InState s d → IsValid d
state_eq s d e v =
    subst (λ (r : DecoderState). Shape r d.current_type d.header_length d.payload_length d.buffer)
      (sym e) v

-- The index that the next byte of a packet is written at.
InState-length-lt :
    (s : DecoderState) (d : Decoder) → InState s d → length d.buffer < max_packet_size
InState-length-lt idle d v = omega arith
InState-length-lt header d v = omega (arith, header-add-payload-le d.current_type)
InState-length-lt payload d v = omega (arith, header-add-payload-le d.current_type)

record_emission-buffer : (d : Decoder) (t : ℕ) → (record_emission d t).buffer ≡ d.buffer
unfolding record_emission
record_emission-buffer d t = ground arith

module _ {C : Type 0} (callback : C → ℕ → List ℕ → C) (oob : Option (C → ℕ → Bool × C))
    (P : C → Type 0) (keep : (c : C) (t : ℕ) (p : List ℕ) → P c → IsPacket t p → P (callback c t p))
    (claims : (claim : C → ℕ → Bool × C) (c : C) (b : ℕ)
      → oob ≡ some claim
      → P c
      → P (claim c b).1) where
  abbrev Kept : Decoder × C → Type 0
  Kept r = IsValid r.0 × P r.1

  feed_stray-Kept :
      (o : Option (C → ℕ → Bool × C)) (d : Decoder) (c : C) (b : ℕ)
      → oob ≡ o
      → IsValid d
      → P c
      → Kept (feed_stray callback o d c b)
  unfolding feed_stray
  feed_stray-Kept none d c b e v p = (v, p)
  feed_stray-Kept (some claim) d c b e v p = elim (Bool-cases (claim c b).0) [
    | inl y ↦ rw y (v, claims claim c b e p)
    | inr n ↦ rw n (v, claims claim c b e p)
  ]

  emit_packet-Kept :
      (d : Decoder) (c : C)
      → P c
      → IsPacket d.current_type d.buffer
      → Kept (emit_packet callback oob d c)
  unfolding emit_packet decoder_reset
  emit_packet-Kept d c p w = (refl, keep c d.current_type d.buffer p w)

  feed_idle-Kept :
      (d : Decoder) (c : C) (b : ℕ) → IsValid d → P c → Kept (feed_idle callback oob d c b)
  unfolding feed_idle
  feed_idle-Kept d c b v p = elim (Bool-cases (get_header_length b == 0)) [
    | inl y ↦ rw y (feed_stray-Kept oob d c b refl v p)
    | inr n ↦ rw n ((ground arith, refl, ground arith), p)
  ]

  finish_header-Kept :
      (d : Decoder) (c : C)
      → P c
      → 0 < get_header_length d.current_type
      → d.header_length ≡ get_header_length d.current_type
      → length d.buffer ≡ d.header_length
      → Kept (finish_header callback oob d c)
  unfolding finish_header reject_oversized decoder_reset
  finish_header-Kept d c p k h l =
      elim (Bool-cases
        (ltb (get_max_payload d.current_type) (parse_payload_length d.current_type d.buffer))) [
          | inl y ↦ rw y (refl, p)
          | inr n ↦ elim (Bool-cases (parse_payload_length d.current_type d.buffer == 0)) [
            | inl z ↦
                rw (n, z)
                  (emit_packet-Kept
                    (record d { payload_length = parse_payload_length d.current_type d.buffer }) c p
                    (record { known = k; framed = ground arith; legal = ground arith }))
            | inr z ↦ rw (n, z) ((k, h, refl, ground arith, ground arith, ground arith), p)
          ]
        ]

  feed_header-Kept :
      (d : Decoder) (c : C) (b : ℕ)
      → d.state ≡ header
      → InState header d
      → P c
      → Kept (feed_header callback oob d c b)
  unfolding feed_header
  feed_header-Kept d c b e v p =
      elim (Bool-cases (length (d.buffer ++ (b ∷ [])) == d.header_length)) [
        | inl y ↦ rw y (
            finish_header-Kept (record d { buffer = d.buffer ++ (b ∷ []) }) c p v.0 v.1
              ((==_iff _ _).0 y))
        | inr n ↦ rw n (
          state_eq header (record d { buffer = d.buffer ++ (b ∷ []) }) e
              (v.0, v.1, ground (arith, length-append d.buffer (b ∷ []))),
          p,
        )
      ]

  feed_payload-Kept :
      (d : Decoder) (c : C) (b : ℕ)
      → d.state ≡ payload
      → InState payload d
      → P c
      → Kept (feed_payload callback oob d c b)
  unfolding feed_payload
  feed_payload-Kept d c b e (k, h, pl, mx, lo, hi) p =
      let buf = d.buffer ++ (b ∷ []) in
      let len : length buf ≡ length d.buffer + 1 = omega (arith, length-append d.buffer (b ∷ [])) in
      let same : parse_payload_length d.current_type buf
          ≡ parse_payload_length d.current_type d.buffer =
        parse_payload_length-append d.current_type d.buffer (b ∷ []) (omega arith) k in
      elim (Bool-cases (length buf == d.header_length + d.payload_length)) [
        | inl y ↦ rw y (
            emit_packet-Kept (record d { buffer = buf }) c p
              (record { known = k; framed = ground arith; legal = ground arith }))
        | inr n ↦ rw n (
          state_eq payload (record d { buffer = buf }) e
              (k, h, ground arith, mx, ground arith, ground arith),
          p,
        )
      ]

  feed_state-Kept :
      (s : DecoderState) (d : Decoder) (c : C) (b : ℕ)
      → d.state ≡ s
      → InState s d
      → P c
      → Kept (feed_state callback oob s d c b)
  unfolding feed_state
  feed_state-Kept idle d c b e v p = feed_idle-Kept d c b (state_eq idle d e v) p
  feed_state-Kept header d c b e v p = feed_header-Kept d c b e v p
  feed_state-Kept payload d c b e v p = feed_payload-Kept d c b e v p

  pub feed_byte-Kept :
      (d : Decoder) (c : C) (b : ℕ) → IsValid d → P c → Kept (feed_byte callback oob d c b)
  unfolding feed_byte
  feed_byte-Kept d c b v p = feed_state-Kept d.state d c b refl v p

  -- A valid decoder stays valid whatever bytes arrive, and hands only well-formed packets to the
  -- callback: what holds of the context and is kept by the callback on well-formed packets, and by
  -- the out-of-band callback, holds after the feed.
  pub feed-IsValid :
      (bs : List ℕ) (d : Decoder) (c : C)
      → IsValid d
      → P c
      → IsValid (feed callback oob d c bs).0 × P (feed callback oob d c bs).1
  unfolding feed
  feed-IsValid [] d c v p = (v, p)
  feed-IsValid (b ∷ bs) d c v p =
      let r = feed_byte-Kept (record d { bytes_consumed = inc32 d.bytes_consumed }) c b v p in
      feed-IsValid bs _ _ r.0 r.1

-- Every byte of a packet that arrives at a valid decoder is written inside `Buffer`.
buffer_in_bounds : (d : Decoder) → IsValid d → length d.buffer < max_packet_size
buffer_in_bounds d v = InState-length-lt d.state d v

pub decoder_init-IsValid : IsValid decoder_init
unfolding decoder_init
decoder_init-IsValid = refl
