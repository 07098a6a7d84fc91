-- ===== src/H4/Bytes.antt =====
-- src/common/h4_codec.c: what a decoder hands over of a stream of bytes.
use virt_bth_usb.Common.{
  ℕ, ◌+◌, ◌≡◌, ◌∙◌, ap, List, [], ◌∷◌, ◌++◌, Option, none, some, Bool, All, IsByte, length, ltb,
  ◌==◌, either, refl, inc32,
}
use virt_bth_usb.H4.{
  Decoder, DecoderState, idle, header, payload, get_header_length, get_max_payload,
  parse_payload_length, decoder_reset, reject_oversized, emit_packet, feed_stray, feed_idle,
  finish_header, feed_header, feed_payload, feed_state, feed_byte, feed,
}

pub All-snoc :
    {A : Type 0} (P : A → Type 0) (xs : List A) (x : A) → All P xs → P x → All P (xs ++ (x ∷ []))
All-snoc P [] x h p = (p, tt)
All-snoc P (y ∷ xs) x h p = (h.0, All-snoc P xs x h.1 p)

module _ {C : Type 0} (callback : C → ℕ → List ℕ → C) (oob : Option (C → ℕ → Bool × C))
    (P : C → Type 0)
    (keeps : (c : C) (t : ℕ) (p : List ℕ) → All IsByte p → P c → P (callback c t p))
    (claims : (claim : C → ℕ → Bool × C) (c : C) (b : ℕ)
      → oob ≡ some claim
      → P c
      → P (claim c b).1) where
  abbrev Kept : Decoder × C → Type 0
  Kept r = All IsByte r.0.buffer × P r.1

  emit_packet-Kept : (d : Decoder) (c : C) → Kept (d, c) → Kept (emit_packet callback oob d c)
  unfolding emit_packet decoder_reset
  emit_packet-Kept d c k = (tt, keeps c d.current_type d.buffer k.0 k.1)

  finish_header-Kept : (d : Decoder) (c : C) → Kept (d, c) → Kept (finish_header callback oob d c)
  unfolding finish_header reject_oversized decoder_reset
  finish_header-Kept d c k =
      either Kept
        (ltb (get_max_payload d.current_type) (parse_payload_length d.current_type d.buffer))
        (tt, k.1)
        (either Kept (parse_payload_length d.current_type d.buffer == 0) (emit_packet-Kept _ c k) k)

  feed_stray-Kept :
      (o : Option (C → ℕ → Bool × C)) (d : Decoder) (c : C) (b : ℕ)
      → oob ≡ o
      → Kept (d, c)
      → Kept (feed_stray callback o d c b)
  unfolding feed_stray
  feed_stray-Kept none d c b e k = k
  feed_stray-Kept (some claim) d c b e k = (
    either (λ (d' : Decoder). All IsByte d'.buffer) (claim c b).0 k.0 k.0,
    claims claim c b e k.1,
  )

  feed_idle-Kept : (d : Decoder) (c : C) (b : ℕ) → Kept (d, c) → Kept (feed_idle callback oob d c b)
  unfolding feed_idle
  feed_idle-Kept d c b k =
      either Kept (get_header_length b == 0) (feed_stray-Kept oob d c b refl k) (tt, k.1)

  feed_state-Kept :
      (s : DecoderState) (d : Decoder) (c : C) (b : ℕ)
      → IsByte b
      → Kept (d, c)
      → Kept (feed_state callback oob s d c b)
  unfolding feed_state feed_header feed_payload
  feed_state-Kept idle d c b h k = feed_idle-Kept d c b k
  feed_state-Kept header d c b h k =
      let d' : Decoder = record d { buffer = d.buffer ++ (b ∷ []) } in
      let k' : Kept (d', c) = (All-snoc IsByte d.buffer b k.0 h, k.1) in
      either Kept (length d'.buffer == d.header_length) (finish_header-Kept d' c k') k'
  feed_state-Kept payload d c b h k =
      let d' : Decoder = record d { buffer = d.buffer ++ (b ∷ []) } in
      let k' : Kept (d', c) = (All-snoc IsByte d.buffer b k.0 h, k.1) in
      either Kept (length d'.buffer == d.header_length + d.payload_length)
        (emit_packet-Kept d' c k') k'

  -- Fed with bytes, a decoder holds bytes and hands over bytes: what the callbacks keep on packets
  -- of bytes holds after the feed.
  pub feed-Kept :
      (bs : List ℕ) (d : Decoder) (c : C)
      → All IsByte bs
      → Kept (d, c)
      → Kept (feed callback oob d c bs)
  unfolding feed feed_byte
  feed-Kept [] d c h k = k
  feed-Kept (b ∷ bs) d c h k =
      feed-Kept bs _ _ h.1
        (feed_state-Kept d.state (record d { bytes_consumed = inc32 d.bytes_consumed }) c b h.0 k)

module _ {C : Type 0} (callback : C → ℕ → List ℕ → C) (claim : C → ℕ → Bool × C) where
  -- The out-of-band callback on one byte after the other.
  unfoldable pub claim_each : C → List ℕ → C
  claim_each c [] = c
  claim_each c (b ∷ bs) = claim_each (claim c b).1 bs

  stray_byte :
      (d : Decoder) (c : C) (b : ℕ)
      → d.state ≡ idle
      → get_header_length b ≡ 0
      → (((feed_byte callback (some claim) d c b).0.state ≡ idle)
          × ((feed_byte callback (some claim) d c b).1 ≡ (claim c b).1))
  unfolding feed_byte feed_state feed_idle feed_stray
  stray_byte d c b e h =
      rw (e, h) (either (λ (d' : Decoder). d'.state ≡ idle) (claim c b).0 refl refl, refl)

  -- Between packets, bytes that are no packet types go to the out-of-band callback.
  pub feed-claim_each :
      (bs : List ℕ) (d : Decoder) (c : C)
      → d.state ≡ idle
      → All (λ b. get_header_length b ≡ 0) bs
      → (feed callback (some claim) d c bs).1 ≡ claim_each c bs
  unfolding feed claim_each
  feed-claim_each [] d c e h = refl
  feed-claim_each (b ∷ bs) d c e h =
      let step = stray_byte (record d { bytes_consumed = inc32 d.bytes_consumed }) c b e h.0 in
      feed-claim_each bs _ _ step.0 h.1 ∙ ap (λ k. claim_each k bs) step.1
