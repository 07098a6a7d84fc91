-- ===== src/H4/RoundTrip.antt =====
-- src/common/h4_codec.c: encoding and decoding of packet streams.
use virt_bth_usb.Common.{ℕ, ◌+◌, ◌≤◌, ◌≡◌, refl, sym, ◌∙◌, ap, subst, arith, Bool, Option}
use virt_bth_usb.Common.{List, [], ◌∷◌, ◌++◌, length, All}
use virt_bth_usb.H4.{Decoder, idle, get_header_length, feed, encode_packet}
use virt_bth_usb.H4.Bounds.{IsPacket, IsPacket-length-le}
use virt_bth_usb.H4.Stream.{packet-Delivered, feed_chunks, joined, feed_chunks-eq-feed, feed-append}

pub encode_packet-cons :
    (t : ℕ) (p : List ℕ) (capacity : ℕ)
    → IsPacket t p
    → 1 + length p ≤ capacity
    → encode_packet t p capacity ≡ t ∷ p
unfolding encode_packet get_header_length
encode_packet-cons t p capacity w h = ground (arith, w.known, IsPacket-length-le w)

-- A packet with its type.
abbrev pub Packet : Type 0
Packet = ℕ × List ℕ

abbrev pub ArePackets : List Packet → Type 0
ArePackets = All (λ (x : Packet). IsPacket x.0 x.1)

-- The packets as the encoder writes them, one behind the other.
abbrev pub wire : List Packet → List ℕ
wire [] = []
wire ((t, p) ∷ ps) = encode_packet t p (1 + length p) ++ wire ps

-- The callback's calls, in order.
abbrev pub deliver : {C : Type 0} → (C → ℕ → List ℕ → C) → C → List Packet → C
deliver callback c [] = c
deliver callback c ((t, p) ∷ ps) = deliver callback (callback c t p) ps

module _ {C : Type 0} (callback : C → ℕ → List ℕ → C) (oob : Option (C → ℕ → Bool × C)) where
  pub record Decodes (ps : List Packet) (d : Decoder) (c : C) (r : Decoder × C) : Type 0 where
    pub delivered : r.1 ≡ deliver callback c ps
    pub between_packets : r.0.state ≡ idle
    pub nothing_lost : r.0.desynchronised ≡ d.desynchronised
    pub nothing_rejected : r.0.oversized_rejections ≡ d.oversized_rejections

  feed-wire :
      (ps : List Packet) (d : Decoder) (c : C)
      → ArePackets ps
      → d.state ≡ idle
      → Decodes ps d c (feed callback oob d c (wire ps))
  feed-wire [] d c w s =
      unfold feed in
      record { delivered = refl; between_packets = s; nothing_lost = refl; nothing_rejected = refl }
  feed-wire ((t, p) ∷ ps) d c (w, ws) s =
      let one = packet-Delivered callback oob t p w d c s in
      let r : Decoder × C = feed callback oob d c (t ∷ p) in
      let rest = feed-wire ps r.0 r.1 ws one.back_to_idle in
      let split : feed callback oob d c (wire ((t, p) ∷ ps)) ≡ feed callback oob r.0 r.1 (wire ps) =
        ap (λ (x : List ℕ). feed callback oob d c (x ++ wire ps))
          (encode_packet-cons t p (1 + length p) w (omega arith))
        ∙ feed-append callback oob (t ∷ p) (wire ps) d c in
      subst (λ (x : Decoder × C). Decodes ((t, p) ∷ ps) d c x) (sym split)
        (record {
          delivered = rest.delivered ∙ ap (λ (x : C). deliver callback x ps) one.context;
          between_packets = rest.between_packets;
          nothing_lost = rest.nothing_lost ∙ one.no_loss;
          nothing_rejected = rest.nothing_rejected ∙ one.no_rejection;
        })

  -- However the UART cuts it into chunks, the byte stream of encoded well-formed packets makes an
  -- idle decoder call the callback once for each packet, in order, with its type and its bytes; the
  -- decoder ends idle, having discarded no byte and rejected no packet.
  pub feed_chunks-wire :
      (ps : List Packet) (chunks : List (List ℕ)) (d : Decoder) (c : C)
      → ArePackets ps
      → joined chunks ≡ wire ps
      → d.state ≡ idle
      → Decodes ps d c (feed_chunks callback oob d c chunks)
  feed_chunks-wire ps chunks d c w q s = rw (feed_chunks-eq-feed, q) (feed-wire ps d c w s)
