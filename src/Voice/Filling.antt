-- ===== src/Voice/Filling.antt =====
-- src/driver/endpoints.c, DeckBtScoFillIn: what a filled transfer holds.
use virt_bth_usb.Common.{
  ℕ, ◌+◌, ◌-◌, ◌%◌, ◌^◌, ◌<◌, ◌≤◌, ◌≡◌, ◌⊎◌, refl, inl, inr, arith, min, Option, either, cases,
}
use virt_bth_usb.Common.{List, [], ◌∷◌, length, length-take, drop, ltb, leb, ◌==◌}
use virt_bth_usb.ScoUsb.In.{ScoIn, in_payload_size, gather, build_frame, slice_frame, in_fill}
use virt_bth_usb.Voice.{success, data_overrun, IsoPacket, Parked, Voice, ScoTransport}
use virt_bth_usb.Voice.Tick.{Filled, fill_packet, fill_packets, fill_in}

slice_frame-length :
    (max_packet_size capacity : ℕ) (s : ScoIn)
    → length (slice_frame max_packet_size capacity s).1 ≤ capacity
unfolding slice_frame
slice_frame-length m capacity s = omega (
  arith,
  length-take (min capacity (min m (length s.frame - s.frame_offset)))
      (drop s.frame_offset s.frame),
)

-- A packet holds no more than it has room for.
in_fill-length :
    {C : Type 0} (pull : C → Option (List ℕ × C)) (fuel : ℕ) (s : ScoIn) (m capacity : ℕ) (c : C)
    → length (in_fill pull fuel s m capacity c).2 ≤ capacity
unfolding in_fill
in_fill-length {C} pull fuel s m capacity c =
    let P : ScoIn × C × List ℕ → Type 0 = λ r. length r.2 ≤ capacity in
    let payload = in_payload_size m in
    let gathered = gather pull fuel payload c (record s { frame = []; frame_offset = 0 }) in
    either P (leb (length s.frame) s.frame_offset)
      (either P (payload == 0) (omega arith) (
        either P (ltb gathered.0.fifo_count payload) (omega arith)
          (slice_frame-length m capacity (build_frame payload gathered.0))))
      (slice_frame-length m capacity s)

-- How packet `p` comes back as `q` with `bytes`: filled inside the buffer and within the endpoint's
-- packet size, or outside the buffer, marked and empty.
pub data FilledAs (max_packet_size buffer_length : ℕ) (p q : IsoPacket) (bytes : List ℕ)
    : Type 0 where
  inside :
      q.offset ≡ p.offset
      → q.status ≡ success
      → q.size ≡ length bytes
      → q.offset + q.size ≤ buffer_length
      → q.size ≤ max_packet_size
      → FilledAs max_packet_size buffer_length p q bytes
  outside :
      buffer_length < p.offset
      → q.offset ≡ p.offset
      → q.status ≡ data_overrun
      → q.size ≡ 0
      → bytes ≡ []
      → FilledAs max_packet_size buffer_length p q bytes

-- Packet by packet.
unfoldable pub AllFilled : ℕ → ℕ → List IsoPacket → List IsoPacket → List (List ℕ) → Type 0
AllFilled m n [] [] [] = Unit
AllFilled m n (p ∷ ps) (q ∷ qs) (bytes ∷ voice) = FilledAs m n p q bytes × AllFilled m n ps qs voice
AllFilled m n ps qs voice = ⊥

unfoldable pub total_size : List IsoPacket → ℕ
total_size [] = 0
total_size (p ∷ packets) = p.size + total_size packets

module _ {T : Type 0} (ops : ScoTransport T) (fuel m n : ℕ) where
  fill_packet-FilledAs :
      (f : Filled T) (p : IsoPacket)
      → FilledAs m n p (fill_packet ops fuel m n f p).1 (fill_packet ops fuel m n f p).2
  unfolding fill_packet
  fill_packet-FilledAs f p =
      let fits = in_fill-length ops.pop_sco fuel f.sco_in m (min m (n - p.offset)) f.transport in
      cases (λ (r : Filled T × IsoPacket × List ℕ). FilledAs m n p r.1 r.2) (leb p.offset n)
        (λ within. inside refl refl refl (ground (arith, within, fits)) (omega (arith, fits)))
        (λ beyond. outside (ground (arith, beyond)) refl refl refl refl)

  fill_packets-AllFilled :
      (f : Filled T) (ps : List IsoPacket)
      → AllFilled m n ps (fill_packets ops fuel m n f ps).1 (fill_packets ops fuel m n f ps).2
  unfolding fill_packets AllFilled
  fill_packets-AllFilled f [] = tt
  fill_packets-AllFilled f (p ∷ ps) =
      (fill_packet-FilledAs f p, fill_packets-AllFilled (fill_packet ops fuel m n f p).0 ps)

  fill_packet-total :
      (f : Filled T) (p : IsoPacket)
      → (fill_packet ops fuel m n f p).0.total
          ≡ (f.total + (fill_packet ops fuel m n f p).1.size) % 2 ^ 32
        ⊎ ((fill_packet ops fuel m n f p).0.total ≡ f.total)
          × ((fill_packet ops fuel m n f p).1.size ≡ 0)
  unfolding fill_packet
  fill_packet-total f p =
      either
        (λ (r : Filled T × IsoPacket × List ℕ).
          (r.0.total ≡ (f.total + r.1.size) % 2 ^ 32) ⊎ (r.0.total ≡ f.total) × (r.1.size ≡ 0))
        (leb p.offset n) (inl refl) (inr (refl, refl))

  fill_packets-total :
      (f : Filled T) (ps : List IsoPacket)
      → f.total < 2 ^ 32
      → (fill_packets ops fuel m n f ps).0.total
        ≡ (f.total + total_size (fill_packets ops fuel m n f ps).1) % 2 ^ 32
  unfolding fill_packets total_size
  fill_packets-total f [] h = omega (arith, h)
  fill_packets-total f (p ∷ ps) h = elim (fill_packet-total f p) [
    | inl e ↦
        omega (arith, e, fill_packets-total (fill_packet ops fuel m n f p).0 ps (omega (arith, e)))
    | inr e ↦ omega (
      arith,
      e.0,
      e.1,
      fill_packets-total (fill_packet ops fuel m n f p).0 ps (omega (arith, e.0)),
    )
  ]

-- Every packet of a filled transfer is filled inside the transfer's buffer and within the endpoint's
-- packet size, or lies outside the buffer, and is then marked and empty; and the bytes completed are
-- the packets' sizes together.
pub fill_in-AllFilled :
    {T : Type 0} (ops : ScoTransport T) (fuel : ℕ) (p : Parked) (v : Voice T)
    → AllFilled p.max_packet_size
        (length p.isoch.buffer)
        p.isoch.packets
        (fill_in ops fuel p v).1.packets
        (fill_in ops fuel p v).1.voice
      × ((fill_in ops fuel p v).1.bytes ≡ total_size (fill_in ops fuel p v).1.packets % 2 ^ 32)
unfolding fill_in
fill_in-AllFilled {T} ops fuel p v =
    let start : Filled T = record {
      sco_in = v.sco_in;
      transport = v.transport;
      total = 0;
      errors = 0;
      overall = success;
    } in
    let n = length p.isoch.buffer in
    (
      fill_packets-AllFilled ops fuel p.max_packet_size n start p.isoch.packets,
      omega (
        arith,
        fill_packets-total ops fuel p.max_packet_size n start p.isoch.packets (omega arith),
      ),
    )
