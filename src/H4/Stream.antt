-- ===== src/H4/Stream.antt =====
-- src/common/h4_codec.c, byte streams: feeding in chunks, and the effect of a whole packet on the decoder.
use virt_bth_usb.Common.{
  ℕ, ◌+◌, ◌<◌, ◌≡◌, refl, sym, ◌∙◌, ap, subst, ltb, ◌==◌, ==_iff, Bool-cases, List-cases, inl, inr,
  arith, Bool, false, Option,
}
use virt_bth_usb.Common.{List, [], ◌∷◌, ◌++◌, length, length-append, append_assoc, inc32}
use virt_bth_usb.H4.{
  Decoder, DecoderState, idle, header, payload, get_header_length, get_max_payload,
  parse_payload_length, record_emission, decoder_reset, emit_packet, feed_idle, finish_header,
  feed_header, feed_payload, feed_state, feed_byte, feed,
}
use virt_bth_usb.H4.Bounds.{IsPacket, parse_payload_length-append}

module _ {C : Type 0} (callback : C → ℕ → List ℕ → C) (oob : Option (C → ℕ → Bool × C)) where
  -- The read pump's calls of H4DecoderFeedEx, one for each chunk that the UART delivers.
  pub feed_chunks : Decoder → C → List (List ℕ) → Decoder × C
  feed_chunks d c [] = (d, c)
  feed_chunks d c (x ∷ xs) = let (d', c') = feed callback oob d c x in feed_chunks d' c' xs

  pub feed-append :
      (xs ys : List ℕ) (d : Decoder) (c : C)
      → feed callback oob d c (xs ++ ys)
        ≡ feed callback oob (feed callback oob d c xs).0 (feed callback oob d c xs).1 ys
  unfolding feed
  feed-append [] ys d c = refl
  feed-append (x ∷ xs) ys d c = feed-append xs ys _ _

  pub feed_step :
      (d d' : Decoder) (c c' : C) (b : ℕ) (bs : List ℕ)
      → feed_byte callback oob (record d { bytes_consumed = inc32 d.bytes_consumed }) c b ≡ (d', c')
      → feed callback oob d c (b ∷ bs) ≡ feed callback oob d' c' bs
  unfolding feed
  feed_step d d' c c' b bs q = ap (λ (r : Decoder × C). feed callback oob r.0 r.1 bs) q

-- The bytes of the chunks, in order.
abbrev pub joined : List (List ℕ) → List ℕ
joined [] = []
joined (x ∷ xs) = x ++ joined xs

pub feed_chunks-eq-feed :
    {C : Type 0} (callback : C → ℕ → List ℕ → C) (oob : Option (C → ℕ → Bool × C))
    (chunks : List (List ℕ)) (d : Decoder) (c : C)
    → feed_chunks callback oob d c chunks ≡ feed callback oob d c (joined chunks)
unfolding feed_chunks
feed_chunks-eq-feed callback oob [] d c = unfold feed in refl
feed_chunks-eq-feed callback oob (x ∷ xs) d c =
    feed_chunks-eq-feed callback oob xs _ _ ∙ sym (feed-append callback oob x (joined xs) d c)

-- What one packet does, seen from a decoder `d` that was idle before its type byte.
pub record Delivered {C : Type 0} (callback : C → ℕ → List ℕ → C) (t : ℕ) (p : List ℕ) (d : Decoder)
    (c : C) (r : Decoder × C) : Type 0 where
  pub context : r.1 ≡ callback c t p
  pub back_to_idle : r.0.state ≡ idle
  pub no_loss : r.0.desynchronised ≡ d.desynchronised
  pub no_rejection : r.0.oversized_rejections ≡ d.oversized_rejections

record_emission-losses :
    (d : Decoder) (t : ℕ)
    → ((record_emission d t).desynchronised ≡ d.desynchronised)
      × ((record_emission d t).oversized_rejections ≡ d.oversized_rejections)
unfolding record_emission
record_emission-losses d t = ground arith

module _ {C : Type 0} (callback : C → ℕ → List ℕ → C) (oob : Option (C → ℕ → Bool × C)) (t : ℕ)
    (p : List ℕ) (w : IsPacket t p) (d : Decoder) (c : C) where
  emit_packet-Delivered :
      (e : Decoder)
      → e.buffer ≡ p
      → e.current_type ≡ t
      → e.desynchronised ≡ d.desynchronised
      → e.oversized_rejections ≡ d.oversized_rejections
      → Delivered callback t p d c (emit_packet callback oob e c)
  unfolding emit_packet decoder_reset
  emit_packet-Delivered e eb et ed eo =
      let l = record_emission-losses e e.current_type in
      record { context = cc; back_to_idle = refl; no_loss = l.0 ∙ ed; no_rejection = l.1 ∙ eo }

  abbrev mid : Decoder → DecoderState → ℕ → List ℕ → Decoder
  mid e s pl pre = record e {
    state = s;
    current_type = t;
    header_length = get_header_length t;
    payload_length = pl;
    buffer = pre;
  }

  abbrev Delivers : Decoder × C → Type 0
  Delivers r = Delivered callback t p d c r

  -- One byte that takes `e` to `e'` and leaves the context alone.
  then_feed :
      (e e' : Decoder) (b : ℕ) (bs : List ℕ)
      → feed_byte callback oob (record e { bytes_consumed = inc32 e.bytes_consumed }) c b ≡ (e', c)
      → Delivers (feed callback oob e' c bs)
      → Delivers (feed callback oob e c (b ∷ bs))
  unfolding feed
  then_feed e e' b bs q h =
      subst (λ (r : Decoder × C). Delivers (feed callback oob r.0 r.1 bs)) (sym q) h

  -- The last byte of the packet.
  last_feed :
      (e : Decoder) (b : ℕ)
      → Delivers (feed_byte callback oob (record e { bytes_consumed = inc32 e.bytes_consumed }) c b)
      → Delivers (feed callback oob e c (b ∷ []))
  unfolding feed
  last_feed e b h = h

  payload_end :
      (e : Decoder) (pre : List ℕ) (b : ℕ)
      → pre ++ (b ∷ []) ≡ p
      → e.desynchronised ≡ d.desynchronised
      → e.oversized_rejections ≡ d.oversized_rejections
      → Delivers (feed_byte callback oob (mid e payload (parse_payload_length t p) pre) c b)
  unfolding feed_byte feed_state feed_payload
  payload_end e pre b q ed eo =
      let full : length (pre ++ (b ∷ [])) ≡ get_header_length t + parse_payload_length t p =
        ap length q ∙ w.framed in
      rw ((==_iff _ _).1 full) (
        emit_packet-Delivered (mid e payload (parse_payload_length t p) (pre ++ (b ∷ []))) q refl ed
          eo)

  payload_more :
      (e : Decoder) (pre : List ℕ) (b x : ℕ) (rest : List ℕ)
      → pre ++ (b ∷ x ∷ rest) ≡ p
      → feed_byte callback oob (mid e payload (parse_payload_length t p) pre) c b
        ≡ (mid e payload (parse_payload_length t p) (pre ++ (b ∷ [])), c)
  unfolding feed_byte feed_state feed_payload
  payload_more e pre b x rest q =
      ground
        (arith, ap length q, w.framed, length-append pre (b ∷ x ∷ rest), length-append pre (b ∷ []))

  -- The payload's bytes, of which at least one is still to come.
  payload-Delivered :
      (rest pre : List ℕ) (b : ℕ) (e : Decoder)
      → pre ++ (b ∷ rest) ≡ p
      → e.desynchronised ≡ d.desynchronised
      → e.oversized_rejections ≡ d.oversized_rejections
      → Delivers (feed callback oob (mid e payload (parse_payload_length t p) pre) c (b ∷ rest))
  payload-Delivered [] pre b e q ed eo =
      last_feed _ b
        (payload_end (record e { bytes_consumed = inc32 e.bytes_consumed }) pre b q ed eo)
  payload-Delivered (x ∷ rest) pre b e q ed eo =
      let e' : Decoder = record e { bytes_consumed = inc32 e.bytes_consumed } in
      then_feed _ _ b (x ∷ rest) (payload_more e' pre b x rest q) (
        payload-Delivered rest (pre ++ (b ∷ [])) x e' (append_assoc pre (b ∷ []) (x ∷ rest) ∙ q) ed
          eo)

  header_more :
      (e : Decoder) (pre : List ℕ) (b : ℕ)
      → length pre + 1 < get_header_length t
      → feed_byte callback oob (mid e header 0 pre) c b ≡ (mid e header 0 (pre ++ (b ∷ [])), c)
  unfolding feed_byte feed_state feed_header
  header_more e pre b h = ground (arith, length-append pre (b ∷ []))

  -- The declared length, read from the header `pre` alone.
  declared :
      (pre rest : List ℕ)
      → pre ++ rest ≡ p
      → length pre ≡ get_header_length t
      → parse_payload_length t pre ≡ parse_payload_length t p
  declared pre rest q h =
      sym (parse_payload_length-append t pre rest (omega arith) w.known)
      ∙ ap (parse_payload_length t) q

  header_end :
      (e : Decoder) (pre : List ℕ) (b : ℕ)
      → length pre + 1 ≡ get_header_length t
      → feed_byte callback oob (mid e header 0 pre) c b
        ≡ finish_header callback oob (mid e header 0 (pre ++ (b ∷ []))) c
  unfolding feed_byte feed_state feed_header
  header_end e pre b h = rw ((==_iff _ _).1 (length-append pre (b ∷ []) ∙ h))

  within : ltb (get_max_payload t) (parse_payload_length t p) ≡ false
  within = ground (arith, w.legal)

  finish_empty :
      (e : Decoder)
      → length p ≡ get_header_length t
      → e.desynchronised ≡ d.desynchronised
      → e.oversized_rejections ≡ d.oversized_rejections
      → Delivers (finish_header callback oob (mid e header 0 p) c)
  unfolding finish_header
  finish_empty e h ed eo =
      let none_left : parse_payload_length t p ≡ 0 = omega (arith, w.framed) in
      rw (within, (==_iff _ _).1 none_left)
        (emit_packet-Delivered (mid e header (parse_payload_length t p) p) refl refl ed eo)

  finish_more :
      (e : Decoder) (pre : List ℕ) (x : ℕ) (rest : List ℕ)
      → pre ++ (x ∷ rest) ≡ p
      → length pre ≡ get_header_length t
      → finish_header callback oob (mid e header 0 pre) c
        ≡ (mid e payload (parse_payload_length t p) pre, c)
  unfolding finish_header
  finish_more e pre x rest q h = ground (
    arith,
    declared pre (x ∷ rest) q h,
    w.legal,
    w.framed,
    ap length q,
    length-append pre (x ∷ rest),
  )

  header-Delivered :
      (rest pre : List ℕ) (b : ℕ) (e : Decoder)
      → pre ++ (b ∷ rest) ≡ p
      → length pre < get_header_length t
      → e.desynchronised ≡ d.desynchronised
      → e.oversized_rejections ≡ d.oversized_rejections
      → Delivers (feed callback oob (mid e header 0 pre) c (b ∷ rest))
  header-Delivered [] pre b e q h ed eo =
      let full : length pre + 1 ≡ get_header_length t =
        omega (arith, ap length q, length-append pre (b ∷ []), w.framed) in
      let e' : Decoder = record e { bytes_consumed = inc32 e.bytes_consumed } in
      last_feed _ b (
        rw (header_end e' pre b full, q)
          (finish_empty e' (ap length (sym q) ∙ length-append pre (b ∷ []) ∙ full) ed eo))
  header-Delivered (x ∷ rest) pre b e q h ed eo =
      let e' : Decoder = record e { bytes_consumed = inc32 e.bytes_consumed } in
      let q' = append_assoc pre (b ∷ []) (x ∷ rest) ∙ q in
      let len : length (pre ++ (b ∷ [])) ≡ length pre + 1 = length-append pre (b ∷ []) in
      elim (Bool-cases (length pre + 1 == get_header_length t)) [
        | inl y ↦
            let full = (==_iff _ _).0 y in
            then_feed _ _ b (x ∷ rest)
              (header_end e' pre b full ∙ finish_more e' (pre ++ (b ∷ [])) x rest q' (len ∙ full))
              (payload-Delivered rest (pre ++ (b ∷ [])) x e' q' ed eo)
        | inr n ↦
            then_feed _ _ b (x ∷ rest) (header_more e' pre b (ground arith))
              (header-Delivered rest (pre ++ (b ∷ [])) x e' q' (ground arith) ed eo)
      ]

  idle_start :
      (e : Decoder) → e.state ≡ idle → feed_byte callback oob e c t ≡ (mid e header 0 [], c)
  unfolding feed_byte feed_state feed_idle
  idle_start e s =
      subst (λ (r : DecoderState). feed_state callback oob r e c t ≡ (mid e header 0 [], c)) (sym s)
        (ground (arith, w.known))

  -- The H4 type byte and a well-formed packet, fed to an idle decoder.
  pub packet-Delivered : d.state ≡ idle → Delivered callback t p d c (feed callback oob d c (t ∷ p))
  packet-Delivered s = elim (List-cases p) [
    | inl none_at_all ↦ absurd (omega (arith, ap length none_at_all, w.framed, w.known))
    | inr (b, rest, q) ↦
        let d' : Decoder = record d { bytes_consumed = inc32 d.bytes_consumed } in
        then_feed d (mid d' header 0 []) t p (idle_start d' s) (
          subst (λ (x : List ℕ). Delivers (feed callback oob (mid d' header 0 []) c x)) (sym q)
            (header-Delivered rest [] b d' (sym q) w.known refl refl))
  ]
