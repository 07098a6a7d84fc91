-- ===== src/H4/Resync.antt =====
-- src/common/h4_codec.c: recovery from framing errors: stray bytes between packets and an ACL header that declares too much.
use virt_bth_usb.Common.{
  ℕ, ◌+◌, ◌*◌, ◌%◌, ◌^◌, ◌<◌, ◌≡◌, subst, sym, refl, arith, lt→ltb, ==_iff, Bool, Option, none,
}
use virt_bth_usb.Common.{List, [], ◌∷◌, ◌++◌, ◌∙◌, length, inc32, add32, All}
use virt_bth_usb.H4.{
  Decoder, DecoderState, idle, header, get_header_length, get_max_payload, parse_payload_length,
  decoder_reset, reject_oversized, feed_stray, feed_idle, finish_header, feed_header, feed_state,
  feed_byte, feed, pkt_acl,
}
use virt_bth_usb.H4.Stream.{feed_step}

-- What is left after the decoder gave up on `lost` bytes.
pub record Recovered (d : Decoder) (lost rejected : ℕ) (d' : Decoder) : Type 0 where
  pub between_packets : d'.state ≡ idle
  pub counted : d'.desynchronised ≡ add32 d.desynchronised lost
  pub rejections : d'.oversized_rejections ≡ add32 d.oversized_rejections rejected

module _ {C : Type 0} (callback : C → ℕ → List ℕ → C) where
  -- After `n` bytes in all, with the header bytes `buf`.
  abbrev in_header : Decoder → ℕ → List ℕ → Decoder
  in_header d n buf = record d {
    state = header;
    current_type = pkt_acl;
    header_length = 4;
    payload_length = 0;
    buffer = buf;
    bytes_consumed = n;
  }

  acl_type :
      (oob : Option (C → ℕ → Bool × C)) (d : Decoder) (c : C)
      → d.state ≡ idle
      → feed_byte callback oob d c pkt_acl ≡ (in_header d d.bytes_consumed [], c)
  unfolding feed_byte feed_state feed_idle get_header_length
  acl_type oob d c e =
      subst
        (λ (r : DecoderState).
          feed_state callback oob r d c pkt_acl ≡ (in_header d d.bytes_consumed [], c))
        (sym e) refl

  header_byte :
      (oob : Option (C → ℕ → Bool × C)) (d : Decoder) (c : C) (n b : ℕ) (buf : List ℕ)
      → length (buf ++ (b ∷ [])) < 4
      → feed_byte callback oob (in_header d n buf) c b ≡ (in_header d n (buf ++ (b ∷ [])), c)
  unfolding feed_byte feed_state feed_header
  header_byte oob d c n b buf h = ground arith

  last_header_byte :
      (oob : Option (C → ℕ → Bool × C)) (d : Decoder) (c : C) (n h0 h1 h2 h3 : ℕ)
      → 1021 < h2 + h3 * 256
      → feed_byte callback oob (in_header d n (h0 ∷ h1 ∷ h2 ∷ [])) c h3
        ≡ (reject_oversized (in_header d n (h0 ∷ h1 ∷ h2 ∷ h3 ∷ [])), c)
  unfolding feed_byte feed_state feed_header finish_header get_max_payload parse_payload_length
  last_header_byte oob d c n h0 h1 h2 h3 h = rw (lt→ltb _ _ h)

  abbrev rejected : Decoder → ℕ → ℕ → ℕ → ℕ → ℕ → Decoder
  rejected d n h0 h1 h2 h3 = reject_oversized (in_header d n (h0 ∷ h1 ∷ h2 ∷ h3 ∷ []))

  rejected-Recovered :
      (d : Decoder) (n h0 h1 h2 h3 : ℕ) → Recovered d 5 1 (rejected d n h0 h1 h2 h3)
  unfolding reject_oversized decoder_reset
  rejected-Recovered d n h0 h1 h2 h3 = record {
    between_packets = refl;
    counted = refl;
    rejections = refl;
  }

  -- An ACL header that declares more than 1021 bytes is thrown away as soon as it is complete: the
  -- five bytes are counted as desynchronised, one rejection is counted, the packet callback is not
  -- called, and the decoder is idle again.
  feed-oversized_acl :
      (oob : Option (C → ℕ → Bool × C)) (d : Decoder) (c : C) (h0 h1 h2 h3 : ℕ)
      → d.state ≡ idle
      → 1021 < h2 + h3 * 256
      → let (d', c') = feed callback oob d c (pkt_acl ∷ h0 ∷ h1 ∷ h2 ∷ h3 ∷ []) in
        Recovered d 5 1 d' × (c' ≡ c)
  feed-oversized_acl oob d c h0 h1 h2 h3 e h =
      let at = λ (n : ℕ) (buf : List ℕ). in_header d n buf in
      let n = λ (k : ℕ). inc32 k in
      let n1 = n d.bytes_consumed in
      let whole : feed callback oob d c (pkt_acl ∷ h0 ∷ h1 ∷ h2 ∷ h3 ∷ [])
          ≡ (rejected d (n (n (n (n n1)))) h0 h1 h2 h3, c) =
        feed_step callback oob d (at n1 []) c c pkt_acl _
          (acl_type oob (record d { bytes_consumed = n1 }) c e)
        ∙ feed_step callback oob (at n1 []) (at (n n1) (h0 ∷ [])) c c h0 _
            (header_byte oob d c (n n1) h0 [] (omega arith))
        ∙ feed_step callback oob _ (at (n (n n1)) (h0 ∷ h1 ∷ [])) c c h1 _
            (header_byte oob d c (n (n n1)) h1 (h0 ∷ []) (omega arith))
        ∙ feed_step callback oob _ (at (n (n (n n1))) (h0 ∷ h1 ∷ h2 ∷ [])) c c h2 _
            (header_byte oob d c (n (n (n n1))) h2 (h0 ∷ h1 ∷ []) (omega arith))
        ∙ feed_step callback oob _ _ c c h3 []
            (last_header_byte oob d c (n (n (n (n n1)))) h0 h1 h2 h3 h)
        ∙ (unfold feed in refl) in
      subst (λ (r : Decoder × C). Recovered d 5 1 r.0 × (r.1 ≡ c)) (sym whole)
        (rejected-Recovered d _ h0 h1 h2 h3, refl)

  stray_byte :
      (d : Decoder) (c : C) (b : ℕ)
      → d.state ≡ idle
      → get_header_length b ≡ 0
      → feed_byte callback none d c b ≡ (record d { desynchronised = inc32 d.desynchronised }, c)
  unfolding feed_byte feed_state feed_idle feed_stray
  stray_byte d c b e h =
      subst
        (λ (r : DecoderState).
          feed_state callback none r d c b
          ≡ (record d { desynchronised = inc32 d.desynchronised }, c))
        (sym e) (rw ((==_iff _ _).1 h))

  -- With no out-of-band callback, bytes between packets that are no packet types are discarded and
  -- counted one by one, and nothing is delivered.
  feed_strays :
      (bs : List ℕ) (d : Decoder) (c : C)
      → d.state ≡ idle
      → All (λ b. get_header_length b ≡ 0) bs
      → let (d', c') = feed callback none d c bs in
        (d'.state ≡ idle)
        × (d'.desynchronised % 2 ^ 32 ≡ add32 d.desynchronised (length bs))
        × (c' ≡ c)
  feed_strays [] d c e h = unfold feed in (e, omega arith, refl)
  feed_strays (b ∷ bs) d c e (h, hs) =
      let d' : Decoder = record d { bytes_consumed = inc32 d.bytes_consumed } in
      let e' : Decoder = record d' { desynchronised = inc32 d.desynchronised } in
      let ih = feed_strays bs e' c e hs in
      subst
        (λ (r : Decoder × C).
          (r.0.state ≡ idle)
          × (r.0.desynchronised % 2 ^ 32 ≡ add32 d.desynchronised (length (b ∷ bs)))
          × (r.1 ≡ c))
        (sym (feed_step callback none d e' c c b bs (stray_byte d' c b e h)))
        (ih.0, omega (arith, ih.1), ih.2)
