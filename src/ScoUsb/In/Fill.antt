-- ===== src/ScoUsb/In/Fill.antt =====
-- src/common/sco_usb.c, ScoUsbInFill: what a call pulls, queues and sends.
use virt_bth_usb.Common.{ℕ, ◌≤◌, ◌<◌, ◌≡◌, ◌⊎◌, refl, sym, ap, ◌∙◌, arith, true, false, inl, inr}
use virt_bth_usb.Common.{
  List, [], ◌++◌, length, drop, IsByte, All, Option, some, none, length-drop, append-nil, min,
}
use virt_bth_usb.Common.{ltb, leb, ◌==◌, cases, either}
use virt_bth_usb.ScoUsb.{header_size}
use virt_bth_usb.ScoUsb.In.{ScoIn, in_payload_size, build_frame, slice_frame, gather, in_fill}
use virt_bth_usb.ScoUsb.In.Voice.{IsIn, voice, frame_of}
use virt_bth_usb.ScoUsb.In.Gather.{
  Pulls, stop, IsVoice, IsOnLink, payloads, gather-IsIn, gather-appends, gather_done, gather-frame,
}
use virt_bth_usb.ScoUsb.In.Frame.{
  unsent, IsBetween, in_payload_size-IsExact, in_payload_size_positive, build_frame-voice,
  build_frame-IsIn, build_frame-length, build_frame-offset, slice_frame-voice, slice_frame-whole,
  slice_frame-payload, slice_frame-unsent,
}

-- A state before a new frame: the frame is forgotten, and nothing else.
abbrev forget_frame : ScoIn → ScoIn
forget_frame s = record s { frame = []; frame_offset = 0 }

module _ {C : Type 0} (pull : C → Option (List ℕ × C)) where
  -- Filling a packet keeps the ring within its bounds, whatever packets the source gives.
  pub in_fill-IsIn :
      (fuel : ℕ) (s : ScoIn) (m k : ℕ) (c : C)
      → ((c c' : C) (p : List ℕ) → pull c ≡ some (p, c') → All IsByte p)
      → IsIn s
      → IsIn (in_fill pull fuel s m k c).0
  unfolding in_fill slice_frame
  in_fill-IsIn fuel s m k c b v =
      let n = in_payload_size m in
      let P : ScoIn × C × List ℕ → Type 0 = λ r. IsIn r.0 in
      let start : IsIn (forget_frame s) = record {
        size = v.size;
        head_in = v.head_in;
        count_in = v.count_in;
      } in
      let after =
        gather-IsIn pull fuel n c (forget_frame s) b (in_payload_size-IsExact m).0 start in
      let framed = build_frame-IsIn n (gather pull fuel n c (forget_frame s)).0 after in
      either P (leb (length s.frame) s.frame_offset)
        (either P (n == 0) start (
          either P (ltb (gather pull fuel n c (forget_frame s)).0.fifo_count n) after
            (record { size = framed.size; head_in = framed.head_in; count_in = framed.count_in })))
        (record { size = v.size; head_in = v.head_in; count_in = v.count_in })

  forget_frame-voice : (s : ScoIn) → voice (forget_frame s) ≡ voice s
  unfolding voice
  forget_frame-voice s = refl

  -- What a call does with the voice `before` it, from the context `c`: voice that was pulled and
  -- queued is in the new frame or still queued, and the packet is the front of that frame.
  pub record Conserves (before : List ℕ) (c : C) (r : ScoIn × C × List ℕ) : Type 0 where
    pub pulled : List (List ℕ)
    pub steps : Pulls pull c pulled r.1
    pub voices : before ++ payloads pulled ≡ drop header_size r.0.frame ++ voice r.0
    pub sent : r.2 ++ unsent r.0 ≡ r.0.frame

  -- A call that finds no frame in progress loses, repeats and reorders no voice: for a source whose
  -- packets are well formed and of the connection that the queued voice is from, if any is.
  pub in_fill-Conserves :
      (h fuel : ℕ) (s : ScoIn) (m k : ℕ) (c : C)
      → ((c c' : C) (p : List ℕ) → pull c ≡ some (p, c') → IsVoice h p)
      → IsIn s
      → IsOnLink h s
      → IsBetween s
      → Conserves (voice s) c (in_fill pull fuel s m k c)
  unfolding in_fill
  in_fill-Conserves h fuel s m k c g v l between =
      let n = in_payload_size m in
      let P : ScoIn × C × List ℕ → Type 0 = Conserves (voice s) c in
      let start : ScoIn = forget_frame s in
      let full = gather pull fuel n c start in
      let (ps, steps, sum) =
        gather-appends pull h fuel n c start g (in_payload_size-IsExact m).0
          (record { size = v.size; head_in = v.head_in; count_in = v.count_in }) l in
      let no_frame : frame_of full.0 ≡ ([], 0) = gather-frame pull fuel n c start in
      let built : ScoIn = build_frame n full.0 in
      let total : voice s ++ payloads ps ≡ voice full.0 =
        ap (λ r. r ++ payloads ps) (sym (forget_frame-voice s)) ∙ sym sum in
      let silent : P (start, c, []) = record {
        pulled = [];
        steps = stop c;
        voices = append-nil (voice s) ∙ sym (forget_frame-voice s);
        sent = refl;
      } in
      let waiting : P (full.0, full.1, []) = record {
        pulled = ps;
        steps = steps;
        voices =
            total ∙ ap (λ (f : List ℕ × ℕ). drop header_size f.0 ++ voice full.0) (sym no_frame);
        sent =
            ap (λ (f : List ℕ × ℕ). drop f.1 f.0) no_frame
            ∙ sym (ap (λ (f : List ℕ × ℕ). f.0) no_frame);
      } in
      let slice : ScoIn × List ℕ = slice_frame m k built in
      let framed : ltb full.0.fifo_count n ≡ false → P (slice.0, full.1, slice.1) = λ enough.
        record {
          pulled = ps;
          steps = steps;
          voices =
              total
              ∙ build_frame-voice n full.0 (ground (arith, enough))
              ∙ ap (λ x. x ++ voice built) (slice_frame-payload m k built)
              ∙ ap (λ x. drop header_size slice.0.frame ++ x) (sym (slice_frame-voice m k built));
          sent =
              (slice_frame-unsent m k built).0
              ∙ ap (λ (i : ℕ). drop i built.frame)
                  (build_frame-offset n full.0 ∙ ap (λ (f : List ℕ × ℕ). f.1) no_frame)
              ∙ slice_frame-whole m k built;
        } in
      rw between
        (either P (n == 0) silent (cases P (ltb full.0.fifo_count n) (λ few. waiting) framed))

  -- In the middle of a frame the packet is the next part of it, and nothing is pulled.
  pub in_fill_going :
      (fuel : ℕ) (s : ScoIn) (m k : ℕ) (c : C)
      → leb (length s.frame) s.frame_offset ≡ false
      → (let r = in_fill pull fuel s m k c in
          (r.2 ++ unsent r.0 ≡ unsent s)
          × (length r.2 ≡ min k (min m (length (unsent s))))
          × (voice r.0 ≡ voice s)
          × (r.1 ≡ c))
  unfolding in_fill
  in_fill_going fuel s m k c going =
      let sliced = slice_frame-unsent m k s in
      rw going (sliced.0, sliced.1, slice_frame-voice m k s, refl)

  -- Between two frames, with fuel for every packet of the source: the call sends as much as the
  -- packet and the buffer take, unless the source has run dry before a payload was queued.
  in_fill_sends :
      (measure : C → ℕ)
      → ((c c' : C) (p : List ℕ) → pull c ≡ some (p, c') → measure c' < measure c)
      → (fuel : ℕ) (s : ScoIn) (m k : ℕ) (c : C) → measure c < fuel
      → 4 ≤ m
      → IsBetween s
      → (let r = in_fill pull fuel s m k c in
          (length r.2 ≡ min k (min m 258))
          ⊎ ((r.2 ≡ []) × (r.0.fifo_count < in_payload_size m) × (pull r.1 ≡ none)))
  unfolding in_fill
  in_fill_sends measure d fuel s m k c h large between =
      let n = in_payload_size m in
      let full = gather pull fuel n c (forget_frame s) in
      let P : ScoIn × C × List ℕ → Type 0 = λ r.
        (length r.2 ≡ min k (min m 258))
        ⊎ ((r.2 ≡ []) × (r.0.fifo_count < n) × (pull r.1 ≡ none)) in
      let built : ScoIn = build_frame n full.0 in
      let slice : ScoIn × List ℕ = slice_frame m k built in
      let sizes = in_payload_size_positive m large in
      let start : built.frame_offset ≡ 0 =
        build_frame-offset n full.0
        ∙ ap (λ (f : List ℕ × ℕ). f.1) (gather-frame pull fuel n c (forget_frame s)) in
      let framed : P (slice.0, full.1, slice.1) = inl (
        omega (
          arith,
          (slice_frame-unsent m k built).1,
          length-drop built.frame_offset built.frame,
          build_frame-length n full.0,
          start,
          sizes.1,
        )) in
      let waiting : ltb full.0.fifo_count n ≡ true → P (full.0, full.1, []) = λ few.
        elim (gather_done pull measure d fuel n c (forget_frame s) h) [
          | inl e ↦ absurd (ground (arith, few, e))
          | inr dry ↦ inr (refl, ground (arith, few), dry)
        ] in
      rw between (
        cases P (n == 0) (λ none_sent. absurd (ground (arith, none_sent, sizes.0)))
          (λ some_sent. cases P (ltb full.0.fifo_count n) waiting (λ enough. framed)))
