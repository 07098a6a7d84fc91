-- ===== src/Fsm/Download.antt =====
-- src/common/qca_init_fsm.c: pumping the machine through a download against a controller that
-- acknowledges each segment that it is asked to acknowledge.
use virt_bth_usb.Fsm.Rounds.{
  cycle, pump, next_at, PatchAt, PatchDone, next_patch_ack, next_patch_skip, patch_sent,
  patch_acked, cycle_skip, cycle_ack, patch_ack_more, patch_ack_last,
}
use virt_bth_usb.Common.{
  ℕ, zero, suc, ◌+◌, ◌*◌, ◌<◌, ◌≡◌, refl, sym, ◌∙◌, ap, ap₂, subst, arith, Bool, true, false, inl,
  inr, Bool-cases,
}
use virt_bth_usb.Common.{List, ◌++◌, length, drop, inc32, drop_all}
use virt_bth_usb.Tlv.{tlv_segment_count, build_tlv_segment_command}
use virt_bth_usb.Tlv.Segments.{
  Fits, segment, build_segment_ack, segment_count_bounds, segment-append-drop, payload-build,
  segment_count-lt,
}
use virt_bth_usb.Fsm.{patch_download, board_id_request, Fsm, max_command}
use virt_bth_usb.Fsm.Pump.{next_in}
use virt_bth_usb.Fsm.Events.{is_tlv_acknowledgement}

module _ (image : List ℕ) (mode : ℕ) (fits : Fits image) (ack : List ℕ)
    (acked : is_tlv_acknowledgement ack ≡ true) where
  -- `n` segments are left, from `i` on.
  abbrev PatchTowards : ℕ → ℕ → Fsm → Type 0
  PatchTowards zero i f = PatchDone image f
  PatchTowards (suc n) i f = PatchAt image mode i f

  abbrev command_at : ℕ → List ℕ × Bool
  command_at i = build_tlv_segment_command image i mode max_command

  built :
      (i : ℕ) (f : Fsm)
      → PatchAt image mode i f
      → build_tlv_segment_command f.patch f.patch_index f.patch_download_mode max_command
        ≡ command_at i
  built i f v =
      ap
        (λ (p : List ℕ).
          build_tlv_segment_command p f.patch_index f.patch_download_mode max_command)
        v.patch
      ∙ ap (λ (k : ℕ). build_tlv_segment_command image k f.patch_download_mode max_command) v.index
      ∙ ap (λ (m : ℕ). build_tlv_segment_command image i m max_command) v.download_mode

  sent_more :
      (n i : ℕ) (f : Fsm)
      → PatchAt image mode i f
      → i + suc n ≡ tlv_segment_count (length image)
      → i + 1 < tlv_segment_count (length image)
      → PatchTowards n (suc i) (patch_sent f)
  sent_more zero i f v e h = absurd (omega arith)
  sent_more (suc n) i f v e h = record {
    state = v.state;
    patch = v.patch;
    download_mode = v.download_mode;
    index = omega (arith, v.index, segment_count-lt (length image));
    segments = v.segments;
  }

  patch_skip :
      (n i : ℕ) (f : Fsm)
      → PatchAt image mode i f
      → i + suc n ≡ tlv_segment_count (length image)
      → (command_at i).1 ≡ false
      → (cycle ack f ≡ ((command_at i).0, patch_sent f)) × PatchTowards n (suc i) (patch_sent f)
  unfolding next_in
  patch_skip n i f v e b =
      let facts = build_segment_ack image i mode max_command fits (omega arith) (omega arith) in
      let more = (facts.0.0 b).1 in
      (
        cycle_skip ack f (patch_sent f) (command_at i).0 (
            next_at patch_download f v.state
            ∙ next_patch_skip f (command_at i).0
                (built i f v ∙ ap (λ (x : Bool). ((command_at i).0, x)) b)
                (omega (arith, facts.1))),
        sent_more n i f v e more,
      )

  patch_wait :
      (n i : ℕ) (f : Fsm)
      → PatchAt image mode i f
      → i + suc n ≡ tlv_segment_count (length image)
      → (command_at i).1 ≡ true
      → (g : Fsm) × (cycle ack f ≡ ((command_at i).0, g)) × PatchTowards n (suc i) g
  unfolding next_in
  patch_wait zero i f v e b =
      let facts = build_segment_ack image i mode max_command fits (omega arith) (omega arith) in
      let g : Fsm = record f { commands_sent = inc32 f.commands_sent } in
      (
        patch_acked board_id_request f,
        cycle_ack ack f g (patch_acked board_id_request f) (command_at i).0
            (next_at patch_download f v.state
              ∙ next_patch_ack f (command_at i).0
                  (built i f v ∙ ap (λ (x : Bool). ((command_at i).0, x)) b)
                  (omega (arith, facts.1)))
            (patch_ack_last g ack v.state acked
              (omega (arith, v.index, v.segments, segment_count-lt (length image)))),
        record {
          state = refl;
          patch = v.patch;
          index = omega (arith, v.index, segment_count-lt (length image));
        },
      )
  patch_wait (suc n) i f v e b =
      let facts = build_segment_ack image i mode max_command fits (omega arith) (omega arith) in
      let g : Fsm = record f { commands_sent = inc32 f.commands_sent } in
      (
        patch_acked f.state f,
        cycle_ack ack f g (patch_acked f.state f) (command_at i).0
            (next_at patch_download f v.state
              ∙ next_patch_ack f (command_at i).0
                  (built i f v ∙ ap (λ (x : Bool). ((command_at i).0, x)) b)
                  (omega (arith, facts.1)))
            (patch_ack_more g ack v.state acked
              (omega (arith, v.index, v.segments, segment_count-lt (length image)))),
        record {
          state = v.state;
          patch = v.patch;
          download_mode = v.download_mode;
          index = omega (arith, v.index, segment_count-lt (length image));
          segments = v.segments;
        },
      )

  patch_round :
      (n i : ℕ) (f : Fsm)
      → PatchAt image mode i f
      → i + suc n ≡ tlv_segment_count (length image)
      → (g : Fsm) × (cycle ack f ≡ ((command_at i).0, g)) × PatchTowards n (suc i) g
  patch_round n i f v e = elim (Bool-cases (command_at i).1) [
    | inl b ↦ patch_wait n i f v e b
    | inr b ↦ let r = patch_skip n i f v e b in (patch_sent f, r.0, r.1)
  ]

  pump_patch :
      (n i : ℕ) (f : Fsm)
      → PatchTowards n i f
      → i + n ≡ tlv_segment_count (length image)
      → ((pump ack n f).0 ≡ drop (243 * i) image) × PatchDone image (pump ack n f).1
  unfolding pump
  pump_patch zero i f v e =
      (sym (drop_all (243 * i) image (omega (arith, (segment_count_bounds image fits).0))), v)
  pump_patch (suc n) i f v e =
      let (g, step, w) = patch_round n i f v e in
      let (rest, last) = pump_patch n (suc i) g w (omega arith) in
      let payload : drop 6 (command_at i).0 ≡ segment image i =
        payload-build image i mode max_command fits (omega arith) (omega arith) in
      (
        ap (λ (r : List ℕ × Fsm). drop 6 r.0 ++ (pump ack n r.1).0) step
            ∙ ap₂ ◌++◌ payload rest
            ∙ segment-append-drop image i,
        subst (λ (r : List ℕ × Fsm). PatchDone image (pump ack n r.1).1) (sym step) last,
      )

  to_go : (n : ℕ) (f : Fsm) → 0 < n → PatchAt image mode 0 f → PatchTowards n 0 f
  to_go zero f h v = absurd (omega arith)
  to_go (suc n) f h v = v

  -- For a patch that is not empty and that ULONG arithmetic does not wrap on: from the start of the
  -- patch download, with a controller whose acknowledgement the machine
  -- accepts, one round for each segment sends commands whose payloads make up the patch, in every
  -- download mode, and leaves the machine waiting for the board ID with all segments counted.
  pub pump-patch :
      (f : Fsm)
      → PatchAt image mode 0 f
      → 0 < length image
      → let (sent, f') = pump ack (tlv_segment_count (length image)) f in
        (sent ≡ image) × PatchDone image f'
  pump-patch f v h =
      let n = tlv_segment_count (length image) in
      pump_patch n 0 f (to_go n f (omega (arith, (segment_count_bounds image fits).0)) v)
        (omega arith)
