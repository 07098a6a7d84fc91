-- ===== src/ScoUsb/Out/Release.antt =====
-- src/common/sco_usb.c, ScoUsbOutRelease: the frames in the ring as a queue.
use virt_bth_usb.Common.{
  ℕ, zero, suc, ◌+◌, ◌-◌, ◌%◌, ◌<◌, ◌≡◌, refl, sym, ap, ap₂, ◌∙◌, true, false, arith, subst,
}
use virt_bth_usb.Common.{List, [], ◌∷◌, length, get_or, ◌&&◌, ◌||◌, ltb, leb, ◌!=◌}
use virt_bth_usb.Common.{if◌then◌else◌, either, both}
use virt_bth_usb.Fifo.Queue.{run_of}
use virt_bth_usb.ScoUsb.{handle_of}
use virt_bth_usb.ScoUsb.Out.{
  Chunk, no_chunk, ring_slots, no_handle, ScoOut, Progress, lacks, is_off_stream, resynchronise,
  reassemble, drop_chunk, release_chunk, release_due, out_release,
}
use virt_bth_usb.ScoUsb.Out.Reassembly.{
  Line, line_of, ring_of, absorb, reassemble-absorb, reassemble-ring,
}
use virt_bth_usb.ScoUsb.Out.Packets.{absorb-Lacking}

-- The queued frames, oldest first.
unfoldable pub frames_of : ScoOut → List Chunk
frames_of out = run_of no_chunk out.ring ring_slots out.head out.count

-- A state as the line and the queue in front of it, for a caller's context.
abbrev pub line_at : {C : Type 0} → ScoOut → C → Line C
line_at out context = record {
  packet = out.packet;
  resync = out.resync;
  last_handle = out.last_handle;
  context = context;
}

abbrev pub view_of : {C : Type 0} → Progress C → Line C × List Chunk
view_of p = (line_of p, frames_of p.out)

module _ {C : Type 0} (emit : C → List ℕ → C) where
  -- One frame's bytes on the line: after a loss the frames are skipped up to one that starts
  -- like a packet of the stream in progress.
  unfoldable pub feed : Line C → List ℕ → Line C
  feed l bytes =
      if l.resync
      then (if l.last_handle != no_handle
            && (ltb (length bytes) 2 || handle_of bytes != l.last_handle)
          then l
          else absorb emit (record l { resync = false }) bytes)
      else absorb emit l bytes

  -- The frames that are due go over the line in order, up to the first that is not.
  unfoldable pub play : ℕ → Line C → List Chunk → Line C × List Chunk
  play now l [] = (l, [])
  play now l (c ∷ cs) =
      let rest = play now (feed l c.bytes) cs in if leb c.due now then rest else (l, c ∷ cs)

  feed-Lacking :
      (l : Line C) (bytes : List ℕ) → 0 < lacks l.packet → 0 < lacks (feed l bytes).packet
  unfolding feed
  feed-Lacking l bytes h =
      let P : Line C → Type 0 = λ m. 0 < lacks m.packet in
      either P l.resync
        (either P
          (l.last_handle != no_handle && (ltb (length bytes) 2 || handle_of bytes != l.last_handle))
          h (absorb-Lacking emit (record l { resync = false }) bytes h))
        (absorb-Lacking emit l bytes h)

  -- The frame's bytes after the check, on the line.
  resynchronise-feed :
      (p : Progress C) (bytes : List ℕ)
      → 0 < lacks p.out.packet
      → (let (out, rest) = resynchronise p.out bytes in
          line_of (reassemble emit (length rest) (record p { out = out }) rest))
        ≡ feed (line_of p) bytes
  unfolding resynchronise feed is_off_stream reassemble
  resynchronise-feed p bytes h =
      let R : ScoOut × List ℕ → Line C → Type 0 =
        λ o l. line_of (reassemble emit (length o.1) (record p { out = o.0 }) o.1) ≡ l in
      both R p.out.resync
        (both R (is_off_stream p.out bytes) refl (
          reassemble-absorb emit (length bytes) (record p { out = record p.out { resync = false } })
            bytes (omega arith) h))
        (reassemble-absorb emit (length bytes) p bytes (omega arith) h)

  -- A released frame goes over the line and leaves the ring.
  release_chunk-feed :
      (p : Progress C)
      → 0 < lacks p.out.packet
      → line_of (release_chunk emit p)
        ≡ feed (line_of p) (get_or p.out.ring p.out.head no_chunk).bytes
  unfolding release_chunk drop_chunk
  release_chunk-feed p h = resynchronise-feed p (get_or p.out.ring p.out.head no_chunk).bytes h

  resynchronise-ring :
      (p : Progress C) (bytes : List ℕ)
      → (let (out, rest) = resynchronise p.out bytes in
          ring_of (reassemble emit (length rest) (record p { out = out }) rest))
        ≡ ring_of p
  unfolding resynchronise reassemble
  resynchronise-ring p bytes =
      let P : ScoOut × List ℕ → Type 0 =
        λ o. ring_of (reassemble emit (length o.1) (record p { out = o.0 }) o.1) ≡ ring_of p in
      either P p.out.resync
        (either P (is_off_stream p.out bytes) refl (
          reassemble-ring emit (length bytes) (record p { out = record p.out { resync = false } })
            bytes))
        (reassemble-ring emit (length bytes) p bytes)

  release_chunk-ring :
      (p : Progress C)
      → ring_of (release_chunk emit p)
        ≡ (p.out.ring, (p.out.head + 1) % ring_slots, p.out.count - 1)
  unfolding release_chunk drop_chunk
  release_chunk-ring p =
      ap (λ (r : List Chunk × ℕ × ℕ). (r.0, (r.1 + 1) % ring_slots, r.2 - 1))
        (resynchronise-ring p (get_or p.out.ring p.out.head no_chunk).bytes)

  released_frames :
      (p : Progress C) (n : ℕ)
      → p.out.count ≡ suc n
      → frames_of (release_chunk emit p).out
        ≡ run_of no_chunk p.out.ring ring_slots ((p.out.head + 1) % ring_slots) n
  unfolding frames_of
  released_frames p n e =
      let same = release_chunk-ring p in
      ap (λ (r : List Chunk × ℕ × ℕ). run_of no_chunk r.0 ring_slots r.1 r.2) same
      ∙ ap (λ (k : ℕ). run_of no_chunk p.out.ring ring_slots ((p.out.head + 1) % ring_slots) k)
          (omega (arith, e))

  released-Lacking :
      (p : Progress C) → 0 < lacks p.out.packet → 0 < lacks (release_chunk emit p).out.packet
  released-Lacking p h =
      let bytes = (get_or p.out.ring p.out.head no_chunk).bytes in
      subst (λ (l : Line C). 0 < lacks l.packet) (sym (release_chunk-feed p h))
        (feed-Lacking (line_of p) bytes h)

  queued_frames :
      (out : ScoOut) (n : ℕ)
      → out.count ≡ n
      → frames_of out ≡ run_of no_chunk out.ring ring_slots out.head n
  unfolding frames_of
  queued_frames out n e = ap (λ (k : ℕ). run_of no_chunk out.ring ring_slots out.head k) e

  release_due-play :
      (n now : ℕ) (p : Progress C)
      → p.out.count ≡ n
      → 0 < lacks p.out.packet
      → view_of (release_due emit n now p) ≡ play now (line_of p) (frames_of p.out)
  unfolding release_due play run_of
  release_due-play zero now p e h =
      let queue = queued_frames p.out 0 e in
      ap (λ fs. (line_of p, fs)) queue ∙ ap (play now (line_of p)) (sym queue)
  release_due-play (suc n) now p e h =
      let queue = queued_frames p.out (suc n) e in
      let c = get_or p.out.ring p.out.head no_chunk in
      let some_frames : ltb 0 p.out.count ≡ true = ground (arith, e) in
      let R : Progress C → Line C × List Chunk → Type 0 = λ q r. view_of q ≡ r in
      rw (some_frames, queue)
        (both R (leb c.due now)
          (release_due-play n now (release_chunk emit p)
              (ap (λ (r : List Chunk × ℕ × ℕ). r.2) (release_chunk-ring p) ∙ omega (arith, e))
              (released-Lacking p h)
            ∙ ap₂ (play now) (release_chunk-feed p h) (released_frames p n e))
          (ap (λ fs. (line_of p, fs)) queue))

  -- A call releases exactly the frames that are due, in order, and keeps the rest.
  pub out_release-play :
      (out : ScoOut) (now : ℕ) (context : C)
      → 0 < lacks out.packet
      → view_of (out_release emit out now context) ≡ play now (line_at out context) (frames_of out)
  unfolding out_release
  out_release-play out now context h =
      release_due-play out.count now (record { out = out; context = context; now_emitted = 0 }) refl
        h
