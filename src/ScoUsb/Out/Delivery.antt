-- ===== src/ScoUsb/Out/Delivery.antt =====
-- src/common/sco_usb.c: the host's transfers, through ScoUsbOutPush and ScoUsbOutRelease, as the
-- packets that the voice is handed on in.
use virt_bth_usb.Common.{
  ℕ, zero, suc, ◌+◌, ◌≤◌, ◌<◌, ◌≡◌, refl, sym, ap, ap₂, subst, ◌∙◌, Bool, true, false, arith,
}
use virt_bth_usb.Common.{
  List, [], ◌∷◌, ◌++◌, length, take, drop, map, append-nil, append_assoc, length-append,
  length-drop, take-append-drop,
}
use virt_bth_usb.Common.{ltb, leb, ◌==◌, cases, either, All}
use virt_bth_usb.ScoUsb.{max_iso_packet}
use virt_bth_usb.ScoUsb.Out.{Chunk, ring_slots, ScoOut, out_push, out_release, lacks}
use virt_bth_usb.ScoUsb.Out.Reassembly.{Line, put, absorb, absorb-append}
use virt_bth_usb.ScoUsb.Out.Packets.{concat, IsWhole, deliver, absorb-concat}
use virt_bth_usb.ScoUsb.Out.Release.{frames_of, line_at, view_of, feed, play, out_release-play}
use virt_bth_usb.ScoUsb.Out.Ring.{IsOut, cut, stream_of, lose, length-frames}
use virt_bth_usb.ScoUsb.Out.Push.{frames_in, newest-all, out_push-IsOut, out_push-newest}

abbrev bytes_of : List Chunk → List ℕ
bytes_of cs = concat (map (λ (c : Chunk). c.bytes) cs)

cut-bytes :
    (fuel due : ℕ) (bytes : List ℕ) → length bytes ≤ fuel → bytes_of (cut fuel due bytes) ≡ bytes
unfolding cut
cut-bytes zero due [] h = refl
cut-bytes zero due (b ∷ bytes) h = absurd (omega arith)
cut-bytes (suc fuel) due [] h = refl
cut-bytes (suc fuel) due (b ∷ bytes) h =
    cases (λ (cs : List Chunk). bytes_of cs ≡ b ∷ bytes) (length (b ∷ bytes) == 0)
      (λ e. absurd (ground (arith, e)))
      (λ e.
        ap (λ r. take max_iso_packet (b ∷ bytes) ++ r)
          (cut-bytes fuel due (drop max_iso_packet (b ∷ bytes))
            (omega (arith, length-drop max_iso_packet (b ∷ bytes))))
        ∙ take-append-drop max_iso_packet (b ∷ bytes))

abbrev IsDue : ℕ → Chunk → Type 0
IsDue now c = leb c.due now ≡ true

cut-IsDue :
    (fuel due now : ℕ) (bytes : List ℕ) → leb due now ≡ true → All (IsDue now) (cut fuel due bytes)
unfolding cut
cut-IsDue zero due now bytes h = tt
cut-IsDue (suc fuel) due now bytes h =
    either (All (IsDue now)) (length bytes == 0) tt
      (h, cut-IsDue fuel due now (drop max_iso_packet bytes) h)

All-append : {A : Type 0} (P : A → Type 0) (xs ys : List A) → All P xs → All P ys → All P (xs ++ ys)
All-append P [] ys h k = k
All-append P (x ∷ xs) ys h k = (h.0, All-append P xs ys h.1 k)

concat-map-append : (xs ys : List Chunk) → bytes_of (xs ++ ys) ≡ bytes_of xs ++ bytes_of ys
concat-map-append [] ys = refl
concat-map-append (x ∷ xs) ys =
    ap (λ r. x.bytes ++ r) (concat-map-append xs ys)
    ∙ sym (append_assoc x.bytes (bytes_of xs) (bytes_of ys))

List-empty : {A : Type 0} {xs : List A} → length xs ≡ 0 → xs ≡ []
List-empty {xs = []} h = refl
List-empty {xs = x ∷ xs} h = absurd (omega (arith, h))

abbrev line_from : {C : Type 0} → List ℕ × Bool × ℕ → C → Line C
line_from s context = record { packet = s.0; resync = s.1; last_handle = s.2; context = context }

-- Transfers, each with the time of its frames, one after the other.
unfoldable pub push_all : ScoOut → List (ℕ × List ℕ) → ScoOut
push_all out [] = out
push_all out ((due, bytes) ∷ ts) = push_all (out_push out due bytes) ts

abbrev pub frames_of_all : List (ℕ × List ℕ) → List Chunk
frames_of_all [] = []
frames_of_all ((due, bytes) ∷ ts) = frames_in due bytes ++ frames_of_all ts

frames_of_all-bytes :
    (ts : List (ℕ × List ℕ))
    → bytes_of (frames_of_all ts) ≡ concat (map (λ (t : ℕ × List ℕ). t.1) ts)
unfolding frames_in
frames_of_all-bytes [] = refl
frames_of_all-bytes ((due, bytes) ∷ ts) =
    concat-map-append (frames_in due bytes) (frames_of_all ts)
    ∙ ap₂ ◌++◌ (cut-bytes (length bytes) due bytes (omega arith)) (frames_of_all-bytes ts)

frames_of_all-IsDue :
    (now : ℕ) (ts : List (ℕ × List ℕ))
    → All (λ (t : ℕ × List ℕ). leb t.0 now ≡ true) ts
    → All (IsDue now) (frames_of_all ts)
unfolding frames_in
frames_of_all-IsDue now [] h = tt
frames_of_all-IsDue now ((due, bytes) ∷ ts) h =
    All-append (IsDue now) (frames_in due bytes) (frames_of_all ts)
      (cut-IsDue (length bytes) due now bytes h.0) (frames_of_all-IsDue now ts h.1)

-- Transfers that the ring has room for queue all their frames.
push_all-frames :
    (ts : List (ℕ × List ℕ)) (out : ScoOut)
    → IsOut out
    → out.count + length (frames_of_all ts) ≤ ring_slots
    → (frames_of (push_all out ts) ≡ frames_of out ++ frames_of_all ts)
      × (stream_of (push_all out ts) ≡ stream_of out)
unfolding push_all
push_all-frames [] out v h = (sym (append-nil (frames_of out)), refl)
push_all-frames ((due, bytes) ∷ ts) out v h =
    let fs = frames_in due bytes in
    let sizes = length-append fs (frames_of_all ts) in
    let queued = length-append (frames_of out) fs in
    let old = length-frames out in
    let pushed = out_push-newest out due bytes v in
    let fits : ltb ring_slots (out.count + length fs) ≡ false = ground (arith, sizes, h) in
    let now_queued : frames_of (out_push out due bytes) ≡ frames_of out ++ fs =
      pushed.0 ∙ newest-all (frames_of out ++ fs) (omega arith) in
    let size = sym (length-frames (out_push out due bytes)) ∙ ap length now_queued in
    let later =
      push_all-frames ts (out_push out due bytes) (out_push-IsOut out due bytes v) (omega arith) in
    (
      later.0
          ∙ ap (λ xs. xs ++ frames_of_all ts) now_queued
          ∙ append_assoc (frames_of out) fs (frames_of_all ts),
      later.1 ∙ pushed.1 ∙ ap (λ t. lose t (stream_of out)) fits,
    )

module _ {C : Type 0} (emit : C → List ℕ → C) where
  put-resync : (l : Line C) (pk : List ℕ) → (put emit l pk).resync ≡ l.resync
  unfolding put
  put-resync l pk = either (λ (m : Line C). m.resync ≡ l.resync) _ refl refl

  absorb-resync : (l : Line C) (bytes : List ℕ) → (absorb emit l bytes).resync ≡ l.resync
  unfolding absorb
  absorb-resync l [] = refl
  absorb-resync l (b ∷ bytes) =
      absorb-resync (put emit l (l.packet ++ (b ∷ []))) bytes ∙ put-resync l (l.packet ++ (b ∷ []))

  feed-absorb :
      (l : Line C) (bytes : List ℕ) → l.resync ≡ false → feed emit l bytes ≡ absorb emit l bytes
  unfolding feed
  feed-absorb l bytes h = rw h

  -- Frames that are all due, on a line that is in step, are one stream of bytes.
  play-absorb :
      (now : ℕ) (l : Line C) (cs : List Chunk)
      → l.resync ≡ false
      → All (IsDue now) cs
      → play emit now l cs ≡ (absorb emit l (bytes_of cs), [])
  unfolding play absorb
  play-absorb now l [] h k = refl
  play-absorb now l (c ∷ cs) h k =
      let fed = feed-absorb l c.bytes h in
      rw (k.0) (
        play-absorb now (feed emit l c.bytes) cs
          (ap (λ (m : Line C). m.resync) fed ∙ absorb-resync l c.bytes ∙ h) k.1
        ∙ ap (λ (m : Line C). (absorb emit m (bytes_of cs), [])) fed
        ∙ ap (λ (m : Line C). (m, [])) (sym (absorb-append emit l c.bytes (bytes_of cs))))

  -- Whole HCI SCO packets, however the host cuts their bytes into transfers and these into frames,
  -- come out of a release as the same packets in the same order, and nothing else does: when the
  -- state is idle, the frames are no more than the ring holds and all of them are due.
  pub push_all-delivers :
      (out : ScoOut) (now : ℕ) (context : C) (ts : List (ℕ × List ℕ)) (packets : List (List ℕ))
      → IsOut out
      → out.count ≡ 0
      → out.packet ≡ []
      → out.resync ≡ false
      → length (frames_of_all ts) ≤ ring_slots
      → All (λ (t : ℕ × List ℕ). leb t.0 now ≡ true) ts
      → concat (map (λ (t : ℕ × List ℕ). t.1) ts) ≡ concat packets
      → All IsWhole packets
      → view_of (out_release emit (push_all out ts) now context)
        ≡ (deliver emit (line_at out context) packets, [])
  unfolding lacks
  push_all-delivers out now context ts packets v idle fresh in_step fits due same whole =
      let l : Line C = line_at out context in
      let cs = frames_of_all ts in
      let queue = push_all-frames ts out v (omega arith) in
      let full = push_all out ts in
      let kept : line_at full context ≡ l =
        ap (λ (s : List ℕ × Bool × ℕ). line_from s context) queue.1 in
      let empty : frames_of out ≡ [] = List-empty (length-frames out ∙ idle) in
      let packet : full.packet ≡ [] = ap (λ (s : List ℕ × Bool × ℕ). s.0) queue.1 ∙ fresh in
      out_release-play emit full now context (subst (λ pk. 0 < lacks pk) (sym packet) (omega arith))
      ∙ ap₂ (play emit now) kept (queue.0 ∙ ap (λ xs. xs ++ cs) empty)
      ∙ play-absorb now l cs in_step (frames_of_all-IsDue now ts due)
      ∙ ap (λ (m : Line C). (m, []))
          (ap (absorb emit l) (frames_of_all-bytes ts ∙ same)
            ∙ absorb-concat emit l packets fresh whole)
