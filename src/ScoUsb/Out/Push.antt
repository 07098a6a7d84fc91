-- ===== src/ScoUsb/Out/Push.antt =====
-- src/common/sco_usb.c, ScoUsbOutPush: frames join the queue, and a full queue loses its oldest.
use virt_bth_usb.Common.{ℕ, zero, suc, ◌+◌, ◌≤◌, ◌≡◌, sym, ap, ◌∙◌, false, arith}
use virt_bth_usb.Common.{
  List, [], ◌∷◌, ◌++◌, length, take, drop, append-nil, append_assoc, length-replicate,
}
use virt_bth_usb.Common.{if◌then◌else◌, ltb, ◌==◌, ◌||◌, both, either}
use virt_bth_usb.ScoUsb.{max_iso_packet}
use virt_bth_usb.ScoUsb.Out.{
  Chunk, no_chunk, ring_slots, ScoOut, make_room, append_chunk, push_frames, out_push, out_reset,
}
use virt_bth_usb.ScoUsb.Out.Release.{frames_of}
use virt_bth_usb.ScoUsb.Out.Ring.{
  IsOut, cut, newest, stream_of, lose, length-frames, newest-newest, make_room-frames,
  make_room-IsOut, make_room-count, make_room-stream, lose-lose,
}

pub newest-all : (xs : List Chunk) → length xs ≤ ring_slots → newest xs ≡ xs
newest-all xs h = ap (λ (k : ℕ). drop k xs) {y = 0} (omega arith)

push_frames-IsOut :
    (fuel : ℕ) (out : ScoOut) (due : ℕ) (bytes : List ℕ)
    → IsOut out
    → IsOut (push_frames fuel out due bytes)
unfolding push_frames
push_frames-IsOut zero out due bytes v = v
push_frames-IsOut (suc fuel) out due bytes v =
    either IsOut (length bytes == 0) v
      (push_frames-IsOut fuel _ due (drop max_iso_packet bytes) (make_room-IsOut out _ v))

newest_unchanged : (out : ScoOut) → IsOut out → frames_of out ≡ newest (frames_of out ++ [])
newest_unchanged out v =
    sym (newest-all (frames_of out) (omega (arith, length-frames out, v.count_in)))
    ∙ ap newest (sym (append-nil (frames_of out)))

push_frames-newest :
    (fuel : ℕ) (out : ScoOut) (due : ℕ) (bytes : List ℕ)
    → IsOut out
    → frames_of (push_frames fuel out due bytes) ≡ newest (frames_of out ++ cut fuel due bytes)
unfolding push_frames cut
push_frames-newest zero out due bytes v = newest_unchanged out v
push_frames-newest (suc n) out due bytes v =
    let c : Chunk = record { due = due; bytes = take max_iso_packet bytes } in
    let rest : List ℕ = drop max_iso_packet bytes in
    let later : List Chunk = cut n due rest in
    both (λ (o : ScoOut) (cs : List Chunk). frames_of o ≡ newest (frames_of out ++ cs))
      (length bytes == 0) (newest_unchanged out v)
      (push_frames-newest n (append_chunk (make_room out) c) due rest (make_room-IsOut out c v)
        ∙ ap (λ xs. newest (xs ++ later)) (make_room-frames out c v)
        ∙ newest-newest (frames_of out ++ (c ∷ [])) later
        ∙ ap newest (append_assoc (frames_of out) (c ∷ []) later))

-- Whether the ring overflows, counted frame by frame or at once.
overflows :
    (count later next : ℕ)
    → count ≤ ring_slots
    → next ≡ (if count == ring_slots then ring_slots else count + 1)
    → (ltb ring_slots (next + later) || count == ring_slots) ≡ ltb ring_slots (count + suc later)
overflows count later next h e = ground arith

no_overflow : (count : ℕ) → count ≤ ring_slots → ltb ring_slots (count + 0) ≡ false
no_overflow count h = ground arith

push_frames-lose :
    (fuel : ℕ) (out : ScoOut) (due : ℕ) (bytes : List ℕ)
    → IsOut out
    → stream_of (push_frames fuel out due bytes)
      ≡ lose (ltb ring_slots (out.count + length (cut fuel due bytes))) (stream_of out)
unfolding push_frames cut
push_frames-lose zero out due bytes v =
    ap (λ t. lose t (stream_of out)) (sym (no_overflow out.count v.count_in))
push_frames-lose (suc n) out due bytes v =
    let c : Chunk = record { due = due; bytes = take max_iso_packet bytes } in
    let rest : List ℕ = drop max_iso_packet bytes in
    let next : ScoOut = append_chunk (make_room out) c in
    let later = length (cut n due rest) in
    both
      (λ (o : ScoOut) (cs : List Chunk).
        stream_of o ≡ lose (ltb ring_slots (out.count + length cs)) (stream_of out))
      (length bytes == 0)
      (ap (λ t. lose t (stream_of out)) (sym (no_overflow out.count v.count_in)))
      (push_frames-lose n next due rest (make_room-IsOut out c v)
        ∙ ap (lose (ltb ring_slots (next.count + later))) (make_room-stream out c)
        ∙ lose-lose (ltb ring_slots (next.count + later)) (out.count == ring_slots) (stream_of out)
        ∙ ap (λ t. lose t (stream_of out))
            (overflows out.count later next.count v.count_in (make_room-count out c)))

unfoldable pub frames_in : ℕ → List ℕ → List Chunk
frames_in due bytes = cut (length bytes) due bytes

pub out_push-IsOut :
    (out : ScoOut) (due : ℕ) (bytes : List ℕ) → IsOut out → IsOut (out_push out due bytes)
unfolding out_push
out_push-IsOut out due bytes v = push_frames-IsOut (length bytes) out due bytes v

pub out_reset-IsOut : IsOut out_reset
unfolding out_reset
out_reset-IsOut = record {
  size = length-replicate ring_slots no_chunk;
  head_in = omega arith;
  count_in = omega arith;
}

-- A transfer's frames join the queue, the oldest frames are lost from a queue that overflows, and
-- only then is the packet in progress given up and the stream marked for resynchronisation.
pub out_push-newest :
    (out : ScoOut) (due : ℕ) (bytes : List ℕ)
    → IsOut out
    → (frames_of (out_push out due bytes) ≡ newest (frames_of out ++ frames_in due bytes))
      × (stream_of (out_push out due bytes)
          ≡ lose (ltb ring_slots (out.count + length (frames_in due bytes))) (stream_of out))
unfolding out_push frames_in
out_push-newest out due bytes v = (
  push_frames-newest (length bytes) out due bytes v,
  push_frames-lose (length bytes) out due bytes v,
)
