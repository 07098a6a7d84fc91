-- ===== src/ScoUsb/Out/Ring.antt =====
-- src/common/sco_usb.c, ScoUsbOutPush: one frame into the ring, as a queue.
use virt_bth_usb.Common.{
  ℕ, zero, suc, ◌+◌, ◌-◌, ◌%◌, ◌≤◌, ◌<◌, ◌≡◌, refl, sym, ap, ◌∙◌, Bool, true, false, arith,
}
use virt_bth_usb.Common.{
  List, [], ◌∷◌, ◌++◌, length, set, take, drop, length-append, length-drop, length-set, drop-drop,
}
use virt_bth_usb.Common.{if◌then◌else◌, ◌==◌, ◌||◌, both, cases}
use native.Mathlib.Nat.{mod-lt}
use virt_bth_usb.Fifo.Queue.{run_of, run_of-set, run_of-cons, length-run}
use virt_bth_usb.ScoUsb.{max_iso_packet}
use virt_bth_usb.ScoUsb.Out.{Chunk, no_chunk, ring_slots, ScoOut, make_room, append_chunk}
use virt_bth_usb.ScoUsb.Out.Release.{frames_of}

pub record IsOut (out : ScoOut) : Type 0 where
  pub size : length out.ring ≡ ring_slots
  pub head_in : out.head < ring_slots
  pub count_in : out.count ≤ ring_slots

-- The frames of an isochronous transfer: its bytes in pieces of a packet at most.
unfoldable pub cut : ℕ → ℕ → List ℕ → List Chunk
cut zero due bytes = []
cut (suc fuel) due bytes =
    let chunk : Chunk = record { due = due; bytes = take max_iso_packet bytes } in
    let rest = cut fuel due (drop max_iso_packet bytes) in
    if length bytes == 0 then [] else chunk ∷ rest

-- As many of the last ones as the ring holds.
abbrev pub newest : List Chunk → List Chunk
newest xs = drop (length xs - ring_slots) xs

-- The state of the reassembly, and that state after a loss.
abbrev pub stream_of : ScoOut → List ℕ × Bool × ℕ
stream_of out = (out.packet, out.resync, out.last_handle)

abbrev pub lose : Bool → List ℕ × Bool × ℕ → List ℕ × Bool × ℕ
lose t s = if t then ([], true, s.2) else s

pub length-frames : (out : ScoOut) → length (frames_of out) ≡ out.count
unfolding frames_of
length-frames out = length-run no_chunk out.ring ring_slots out.head out.count

drop-append_left :
    {A : Type 0} (n : ℕ) (xs ys : List A) → n ≤ length xs → drop n (xs ++ ys) ≡ drop n xs ++ ys
drop-append_left zero xs ys h = refl
drop-append_left (suc n) [] ys h = absurd (omega arith)
drop-append_left (suc n) (x ∷ xs) ys h = drop-append_left n xs ys (omega arith)

pub newest-newest : (xs ys : List Chunk) → newest (newest xs ++ ys) ≡ newest (xs ++ ys)
newest-newest xs ys =
    let d = length xs - ring_slots in
    let both_lengths = length-append (drop d xs) ys in
    ap newest (sym (drop-append_left d xs ys (omega arith)))
    ∙ drop-drop (length (drop d (xs ++ ys)) - ring_slots) d (xs ++ ys)
    ∙ ap (λ k. drop k (xs ++ ys)) (omega (arith, length-drop d (xs ++ ys), length-append xs ys))

append_chunk-frames :
    (out : ScoOut) (c : Chunk)
    → length out.ring ≡ ring_slots
    → out.head < ring_slots
    → out.count < ring_slots
    → frames_of (append_chunk out c) ≡ frames_of out ++ (c ∷ [])
unfolding frames_of append_chunk
append_chunk-frames out c s h k =
    ap
      (λ (n : ℕ).
        run_of no_chunk (set out.ring ((out.head + out.count) % ring_slots) c) ring_slots out.head
          n)
      {y = suc out.count} (omega arith)
    ∙ run_of-set no_chunk c ring_slots out.count out.head ((out.head + out.count) % ring_slots)
        out.ring s h k refl

-- One frame into the queue: the same with a frame lost when it was full.
pub make_room-frames :
    (out : ScoOut) (c : Chunk)
    → IsOut out
    → frames_of (append_chunk (make_room out) c) ≡ newest (frames_of out ++ (c ∷ []))
unfolding make_room frames_of
make_room-frames out c v =
    let size = length-append (frames_of out) (c ∷ []) in
    let queued = length-frames out in
    cases (λ (o : ScoOut). frames_of (append_chunk o c) ≡ newest (frames_of out ++ (c ∷ [])))
      (out.count == ring_slots)
      (λ full.
        let first =
          run_of-cons no_chunk out.ring ring_slots out.head out.count (ground (arith, full)) in
        append_chunk-frames _ c v.size (mod-lt (out.head + 1) (omega arith)) (ground (arith, full))
        ∙ ap (λ (xs : List Chunk). drop 1 (xs ++ (c ∷ []))) (sym first)
        ∙ ap (λ (k : ℕ). drop k (frames_of out ++ (c ∷ []))) {x = 1}
            (ground (arith, full, size, queued)))
      (λ room.
        append_chunk-frames out c v.size v.head_in (ground (arith, room, v.count_in))
        ∙ ap (λ (k : ℕ). drop k (frames_of out ++ (c ∷ []))) {x = 0}
            (ground (arith, room, size, queued, v.count_in)))

pub make_room-IsOut :
    (out : ScoOut) (c : Chunk) → IsOut out → IsOut (append_chunk (make_room out) c)
unfolding make_room append_chunk
make_room-IsOut out c v =
    cases (λ (o : ScoOut). IsOut (append_chunk o c)) (out.count == ring_slots)
      (λ full. record {
        size = length-set out.ring _ c ∙ v.size;
        head_in = mod-lt (out.head + 1) (omega arith);
        count_in = ground (arith, full);
      })
      (λ room. record {
        size = length-set out.ring _ c ∙ v.size;
        head_in = v.head_in;
        count_in = ground (arith, room, v.count_in);
      })

pub make_room-count :
    (out : ScoOut) (c : Chunk)
    → (append_chunk (make_room out) c).count
      ≡ (if out.count == ring_slots then ring_slots else out.count + 1)
unfolding make_room append_chunk
make_room-count out c = ground arith

pub make_room-stream :
    (out : ScoOut) (c : Chunk)
    → stream_of (append_chunk (make_room out) c) ≡ lose (out.count == ring_slots) (stream_of out)
unfolding make_room append_chunk
make_room-stream out c =
    both (λ (o : ScoOut) (s : List ℕ × Bool × ℕ). stream_of o ≡ s) (out.count == ring_slots) refl
      refl

pub lose-lose : (t u : Bool) (s : List ℕ × Bool × ℕ) → lose t (lose u s) ≡ lose (t || u) s
lose-lose true true s = refl
lose-lose true false s = refl
lose-lose false u s = refl
