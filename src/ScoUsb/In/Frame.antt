-- ===== src/ScoUsb/In/Frame.antt =====
-- src/common/sco_usb.c, ScoUsbInFill: a frame from its payload size to the packets it is cut into.
use virt_bth_usb.Common.{ℕ, ◌+◌, ◌-◌, ◌*◌, ◌≤◌, ◌<◌, ◌≡◌, refl, sym, ap, ◌∙◌, arith, true}
use virt_bth_usb.Common.{
  List, ◌++◌, length, take, drop, take-append-drop, length-take, length-drop, drop-drop, min,
}
use virt_bth_usb.Common.{leb}
use virt_bth_usb.Fifo.Queue.{run_of}
use virt_bth_usb.ScoUsb.{header_size}
use virt_bth_usb.ScoUsb.In.{
  ScoIn, fifo_bytes, in_payload_size, pull_voice, build_frame, slice_frame,
}
use virt_bth_usb.ScoUsb.In.Voice.{
  IsIn, voice, pull_voice-take, pull_voice-fifo, pull_voice-head, pull_voice-offset, length-pull,
}

-- The part of the frame that is still to be sent.
abbrev pub unsent : ScoIn → List ℕ
unsent s = drop s.frame_offset s.frame

-- No frame is being sent: the next packet starts a new one.
abbrev pub IsBetween : ScoIn → Type 0
IsBetween s = leb (length s.frame) s.frame_offset ≡ true

-- The payload fits its length byte and, with its header, the packets of the alternate setting: one
-- for the largest settings and three for the others.
pub in_payload_size-IsExact :
    (m : ℕ)
    → (in_payload_size m ≤ 255)
      × (m < 4 → in_payload_size m ≡ 0)
      × (4 ≤ m → m < 63 → header_size + in_payload_size m ≡ 3 * m)
      × (63 ≤ m → m ≤ 258 → header_size + in_payload_size m ≡ m)
      × (258 ≤ m → in_payload_size m ≡ 255)
unfolding in_payload_size
in_payload_size-IsExact m = (
  ground arith,
  λ a. ground (arith, a),
  λ a b. ground (arith, a, b),
  λ a b. ground (arith, a, b),
  λ a. ground (arith, a),
)

pub in_payload_size_positive :
    (m : ℕ)
    → 4 ≤ m
    → (0 < in_payload_size m) × (min m (header_size + in_payload_size m) ≡ min m 258)
unfolding in_payload_size
in_payload_size_positive m h = (ground (arith, h), ground (arith, h))

pub build_frame-voice :
    (n : ℕ) (s : ScoIn)
    → n ≤ s.fifo_count
    → voice s ≡ drop header_size (build_frame n s).frame ++ voice (build_frame n s)
unfolding build_frame voice
build_frame-voice n s h =
    ap (run_of 0 s.fifo fifo_bytes s.fifo_head) {y = n + (s.fifo_count - n)} (omega arith)
    ∙ sym (pull_voice-take n s (s.fifo_count - n))
    ∙ ap
        (λ f.
          (pull_voice n s).0
          ++ run_of 0 f fifo_bytes (pull_voice n s).1.fifo_head (s.fifo_count - n))
        (sym (pull_voice-fifo n s))

pub build_frame-IsIn : (n : ℕ) (s : ScoIn) → IsIn s → IsIn (build_frame n s)
unfolding build_frame
build_frame-IsIn n s v = record {
  size = ap length (pull_voice-fifo n s) ∙ v.size;
  head_in = pull_voice-head n s v.head_in;
  count_in = omega (arith, v.count_in);
}

pub build_frame-length : (n : ℕ) (s : ScoIn) → length (build_frame n s).frame ≡ header_size + n
unfolding build_frame
build_frame-length n s = omega (arith, length-pull n s)

pub build_frame-offset : (n : ℕ) (s : ScoIn) → (build_frame n s).frame_offset ≡ s.frame_offset
unfolding build_frame
build_frame-offset n s = pull_voice-offset n s

pub slice_frame-voice : (m k : ℕ) (s : ScoIn) → voice (slice_frame m k s).0 ≡ voice s
unfolding slice_frame voice
slice_frame-voice m k s = refl

pub slice_frame-whole : (m k : ℕ) (s : ScoIn) → s.frame ≡ (slice_frame m k s).0.frame
unfolding slice_frame
slice_frame-whole m k s = refl

pub slice_frame-payload :
    (m k : ℕ) (s : ScoIn) → drop header_size s.frame ≡ drop header_size (slice_frame m k s).0.frame
slice_frame-payload m k s = ap (drop header_size) (slice_frame-whole m k s)

-- The packet is the front of what is unsent, and no longer than it may be.
pub slice_frame-unsent :
    (m k : ℕ) (s : ScoIn)
    → (let r = slice_frame m k s in
        (r.1 ++ unsent r.0 ≡ unsent s) × (length r.1 ≡ min k (min m (length (unsent s)))))
unfolding slice_frame
slice_frame-unsent m k s =
    let n = min k (min m (length s.frame - s.frame_offset)) in
    (
      ap (λ r. take n (unsent s) ++ r) (sym (drop-drop n s.frame_offset s.frame))
          ∙ take-append-drop n (unsent s),
      omega (arith, length-take n (unsent s), length-drop s.frame_offset s.frame),
    )
