-- ===== src/ScoUsb/In/Voice.antt =====
-- src/common/sco_usb.c, ScoUsbInAccept and ScoUsbInFill: the ring of voice bytes as a queue.
use virt_bth_usb.Common.{ℕ, zero, suc, ◌+◌, ◌%◌, ◌≤◌, ◌<◌, ◌≡◌, refl, sym, ap, ◌∙◌, arith}
use virt_bth_usb.Common.{
  List, [], ◌∷◌, ◌++◌, length, get_or, set, append-nil, append_assoc, length-set, length-replicate,
}
use native.Mathlib.Nat.{mod-lt}
use virt_bth_usb.Fifo.Queue.{run_of, run_of-set}
use virt_bth_usb.ScoUsb.In.{fifo_bytes, ScoIn, in_reset, push_byte, push_voice, pull_voice}

-- The ring is 512 bytes long and at most 510 of them are in use.
pub record IsIn (s : ScoIn) : Type 0 where
  pub size : length s.fifo ≡ fifo_bytes
  pub head_in : s.fifo_head < fifo_bytes
  pub count_in : s.fifo_count ≤ 510

-- The queued voice, oldest byte first.
unfoldable pub voice : ScoIn → List ℕ
voice s = run_of 0 s.fifo fifo_bytes s.fifo_head s.fifo_count

-- The frame and how much of it is sent.
abbrev pub frame_of : ScoIn → List ℕ × ℕ
frame_of s = (s.frame, s.frame_offset)

pub in_reset-IsIn : IsIn in_reset
unfolding in_reset
in_reset-IsIn = record {
  size = length-replicate {A = ℕ} fifo_bytes 0;
  head_in = omega arith;
  count_in = omega arith;
}

pub push_voice-IsIn :
    (s : ScoIn) (bytes : List ℕ)
    → IsIn s
    → s.fifo_count + length bytes ≤ 510
    → IsIn (push_voice s bytes)
unfolding push_voice push_byte
push_voice-IsIn s [] v h = v
push_voice-IsIn s (b ∷ bytes) v h =
    push_voice-IsIn (push_byte s b) bytes
      (record {
        size = length-set s.fifo _ b ∙ v.size;
        head_in = v.head_in;
        count_in = omega arith;
      })
      (omega arith)

-- Bytes that there is room for join the end of the queue.
pub push_voice-voice :
    (s : ScoIn) (bytes : List ℕ)
    → IsIn s
    → s.fifo_count + length bytes ≤ 510
    → voice (push_voice s bytes) ≡ voice s ++ bytes
unfolding push_voice push_byte voice
push_voice-voice s [] v h = sym (append-nil (voice s))
push_voice-voice s (b ∷ bytes) v h =
    let at = (s.fifo_head + s.fifo_count) % fifo_bytes in
    push_voice-voice (push_byte s b) bytes
      (record {
        size = length-set s.fifo at b ∙ v.size;
        head_in = v.head_in;
        count_in = omega arith;
      })
      (omega arith)
    ∙ ap (λ r. r ++ bytes)
        (ap (λ (n : ℕ). run_of 0 (set s.fifo at b) fifo_bytes s.fifo_head n) {y = suc s.fifo_count}
            (omega arith)
          ∙ run_of-set 0 b fifo_bytes s.fifo_count s.fifo_head at s.fifo v.size v.head_in
              (omega (arith, v.count_in)) refl)
    ∙ append_assoc (voice s) (b ∷ []) bytes

-- Nothing but the queue changes.
pub push_voice-link :
    (s : ScoIn) (bytes : List ℕ) → (push_voice s bytes).handle_field ≡ s.handle_field
unfolding push_voice push_byte
push_voice-link s [] = refl
push_voice-link s (b ∷ bytes) = push_voice-link (push_byte s b) bytes

pub push_voice-frame : (s : ScoIn) (bytes : List ℕ) → frame_of (push_voice s bytes) ≡ frame_of s
unfolding push_voice push_byte
push_voice-frame s [] = refl
push_voice-frame s (b ∷ bytes) = push_voice-frame (push_byte s b) bytes

pub pull_voice-take :
    (n : ℕ) (s : ScoIn) (m : ℕ)
    → (pull_voice n s).0 ++ run_of 0 s.fifo fifo_bytes (pull_voice n s).1.fifo_head m
      ≡ run_of 0 s.fifo fifo_bytes s.fifo_head (n + m)
unfolding pull_voice run_of
pull_voice-take zero s m = ap (run_of 0 s.fifo fifo_bytes s.fifo_head) (omega arith)
pull_voice-take (suc n) s m =
    ap (λ r. get_or s.fifo s.fifo_head 0 ∷ r)
      (pull_voice-take n (record s { fifo_head = (s.fifo_head + 1) % fifo_bytes }) m)
    ∙ ap (run_of 0 s.fifo fifo_bytes s.fifo_head) {x = suc (n + m)} (omega arith)

pub pull_voice-fifo : (n : ℕ) (s : ScoIn) → (pull_voice n s).1.fifo ≡ s.fifo
unfolding pull_voice
pull_voice-fifo zero s = refl
pull_voice-fifo (suc n) s =
    pull_voice-fifo n (record s { fifo_head = (s.fifo_head + 1) % fifo_bytes })

pub pull_voice-head :
    (n : ℕ) (s : ScoIn) → s.fifo_head < fifo_bytes → (pull_voice n s).1.fifo_head < fifo_bytes
unfolding pull_voice
pull_voice-head zero s h = h
pull_voice-head (suc n) s h =
    pull_voice-head n (record s { fifo_head = (s.fifo_head + 1) % fifo_bytes })
      (mod-lt (s.fifo_head + 1) (omega arith))

pub length-pull : (n : ℕ) (s : ScoIn) → length (pull_voice n s).0 ≡ n
unfolding pull_voice
length-pull zero s = refl
length-pull (suc n) s =
    ap suc (length-pull n (record s { fifo_head = (s.fifo_head + 1) % fifo_bytes }))

pub pull_voice-offset : (n : ℕ) (s : ScoIn) → (pull_voice n s).1.frame_offset ≡ s.frame_offset
unfolding pull_voice
pull_voice-offset zero s = refl
pull_voice-offset (suc n) s =
    pull_voice-offset n (record s { fifo_head = (s.fifo_head + 1) % fifo_bytes })
