-- ===== src/ScoUsb/In/Accept.antt =====
-- src/common/sco_usb.c, ScoUsbInAccept: a packet of the controller joins the queued voice.
use virt_bth_usb.Common.{ℕ, ◌+◌, ◌%◌, ◌≤◌, ◌≡◌, refl, ap, ◌∙◌, arith, Bool, false, ◌&&◌}
use virt_bth_usb.Common.{
  List, [], ◌++◌, length, drop, byte, le16, length-drop, byte-lt, IsByte, All,
}
use virt_bth_usb.Common.{◌!=◌, if◌then◌else◌, cases, both, either}
use virt_bth_usb.Fifo.Queue.{run_of}
use virt_bth_usb.ScoUsb.{header_size}
use virt_bth_usb.ScoUsb.In.{ScoIn, leave_link, is_malformed, in_accept}
use virt_bth_usb.ScoUsb.In.Voice.{
  IsIn, voice, frame_of, push_voice-IsIn, push_voice-voice, push_voice-link, push_voice-frame,
}

-- Not the connection that the queued voice is from.
abbrev is_other_link : ScoIn → List ℕ → Bool
is_other_link s packet = s.have_handle && le16 packet 0 % 4096 != s.handle_field % 4096

payload-length : (p : List ℕ) → is_malformed p ≡ false → length p ≡ 3 + byte p 2
unfolding is_malformed
payload-length p h = ground (arith, h)

payload_bound :
    (p : List ℕ) → is_malformed p ≡ false → All IsByte p → length (drop header_size p) ≤ 255
payload_bound p h k = omega (arith, payload-length p h, byte-lt p 2 k, length-drop header_size p)

leave_link-IsIn :
    (s : ScoIn) (field : ℕ)
    → IsIn s
    → s.fifo_count ≤ 255
    → IsIn (leave_link s field) × ((leave_link s field).fifo_count ≤ 255)
unfolding leave_link
leave_link-IsIn s field v h =
    either (λ (r : ScoIn). IsIn r × (r.fifo_count ≤ 255))
      (s.have_handle && field % 4096 != s.handle_field % 4096)
      (record { size = v.size; head_in = omega arith; count_in = omega arith }, omega arith) (v, h)

leave_link-voice :
    (s : ScoIn) (p : List ℕ)
    → voice (leave_link s (le16 p 0)) ≡ (if is_other_link s p then [] else voice s)
unfolding leave_link voice run_of
leave_link-voice s p = both (λ (r : ScoIn) (v : List ℕ). voice r ≡ v) (is_other_link s p) refl refl

-- A packet pulled while less than a payload is queued leaves the ring within its bounds.
pub in_accept-IsIn :
    (s : ScoIn) (p : List ℕ) → IsIn s → s.fifo_count ≤ 255 → All IsByte p → IsIn (in_accept s p)
unfolding in_accept
in_accept-IsIn s p v h k =
    cases IsIn (is_malformed p)
      (λ bad. record { size = v.size; head_in = v.head_in; count_in = v.count_in })
      (λ good.
        let left = leave_link-IsIn s (le16 p 0) v h in
        push_voice-IsIn _ (drop header_size p)
          (record { size = left.0.size; head_in = left.0.head_in; count_in = left.0.count_in })
          (omega (arith, left.1, payload_bound p good k)))

-- A malformed packet adds nothing, another connection's packet replaces the queued voice, and any
-- other packet's payload joins its end.
pub in_accept-voice :
    (s : ScoIn) (p : List ℕ)
    → IsIn s
    → s.fifo_count ≤ 255
    → All IsByte p
    → voice (in_accept s p) ≡ (
        if is_malformed p
        then voice s
        else (if is_other_link s p then [] else voice s) ++ drop header_size p)
unfolding in_accept voice
in_accept-voice s p v h k =
    let kept : List ℕ = if is_other_link s p then [] else voice s in
    cases
      (λ (r : ScoIn). voice r ≡ (if is_malformed p then voice s else kept ++ drop header_size p))
      (is_malformed p) (λ bad. rw bad)
      (λ good.
        let left = leave_link-IsIn s (le16 p 0) v h in
        rw good (
          push_voice-voice _ (drop header_size p)
            (record { size = left.0.size; head_in = left.0.head_in; count_in = left.0.count_in })
            (omega (arith, left.1, payload_bound p good k))
          ∙ ap (λ r. r ++ drop header_size p) (leave_link-voice s p)))

pub in_accept-link :
    (s : ScoIn) (p : List ℕ) → is_malformed p ≡ false → ((in_accept s p).handle_field ≡ le16 p 0)
unfolding in_accept
in_accept-link s p good = rw good (push_voice-link _ (drop header_size p))

pub in_accept-frame : (s : ScoIn) (p : List ℕ) → frame_of (in_accept s p) ≡ frame_of s
unfolding in_accept leave_link
in_accept-frame s p =
    either (λ (r : ScoIn). frame_of r ≡ frame_of s) (is_malformed p) refl
      (push_voice-frame _ (drop header_size p)
        ∙ either (λ (r : ScoIn). frame_of r ≡ frame_of s) (is_other_link s p) refl refl)
