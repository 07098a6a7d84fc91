-- ===== src/ScoUsb/Examples.antt =====
-- src/common/sco_usb.c: concrete runs.
use virt_bth_usb.Common.{
  replicate, subst, leb, ℕ, zero, suc, ◌≡◌, ◌<◌, ◌≤◌, ◌%◌, refl, arith, List, [], ◌∷◌, ◌++◌, length,
  true, false, Option, some, none, All, IsByte,
}
use virt_bth_usb.ScoUsb.Out.{
  out_reset, out_push, push_frames, make_room, append_chunk, out_release, is_whole, lacks,
}
use virt_bth_usb.ScoUsb.Out.Packets.{deliver, IsWhole}
use virt_bth_usb.ScoUsb.Out.Release.{frames_of, line_at, view_of, play, out_release-play}
use virt_bth_usb.ScoUsb.Out.Ring.{cut}
use virt_bth_usb.ScoUsb.Out.Push.{frames_in, out_reset-IsOut}
use virt_bth_usb.ScoUsb.Out.Delivery.{push_all, frames_of_all, push_all-delivers}
use virt_bth_usb.ScoUsb.In.{in_reset, in_fill, is_malformed}
use virt_bth_usb.ScoUsb.In.Voice.{IsIn, voice, in_reset-IsIn}
use virt_bth_usb.ScoUsb.In.Gather.{IsVoice}
use virt_bth_usb.ScoUsb.In.Fill.{Conserves, in_fill-IsIn, in_fill-Conserves}
use virt_bth_usb.ScoUsb.Pacing.{schedule_all, ends_by, schedule_all-ends_by}

abbrev collect : List (List ℕ) → List ℕ → List (List ℕ)
collect ps p = ps ++ (p ∷ [])

-- Two packets, cut in the middle of the second one's payload.
abbrev transfers : List (ℕ × List ℕ)
transfers = (10, 1 ∷ 0 ∷ 0 ∷ 1 ∷ 0 ∷ 2 ∷ 7 ∷ []) ∷ (20, 8 ∷ []) ∷ []

abbrev packets : List (List ℕ)
packets = (1 ∷ 0 ∷ 0 ∷ []) ∷ (1 ∷ 0 ∷ 2 ∷ 7 ∷ 8 ∷ []) ∷ []

transfers_fit : length (frames_of_all transfers) ≤ 128
unfolding frames_in cut
transfers_fit = omega arith

packets-IsWhole : All IsWhole packets
unfolding is_whole
packets-IsWhole = (refl, (refl, tt))

empty_ring : out_reset.count ≡ 0
unfolding out_reset
empty_ring = refl

nothing_pending : out_reset.packet ≡ []
unfolding out_reset
nothing_pending = refl

in_step : out_reset.resync ≡ false
unfolding out_reset
in_step = refl

push_all-delivers_example :
    view_of (out_release collect (push_all out_reset transfers) 30 [])
    ≡ (deliver collect (line_at out_reset []) packets, [])
push_all-delivers_example =
    push_all-delivers collect out_reset 30 [] transfers packets out_reset-IsOut empty_ring
      nothing_pending in_step transfers_fit (refl, (refl, tt)) refl packets-IsWhole

-- The packets that come out.
delivered : (deliver collect (line_at out_reset []) packets).context ≡ packets
unfolding deliver
delivered = refl

partial_packet : 0 < lacks (push_all out_reset transfers).packet
unfolding push_all out_push push_frames make_room append_chunk lacks out_reset
partial_packet = omega arith

out_release-play_example :
    view_of (out_release collect (push_all out_reset transfers) 15 [])
    ≡ play collect 15
        (line_at (push_all out_reset transfers) [])
        (frames_of (push_all out_reset transfers))
out_release-play_example =
    out_release-play collect (push_all out_reset transfers) 15 [] partial_packet

-- A source with so many packets of the same connection.
abbrev voice_packet : List ℕ
voice_packet = 1 ∷ 0 ∷ 24 ∷ replicate 24 5

abbrev pull_voice_packet : ℕ → Option (List ℕ × ℕ)
pull_voice_packet zero = none
pull_voice_packet (suc n) = some (voice_packet, n)

fives-IsByte : (n : ℕ) → All IsByte (replicate n 5)
fives-IsByte zero = tt
fives-IsByte (suc n) = (omega arith, fives-IsByte n)

voice_packet-IsVoice : IsVoice 1 voice_packet
unfolding is_malformed
voice_packet-IsVoice = record {
  bytes = (omega arith, (omega arith, (omega arith, fives-IsByte 24)));
  formed = refl;
  link = refl;
}

pull-IsVoice : (c c' : ℕ) (p : List ℕ) → pull_voice_packet c ≡ some (p, c') → IsVoice 1 p
pull-IsVoice zero c' p e = cc
pull-IsVoice (suc c) c' p e =
    let same : voice_packet ≡ p = cc in subst (IsVoice 1) same voice_packet-IsVoice

pull-lt : (c c' : ℕ) (p : List ℕ) → pull_voice_packet c ≡ some (p, c') → c' < c
pull-lt zero c' p e = cc
pull-lt (suc c) c' p e = let same : c ≡ c' = cc in omega arith

between : leb (length in_reset.frame) in_reset.frame_offset ≡ true
unfolding in_reset
between = refl

no_link : in_reset.have_handle ≡ true → in_reset.handle_field % 4096 ≡ 1
unfolding in_reset
no_link = cc

in_fill-IsIn_example : IsIn (in_fill pull_voice_packet 4 in_reset 9 9 3).0
in_fill-IsIn_example =
    in_fill-IsIn pull_voice_packet 4 in_reset 9 9 3 (λ c c' p e. (pull-IsVoice c c' p e).bytes)
      in_reset-IsIn

in_fill-Conserves_example :
    Conserves pull_voice_packet (voice in_reset) 3 (in_fill pull_voice_packet 4 in_reset 9 9 3)
in_fill-Conserves_example =
    in_fill-Conserves pull_voice_packet 1 4 in_reset 9 9 3 pull-IsVoice in_reset-IsIn no_link
      between

schedule_all-ends_by_example :
    schedule_all 5 ((2, 10) ∷ (100, 10) ∷ []) ≡ ends_by 5 ((2, 10) ∷ (100, 10) ∷ [])
schedule_all-ends_by_example = schedule_all-ends_by 5 ((2, 10) ∷ (100, 10) ∷ []) (omega arith)
