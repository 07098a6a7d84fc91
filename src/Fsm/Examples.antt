-- ===== src/Fsm/Examples.antt =====
-- The state machine's theorems at concrete machines.
use virt_bth_usb.Common.{ℕ, ◌≡◌, refl, arith, true, List, [], ◌∷◌, replicate}
use virt_bth_usb.Tlv.{tlv_segment_count}
use virt_bth_usb.Fsm.{Fsm, patch_download}
use virt_bth_usb.Fsm.Pump.{zeroed}
use virt_bth_usb.Fsm.Events.{is_tlv_acknowledgement, on_packet}
use virt_bth_usb.Fsm.Edges.{Moves}
use virt_bth_usb.Fsm.Order.{on_packet-Moves}
use virt_bth_usb.Edl.Envelope.{parse-vendor}
use virt_bth_usb.Fsm.Rounds.{pump, PatchAt, PatchDone}
use virt_bth_usb.Fsm.Download.{pump-patch}

-- A patch of two segments, and a machine that is about to send it.
abbrev some_patch : List ℕ
some_patch = replicate 300 7

abbrev at_patch : Fsm
at_patch = record zeroed {
  state = patch_download;
  patch = some_patch;
  patch_download_mode = 1;
  patch_segments = tlv_segment_count 300;
}

at_patch-PatchAt : PatchAt some_patch 1 0 at_patch
at_patch-PatchAt = record {
  state = refl;
  patch = refl;
  download_mode = refl;
  index = refl;
  segments = refl;
}

-- A vendor event with selector 4 and status 0.
abbrev some_ack : List ℕ
some_ack = 0x04 ∷ 0xFF ∷ 3 ∷ 0 ∷ 4 ∷ 0 ∷ []

some_ack-accepted : is_tlv_acknowledgement some_ack ≡ true
unfolding is_tlv_acknowledgement
some_ack-accepted = rw (parse-vendor 4 (0 ∷ []), is_tlv_acknowledgement) refl

pump-patch_example :
    let (sent, f) = pump some_ack (tlv_segment_count 300) at_patch in
    (sent ≡ some_patch) × PatchDone some_patch f
pump-patch_example =
    pump-patch some_patch 1 (omega arith) some_ack some_ack-accepted at_patch at_patch-PatchAt
      (omega arith)

on_packet-Moves_example : Moves at_patch some_ack (on_packet at_patch some_ack)
on_packet-Moves_example = on_packet-Moves at_patch some_ack
