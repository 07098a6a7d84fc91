-- ===== src/Fsm/Rounds.antt =====
-- src/common/qca_init_fsm.c: one round of the download, the command, and the acknowledgement if one is awaited.
use virt_bth_usb.Common.{ℕ, zero, suc, ◌≤◌, ◌<◌, ◌≡◌, ◌∙◌, ap, arith, Bool, true, false}
use virt_bth_usb.Common.{List, [], ◌++◌, length, drop, inc32, leb, ◌==◌}
use virt_bth_usb.Tlv.{tlv_segment_count, build_tlv_segment_command}
use virt_bth_usb.Fsm.{State, patch_download, board_id_request, send, send_no_wait, Fsm, max_command}
use virt_bth_usb.Fsm.Pump.{Output, next, next_in, next_patch}
use virt_bth_usb.Fsm.Events.{is_tlv_acknowledgement, advance, on_patch_ack, on_packet_in, on_packet}

-- One round of the caller: the command goes out, and unless no answer is awaited the controller's
-- acknowledgement comes in.
answered : List ℕ → Output → List ℕ × Fsm
answered ack o = (o.command, elim o.action [ send_no_wait ↦ o.fsm | _ ↦ (on_packet o.fsm ack).1 ])

pub cycle : List ℕ → Fsm → List ℕ × Fsm
unfolding answered
cycle ack f = answered ack (next f)

-- `n` rounds: the payloads of the commands, one behind the other, and the machine.
unfoldable pub pump : List ℕ → ℕ → Fsm → List ℕ × Fsm
pump ack zero f = ([], f)
pump ack (suc n) f =
    let (command, f') = cycle ack f in
    let (rest, f'') = pump ack n f' in (drop 6 command ++ rest, f'')

pub next_at : (s : State) (f : Fsm) → f.state ≡ s → next f ≡ next_in s f
unfolding next
next_at s f e = ap (λ (r : State). next_in r f) e

on_packet_at : (s : State) (f : Fsm) (p : List ℕ) → f.state ≡ s → on_packet f p ≡ on_packet_in s f p
unfolding on_packet
on_packet_at s f p e = ap (λ (r : State). on_packet_in r f p) e

-- The machine is about to send segment `i` of the patch.
pub record PatchAt (image : List ℕ) (mode i : ℕ) (f : Fsm) : Type 0 where
  pub state : f.state ≡ patch_download
  pub patch : f.patch ≡ image
  pub download_mode : f.patch_download_mode ≡ mode
  pub index : f.patch_index ≡ i
  pub segments : f.patch_segments ≡ tlv_segment_count (length image)

-- The patch was sent and acknowledged.
pub record PatchDone (image : List ℕ) (f : Fsm) : Type 0 where
  pub state : f.state ≡ board_id_request
  pub patch : f.patch ≡ image
  pub index : f.patch_index ≡ tlv_segment_count (length image)

pub next_patch_ack :
    (f : Fsm) (command : List ℕ)
    → build_tlv_segment_command f.patch f.patch_index f.patch_download_mode max_command
      ≡ (command, true)
    → 0 < length command
    → next_patch f ≡ record {
      action = send;
      command = command;
      baud_rate = 0;
      fsm = record f { commands_sent = inc32 f.commands_sent };
    }
unfolding next_patch
next_patch_ack f command e h =
    let some_bytes : (length command == 0) ≡ false = ground arith in rw (e, next_patch, some_bytes)

pub next_patch_skip :
    (f : Fsm) (command : List ℕ)
    → build_tlv_segment_command f.patch f.patch_index f.patch_download_mode max_command
      ≡ (command, false)
    → 0 < length command
    → next_patch f ≡ record {
      action = send_no_wait;
      command = command;
      baud_rate = 0;
      fsm = record f { commands_sent = inc32 f.commands_sent; patch_index = inc32 f.patch_index };
    }
unfolding next_patch
next_patch_skip f command e h =
    let some_bytes : (length command == 0) ≡ false = ground arith in rw (e, next_patch, some_bytes)

-- The machine after a command that awaits no answer, and after one that was acknowledged.
abbrev pub patch_sent : Fsm → Fsm
patch_sent f = record f { commands_sent = inc32 f.commands_sent; patch_index = inc32 f.patch_index }

abbrev pub patch_acked : State → Fsm → Fsm
patch_acked s f = record f {
  state = s;
  commands_sent = inc32 f.commands_sent;
  patch_index = inc32 f.patch_index;
  events_handled = inc32 f.events_handled;
}

pub cycle_skip :
    (a : List ℕ) (f g : Fsm) (command : List ℕ)
    → next f ≡ record { action = send_no_wait; command = command; baud_rate = 0; fsm = g }
    → cycle a f ≡ (command, g)
unfolding cycle
cycle_skip a f g command e = ap (answered a) e

pub cycle_ack :
    (a : List ℕ) (f g h : Fsm) (command : List ℕ)
    → next f ≡ record { action = send; command = command; baud_rate = 0; fsm = g }
    → on_packet g a ≡ (true, h)
    → cycle a f ≡ (command, h)
unfolding cycle
cycle_ack a f g h command e q = ap (answered a) e ∙ ap (λ (r : Bool × Fsm). (command, r.1)) q

pub patch_ack_more :
    (f : Fsm) (p : List ℕ)
    → f.state ≡ patch_download
    → is_tlv_acknowledgement p ≡ true
    → inc32 f.patch_index < f.patch_segments
    → on_packet f p ≡ (
      true,
      record f { patch_index = inc32 f.patch_index; events_handled = inc32 f.events_handled },
    )
unfolding on_packet_in on_patch_ack advance
patch_ack_more f p e a h =
    let more : leb f.patch_segments (inc32 f.patch_index) ≡ false = ground arith in
    on_packet_at patch_download f p e ∙ rw (a, more)

pub patch_ack_last :
    (f : Fsm) (p : List ℕ)
    → f.state ≡ patch_download
    → is_tlv_acknowledgement p ≡ true
    → f.patch_segments ≤ inc32 f.patch_index
    → on_packet f p ≡ (
      true,
      record f {
        state = board_id_request;
        patch_index = inc32 f.patch_index;
        events_handled = inc32 f.events_handled;
      },
    )
unfolding on_packet_in on_patch_ack advance
patch_ack_last f p e a h =
    let last : leb f.patch_segments (inc32 f.patch_index) ≡ true = ground arith in
    on_packet_at patch_download f p e ∙ rw (a, last)
