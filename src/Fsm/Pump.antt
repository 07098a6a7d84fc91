-- ===== src/Fsm/Pump.antt =====
-- src/common/qca_init_fsm.c: arming the machine, producing the next operation, feeding it an event,
-- and the two failure notices of the caller.
use virt_bth_usb.Common.{ℕ, ◌+◌, ◌-◌, ◌*◌, ◌%◌, ◌^◌, Bool, true, false, not, none, some}
use virt_bth_usb.Common.{List, [], ◌∷◌, ◌==◌, ◌!=◌, ltb, leb, ◌&&◌, ◌||◌, if◌then◌else◌}
use virt_bth_usb.Common.{length, set, inc32}
use virt_bth_usb.Protocol.{
  edl_patch_ver_req_cmd, edl_get_build_info_cmd, tlv_type_patch, max_size_per_tlv_segment,
}
use virt_bth_usb.Tlv.{
  no_info, parse_tlv, tlv_segment_count, build_tlv_segment_command, build_baud_rate_command,
  build_edl_command, baud_rate_to_index,
}
use virt_bth_usb.Edl.{no_version, build_board_id_command}
use virt_bth_usb.NvmName.{build_alt_nvm_file_name}
use virt_bth_usb.Fsm.{
  State, start, version_request, set_baud_rate, patch_download, board_id_request, nvm_download,
  disable_logging, build_info, hci_reset, read_local_version, ready, failed, Action, send,
  send_no_wait, send_baud_and_switch, done, give_up, Candidate, Fsm, max_command, build_hci_command,
  build_disable_logging, fail, check_nvm, arm_nvm, find_candidate, select_nvm,
}

unfoldable pub on_board_id_timeout : Fsm → Fsm
on_board_id_timeout f = elim f.state [
  | board_id_request ↦
      let (selected, f') = select_nvm (record f { board_id = 0; board_id_valid = false }) in
      if selected then record f' { state = nvm_download } else fail f'
  | _ ↦ f
]

unfoldable pub on_nvm_failure : Fsm → Fsm
on_nvm_failure f =
    if f.nvm_fallback_used then fail f else elim (build_alt_nvm_file_name f.selected_nvm_name 32) [
      | none ↦ fail f
      | some alt ↦ elim (find_candidate f.candidates alt 0) [
        | none ↦ fail f
        | some i ↦
            let (armed, f') = arm_nvm f i alt in
            if armed then record f' { nvm_fallback_used = true; state = nvm_download } else fail f'
      ]
    ]

-- RtlZeroMemory, and the state that a failed initialisation leaves.
abbrev pub zeroed : Fsm
zeroed = record {
  state = failed;
  patch = [];
  patch_download_mode = 0;
  patch_segments = 0;
  patch_index = 0;
  candidates = [];
  nvm = [];
  nvm_download_mode = 0;
  nvm_segments = 0;
  nvm_index = 0;
  nvm_baud_offset = 0;
  oper_baud_rate = 0;
  oper_baud_index = 0;
  soc_version = no_version;
  board_id = 0;
  board_id_valid = false;
  selected_nvm_name = [];
  selected_nvm_index = 0;
  nvm_fallback_used = false;
  commands_sent = 0;
  events_handled = 0;
  last_failure_state = 0;
  unexpected_events = 0;
  patch_info = no_info;
  nvm_info = no_info;
}

-- The loop over the candidates: a name, bytes, and an image that `check_nvm` accepts.
unfoldable pub check_candidates : List Candidate → Bool
check_candidates [] = true
check_candidates (c ∷ cs) = elim c.name [
  | none ↦ false
  | some name ↦
      length c.image != 0
      && (elim (check_nvm c.image) [ none ↦ false | some o ↦ true ])
      && check_candidates cs
]

unfoldable pub init : List ℕ → List Candidate → ℕ → Bool × Fsm
init patch candidates oper_baud_rate =
    if length patch == 0
    then (false, zeroed)
    else if length candidates == 0
    then (false, zeroed)
    else let (parsed, info) = parse_tlv patch in
      let seen = record zeroed { patch_info = info } in
      if not parsed || info.type != tlv_type_patch
      then (false, seen)
      else if not (check_candidates candidates)
      then (false, seen)
      else let (supported, index) = baud_rate_to_index oper_baud_rate in
        if not supported then (false, seen) else (
          true,
          record seen {
            patch = patch;
            patch_download_mode = info.download_mode;
            patch_segments = tlv_segment_count (length patch);
            patch_index = 0;
            candidates = candidates;
            oper_baud_rate = oper_baud_rate;
            oper_baud_index = index;
            state = start;
          },
        )

-- The action, Buffer[0..*Length), *BaudRate and the machine.
pub record Output : Type 0 where
  pub action : Action
  pub command : List ℕ
  pub baud_rate : ℕ
  pub fsm : Fsm

unfoldable pub failure : Fsm → Output
failure f = record { action = give_up; command = []; baud_rate = 0; fsm = fail f }

-- The end of the switch: nothing was built, or a command that waits for its event.
unfoldable pub send_command : List ℕ → Fsm → Output
unfolding failure
send_command command f = if length command == 0 then failure f else record {
  action = send;
  command = command;
  baud_rate = 0;
  fsm = record f { commands_sent = inc32 f.commands_sent };
}

unfoldable pub next_baud : Fsm → Output
unfolding failure
next_baud f =
    let command = build_baud_rate_command f.oper_baud_index max_command in
    if length command == 0 then failure f else record {
      action = send_baud_and_switch;
      command = command;
      baud_rate = f.oper_baud_rate;
      fsm = record f { commands_sent = inc32 f.commands_sent; state = patch_download };
    }

unfoldable pub next_patch : Fsm → Output
unfolding failure
next_patch f =
    let (command, ack) =
      build_tlv_segment_command f.patch f.patch_index f.patch_download_mode max_command in
    if length command == 0
    then failure f
    else if ack
    then record {
      action = send;
      command = command;
      baud_rate = 0;
      fsm = record f { commands_sent = inc32 f.commands_sent };
    }
    else record {
      action = send_no_wait;
      command = command;
      baud_rate = 0;
      fsm = record f { commands_sent = inc32 f.commands_sent; patch_index = inc32 f.patch_index };
    }

-- The baud byte of the HCI tag, overwritten where it lies in this segment.
unfoldable pub patch_baud_byte : Fsm → List ℕ → List ℕ
patch_baud_byte f command =
    let seg_start = f.nvm_index * max_size_per_tlv_segment % 2 ^ 32 in
    if leb seg_start f.nvm_baud_offset && ltb (f.nvm_baud_offset - seg_start) (length command - 6)
    then set command (6 + (f.nvm_baud_offset - seg_start)) f.oper_baud_index
    else command

unfoldable pub next_nvm : Fsm → Output
unfolding failure
next_nvm f =
    let (command, ack) =
      build_tlv_segment_command f.nvm f.nvm_index f.nvm_download_mode max_command in
    if length command == 0
    then failure f
    else if ack
    then record {
      action = send;
      command = patch_baud_byte f command;
      baud_rate = 0;
      fsm = record f { commands_sent = inc32 f.commands_sent };
    }
    else record {
      action = send_no_wait;
      command = patch_baud_byte f command;
      baud_rate = 0;
      fsm = record f { commands_sent = inc32 f.commands_sent; nvm_index = inc32 f.nvm_index };
    }

unfoldable pub next_in : State → Fsm → Output
unfolding send_command next_baud failure
next_in start f =
    send_command (build_edl_command edl_patch_ver_req_cmd max_command)
      (record f { state = version_request })
next_in version_request f = failure f
next_in set_baud_rate f = next_baud f
next_in patch_download f = next_patch f
next_in board_id_request f = send_command (build_board_id_command max_command) f
next_in nvm_download f = next_nvm f
next_in disable_logging f = send_command (build_disable_logging max_command) f
next_in build_info f = send_command (build_edl_command edl_get_build_info_cmd max_command) f
next_in hci_reset f = send_command (build_hci_command 0x0C03 max_command) f
next_in read_local_version f = send_command (build_hci_command 0x1001 max_command) f
next_in ready f = record { action = done; command = []; baud_rate = 0; fsm = f }
next_in failed f = failure f

unfoldable pub next : Fsm → Output
unfolding next_in
next f = next_in f.state f
