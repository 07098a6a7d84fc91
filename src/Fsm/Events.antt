-- ===== src/Fsm/Events.antt =====
-- src/common/qca_init_fsm.c: what counts as the answer to the pending operation, and QcaFsmOnPacket.
use virt_bth_usb.Common.{ℕ, ◌+◌, ◌-◌, Bool, true, false, Option, none, some, List}
use virt_bth_usb.Common.{◌==◌, ◌!=◌, ltb, leb, ◌&&◌, ◌||◌, if◌then◌else◌, byte, le16, length, inc32}
use virt_bth_usb.H4.{pkt_event}
use virt_bth_usb.Protocol.{
  qca_disable_logging, qca_disable_logging_sub_op, edl_get_build_info_cmd, edl_tvl_dnld_res_evt,
  edl_patch_tlv_req_cmd, hci_ev_vendor,
}
use virt_bth_usb.Edl.{parse_edl_response, parse_version_event, parse_board_id_event}
use virt_bth_usb.Fsm.{
  State, version_request, set_baud_rate, patch_download, board_id_request, nvm_download,
  disable_logging, build_info, hci_reset, read_local_version, ready, Fsm, fail, select_nvm,
}

unfoldable pub is_tlv_acknowledgement : List ℕ → Bool
is_tlv_acknowledgement packet = elim (parse_edl_response packet edl_tvl_dnld_res_evt) [
  | some fields ↦ byte packet 1 == hci_ev_vendor && length fields == 1 && byte fields 0 == 0
  | none ↦ elim (parse_edl_response packet edl_patch_tlv_req_cmd) [
    | none ↦ false
    | some fields ↦ byte packet 1 == 0x0E && length fields == 0
  ]
]

unfoldable pub is_build_info_response : List ℕ → Bool
is_build_info_response packet = elim (parse_edl_response packet edl_get_build_info_cmd) [
  | none ↦ false
  | some fields ↦ leb 1 (length fields) && leb (byte fields 0) (length fields - 1)
]

-- The opcode and the status of a Command Complete.
unfoldable pub command_complete : List ℕ → Option (ℕ × ℕ)
command_complete p =
    if ltb (length p) 7
      || byte p 0 != pkt_event
      || byte p 1 != 0x0E
      || ltb (byte p 2) 4
      || length p != 3 + byte p 2
    then none
    else some (le16 p 4, byte p 6)

-- A Command Complete of this opcode with status 0.
unfoldable pub succeeded : List ℕ → ℕ → Bool
succeeded p opcode = elim (command_complete p) [
  | none ↦ false
  | some (op, status) ↦ op == opcode && status == 0
]

-- The answer was not the one awaited.
unfoldable pub unexpected : Fsm → Bool × Fsm
unexpected f = (false, record f { unexpected_events = inc32 f.unexpected_events })

-- The answer was the one awaited, and the machine goes to the next state.
unfoldable pub advance : State → Fsm → Bool × Fsm
advance s f = (true, record f { state = s; events_handled = inc32 f.events_handled })

unfoldable pub on_version : Fsm → List ℕ → Bool × Fsm
on_version f p = elim (parse_version_event p) [
  | none ↦ unexpected f
  | some v ↦ advance set_baud_rate (record f { soc_version = v })
]

unfoldable pub on_patch_ack : Fsm → List ℕ → Bool × Fsm
on_patch_ack f p =
    let index = inc32 f.patch_index in
    let following = if leb f.patch_segments index then board_id_request else f.state in
    if is_tlv_acknowledgement p
    then advance following (record f { patch_index = index })
    else unexpected f

unfoldable pub on_board_id : Fsm → List ℕ → Bool × Fsm
on_board_id f p = elim (parse_board_id_event p) [
  | none ↦ unexpected f
  | some id ↦
      let (selected, f') = select_nvm (record f {
        board_id = id;
        board_id_valid = true;
        events_handled = inc32 f.events_handled;
      }) in
      if selected then (true, record f' { state = nvm_download }) else (false, fail f')
]

unfoldable pub on_nvm_ack : Fsm → List ℕ → Bool × Fsm
on_nvm_ack f p =
    let index = inc32 f.nvm_index in
    let following = if leb f.nvm_segments index then disable_logging else f.state in
    if is_tlv_acknowledgement p
    then advance following (record f { nvm_index = index })
    else unexpected f

unfoldable pub on_logging : Fsm → List ℕ → Bool × Fsm
on_logging f p =
    if succeeded p qca_disable_logging
      && (length p == 7 || (length p == 8 && byte p 7 == qca_disable_logging_sub_op))
    then advance build_info f
    else unexpected f

-- HCI_Reset and HCI_Read_Local_Version: the opcode and the length of the answer.
unfoldable pub on_hci : ℕ → ℕ → State → Fsm → List ℕ → Bool × Fsm
on_hci opcode size s f p =
    if succeeded p opcode && length p == size then advance s f else unexpected f

unfoldable pub on_packet_in : State → Fsm → List ℕ → Bool × Fsm
unfolding on_version on_board_id on_logging on_hci
on_packet_in version_request f p = on_version f p
on_packet_in patch_download f p = on_patch_ack f p
on_packet_in board_id_request f p = on_board_id f p
on_packet_in nvm_download f p = on_nvm_ack f p
on_packet_in disable_logging f p = on_logging f p
on_packet_in build_info f p = if is_build_info_response p then advance hci_reset f else unexpected f
on_packet_in hci_reset f p = on_hci 0x0C03 7 read_local_version f p
on_packet_in read_local_version f p = on_hci 0x1001 15 ready f p
on_packet_in _ f p = unexpected f

unfoldable pub on_packet : Fsm → List ℕ → Bool × Fsm
unfolding on_packet_in
on_packet f p = on_packet_in f.state f p
