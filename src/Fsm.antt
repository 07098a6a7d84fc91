-- ===== src/Fsm.antt =====
-- src/common/qca_init_fsm.c: the bring-up state machine of the QCA2066. The machine and the buffers
-- that it borrows are values: an image that is NULL is the empty one, which the code rejects alike,
-- and a NULL candidate name is `none`. `next` and `on_packet` return the new machine.
pub mod Pump
pub mod Events
pub mod Rounds
pub mod Download
pub mod Select
pub mod Edges
pub mod Order
pub mod Fallback
mod Examples
use virt_bth_usb.Common.{
  ℕ, zero, suc, ◌+◌, ◌-◌, ◌*◌, ◌/◌, ◌%◌, ◌^◌, Bool, true, false, not, Option, none, some,
}
use virt_bth_usb.Common.{
  List, [], ◌∷◌, ◌++◌, ◌==◌, ◌!=◌, ltb, leb, ◌&&◌, ◌||◌, if◌then◌else◌, byte, le16,
}
use virt_bth_usb.Common.{length, take, set, get_or, inc32}
use virt_bth_usb.H4.{pkt_command, pkt_event}
use virt_bth_usb.Protocol.{
  qca_disable_logging, qca_disable_logging_sub_op, edl_patch_ver_req_cmd, edl_get_build_info_cmd,
  edl_tvl_dnld_res_evt, edl_patch_tlv_req_cmd, hci_ev_vendor, tlv_type_patch, tlv_type_nvm,
  skip_evt_none, max_size_per_tlv_segment,
}
use virt_bth_usb.Tlv.{
  TlvInfo, no_info, parse_tlv, tlv_segment_count, find_nvm_hci_baud_offset,
  build_tlv_segment_command, build_baud_rate_command, build_edl_command, baud_rate_to_index,
}
use virt_bth_usb.Edl.{
  SocVersion, no_version, parse_edl_response, parse_version_event, build_board_id_command,
  parse_board_id_event,
}
use virt_bth_usb.NvmName.{build_nvm_file_name, build_alt_nvm_file_name}

pub data State : Type 0 where
  start version_request set_baud_rate patch_download board_id_request nvm_download disable_logging
        build_info hci_reset read_local_version ready failed :
      State

-- The value of the enum, as LastFailureState holds it.
unfoldable pub state_index : State → ℕ
state_index start = 0
state_index version_request = 1
state_index set_baud_rate = 2
state_index patch_download = 3
state_index board_id_request = 4
state_index nvm_download = 5
state_index disable_logging = 6
state_index build_info = 7
state_index hci_reset = 8
state_index read_local_version = 9
state_index ready = 10
state_index failed = 11

pub data Action : Type 0 where
  send send_no_wait send_baud_and_switch done give_up : Action

-- QCA_NVM_CANDIDATE.
pub record Candidate : Type 0 where
  pub name : Option (List ℕ)
  pub image : List ℕ

-- QCA_INIT_FSM. A size is the length of its buffer.
pub record Fsm : Type 0 where
  pub state : State
  pub patch : List ℕ
  pub patch_download_mode : ℕ
  pub patch_segments : ℕ
  pub patch_index : ℕ
  pub candidates : List Candidate
  pub nvm : List ℕ
  pub nvm_download_mode : ℕ
  pub nvm_segments : ℕ
  pub nvm_index : ℕ
  pub nvm_baud_offset : ℕ
  pub oper_baud_rate : ℕ
  pub oper_baud_index : ℕ
  pub soc_version : SocVersion
  pub board_id : ℕ
  pub board_id_valid : Bool
  pub selected_nvm_name : List ℕ
  pub selected_nvm_index : ℕ
  pub nvm_fallback_used : Bool
  pub commands_sent : ℕ
  pub events_handled : ℕ
  pub last_failure_state : ℕ
  pub unexpected_events : ℕ
  pub patch_info : TlvInfo
  pub nvm_info : TlvInfo

-- QCA_FSM_MAX_COMMAND.
abbrev pub max_command : ℕ
max_command = max_size_per_tlv_segment + 16

unfoldable pub build_hci_command : ℕ → ℕ → List ℕ
build_hci_command opcode capacity =
    if ltb capacity 4 then [] else pkt_command ∷ opcode % 256 ∷ opcode / 256 % 256 ∷ 0 ∷ []

unfoldable pub build_disable_logging : ℕ → List ℕ
build_disable_logging capacity =
    if ltb capacity 6
    then []
    else pkt_command
      ∷ qca_disable_logging % 256
      ∷ qca_disable_logging / 256 % 256
      ∷ 2
      ∷ qca_disable_logging_sub_op
      ∷ 0
      ∷ []

unfoldable pub lower : ℕ → ℕ
lower c = if leb b'A' c && leb c b'Z' then c + (b'a' - b'A') else c

-- Whether QcaStrCaseCmp returns 0, which is all that its callers look at.
unfoldable pub same_ignoring_case : List ℕ → List ℕ → Bool
unfolding lower
same_ignoring_case [] [] = true
same_ignoring_case [] (y ∷ ys) = false
same_ignoring_case (x ∷ xs) [] = false
same_ignoring_case (x ∷ xs) (y ∷ ys) = lower x == lower y && same_ignoring_case xs ys

unfoldable pub copy_string : ℕ → List ℕ → List ℕ
copy_string capacity src = take (capacity - 1) src

unfoldable pub fail : Fsm → Fsm
unfolding state_index
fail f = record f { last_failure_state = state_index f.state; state = failed }

-- An image that can be downloaded as NVM: what QcaParseTlv says and leaves, and the baud offset.
unfoldable pub check_nvm : List ℕ → Option ℕ
check_nvm image =
    let (parsed, info) = parse_tlv image in
    if not parsed || info.type != tlv_type_nvm then none else find_nvm_hci_baud_offset image

abbrev pub no_candidate : Candidate
no_candidate = record { name = none; image = [] }

-- NvmInfo is written whether or not the image is accepted.
unfoldable pub arm_nvm : Fsm → ℕ → List ℕ → Bool × Fsm
unfolding check_nvm copy_string
arm_nvm f index name =
    let image = (get_or f.candidates index no_candidate).image in
    let info = (parse_tlv image).1 in
    elim (check_nvm image) [
      | none ↦ (false, record f { nvm_info = info })
      | some baud_offset ↦ (
        true,
        record f {
          nvm_info = info;
          selected_nvm_name = copy_string 32 name;
          selected_nvm_index = index;
          nvm = image;
          nvm_baud_offset = baud_offset;
          nvm_download_mode = skip_evt_none;
          nvm_segments = tlv_segment_count (length image);
          nvm_index = 0;
        },
      )
    ]

abbrev pub named : Candidate → List ℕ → Bool
named c name = elim c.name [ none ↦ false | some n ↦ same_ignoring_case n name ]

-- The for loops: the index of the first candidate of that name, from `i` on.
unfoldable pub find_candidate : List Candidate → List ℕ → ℕ → Option ℕ
find_candidate [] name i = none
find_candidate (c ∷ cs) name i =
    let later = find_candidate cs name (i + 1) in if named c name then some i else later

-- No candidate has the board's own name: the fallback's.
unfoldable pub select_alt : Fsm → List ℕ → Bool × Fsm
select_alt f target = elim (build_alt_nvm_file_name target 32) [
  | none ↦ (false, f)
  | some alt ↦ elim (find_candidate f.candidates alt 0) [
    | none ↦ (false, f)
    | some i ↦ arm_nvm f i alt
  ]
]

unfoldable pub select_nvm : Fsm → Bool × Fsm
unfolding select_alt
select_nvm f =
    if length f.candidates == 0
    then (false, f)
    else elim (build_nvm_file_name f.soc_version.soc_id f.soc_version.rom_version f.board_id 32) [
      | none ↦ (false, f)
      | some target ↦ elim (find_candidate f.candidates target 0) [
        | none ↦ select_alt f target
        | some i ↦ arm_nvm f i target
      ]
    ]
