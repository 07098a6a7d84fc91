-- ===== src/Edl.antt =====
-- src/common/qca_tlv.c, the EDL responses: the two event envelopes, the version and the board-ID
-- responses. A parser's outputs are `some` where the C function returns TRUE and writes them, and
-- `none` where it returns FALSE and leaves them alone. The NULL guards have no counterpart.
pub mod Version
pub mod Envelope
mod Examples
use virt_bth_usb.Common.{
  ℕ, ◌+◌, ◌*◌, ◌/◌, ◌%◌, ◌^◌, Bool, true, false, Option, none, some, List, [], ◌∷◌,
}
use virt_bth_usb.Common.{
  ◌==◌, ◌!=◌, ltb, leb, ◌&&◌, ◌||◌, if◌then◌else◌, byte, le16, le32, length, drop,
}
use virt_bth_usb.H4.{pkt_event}
use virt_bth_usb.Tlv.{build_edl_command}
use virt_bth_usb.Protocol.{
  hci_ev_vendor, edl_patch_cmd_opcode, edl_cmd_req_res_evt, edl_patch_ver_res_evt,
  edl_get_bid_req_cmd,
}

pub record SocVersion : Type 0 where
  pub product_id : ℕ
  pub patch_version : ℕ
  pub rom_version_field : ℕ
  pub soc_id : ℕ
  pub soc_version : ℕ
  pub rom_version : ℕ

abbrev pub no_version : SocVersion
no_version = record {
  product_id = 0;
  patch_version = 0;
  rom_version_field = 0;
  soc_id = 0;
  soc_version = 0;
  rom_version = 0;
}

-- Where the return parameters start, by the envelope.
pub edl_offset : List ℕ → Option ℕ
edl_offset packet =
    if byte packet 1 == hci_ev_vendor
    then some 3
    else if byte packet 1 == 0x0E && leb 8 (length packet) && le16 packet 4 == edl_patch_cmd_opcode
    then some 6
    else none

-- The bytes behind status and selector: *Data with *DataLength.
pub parse_edl_response : List ℕ → ℕ → Option (List ℕ)
parse_edl_response packet response_type =
    if ltb (length packet) 5 || byte packet 0 != pkt_event || length packet != 3 + byte packet 2
    then none
    else elim (edl_offset packet) [
      | none ↦ none
      | some offset ↦
          if byte packet offset != edl_cmd_req_res_evt || byte packet (offset + 1) != response_type
          then none
          else some (drop (offset + 2) packet)
    ]

-- `soc_id << 16` is cut to 32 bits; the ROM version takes bits 8-11 and 0-3 of the result.
pub make_version : List ℕ → Option SocVersion
make_version fields =
    let rom_version_field = le16 fields 6 in
    let soc_id = le32 fields 8 in
    let soc_version = soc_id * 65536 % 2 ^ 32 + rom_version_field in
    if soc_id == 0 || rom_version_field == 0
    then none
    else some (record {
      product_id = le32 fields 0;
      patch_version = le16 fields 4;
      rom_version_field = rom_version_field;
      soc_id = soc_id;
      soc_version = soc_version;
      rom_version = soc_version / 256 % 16 * 16 + soc_version % 16;
    })

-- The event code decides whether one extra byte stands before the version.
pub version_payload : ℕ → List ℕ → Option SocVersion
version_payload event fields =
    if event == 0x0E
    then (if length fields != 13 then none else make_version (drop 1 fields))
    else (if length fields != 12 then none else make_version fields)

pub parse_version_event : List ℕ → Option SocVersion
parse_version_event packet = elim (parse_edl_response packet edl_patch_ver_res_evt) [
  | none ↦ none
  | some fields ↦ version_payload (byte packet 1) fields
]

pub build_board_id_command : ℕ → List ℕ
build_board_id_command capacity =
    if ltb capacity 5 then [] else build_edl_command edl_get_bid_req_cmd capacity

-- An ignored byte, then the board ID, high byte first.
pub parse_board_id_event : List ℕ → Option ℕ
parse_board_id_event packet = elim (parse_edl_response packet edl_get_bid_req_cmd) [
  | none ↦ none
  | some fields ↦ if ltb (length fields) 3 then none else some (byte fields 1 * 256 + byte fields 2)
]
