-- ===== src/Protocol.antt =====
-- The constants of src/include/qca_protocol.h that the code under src/common uses.
use virt_bth_usb.Common.{ℕ}

-- Opcodes.
abbrev pub edl_patch_cmd_opcode : ℕ
edl_patch_cmd_opcode = 0xFC00

abbrev pub qca_disable_logging : ℕ
qca_disable_logging = 0xFC17

abbrev pub qca_disable_logging_sub_op : ℕ
qca_disable_logging_sub_op = 0x14

abbrev pub qca_baudrate_cmd_opcode : ℕ
qca_baudrate_cmd_opcode = 0xFC48

-- Sub-commands of the patch opcode.
abbrev pub edl_patch_ver_req_cmd : ℕ
edl_patch_ver_req_cmd = 0x19

abbrev pub edl_patch_tlv_req_cmd : ℕ
edl_patch_tlv_req_cmd = 0x1E

abbrev pub edl_get_build_info_cmd : ℕ
edl_get_build_info_cmd = 0x20

abbrev pub edl_get_bid_req_cmd : ℕ
edl_get_bid_req_cmd = 0x23

-- Events and response selectors.
abbrev pub hci_ev_vendor : ℕ
hci_ev_vendor = 0xFF

abbrev pub edl_cmd_req_res_evt : ℕ
edl_cmd_req_res_evt = 0x00

abbrev pub edl_patch_ver_res_evt : ℕ
edl_patch_ver_res_evt = 0x19

abbrev pub edl_tvl_dnld_res_evt : ℕ
edl_tvl_dnld_res_evt = 0x04

-- TLV images.
abbrev pub max_size_per_tlv_segment : ℕ
max_size_per_tlv_segment = 243

abbrev pub tlv_type_patch : ℕ
tlv_type_patch = 1

abbrev pub tlv_type_nvm : ℕ
tlv_type_nvm = 2

abbrev pub elf_type_patch : ℕ
elf_type_patch = 3

abbrev pub skip_evt_none : ℕ
skip_evt_none = 0

abbrev pub skip_evt_vse : ℕ
skip_evt_vse = 1

abbrev pub skip_evt_vse_cc : ℕ
skip_evt_vse_cc = 3

abbrev pub edl_tag_id_hci : ℕ
edl_tag_id_hci = 17

abbrev pub nvm_tag_hdr_size : ℕ
nvm_tag_hdr_size = 12

-- Indices of enum qca_baudrate.
abbrev pub baudrate_115200 : ℕ
baudrate_115200 = 0

abbrev pub baudrate_921600 : ℕ
baudrate_921600 = 10

abbrev pub baudrate_1000000 : ℕ
baudrate_1000000 = 11

abbrev pub baudrate_2000000 : ℕ
baudrate_2000000 = 13

abbrev pub baudrate_3000000 : ℕ
baudrate_3000000 = 14

abbrev pub baudrate_3200000 : ℕ
baudrate_3200000 = 17
