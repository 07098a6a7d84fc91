-- ===== src/Tlv.antt =====
-- src/common/qca_tlv.c, the firmware images: TLV header parsing, segmentation, the walk over the
-- NVM tags, and the vendor commands that carry them. A buffer with its size is a list of bytes,
-- shorter than 2^32. A builder returns the bytes that it writes to Out; where the C function
-- returns 0 it returns none of them. Loops that count in ULONG keep the 32-bit wrap.
pub mod Segments
pub mod Nvm
mod Examples
use virt_bth_usb.Common.{
  ℕ, zero, suc, ◌+◌, ◌-◌, ◌*◌, ◌/◌, ◌%◌, ◌^◌, Bool, true, false, not, Option, none, some,
}
use virt_bth_usb.Common.{List, [], ◌∷◌, ◌++◌, ◌==◌, ◌!=◌, ltb, leb, ◌&&◌, ◌||◌, if◌then◌else◌}
use virt_bth_usb.Common.{byte, le16, le32, length, take, drop, add32, sub32}
use virt_bth_usb.H4.{pkt_command}
use virt_bth_usb.Protocol.{
  edl_patch_cmd_opcode, qca_baudrate_cmd_opcode, edl_patch_tlv_req_cmd, max_size_per_tlv_segment,
  tlv_type_patch, tlv_type_nvm, elf_type_patch, skip_evt_vse, skip_evt_vse_cc, edl_tag_id_hci,
  nvm_tag_hdr_size, baudrate_115200, baudrate_921600, baudrate_1000000, baudrate_2000000,
  baudrate_3000000, baudrate_3200000,
}

-- QCA_TLV_INFO; `declared_length` is its Length.
pub record TlvInfo : Type 0 where
  pub type : ℕ
  pub declared_length : ℕ
  pub file_size : ℕ
  pub total_size : ℕ
  pub data_length : ℕ
  pub download_mode : ℕ
  pub product_id : ℕ
  pub rom_build : ℕ
  pub patch_version : ℕ

abbrev pub no_info : TlvInfo
no_info = record {
  type = 0;
  declared_length = 0;
  file_size = 0;
  total_size = 0;
  data_length = 0;
  download_mode = 0;
  product_id = 0;
  rom_build = 0;
  patch_version = 0;
}

-- The 4-byte header: type in the low byte, length in the upper 24 bits.
tlv_header : List ℕ → TlvInfo
tlv_header image = record no_info {
  type = le32 image 0 % 256;
  declared_length = le32 image 0 / 256;
  file_size = length image;
}

tlv_patch_fields : List ℕ → TlvInfo → TlvInfo
tlv_patch_fields image info = record info {
  total_size = le32 image 4;
  data_length = le32 image 8;
  download_mode = byte image 14;
  product_id = le16 image 16;
  rom_build = le16 image 18;
  patch_version = le16 image 20;
}

-- The verdict, and what is left in *Info, which is filled as far as the checks went.
pub parse_tlv : List ℕ → Bool × TlvInfo
unfolding tlv_header tlv_patch_fields
parse_tlv image =
    if ltb (length image) 4
    then (false, no_info)
    else let info = tlv_header image in
      if info.declared_length != length image - 4
      then (false, info)
      else if info.type == tlv_type_patch
      then if ltb (length image) (4 + 24)
        then (false, info)
        else (not (ltb skip_evt_vse_cc (byte image 14)), tlv_patch_fields image info)
      else if info.type != tlv_type_nvm && info.type != elf_type_patch
      then (false, info)
      else (true, info)

pub tlv_segment_count : ℕ → ℕ
tlv_segment_count file_size =
    if file_size == 0
    then 0
    else add32 file_size (max_size_per_tlv_segment - 1) / max_size_per_tlv_segment

-- What the walk over the tags answers; `out_of_fuel` is no answer of the code.
pub data TagWalk : Type 0 where
  found : ℕ → TagWalk
  malformed : TagWalk
  missing : TagWalk
  out_of_fuel : TagWalk

-- The while loop at offset `idx` behind the TLV header, over `len` bytes of tags.
pub walk_tags : ℕ → List ℕ → ℕ → ℕ → TagWalk
walk_tags zero image len idx = out_of_fuel
walk_tags (suc fuel) image len idx =
    let tag_len = le16 image (4 + idx + 2) in
    let rest = walk_tags fuel image len (add32 idx (nvm_tag_hdr_size + tag_len)) in
    if ltb len (add32 idx nvm_tag_hdr_size)
    then missing
    else if ltb (len - idx - nvm_tag_hdr_size) tag_len
    then malformed
    else if le16 image (4 + idx) == edl_tag_id_hci
    then if ltb tag_len 3 then malformed else found (4 + idx + nvm_tag_hdr_size + 1)
    else rest

pub tag_offset : TagWalk → Option ℕ
tag_offset (found o) = some o
tag_offset _ = none

-- *Offset on TRUE. Every round passes a tag header, so one round for each byte is enough.
pub find_nvm_hci_baud_offset : List ℕ → Option ℕ
find_nvm_hci_baud_offset image =
    let (parsed, info) = parse_tlv image in
    if not parsed || info.type != tlv_type_nvm
    then none
    else tag_offset (walk_tags (suc info.declared_length) image info.declared_length 0)

-- The segment's size, for an index below the segment count.
pub segment_size : ℕ → ℕ → ℕ
segment_size file_size offset =
    if ltb max_size_per_tlv_segment (file_size - offset)
    then max_size_per_tlv_segment
    else file_size - offset

-- *AckExpected for a segment that was built.
pub ack_expected : ℕ → ℕ → ℕ → ℕ → Bool
ack_expected file_size offset size mode =
    if ltb size max_size_per_tlv_segment || leb file_size (offset + size)
    then true
    else if mode == skip_evt_vse_cc || mode == skip_evt_vse
    then false
    else true

-- The command's bytes and *AckExpected.
pub build_tlv_segment_command : List ℕ → ℕ → ℕ → ℕ → List ℕ × Bool
build_tlv_segment_command image index mode out_capacity =
    if length image == 0 || leb (tlv_segment_count (length image)) index
    then ([], true)
    else let offset = index * max_size_per_tlv_segment % 2 ^ 32 in
      let size = segment_size (length image) offset in
      if ltb out_capacity (6 + size) then ([], true) else (
        pkt_command
            ∷ edl_patch_cmd_opcode % 256
            ∷ edl_patch_cmd_opcode / 256 % 256
            ∷ (size + 2) % 256
            ∷ edl_patch_tlv_req_cmd
            ∷ size % 256
            ∷ take size (drop offset image),
        ack_expected (length image) offset size mode,
      )

pub build_baud_rate_command : ℕ → ℕ → List ℕ
build_baud_rate_command index out_capacity =
    if ltb out_capacity 5 || ltb baudrate_3200000 index
    then []
    else pkt_command
      ∷ qca_baudrate_cmd_opcode % 256
      ∷ qca_baudrate_cmd_opcode / 256 % 256
      ∷ 1
      ∷ index
      ∷ []

pub build_edl_command : ℕ → ℕ → List ℕ
build_edl_command sub_command out_capacity =
    if ltb out_capacity 5
    then []
    else pkt_command
      ∷ edl_patch_cmd_opcode % 256
      ∷ edl_patch_cmd_opcode / 256 % 256
      ∷ 1
      ∷ sub_command
      ∷ []

-- The verdict and *Index.
pub baud_rate_to_index : ℕ → Bool × ℕ
baud_rate_to_index bits_per_second =
    if bits_per_second == 115200
    then (true, baudrate_115200)
    else if bits_per_second == 921600
    then (true, baudrate_921600)
    else if bits_per_second == 1000000
    then (true, baudrate_1000000)
    else if bits_per_second == 2000000
    then (true, baudrate_2000000)
    else if bits_per_second == 3000000
    then (true, baudrate_3000000)
    else if bits_per_second == 3200000
    then (true, baudrate_3200000)
    else (false, 0)
