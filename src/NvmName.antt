-- ===== src/NvmName.antt =====
-- src/common/qca_tlv.c, the names of the NVM files. A C string is the list of its characters,
-- without the terminator; a builder that returns FALSE writes nothing and answers `none`. The NULL
-- guards have no counterpart.
pub mod Fallback
mod Examples
use virt_bth_usb.Common.{
  ℕ, zero, suc, ◌+◌, ◌-◌, ◌/◌, ◌%◌, Bool, true, false, Option, none, some, List, [], ◌∷◌, ◌++◌,
}
use virt_bth_usb.Common.{◌==◌, ◌!=◌, ltb, leb, ◌&&◌, ◌||◌, if◌then◌else◌, byte, length, take}

-- g_hexDigitsLower[n], for a nibble n.
pub hex_digit : ℕ → ℕ
hex_digit n = if ltb n 10 then b'0' + n else b'a' + (n - 10)

-- The digits written to Buf; none where its capacity is too small.
pub format_hex_min2 : ℕ → ℕ → List ℕ
format_hex_min2 val capacity =
    if leb 0x1000 val
    then if ltb capacity 4
      then []
      else hex_digit (val / 4096 % 16)
        ∷ hex_digit (val / 256 % 16)
        ∷ hex_digit (val / 16 % 16)
        ∷ hex_digit (val % 16)
        ∷ []
    else if leb 0x100 val
    then if ltb capacity 3
      then []
      else hex_digit (val / 256 % 16) ∷ hex_digit (val / 16 % 16) ∷ hex_digit (val % 16) ∷ []
    else if ltb capacity 2
    then []
    else hex_digit (val / 16 % 16) ∷ hex_digit (val % 16) ∷ []

-- The GlobalFoundries variant, by bits 8-15 of the SOC id.
pub is_gf : ℕ → Bool
is_gf soc_id = soc_id / 256 % 256 == 0x12

pub has_board : ℕ → Bool
has_board board_id = board_id != 0x0000 && board_id != 0xFFFF

-- ".bin"
abbrev pub bin_suffix : List ℕ
bin_suffix = b'.' ∷ b'b' ∷ b'i' ∷ b'n' ∷ []

-- The whole name, once the digits are there: "hpnv", ROM version, "g", and "." with the board ID
-- or ".bin".
pub nvm_name : List ℕ → Bool → Option (List ℕ) → List ℕ
nvm_name rom gf board =
    b'h' ∷ b'p' ∷ b'n' ∷ b'v' ∷ rom
    ++ ((if gf then b'g' ∷ [] else [])
        ++ elim board [ none ↦ bin_suffix | some digits ↦ b'.' ∷ digits ])

pub build_nvm_file_name : ℕ → ℕ → ℕ → ℕ → Option (List ℕ)
build_nvm_file_name soc_id rom_version board_id capacity =
    let rom = format_hex_min2 rom_version 2 in
    let bid = format_hex_min2 board_id 4 in
    if capacity == 0
    then none
    else if length rom != 2
    then none
    else if has_board board_id && ltb (length bid) 2
    then none
    else let needed =
        4
        + 2
        + (if is_gf soc_id then 1 else 0)
        + (if has_board board_id then 1 + length bid else 4)
        + 1 in
      if ltb capacity needed
      then none
      else some (nvm_name rom (is_gf soc_id) (if has_board board_id then some bid else none))

-- The index of the last '.' below `i`, and `len` if there is none.
last_dot : List ℕ → ℕ → ℕ → ℕ
last_dot name len zero = len
last_dot name len (suc i) = if byte name i == b'.' then i else last_dot name len i

-- The extension at `dot` is ".bin" in any letter case.
pub is_bin_extension : List ℕ → ℕ → Bool
is_bin_extension name dot =
    length name - dot == 4
    && (byte name (dot + 1) == b'b' || byte name (dot + 1) == b'B')
    && (byte name (dot + 2) == b'i' || byte name (dot + 2) == b'I')
    && (byte name (dot + 3) == b'n' || byte name (dot + 3) == b'N')

pub build_alt_nvm_file_name : List ℕ → ℕ → Option (List ℕ)
build_alt_nvm_file_name name capacity =
    let len = length name in
    let dot = last_dot name len len in
    if capacity == 0
    then none
    else if dot == 0 || leb (len - 1) dot
    then none
    else if is_bin_extension name dot
    then none
    else if ltb capacity (dot + 4 + 1)
    then none
    else some (take dot name ++ bin_suffix)
