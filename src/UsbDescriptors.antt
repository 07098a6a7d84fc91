-- ===== src/UsbDescriptors.antt =====
-- src/common/usb_descriptors.c: the descriptors of the virtual Bluetooth radio, byte by byte.
pub mod Alternates
use virt_bth_usb.Common.{
  ℕ, ◌+◌, ◌*◌, ◌/◌, ◌%◌, Option, some, none, List, [], ◌∷◌, ◌++◌, get_or, ◌==◌, ltb, if◌then◌else◌,
}

-- LO and HI.
abbrev pub lo : ℕ → ℕ
lo x = x % 256

abbrev pub hi : ℕ → ℕ
hi x = x / 256 % 256

abbrev pub sco_alt_packet_sizes : List ℕ
sco_alt_packet_sizes = 0 ∷ 9 ∷ 17 ∷ 25 ∷ 33 ∷ 49 ∷ 63 ∷ []

abbrev device_descriptor : List ℕ
device_descriptor =
    18
    ∷ 0x01
    ∷ 0x00
    ∷ 0x02
    ∷ 0xE0
    ∷ 0x01
    ∷ 0x01
    ∷ 64
    ∷ lo 0x0CF3
    ∷ hi 0x0CF3
    ∷ lo 0x6390
    ∷ hi 0x6390
    ∷ lo 0x0001
    ∷ hi 0x0001
    ∷ 1
    ∷ 2
    ∷ 3
    ∷ 1
    ∷ []

-- DECKBT_CONFIG_TOTAL_LENGTH.
abbrev config_total_length : ℕ
config_total_length = 200

-- An endpoint's descriptor.
abbrev pub endpoint : ℕ → ℕ → ℕ → ℕ → List ℕ
endpoint address attributes size interval =
    7 ∷ 0x05 ∷ address ∷ attributes ∷ lo size ∷ hi size ∷ interval ∷ []

-- DECKBT_SCO_ALT: an interface with the isochronous endpoints 0x03 and 0x83.
abbrev pub sco_alt : ℕ → ℕ → List ℕ
sco_alt alt size =
    (9 ∷ 0x04 ∷ 1 ∷ alt ∷ 2 ∷ 0xE0 ∷ 0x01 ∷ 0x01 ∷ 0 ∷ [])
    ++ endpoint 0x03 0x01 size 4
    ++ endpoint 0x83 0x01 size 4

abbrev pub config_descriptor : List ℕ
config_descriptor =
    (9 ∷ 0x02 ∷ lo config_total_length ∷ hi config_total_length ∷ 2 ∷ 1 ∷ 0 ∷ 0x80 ∷ 50 ∷ [])
    ++ (9 ∷ 0x04 ∷ 0 ∷ 0 ∷ 3 ∷ 0xE0 ∷ 0x01 ∷ 0x01 ∷ 0 ∷ [])
    ++ endpoint 0x81 0x03 16 4
    ++ endpoint 0x02 0x02 512 0
    ++ endpoint 0x82 0x02 512 0
    ++ sco_alt 0 0
    ++ sco_alt 1 9
    ++ sco_alt 2 17
    ++ sco_alt 3 25
    ++ sco_alt 4 33
    ++ sco_alt 5 49
    ++ sco_alt 6 63

abbrev pub string_lang_ids : List ℕ
string_lang_ids = 4 ∷ 0x03 ∷ lo 0x0409 ∷ hi 0x0409 ∷ []

-- "DeckBtUsb".
abbrev pub string_manufacturer : List ℕ
string_manufacturer =
    20 ∷ 0x03 ∷ 0x44 ∷ 0 ∷ 0x65 ∷ 0 ∷ 0x63 ∷ 0 ∷ 0x6B ∷ 0 ∷ 0x42 ∷ 0 ∷ 0x74 ∷ 0 ∷ 0x55 ∷ 0 ∷ 0x73
    ∷ 0 ∷ 0x62 ∷ 0 ∷ []

-- "Bluetooth Radio".
abbrev pub string_product : List ℕ
string_product =
    32 ∷ 0x03 ∷ 0x42 ∷ 0 ∷ 0x6C ∷ 0 ∷ 0x75 ∷ 0 ∷ 0x65 ∷ 0 ∷ 0x74 ∷ 0 ∷ 0x6F ∷ 0 ∷ 0x6F ∷ 0 ∷ 0x74
    ∷ 0 ∷ 0x68 ∷ 0 ∷ 0x20 ∷ 0 ∷ 0x52 ∷ 0 ∷ 0x61 ∷ 0 ∷ 0x64 ∷ 0 ∷ 0x69 ∷ 0 ∷ 0x6F ∷ 0 ∷ []

-- "DECKBT0001".
abbrev pub string_serial : List ℕ
string_serial =
    22 ∷ 0x03 ∷ 0x44 ∷ 0 ∷ 0x45 ∷ 0 ∷ 0x43 ∷ 0 ∷ 0x4B ∷ 0 ∷ 0x42 ∷ 0 ∷ 0x54 ∷ 0 ∷ 0x30 ∷ 0 ∷ 0x30
    ∷ 0 ∷ 0x30 ∷ 0 ∷ 0x31 ∷ 0 ∷ []

-- None for a null pointer with length 0.
unfoldable pub get_string_descriptor : ℕ → Option (List ℕ)
get_string_descriptor index =
    if index == 0
    then some string_lang_ids
    else if index == 1
    then some string_manufacturer
    else if index == 2
    then some string_product
    else if index == 3
    then some string_serial
    else none

unfoldable pub sco_alt_offset : ℕ → ℕ
sco_alt_offset alt = if ltb 6 alt then 0 else 9 + 9 + 3 * 7 + (9 + 7 + 7) * alt
