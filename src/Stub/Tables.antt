-- ===== src/Stub/Tables.antt =====
-- src/driver/hci_stub.c: the return parameters of the synthetic controller's answers, without the
-- status byte.
use virt_bth_usb.Common.{ℕ, List, [], ◌∷◌, ◌++◌, replicate, byte, leb, if◌then◌else◌}

abbrev pub local_version : List ℕ
local_version = 0x0B ∷ 0x00 ∷ 0x00 ∷ 0x0B ∷ 0x1D ∷ 0x00 ∷ 0x00 ∷ 0x00 ∷ []

abbrev pub supported_commands : List ℕ
supported_commands =
    (0xFF ∷ 0xFF ∷ 0xFF ∷ 0x03 ∷ 0xCE ∷ 0xFF ∷ 0xEF ∷ []) ++ replicate 25 0xFF ++ replicate 32 0

abbrev pub local_features : List ℕ
local_features = 0xBF ∷ 0xFE ∷ 0xCF ∷ 0xFE ∷ 0xDB ∷ 0xFF ∷ 0x7B ∷ 0x87 ∷ []

abbrev pub buffer_size : List ℕ
buffer_size = 0xFD ∷ 0x03 ∷ 0xFF ∷ 0x08 ∷ 0x00 ∷ 0x08 ∷ 0x00 ∷ []

abbrev pub le_buffer_size : List ℕ
le_buffer_size = 0xFB ∷ 0x00 ∷ 0x04 ∷ []

abbrev pub le_features : List ℕ
le_features = 0x7D ∷ 0x11 ∷ 0x00 ∷ 0x00 ∷ 0x00 ∷ 0x00 ∷ 0x00 ∷ 0x00 ∷ []

abbrev pub le_states : List ℕ
le_states = 0xFF ∷ 0xFF ∷ 0xFF ∷ 0xFF ∷ 0xFF ∷ 0xFF ∷ 0xFF ∷ 0xFF ∷ []

abbrev pub local_name : List ℕ
local_name = (0x44 ∷ 0x65 ∷ 0x63 ∷ 0x6B ∷ 0x42 ∷ 0x74 ∷ 0x55 ∷ 0x73 ∷ 0x62 ∷ []) ++ replicate 239 0

abbrev pub class_of_device : List ℕ
class_of_device = 0x04 ∷ 0x01 ∷ 0x1C ∷ []

abbrev pub voice_setting : List ℕ
voice_setting = 0x60 ∷ 0x00 ∷ []

abbrev pub page_timeout : List ℕ
page_timeout = 0x00 ∷ 0x20 ∷ []

abbrev pub scan_enable : List ℕ
scan_enable = 0x00 ∷ []

abbrev pub local_codecs : List ℕ
local_codecs = 0x02 ∷ 0x02 ∷ 0x05 ∷ 0x00 ∷ []

abbrev pub le_adv_tx_power : List ℕ
le_adv_tx_power = 0x09 ∷ []

abbrev pub le_list_size : List ℕ
le_list_size = 0x20 ∷ []

abbrev pub le_suggested_data_length : List ℕ
le_suggested_data_length = 0xFB ∷ 0x00 ∷ 0x48 ∷ 0x08 ∷ []

abbrev pub inq_rsp_tx_power : List ℕ
inq_rsp_tx_power = 0x00 ∷ []

abbrev pub stored_link_keys : List ℕ
stored_link_keys = 0x08 ∷ 0x00 ∷ 0x00 ∷ 0x00 ∷ []

abbrev pub link_keys_written : List ℕ
link_keys_written = 0x01 ∷ []

abbrev pub link_keys_deleted : List ℕ
link_keys_deleted = 0x00 ∷ 0x00 ∷ []

abbrev pub le_max_data_length : List ℕ
le_max_data_length = 0xFB ∷ 0x00 ∷ 0x48 ∷ 0x08 ∷ 0xFB ∷ 0x00 ∷ 0x48 ∷ 0x08 ∷ []

-- The page that was asked for, the last page, and the features.
unfoldable pub ext_features : List ℕ → List ℕ
ext_features command = (if leb 1 (byte command 2) then byte command 3 else 0) ∷ 2 ∷ local_features
