-- ===== src/Edl/Examples.antt =====
-- The responses' theorems at concrete packets.
use virt_bth_usb.Common.{ℕ, ◌≡◌, ◌↔◌, refl, arith, some, List, [], ◌∷◌, All, IsByte}
use virt_bth_usb.Edl.{SocVersion, make_version, parse_version_event}
use virt_bth_usb.Edl.Envelope.{vendor_response, VersionIn, parse_version_event_iff}

-- Product 9, patch 2, ROM field 0x0201, SOC id 0x1200.
abbrev some_fields : List ℕ
some_fields = 9 ∷ 0 ∷ 0 ∷ 0 ∷ 2 ∷ 0 ∷ 1 ∷ 2 ∷ 0 ∷ 0x12 ∷ 0 ∷ 0 ∷ []

abbrev some_version : SocVersion
some_version = record {
  product_id = 9;
  patch_version = 2;
  rom_version_field = 0x0201;
  soc_id = 0x1200;
  soc_version = 0x12000201;
  rom_version = 0x21;
}

some_fields-bytes : All IsByte some_fields
some_fields-bytes = ground arith

response-bytes : All IsByte (vendor_response 0x19 some_fields)
response-bytes = ground arith

parse_version_event_iff_example :
    (parse_version_event (vendor_response 0x19 some_fields) ≡ some some_version)
    ↔ VersionIn (vendor_response 0x19 some_fields) some_version
parse_version_event_iff_example =
    parse_version_event_iff (vendor_response 0x19 some_fields) some_version response-bytes

some_fields-version : make_version some_fields ≡ some some_version
unfolding make_version
some_fields-version = refl
