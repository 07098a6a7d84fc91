-- ===== src/Tlv/Examples.antt =====
-- The firmware images' theorems at concrete images.
use virt_bth_usb.Common.{
  ℕ, ◌+◌, ◌≡◌, ◌≢◌, ◌↔◌, refl, arith, true, some, List, [], ◌∷◌, All, IsByte, replicate,
}
use virt_bth_usb.Tlv.{
  parse_tlv, tlv_header, out_of_fuel, walk_tags, tag_offset, find_nvm_hci_baud_offset,
  tlv_segment_count,
}
use virt_bth_usb.Tlv.Segments.{downloaded, downloaded-image}
use virt_bth_usb.Tlv.Nvm.{HciTag, find_baud-iff-HciTag}

-- An image of two segments.
abbrev long_image : List ℕ
long_image = replicate 300 7

downloaded-image_example : downloaded long_image 1 259 (tlv_segment_count 300) 0 ≡ long_image
downloaded-image_example = downloaded-image long_image 1 259 (omega arith) (omega arith)

long_image-segments : tlv_segment_count 300 ≡ 2
unfolding tlv_segment_count
long_image-segments = refl

-- An NVM image of one tag: the HCI tag with three data bytes.
abbrev one_tag : List ℕ
one_tag = 2 ∷ 15 ∷ 0 ∷ 0 ∷ 17 ∷ 0 ∷ 3 ∷ 0 ∷ 0 ∷ 0 ∷ 0 ∷ 0 ∷ 0 ∷ 0 ∷ 0 ∷ 0 ∷ 0 ∷ 9 ∷ 0 ∷ []

one_tag-bytes : All IsByte one_tag
one_tag-bytes = ground arith

one_tag-parsed : (parse_tlv one_tag).0 ≡ true
unfolding parse_tlv tlv_header
one_tag-parsed = refl

one_tag-type : (parse_tlv one_tag).1.type ≡ 2
unfolding parse_tlv tlv_header
one_tag-type = refl

one_tag-offset : find_nvm_hci_baud_offset one_tag ≡ some 17
unfolding find_nvm_hci_baud_offset parse_tlv tlv_header walk_tags tag_offset
one_tag-offset = refl

find_baud-iff-HciTag_example :
    (walk_tags 16 one_tag 15 0 ≢ out_of_fuel)
    × ((find_nvm_hci_baud_offset one_tag ≡ some 17)
        ↔ ((at : ℕ) × HciTag one_tag 15 0 at × (17 ≡ 4 + at + 13)))
find_baud-iff-HciTag_example =
    find_baud-iff-HciTag one_tag 17 one_tag-bytes one_tag-parsed one_tag-type
