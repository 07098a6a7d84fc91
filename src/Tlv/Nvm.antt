-- ===== src/Tlv/Nvm.antt =====
-- src/common/qca_tlv.c: the search for the UART baud byte of an NVM image against a description of the tag list.
use virt_bth_usb.Common.{
  ℕ, zero, suc, ◌+◌, ◌-◌, ◌/◌, ◌%◌, ◌^◌, ◌≤◌, ◌<◌, ◌≡◌, ◌≢◌, ◌↔◌, sym, ◌∙◌, ap, arith, true, false,
  some, inl, inr,
}
use virt_bth_usb.Common.{
  List, length, All, IsByte, byte-lt, le16, le32, ◌==◌, ◌!=◌, ltb, Bool-cases,
}
use virt_bth_usb.Tlv.{
  parse_tlv, tlv_header, tlv_patch_fields, TagWalk, found, out_of_fuel, walk_tags, tag_offset,
  find_nvm_hci_baud_offset,
}

-- The tag at `idx` behind the TLV header: its id and the length of its data.
abbrev tag_id : List ℕ → ℕ → ℕ
tag_id image idx = le16 image (4 + idx)

abbrev tag_length : List ℕ → ℕ → ℕ
tag_length image idx = le16 image (4 + idx + 2)

-- `HciTag image len idx at`: reading tags from `idx` on, in `len` bytes, one comes to the HCI tag
-- (id 17) at `at`; every tag on the way lies inside, and that tag has at least three data bytes.
pub data HciTag (image : List ℕ) (len : ℕ) : ℕ → ℕ → Type 0 where
  here :
      (idx : ℕ)
      → idx + 12 + tag_length image idx ≤ len
      → tag_id image idx ≡ 17
      → 3 ≤ tag_length image idx
      → HciTag image len idx idx
  next :
      (idx after at : ℕ)
      → idx + 12 + tag_length image idx ≤ len
      → tag_id image idx ≢ 17
      → after ≡ idx + 12 + tag_length image idx
      → HciTag image len after at
      → HciTag image len idx at

-- The walk has its answer before the fuel is used up.
walk_tags-ne-out_of_fuel :
    (fuel : ℕ) (image : List ℕ) (len idx : ℕ)
    → len < 2 ^ 24
    → idx ≤ len
    → len - idx < fuel
    → walk_tags fuel image len idx ≢ out_of_fuel
unfolding walk_tags
walk_tags-ne-out_of_fuel zero image len idx h i f = absurd (omega arith)
walk_tags-ne-out_of_fuel (suc fuel) image len idx h i f =
    ground (
      arith,
      walk_tags-ne-out_of_fuel fuel image len ((idx + (12 + tag_length image idx)) % 2 ^ 32),
    )

walk_tags_sound :
    (fuel : ℕ) (image : List ℕ) (len idx o : ℕ)
    → len < 2 ^ 24
    → idx ≤ len
    → walk_tags fuel image len idx ≡ found o
    → (at : ℕ) × HciTag image len idx at × (o ≡ 4 + at + 13)
unfolding walk_tags
walk_tags_sound zero image len idx o h i e = cc
walk_tags_sound (suc fuel) image len idx o h i e =
    let after = (idx + (12 + tag_length image idx)) % 2 ^ 32 in
    elim (Bool-cases (ltb len ((idx + 12) % 2 ^ 32))) [
      | inl past ↦ cc (rw past at e)
      | inr inside ↦ elim (Bool-cases (ltb (len - idx - 12) (tag_length image idx))) [
        | inl long ↦ cc (rw (inside, long) at e)
        | inr fits ↦ elim (Bool-cases (tag_id image idx == 17)) [
          | inl hci ↦ elim (Bool-cases (ltb (tag_length image idx) 3)) [
            | inl short ↦ cc (rw (inside, fits, hci, short) at e)
            | inr enough ↦
                (idx, here idx (ground arith) (ground arith) (ground arith), ground arith)
          ]
          | inr other ↦
              let ih =
                walk_tags_sound fuel image len after o h (ground arith)
                  (rw (inside, fits, other) at e) in
              (ih.0, next idx after ih.0 (ground arith) (ground arith) (ground arith) ih.1, ih.2)
        ]
      ]
    ]

walk_tags_complete :
    (fuel : ℕ) (image : List ℕ) (len idx at : ℕ)
    → len < 2 ^ 24
    → len - idx < fuel
    → HciTag image len idx at
    → walk_tags fuel image len idx ≡ found (4 + at + 13)
unfolding walk_tags
walk_tags_complete zero image len idx at h f (here _ a b c) = absurd (omega arith)
walk_tags_complete zero image len idx at h f (next _ after _ a b c t) = absurd (omega arith)
walk_tags_complete (suc fuel) image len idx at h f (here _ a b c) = ground arith
walk_tags_complete (suc fuel) image len idx at h f (next _ after _ a b c t) =
    let ih = walk_tags_complete fuel image len after at h (omega arith) t in ground (arith, ih)

parsed_length :
    (image : List ℕ)
    → (parse_tlv image).0 ≡ true
    → ((parse_tlv image).1.declared_length ≡ length image - 4)
      × ((parse_tlv image).1.declared_length ≡ le32 image 0 / 256)
      × (4 ≤ length image)
unfolding parse_tlv tlv_header tlv_patch_fields
parsed_length image h = ground arith

parsed_bound :
    (image : List ℕ) → All IsByte image → (parse_tlv image).0 ≡ true → length image - 4 < 2 ^ 24
parsed_bound image b p = omega (
  arith,
  parsed_length image p,
  byte-lt image 0 b,
  byte-lt image 1 b,
  byte-lt image 2 b,
  byte-lt image 3 b,
)

find_parsed :
    (image : List ℕ)
    → (parse_tlv image).0 ≡ true
    → (parse_tlv image).1.type ≡ 2
    → find_nvm_hci_baud_offset image
      ≡ tag_offset (walk_tags (suc (length image - 4)) image (length image - 4) 0)
unfolding find_nvm_hci_baud_offset
find_parsed image p t =
    let nvm : ((parse_tlv image).1.type != 2) ≡ false = ground arith in
    rw (p, nvm, (parsed_length image p).0)

find_some :
    (image : List ℕ) (o : ℕ)
    → find_nvm_hci_baud_offset image ≡ some o
    → ((parse_tlv image).0 ≡ true) × ((parse_tlv image).1.type ≡ 2)
unfolding find_nvm_hci_baud_offset
find_some image o e = ground arith

offset_found : (w : TagWalk) (o : ℕ) → tag_offset w ≡ some o → w ≡ found o
unfolding tag_offset
offset_found (found x) o e = ground arith
offset_found _ o e = cc

-- On a parsed NVM image of bytes, the search for the baud byte ends, and answers offset `o` exactly if the
-- tag list, read from its start with every tag inside the image, has a first HCI tag with at least
-- three data bytes, and `o` is the file offset of its second data byte.
pub find_baud-iff-HciTag :
    (image : List ℕ) (o : ℕ)
    → All IsByte image
    → (parse_tlv image).0 ≡ true
    → (parse_tlv image).1.type ≡ 2
    → (walk_tags (suc (length image - 4)) image (length image - 4) 0 ≢ out_of_fuel)
      × ((find_nvm_hci_baud_offset image ≡ some o)
          ↔ ((at : ℕ) × HciTag image (length image - 4) 0 at × (o ≡ 4 + at + 13)))
find_baud-iff-HciTag image o b p t =
    let n = length image - 4 in
    let bound = parsed_bound image b p in
    let found_at = find_parsed image p t in
    (
      walk_tags-ne-out_of_fuel (suc n) image n 0 bound (omega arith) (omega arith),
      (
        λ e.
            walk_tags_sound (suc n) image n 0 o bound (omega arith)
              (offset_found _ o (sym found_at ∙ e)),
        λ r.
            found_at
            ∙ ap tag_offset (walk_tags_complete (suc n) image n 0 r.0 bound (omega arith) r.1)
            ∙ unfold tag_offset in (ap some (sym r.2)),
      ),
    )

HciTag-bounds : {image : List ℕ} {len idx at : ℕ} → HciTag image len idx at → at + 15 ≤ len
HciTag-bounds (here idx a b c) = omega arith
HciTag-bounds (next idx after at a b c t) = HciTag-bounds t

-- An offset that the search answers on an image of bytes is inside the image, behind the TLV header, a tag header and
-- one data byte, and at least one byte follows it.
find_baud-in-image :
    (image : List ℕ) (o : ℕ)
    → All IsByte image
    → find_nvm_hci_baud_offset image ≡ some o
    → (17 ≤ o) × (o + 1 < length image)
find_baud-in-image image o b e =
    let (p, t) = find_some image o e in
    let r = ((find_baud-iff-HciTag image o b p t).1.0) e in
    omega (arith, r.2, HciTag-bounds r.1, parsed_length image p)
