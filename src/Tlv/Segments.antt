-- ===== src/Tlv/Segments.antt =====
-- src/common/qca_tlv.c: the segmentation of a firmware image and its download commands.
use virt_bth_usb.Common.{
  ℕ, zero, suc, ◌+◌, ◌-◌, ◌*◌, ◌%◌, ◌^◌, ◌≤◌, ◌<◌, ◌≡◌, ◌⊎◌, ◌↔◌, refl, sym, ◌∙◌, ap, ap₂, arith,
  Bool, false, min,
}
use virt_bth_usb.Common.{
  ◌||◌, List, [], ◌∷◌, ◌++◌, length, take, drop, length-take, length-drop, drop_all,
  take-append-drop, drop-drop, leb, ◌==◌, ltb,
}
use virt_bth_usb.Tlv.{tlv_segment_count, segment_size, ack_expected, build_tlv_segment_command}

-- The images that the segment arithmetic of ULONG does not wrap on.
abbrev pub Fits : List ℕ → Type 0
Fits image = length image + 243 ≤ 2 ^ 32

-- The bytes of segment `index`.
unfoldable pub segment : List ℕ → ℕ → List ℕ
segment image index = take 243 (drop (243 * index) image)

take-length-take : (n : ℕ) (xs : List ℕ) → take (length (take n xs)) xs ≡ take n xs
take-length-take zero xs = refl
take-length-take (suc n) [] = refl
take-length-take (suc n) (x ∷ xs) = ap (λ r. x ∷ r) (take-length-take n xs)

pub segment_count_bounds :
    (image : List ℕ)
    → Fits image
    → (length image ≤ 243 * tlv_segment_count (length image))
      × ((index : ℕ) → index < tlv_segment_count (length image) → 243 * index < length image)
unfolding tlv_segment_count
segment_count_bounds image h = (ground arith, λ index i. ground arith)

pub segment_count-lt : (n : ℕ) → tlv_segment_count n < 2 ^ 32
unfolding tlv_segment_count
segment_count-lt n = ground arith

pub length-segment :
    (image : List ℕ) (index : ℕ)
    → length (segment image index) ≡ min 243 (length image - 243 * index)
unfolding segment
length-segment image index =
    omega (arith, length-take 243 (drop (243 * index) image), length-drop (243 * index) image)

segment_size-eq-min : (n o : ℕ) → segment_size n o ≡ min 243 (n - o)
unfolding segment_size
segment_size-eq-min n o = ground arith

segment_size_lem :
    (image : List ℕ) (index : ℕ)
    → segment_size (length image) (243 * index) ≡ length (segment image index)
segment_size_lem image index =
    omega (arith, segment_size-eq-min (length image) (243 * index), length-segment image index)

take-segment :
    (image : List ℕ) (index : ℕ)
    → take (length (segment image index)) (drop (243 * index) image) ≡ segment image index
unfolding segment
take-segment image index = take-length-take 243 (drop (243 * index) image)

-- The command for a segment that the image has, in a buffer that is large enough.
pub build_segment :
    (image : List ℕ) (index mode capacity : ℕ)
    → Fits image
    → index < tlv_segment_count (length image)
    → 249 ≤ capacity
    → build_tlv_segment_command image index mode capacity ≡ (
      0x01
          ∷ 0x00
          ∷ 0xFC
          ∷ (length (segment image index) + 2)
          ∷ 0x1E
          ∷ length (segment image index)
          ∷ segment image index,
      ack_expected (length image) (243 * index) (length (segment image index)) mode,
    )
unfolding build_tlv_segment_command
build_segment image index mode capacity fits i c =
    let len = length-segment image index in
    let below : 243 * index < length image = (segment_count_bounds image fits).1 index i in
    let some_left : (length image == 0 || leb (tlv_segment_count (length image)) index) ≡ false =
      ground arith in
    let offset : index * 243 % 2 ^ 32 ≡ 243 * index = omega arith in
    let room : ltb capacity (6 + length (segment image index)) ≡ false = ground arith in
    let plen : (length (segment image index) + 2) % 256 ≡ length (segment image index) + 2 =
      omega arith in
    let slen : length (segment image index) % 256 ≡ length (segment image index) = omega arith in
    rw (some_left, offset, segment_size_lem, room, take-segment, plen, slen)

-- The payload of a download command, behind its six bytes of framing.
abbrev pub payload_of : List ℕ × Bool → List ℕ
payload_of (command, ack) = drop 6 command

-- The payloads of `n` commands in a row, from segment `index` on.
pub downloaded : List ℕ → ℕ → ℕ → ℕ → ℕ → List ℕ
downloaded image mode capacity zero index = []
downloaded image mode capacity (suc n) index =
    payload_of (build_tlv_segment_command image index mode capacity)
    ++ downloaded image mode capacity n (suc index)

pub payload-build :
    (image : List ℕ) (index mode capacity : ℕ)
    → Fits image
    → index < tlv_segment_count (length image)
    → 249 ≤ capacity
    → payload_of (build_tlv_segment_command image index mode capacity) ≡ segment image index
payload-build image index mode capacity fits i c =
    ap payload_of (build_segment image index mode capacity fits i c)

pub segment-append-drop :
    (image : List ℕ) (index : ℕ)
    → segment image index ++ drop (243 * suc index) image ≡ drop (243 * index) image
unfolding segment
segment-append-drop image index =
    ap (λ r. take 243 (drop (243 * index) image) ++ r)
      (ap (λ k. drop k image) {y = 243 * index + 243} (omega arith)
        ∙ sym (drop-drop 243 (243 * index) image))
    ∙ take-append-drop 243 (drop (243 * index) image)

downloaded-drop :
    (image : List ℕ) (mode capacity n index : ℕ)
    → Fits image
    → 249 ≤ capacity
    → index + n ≡ tlv_segment_count (length image)
    → downloaded image mode capacity n index ≡ drop (243 * index) image
unfolding downloaded
downloaded-drop image mode capacity zero index fits c e =
    sym (drop_all (243 * index) image (omega (arith, (segment_count_bounds image fits).0)))
downloaded-drop image mode capacity (suc n) index fits c e =
    ap₂ ◌++◌ (payload-build image index mode capacity fits (omega arith) c)
      (downloaded-drop image mode capacity n (suc index) fits c (omega arith))
    ∙ segment-append-drop image index

-- The payloads of the commands for all segments, in order and whatever the download mode, are the
-- image, for every image that ULONG arithmetic does not wrap on and a buffer of at least 249 bytes.
pub downloaded-image :
    (image : List ℕ) (mode capacity : ℕ)
    → Fits image
    → 249 ≤ capacity
    → downloaded image mode capacity (tlv_segment_count (length image)) 0 ≡ image
downloaded-image image mode capacity fits c =
    downloaded-drop image mode capacity (tlv_segment_count (length image)) 0 fits c (omega arith)

-- The download modes in which the controller acknowledges no intermediate segment.
abbrev pub Skips : ℕ → Type 0
Skips mode = (mode ≡ 1) ⊎ (mode ≡ 3)

ack_rule :
    (size offset n mode : ℕ)
    → n ≡ min 243 (size - offset)
    → offset < size
    → (ack_expected size offset n mode ≡ false) ↔ (Skips mode × (offset + 243 < size))
unfolding ack_expected
ack_rule size offset n mode e h = (λ q. ground arith, λ q. ground arith)

-- For an image that ULONG arithmetic does not wrap on, a segment that it has and a buffer of at
-- least 249 bytes: a command is sent without waiting for an acknowledgement exactly if the download mode skips them
-- and the segment is not the image's last; a segment that is built is never empty or over 243 bytes.
pub build_segment_ack :
    (image : List ℕ) (index mode capacity : ℕ)
    → Fits image
    → index < tlv_segment_count (length image)
    → 249 ≤ capacity
    → (((build_tlv_segment_command image index mode capacity).1 ≡ false)
        ↔ (Skips mode × (index + 1 < tlv_segment_count (length image))))
      × (6 < length (build_tlv_segment_command image index mode capacity).0)
      × (length (build_tlv_segment_command image index mode capacity).0 ≤ 249)
build_segment_ack image index mode capacity fits i c =
    let (enough, inside) = segment_count_bounds image fits in
    let len = length-segment image index in
    let here = inside index i in
    let rule = ack_rule (length image) (243 * index) (length (segment image index)) mode len here in
    rw (build_segment image index mode capacity fits i c) (
      (
        λ q. let r = rule.0 q in (r.0, omega arith),
        λ q. rule.1 (q.0, omega (arith, inside (index + 1) q.1)),
      ),
      omega arith,
      omega arith,
    )
