-- ===== src/Edl/Version.antt =====
-- src/common/qca_tlv.c: what the twelve bytes of a version encode.
use virt_bth_usb.Common.{
  ℕ, false, subst, ◌+◌, ◌*◌, ◌/◌, ◌%◌, ◌^◌, ◌<◌, ◌≡◌, ◌≢◌, ◌↔◌, refl, sym, ap, ◌∙◌, arith, some,
  List, [], ◌∷◌, ◌++◌, length, All, IsByte, byte, byte-lt, le16, le32, put16, ◌==◌, ◌||◌,
}
use virt_bth_usb.Edl.{SocVersion, make_version}

-- The four bytes of a 32-bit number, low byte first.
abbrev pub bytes32 : ℕ → List ℕ
bytes32 n = n % 256 ∷ n / 256 % 256 ∷ n / 65536 % 256 ∷ n / 16777216 % 256 ∷ []

-- The version whose product, patch level, ROM field and SOC id stand in the bytes, in this order and
-- low byte first, the last two not zero. Its SOC version has the SOC id, cut to 16 bits, above the ROM
-- field, and its ROM version is made of two digits of the ROM field.
pub record Encodes (fields : List ℕ) (v : SocVersion) : Type 0 where
  pub bytes :
      fields
      ≡ bytes32 v.product_id
        ++ (put16 v.patch_version ++ (put16 v.rom_version_field ++ bytes32 v.soc_id))
  pub product : v.product_id < 2 ^ 32
  pub patch : v.patch_version < 2 ^ 16
  pub rom_field : v.rom_version_field < 2 ^ 16
  pub soc : v.soc_id < 2 ^ 32
  pub has_soc : v.soc_id ≢ 0
  pub has_rom : v.rom_version_field ≢ 0
  pub soc_version : v.soc_version ≡ v.soc_id % 65536 * 65536 + v.rom_version_field
  pub rom_version : v.rom_version ≡ v.rom_version_field / 256 % 16 * 16 + v.rom_version_field % 16

rom_bits :
    (soc rom : ℕ)
    → rom < 65536
    → (soc * 65536 % 2 ^ 32 + rom) / 256 % 16 * 16 + (soc * 65536 % 2 ^ 32 + rom) % 16
      ≡ rom / 256 % 16 * 16 + rom % 16
rom_bits soc rom h = omega arith

soc_bits : (soc : ℕ) → soc * 65536 % 2 ^ 32 ≡ soc % 65536 * 65536
soc_bits soc = omega arith

byte_of :
    (a b c d : ℕ)
    → a < 256
    → b < 256
    → c < 256
    → d < 256
    → let n = a + b * 256 + c * 65536 + d * 16777216 in
      (a ≡ n % 256) × (b ≡ n / 256 % 256) × (c ≡ n / 65536 % 256) × (d ≡ n / 16777216 % 256)
byte_of a b c d i j k l = omega arith

word_of :
    (a b : ℕ) → a < 256 → b < 256 → (a ≡ (a + b * 256) % 256) × (b ≡ (a + b * 256) / 256 % 256)
word_of a b i j = omega arith

same_word : (n : ℕ) → n < 2 ^ 16 → n % 256 + n / 256 % 256 * 256 ≡ n
same_word n h = omega arith

same_long :
    (n : ℕ)
    → n < 2 ^ 32
    → n % 256 + n / 256 % 256 * 256 + n / 65536 % 256 * 65536 + n / 16777216 % 256 * 16777216 ≡ n
same_long n h = omega arith

version_bytes :
    (fields : List ℕ)
    → All IsByte fields
    → length fields ≡ 12
    → fields
      ≡ bytes32 (le32 fields 0)
        ++ (put16 (le16 fields 4) ++ (put16 (le16 fields 6) ++ bytes32 (le32 fields 8)))
version_bytes (a ∷ b ∷ c ∷ d ∷ e ∷ f ∷ g ∷ h ∷ i ∷ j ∷ k ∷ l ∷ []) m n =
    let p = a ∷ b ∷ c ∷ d ∷ e ∷ f ∷ g ∷ h ∷ i ∷ j ∷ k ∷ l ∷ [] in
    let w = byte_of a b c d (byte-lt p 0 m) (byte-lt p 1 m) (byte-lt p 2 m) (byte-lt p 3 m) in
    let x = word_of e f (byte-lt p 4 m) (byte-lt p 5 m) in
    let y = word_of g h (byte-lt p 6 m) (byte-lt p 7 m) in
    let z = byte_of i j k l (byte-lt p 8 m) (byte-lt p 9 m) (byte-lt p 10 m) (byte-lt p 11 m) in cc
version_bytes _ m n = absurd (ground (arith, n))

make_version-Encodes :
    (fields : List ℕ) (v : SocVersion)
    → All IsByte fields
    → length fields ≡ 12
    → make_version fields ≡ some v
    → Encodes fields v
unfolding make_version
make_version-Encodes fields v b n e =
    let b0 = byte-lt fields 0 b in
    let b1 = byte-lt fields 1 b in
    let b2 = byte-lt fields 2 b in
    let b3 = byte-lt fields 3 b in
    let b4 = byte-lt fields 4 b in
    let b5 = byte-lt fields 5 b in
    let b6 = byte-lt fields 6 b in
    let b7 = byte-lt fields 7 b in
    let b8 = byte-lt fields 8 b in
    let b9 = byte-lt fields 9 b in
    let b10 = byte-lt fields 10 b in
    let b11 = byte-lt fields 11 b in
    let bits = rom_bits (le32 fields 8) (le16 fields 6) (omega arith) in
    let high = soc_bits (le32 fields 8) in
    let product : v.product_id ≡ le32 fields 0 = ground arith in
    let patch : v.patch_version ≡ le16 fields 4 = ground arith in
    let rom : v.rom_version_field ≡ le16 fields 6 = ground arith in
    let soc : v.soc_id ≡ le32 fields 8 = ground arith in
    record {
      bytes = rw (product, patch, rom, soc) (version_bytes fields b n);
      product = omega (arith, product);
      patch = omega (arith, patch);
      rom_field = omega (arith, rom);
      soc = omega (arith, soc);
      has_soc = ground arith;
      has_rom = ground arith;
      soc_version = ground (arith, high);
      rom_version = ground (arith, bits);
    }

Encodes-make_version :
    (fields : List ℕ) (v : SocVersion) → Encodes fields v → make_version fields ≡ some v
unfolding make_version
Encodes-make_version fields v c =
    let e : (i : ℕ)
        → byte fields i
          ≡ byte
              (bytes32 v.product_id
                ++ (put16 v.patch_version ++ (put16 v.rom_version_field ++ bytes32 v.soc_id)))
              i =
      λ i. ap (λ p. byte p i) c.bytes in
    let product : le32 fields 0 ≡ v.product_id =
      rw (e 0, e 1, e 2, e 3) (same_long v.product_id c.product) in
    let patch : le16 fields 4 ≡ v.patch_version =
      rw (e 4, e 5) (same_word v.patch_version c.patch) in
    let rom : le16 fields 6 ≡ v.rom_version_field =
      rw (e 6, e 7) (same_word v.rom_version_field c.rom_field) in
    let soc : le32 fields 8 ≡ v.soc_id = rw (e 8, e 9, e 10, e 11) (same_long v.soc_id c.soc) in
    let given : (v.soc_id == 0 || v.rom_version_field == 0) ≡ false =
      ground (arith, c.has_soc, c.has_rom) in
    let high : v.soc_id * 65536 % 2 ^ 32 + v.rom_version_field ≡ v.soc_version =
      omega (arith, soc_bits v.soc_id, c.soc_version) in
    let bits : v.soc_version / 256 % 16 * 16 + v.soc_version % 16 ≡ v.rom_version =
      subst (λ w. w / 256 % 16 * 16 + w % 16 ≡ v.rom_version) high
        (rom_bits v.soc_id v.rom_version_field c.rom_field ∙ sym c.rom_version) in
    rw (product, patch, rom, soc, given, high, bits) refl

-- Twelve bytes yield a version exactly if they encode it.
pub make_version-iff-Encodes :
    (fields : List ℕ) (v : SocVersion)
    → All IsByte fields
    → length fields ≡ 12
    → (make_version fields ≡ some v) ↔ Encodes fields v
make_version-iff-Encodes fields v b n =
    (make_version-Encodes fields v b n, Encodes-make_version fields v)
