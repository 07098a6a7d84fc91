-- ===== src/NvmName/Fallback.antt =====
-- src/common/qca_tlv.c: the names that bring-up asks for, and their fallbacks.
use virt_bth_usb.Common.{
  ℕ, ◌+◌, ◌-◌, ◌/◌, ◌%◌, ◌*◌, ◌^◌, ◌≡◌, ◌≢◌, ◌≤◌, ◌<◌, refl, ◌∙◌, arith, Bool, true, false, none,
  some, inl, inr, Bool-cases,
}
use virt_bth_usb.Common.{List, [], ◌∷◌, leb, if◌then◌else◌, length}
use virt_bth_usb.NvmName.{
  hex_digit, format_hex_min2, is_gf, has_board, nvm_name, build_nvm_file_name, last_dot,
  is_bin_extension, build_alt_nvm_file_name,
}

-- What a lowercase hex digit stands for.
pub digit_value : ℕ → ℕ
digit_value c = if leb b'a' c then c - b'a' + 10 else c - b'0'

-- The number that a string of hex digits stands for.
pub hex_value : ℕ → List ℕ → ℕ
hex_value acc [] = acc
hex_value acc (c ∷ cs) = hex_value (acc * 16 + digit_value c) cs

digit_value-hex_digit : (n : ℕ) → n < 16 → digit_value (hex_digit n) ≡ n
unfolding hex_digit digit_value
digit_value-hex_digit n h = ground arith

-- The digits of a 16-bit value, two to four of them, read back as the value.
hex_value-format :
    (v : ℕ)
    → v < 2 ^ 16
    → (hex_value 0 (format_hex_min2 v 4) ≡ v)
      × (2 ≤ length (format_hex_min2 v 4))
      × (length (format_hex_min2 v 4) ≤ 4)
unfolding format_hex_min2 hex_value
hex_value-format v h = ground (
  arith,
  digit_value-hex_digit (v / 4096 % 16),
  digit_value-hex_digit (v / 256 % 16),
  digit_value-hex_digit (v / 16 % 16),
  digit_value-hex_digit (v % 16),
)

format_byte :
    (v : ℕ) → v < 256 → format_hex_min2 v 2 ≡ hex_digit (v / 16 % 16) ∷ hex_digit (v % 16) ∷ []
unfolding format_hex_min2
format_byte v h = ground arith

-- Names of chips with a ROM version of one byte are always built in a buffer of 32 bytes.
pub build_nvm-some :
    (soc rom board : ℕ)
    → rom < 256
    → board < 2 ^ 16
    → build_nvm_file_name soc rom board 32
      ≡ some (
          nvm_name
            (format_hex_min2 rom 2)
            (is_gf soc)
            (if has_board board then some (format_hex_min2 board 4) else none))
unfolding build_nvm_file_name
build_nvm-some soc rom board h b = ground (arith, format_byte rom h, hex_value-format board b)

-- No hex digit is a dot or one of the letters of ".bin" behind the "b".
abbrev IsHexDigit : ℕ → Type 0
IsHexDigit c = (c < b'g') × (b'.' < c) × (c ≢ b'I')

hex_digit-IsHexDigit : (n : ℕ) → n < 16 → IsHexDigit (hex_digit n)
unfolding hex_digit
hex_digit-IsHexDigit n h = ground arith

alt_two :
    (a b c d : ℕ) (gf : Bool)
    → IsHexDigit c
    → IsHexDigit d
    → build_alt_nvm_file_name (nvm_name (a ∷ b ∷ []) gf (some (c ∷ d ∷ []))) 32
      ≡ some (nvm_name (a ∷ b ∷ []) gf none)
unfolding build_alt_nvm_file_name nvm_name last_dot is_bin_extension
alt_two a b c d true hc hd = ground arith
alt_two a b c d false hc hd = ground arith

alt_three :
    (a b c d e : ℕ) (gf : Bool)
    → IsHexDigit c
    → IsHexDigit d
    → IsHexDigit e
    → build_alt_nvm_file_name (nvm_name (a ∷ b ∷ []) gf (some (c ∷ d ∷ e ∷ []))) 32
      ≡ some (nvm_name (a ∷ b ∷ []) gf none)
unfolding build_alt_nvm_file_name nvm_name last_dot is_bin_extension
alt_three a b c d e true hc hd he = ground arith
alt_three a b c d e false hc hd he = ground arith

alt_four :
    (a b c d e f : ℕ) (gf : Bool)
    → IsHexDigit c
    → IsHexDigit d
    → IsHexDigit e
    → IsHexDigit f
    → build_alt_nvm_file_name (nvm_name (a ∷ b ∷ []) gf (some (c ∷ d ∷ e ∷ f ∷ []))) 32
      ≡ some (nvm_name (a ∷ b ∷ []) gf none)
unfolding build_alt_nvm_file_name nvm_name last_dot is_bin_extension
alt_four a b c d e f true hc hd he hf = ground arith
alt_four a b c d e f false hc hd he hf = ground arith

alt_none : (a b : ℕ) (gf : Bool) → build_alt_nvm_file_name (nvm_name (a ∷ b ∷ []) gf none) 32 ≡ none
unfolding build_alt_nvm_file_name nvm_name last_dot is_bin_extension
alt_none a b true = refl
alt_none a b false = refl

alt_board :
    (a b board : ℕ) (gf : Bool)
    → build_alt_nvm_file_name (nvm_name (a ∷ b ∷ []) gf (some (format_hex_min2 board 4))) 32
      ≡ some (nvm_name (a ∷ b ∷ []) gf none)
unfolding format_hex_min2
alt_board a b board gf =
    let h3 = hex_digit-IsHexDigit (board / 4096 % 16) (omega arith) in
    let h2 = hex_digit-IsHexDigit (board / 256 % 16) (omega arith) in
    let h1 = hex_digit-IsHexDigit (board / 16 % 16) (omega arith) in
    let h0 = hex_digit-IsHexDigit (board % 16) (omega arith) in
    elim (Bool-cases (leb 0x1000 board)) [
      | inl four ↦ rw four (alt_four a b _ _ _ _ gf h3 h2 h1 h0)
      | inr small ↦ elim (Bool-cases (leb 0x100 board)) [
        | inl three ↦ rw (small, three) (alt_three a b _ _ _ gf h2 h1 h0)
        | inr two ↦ rw (small, two) (alt_two a b _ _ gf h1 h0)
      ]
    ]

-- For a one-byte ROM version and a 16-bit board ID, the name of the NVM file fits 32 bytes, and so
-- does its fallback: for a board-specific file that is the generic file (board ID 0) of the same
-- SOC and ROM version, and a generic file has none.
pub alt-build_nvm :
    (soc rom board : ℕ)
    → rom < 256
    → board < 2 ^ 16
    → (name : List ℕ) × (build_nvm_file_name soc rom board 32 ≡ some name)
      × (build_alt_nvm_file_name name 32
          ≡ (if has_board board then build_nvm_file_name soc rom 0 32 else none))
alt-build_nvm soc rom board h b =
    let rom_digits = format_byte rom h in
    let generic = build_nvm-some soc rom 0 h (omega arith) in
    let named = build_nvm-some soc rom board h b in
    elim (Bool-cases (has_board board)) [
      | inl y ↦ (
        nvm_name (format_hex_min2 rom 2) (is_gf soc) (some (format_hex_min2 board 4)),
        named ∙ rw y,
        rw (y, generic, rom_digits) (unfold has_board in alt_board _ _ board (is_gf soc)),
      )
      | inr n ↦ (
        nvm_name (format_hex_min2 rom 2) (is_gf soc) none,
        named ∙ rw n,
        rw (n, rom_digits) (alt_none _ _ (is_gf soc)),
      )
    ]
