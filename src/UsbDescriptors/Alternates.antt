-- ===== src/UsbDescriptors/Alternates.antt =====
-- src/common/usb_descriptors.c: what the descriptors declare of themselves, and where the settings
-- of the voice interface stand.
use virt_bth_usb.Common.{
  ℕ, zero, suc, ◌-◌, ◌*◌, ◌%◌, ◌<◌, ◌≡◌, subst, ◌||◌, refl, arith, Option, some, none,
}
use virt_bth_usb.Common.{
  List, [], ◌∷◌, length, take, drop, get_or, byte, ◌==◌, ltb, if◌then◌else◌, either,
}
use mathlib.Core.Option
use virt_bth_usb.UsbDescriptors.{
  sco_alt_packet_sizes, config_descriptor, sco_alt, get_string_descriptor, sco_alt_offset,
  string_lang_ids, string_manufacturer, string_product, string_serial,
}

-- The descriptors of a table, each with its length in its first byte; none if one of them is empty
-- or runs past the end.
unfoldable pub split : ℕ → List ℕ → Option (List (List ℕ))
split zero bytes = none
split (suc fuel) [] = some []
split (suc fuel) (n ∷ bytes) =
    let rest = split fuel (drop (n - 1) bytes) in
    if ltb n 2 || ltb (length (n ∷ bytes)) n
    then none
    else Option.map (λ ds. take n (n ∷ bytes) ∷ ds) rest

AllBelow : ℕ → (ℕ → Type 0) → Type 0
AllBelow zero P = Unit
AllBelow (suc n) P = P zero × AllBelow n (λ k. P (suc k))

-- What holds of each of the first numbers holds of all of them.
below : (n k : ℕ) (P : ℕ → Type 0) → k < n → AllBelow n P → P k
unfolding AllBelow
below zero k P h a = absurd (omega arith)
below (suc n) zero P h a = a.0
below (suc n) (suc k) P h a = below n k (λ j. P (suc j)) (omega arith) a.1

-- For every alternate setting the offset is that of its interface in the configuration: the
-- interface with the setting's number and both endpoints with the packet size that the table
-- lists; and from there on the configuration is made of whole descriptors, three for each setting.
sco_alt_offset-sco_alt :
    (alt : ℕ)
    → alt < 7
    → (take 23 (drop (sco_alt_offset alt) config_descriptor)
        ≡ sco_alt alt (get_or sco_alt_packet_sizes alt 0))
      × (Option.map length (split 22 (drop (sco_alt_offset alt) config_descriptor))
          ≡ some (3 * (7 - alt)))
unfolding sco_alt_offset split AllBelow
sco_alt_offset-sco_alt alt h =
    let P : ℕ → Type 0 = λ a.
      (take 23 (drop (sco_alt_offset a) config_descriptor)
        ≡ sco_alt a (get_or sco_alt_packet_sizes a 0))
      × (Option.map length (split 22 (drop (sco_alt_offset a) config_descriptor))
          ≡ some (3 * (7 - a))) in
    below 7 alt P h (
      (refl, refl),
      (
        (refl, refl),
        ((refl, refl), ((refl, refl), ((refl, refl), ((refl, refl), ((refl, refl), tt))))),
      ),
    )

-- A string descriptor: as long as its first byte says, with two bytes for each character.
abbrev IsString : List ℕ → Type 0
IsString d = (byte d 0 ≡ length d) × (byte d 1 ≡ 0x03) × (length d % 2 ≡ 0)

answered : (x d : List ℕ) → IsString x → some x ≡ some d → IsString d
answered x d q e = let same : x ≡ d = cc in subst IsString same q

-- The strings that an index answers are string descriptors.
get_string_descriptor-IsString :
    (index : ℕ) (d : List ℕ) → get_string_descriptor index ≡ some d → IsString d
unfolding get_string_descriptor
get_string_descriptor-IsString index d =
    let P : Option (List ℕ) → Type 0 = λ o. o ≡ some d → IsString d in
    either P (index == 0) (answered string_lang_ids d (refl, refl, refl)) (
      either P (index == 1) (answered string_manufacturer d (refl, refl, refl)) (
        either P (index == 2) (answered string_product d (refl, refl, refl))
          (either P (index == 3) (answered string_serial d (refl, refl, refl)) (λ e. cc))))
