-- ===== src/Arming.antt =====
-- src/include/arming.h: the gate that keeps the driver from bringing up a second radio unasked.
use virt_bth_usb.Common.{ℕ, ◌≡◌, ◌↔◌, arith, Bool, true, false, not, if◌then◌else◌, ◌!=◌}

-- DECKBT_REG_DWORD.
abbrev reg_dword : ℕ
reg_dword = 4

unfoldable gate_armed : Bool → ℕ → ℕ → ℕ → Bool
gate_armed read_succeeded type size value =
    if not read_succeeded
    then false
    else if type != reg_dword
    then false
    else if size != 4
    then false
    else if value != 1
    then false
    else true

-- Armed exactly by a value that was read, has the type and the size of a REG_DWORD and is 1.
gate_armed_iff :
    (read_succeeded : Bool) (type size value : ℕ)
    → (gate_armed read_succeeded type size value ≡ true)
      ↔ ((read_succeeded ≡ true) × (type ≡ reg_dword) × (size ≡ 4) × (value ≡ 1))
unfolding gate_armed
gate_armed_iff true type size value = ground arith
gate_armed_iff false type size value = ground arith
