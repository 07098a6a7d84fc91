-- ===== src/NvmName/Examples.antt =====
-- The names' theorems for one chip.
use virt_bth_usb.Common.{ℕ, ◌≡◌, arith, if◌then◌else◌, none, some, List}
use virt_bth_usb.NvmName.{has_board, build_nvm_file_name, build_alt_nvm_file_name}
use virt_bth_usb.NvmName.Fallback.{alt-build_nvm}

alt-build_nvm_example :
    (name : List ℕ) × (build_nvm_file_name 0x1200 0x21 0x1B2 32 ≡ some name)
    × (build_alt_nvm_file_name name 32
        ≡ (if has_board 0x1B2 then build_nvm_file_name 0x1200 0x21 0 32 else none))
alt-build_nvm_example = alt-build_nvm 0x1200 0x21 0x1B2 (omega arith) (omega arith)
