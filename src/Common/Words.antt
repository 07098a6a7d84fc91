-- ===== src/Common/Words.antt =====
-- C's unsigned arithmetic: `unsigned long` (ULONG) has 32 bits and `unsigned short` 16 on the
-- driver's target, so every increment and sum is reduced. Masks and shifts of whole bits are
-- written as `%`, `/` and `*`, and the `|` of disjoint bits as `+`.
use Prim.Native.Nat.{ℕ, ◌+◌, ◌-◌, ◌*◌, ◌/◌, ◌%◌, ◌^◌, ◌≤◌, ◌<◌}
use mathlib.Core.List.{List, [], ◌∷◌}
use native.Mathlib.Omega.{arith}
use virt_bth_usb.Common.Lists.{get_or, All}

abbrev pub add32 : ℕ → ℕ → ℕ
add32 a b = (a + b) % 2 ^ 32

abbrev pub sub32 : ℕ → ℕ → ℕ
sub32 a b = (a + 2 ^ 32 - b) % 2 ^ 32

abbrev pub inc32 : ℕ → ℕ
inc32 a = (a + 1) % 2 ^ 32

abbrev pub add16 : ℕ → ℕ → ℕ
add16 a b = (a + b) % 2 ^ 16

abbrev pub IsByte : ℕ → Type 0
IsByte b = b < 256

-- The byte at `i` of a buffer.
abbrev pub byte : List ℕ → ℕ → ℕ
byte p i = get_or p i 0

-- Little-endian fields at offset `i`.
abbrev pub le16 : List ℕ → ℕ → ℕ
le16 p i = byte p i + byte p (i + 1) * 256

abbrev pub le32 : List ℕ → ℕ → ℕ
le32 p i = byte p i + byte p (i + 1) * 256 + byte p (i + 2) * 65536 + byte p (i + 3) * 16777216

-- The two bytes of a 16-bit value, low byte first.
abbrev pub put16 : ℕ → List ℕ
put16 v = (v % 256) ∷ (v / 256 % 256) ∷ []

pub byte-lt : (p : List ℕ) (i : ℕ) → All IsByte p → byte p i < 256
byte-lt [] i h = omega arith
byte-lt (x ∷ p) Prim.Native.Nat.zero h = h.0
byte-lt (x ∷ p) (Prim.Native.Nat.suc i) h = byte-lt p i h.1
