-- ===== src/ScoRoute.antt =====
-- src/common/sco_route.c: legacy synchronous-connection commands rewritten onto the HCI data path,
-- and the controller's answers given their legacy opcode back. A buffer with its length is a list of
-- bytes; a rewritten command is returned, `[]` where the function returns 0.
pub mod Enhanced
mod Examples
use virt_bth_usb.Common.{
  ℕ, zero, suc, ◌+◌, ◌-◌, ◌*◌, ◌/◌, ◌%◌, ◌^◌, Bool, true, false, not, Option, none, some,
}
use virt_bth_usb.Common.{
  List, [], ◌∷◌, ◌++◌, ◌==◌, ◌!=◌, ltb, leb, ◌&&◌, ◌||◌, if◌then◌else◌, inc32, byte, le16, put16,
  length, set,
}

-- SCO_ROUTE.
pub record ScoRoute : Type 0 where
  pub setup_pending : ℕ
  pub accept_pending : ℕ
  pub rewritten : ℕ
  pub restored : ℕ

abbrev pub route_reset : ScoRoute
route_reset = record { setup_pending = 0; accept_pending = 0; rewritten = 0; restored = 0 }

abbrev pub put32 : ℕ → List ℕ
put32 v = put16 (v % 65536) ++ put16 (v / 65536 % 65536)

abbrev pub put_coding : ℕ → List ℕ
put_coding id = id ∷ 0 ∷ 0 ∷ 0 ∷ 0 ∷ []

-- memcpy of `n` bytes from offset `i`.
abbrev pub copy_bytes : List ℕ → ℕ → ℕ → List ℕ
copy_bytes p i zero = []
copy_bytes p i (suc n) = byte p i ∷ copy_bytes p (i + 1) n

-- The two commands that are rewritten.
pub data Legacy : Type 0 where
  setup accept : Legacy

abbrev pub id_length : Legacy → ℕ
id_length setup = 2
id_length accept = 6

abbrev pub enh_params : Legacy → ℕ
enh_params setup = 59
enh_params accept = 63

abbrev pub op_legacy : Legacy → ℕ
op_legacy setup = 0x0428
op_legacy accept = 0x0429

abbrev pub op_enhanced : Legacy → ℕ
op_enhanced setup = 0x043D
op_enhanced accept = 0x043E

-- Which of the two a command is, by opcode, parameter length and length.
unfoldable pub legacy_of : List ℕ → Option Legacy
legacy_of command =
    if ltb (length command) 3
    then none
    else if le16 command 0 == 0x0428 && byte command 2 == 17 && length command == 20
    then some setup
    else if le16 command 0 == 0x0429 && byte command 2 == 21 && length command == 24
    then some accept
    else none

-- `some transparent` for an air coding with a mapping.
unfoldable pub transparent_of : ℕ → Option Bool
transparent_of voice =
    if voice % 4 == 3
    then some true
    else if voice % 4 == 0 && voice / 32 % 32 == 3
    then some false
    else none

-- Voice_Setting of a legacy command.
abbrev pub voice_setting : Legacy → List ℕ → ℕ
voice_setting kind command = le16 command (3 + id_length kind + 10)

-- The parameters up to the codec's data sizes.
abbrev pub put_codecs : Bool → List ℕ
put_codecs transparent =
    let air = if transparent then 3 else 2 in
    let host = if transparent then 3 else 4 in
    let bandwidth = if transparent then 8000 else 16000 in
    put_coding air
    ++ put_coding air
    ++ put16 60
    ++ put16 60
    ++ put32 bandwidth
    ++ put32 bandwidth
    ++ put_coding host
    ++ put_coding host
    ++ put16 16
    ++ put16 16

-- The PCM formats, the data paths and the transport units.
abbrev pub put_paths : Bool → List ℕ
put_paths transparent =
    let unit = if transparent then 1 else 16 in 2 ∷ 2 ∷ 0 ∷ 0 ∷ 0 ∷ 0 ∷ unit ∷ unit ∷ []

unfoldable pub enhanced_command : Legacy → Bool → List ℕ → List ℕ
enhanced_command kind transparent command =
    let prm = 3 + id_length kind in
    put16 (op_enhanced kind)
    ++ (enh_params kind ∷ [])
    ++ copy_bytes command 3 (id_length kind)
    ++ copy_bytes command prm 8
    ++ put_codecs transparent
    ++ put_paths transparent
    ++ copy_bytes command (prm + 8) 2
    ++ copy_bytes command (prm + 13) 2
    ++ copy_bytes command (prm + 12) 1

-- A pending count of one byte that stops at 0xFF.
abbrev pub one_more : ℕ → ℕ
one_more pending = if ltb pending 0xFF then pending + 1 else pending

unfoldable pub count_rewritten : Legacy → ScoRoute → ScoRoute
count_rewritten setup r = record r {
  setup_pending = one_more r.setup_pending;
  rewritten = inc32 r.rewritten;
}
count_rewritten accept r = record r {
  accept_pending = one_more r.accept_pending;
  rewritten = inc32 r.rewritten;
}

unfoldable pub rewrite_command : ScoRoute → List ℕ → ℕ → ScoRoute × List ℕ
rewrite_command r command capacity = elim (legacy_of command) [
  | none ↦ (r, [])
  | some kind ↦
      let mapped : ScoRoute × List ℕ = elim (transparent_of (voice_setting kind command)) [
        | none ↦ (r, [])
        | some transparent ↦ (count_rewritten kind r, enhanced_command kind transparent command)
      ] in
      if ltb capacity (3 + enh_params kind) then (r, []) else mapped
]

-- Where the opcode of a Command Status or a Command Complete stands.
unfoldable pub opcode_at : List ℕ → Option ℕ
opcode_at event =
    if leb 6 (length event) && byte event 0 == 0x0F
    then some 4
    else if leb 6 (length event) && byte event 0 == 0x0E
    then some 3
    else none

-- The opcode written back at `i`.
abbrev pub put_opcode : List ℕ → ℕ → ℕ → List ℕ
put_opcode event i op = set (set event i (op % 256)) (i + 1) (op / 256)

-- The route, the event and the verdict.
unfoldable pub restore_event : ScoRoute → List ℕ → ScoRoute × List ℕ × Bool
restore_event r event = elim (opcode_at event) [
  | none ↦ (r, event, false)
  | some i ↦
      if le16 event i == op_enhanced setup && r.setup_pending != 0
      then (
        record r { setup_pending = r.setup_pending - 1; restored = inc32 r.restored },
        put_opcode event i (op_legacy setup),
        true,
      )
      else if le16 event i == op_enhanced accept && r.accept_pending != 0
      then (
        record r { accept_pending = r.accept_pending - 1; restored = inc32 r.restored },
        put_opcode event i (op_legacy accept),
        true,
      )
      else (r, event, false)
]
