-- ===== src/ScoRoute/Enhanced.antt =====
-- src/common/sco_route.c: the rewritten commands and the restored answers.
use virt_bth_usb.Common.{
  ℕ, ◌+◌, ◌%◌, ◌/◌, ◌≤◌, ◌≡◌, ◌⊎◌, refl, arith, Bool, true, false, some, inl, inr,
}
use virt_bth_usb.Common.{List, [], ◌∷◌, length, ltb, ◌!=◌, byte, le16, Bool-cases, Option-cases}
use virt_bth_usb.ScoRoute.{
  ScoRoute, Legacy, id_length, enh_params, op_legacy, op_enhanced, legacy_of, transparent_of,
  voice_setting, copy_bytes, enhanced_command, one_more, count_rewritten, rewrite_command,
  opcode_at, restore_event,
}

-- `out` is the enhanced form of `command`: whole, with the HCI data path, and with the link, the
-- bandwidths, the latency, the packet types and the retransmission effort of `command`.
pub record IsEnhanced (kind : Legacy) (command out : List ℕ) : Type 0 where
  pub whole : length out ≡ 3 + byte out 2
  pub opcode : le16 out 0 ≡ op_enhanced kind
  pub link : copy_bytes out 3 (id_length kind + 8) ≡ copy_bytes command 3 (id_length kind + 8)
  pub latency : copy_bytes out (id_length kind + 55) 2 ≡ copy_bytes command (id_length kind + 11) 2
  pub packet_type :
      copy_bytes out (id_length kind + 57) 2 ≡ copy_bytes command (id_length kind + 16) 2
  pub effort : byte out (id_length kind + 59) ≡ byte command (id_length kind + 15)
  pub input_path : byte out (id_length kind + 51) ≡ 0
  pub output_path : byte out (id_length kind + 52) ≡ 0

enhanced_command-IsEnhanced :
    (kind : Legacy) (transparent : Bool) (command : List ℕ)
    → IsEnhanced kind command (enhanced_command kind transparent command)
unfolding enhanced_command
enhanced_command-IsEnhanced Legacy.setup true command = record {
  whole = refl;
  opcode = refl;
  link = refl;
  latency = refl;
  packet_type = refl;
  effort = refl;
  input_path = refl;
  output_path = refl;
}
enhanced_command-IsEnhanced Legacy.setup false command = record {
  whole = refl;
  opcode = refl;
  link = refl;
  latency = refl;
  packet_type = refl;
  effort = refl;
  input_path = refl;
  output_path = refl;
}
enhanced_command-IsEnhanced Legacy.accept true command = record {
  whole = refl;
  opcode = refl;
  link = refl;
  latency = refl;
  packet_type = refl;
  effort = refl;
  input_path = refl;
  output_path = refl;
}
enhanced_command-IsEnhanced Legacy.accept false command = record {
  whole = refl;
  opcode = refl;
  link = refl;
  latency = refl;
  packet_type = refl;
  effort = refl;
  input_path = refl;
  output_path = refl;
}

length-enhanced :
    (kind : Legacy) (transparent : Bool) (command : List ℕ)
    → length (enhanced_command kind transparent command) ≡ 3 + enh_params kind
unfolding enhanced_command
length-enhanced Legacy.setup true command = refl
length-enhanced Legacy.setup false command = refl
length-enhanced Legacy.accept true command = refl
length-enhanced Legacy.accept false command = refl

-- A rewritten command, counted.
pub record IsRewritten (r : ScoRoute) (command : List ℕ) (capacity : ℕ) (result : ScoRoute × List ℕ)
    : Type 0 where
  pub kind : Legacy
  pub legacy : legacy_of command ≡ some kind
  pub fits : length result.1 ≤ capacity
  pub enhanced : IsEnhanced kind command result.1
  pub counted : result.0 ≡ count_rewritten kind r

-- Rewriting either leaves the command and the counts alone or writes, within the buffer, the
-- enhanced form of a legacy command: a whole packet that asks for the HCI data path both ways and
-- keeps the link, the bandwidths, the latency, the packet types and the retransmission effort.
pub rewrite_command-IsRewritten :
    (r : ScoRoute) (command : List ℕ) (capacity : ℕ)
    → (rewrite_command r command capacity ≡ (r, []))
      ⊎ IsRewritten r command capacity (rewrite_command r command capacity)
unfolding rewrite_command
rewrite_command-IsRewritten r command capacity = elim (Option-cases (legacy_of command)) [
  | inl n ↦ inl (rw (n, rewrite_command) refl)
  | inr (kind, k) ↦ elim (Bool-cases (ltb capacity (3 + enh_params kind))) [
    | inl small ↦ inl (rw (k, rewrite_command, small) refl)
    | inr room ↦ elim (Option-cases (transparent_of (voice_setting kind command))) [
      | inl n ↦ inl (rw (k, rewrite_command, room, n) refl)
      | inr (transparent, t) ↦ inr (
          rw (k, rewrite_command, room, t)
            (record {
              kind = kind;
              legacy = k;
              fits = ground (arith, length-enhanced kind transparent command);
              enhanced = enhanced_command-IsEnhanced kind transparent command;
              counted = refl;
            }))
    ]
  ]
]

-- The Command Status that answers a command.
abbrev pub status_for : ℕ → ℕ → List ℕ → List ℕ
status_for status slots command = 0x0F ∷ 4 ∷ status ∷ slots ∷ byte command 0 ∷ byte command 1 ∷ []

abbrev pub legacy_status : Legacy → ℕ → ℕ → List ℕ × Bool
legacy_status kind status slots =
    (0x0F ∷ 4 ∷ status ∷ slots ∷ op_legacy kind % 256 ∷ op_legacy kind / 256 ∷ [], true)

-- The event and the verdict.
abbrev pub verdict : ScoRoute × List ℕ × Bool → List ℕ × Bool
verdict (r, event, ok) = (event, ok)

pending : (n : ℕ) → (one_more n != 0) ≡ true
pending n = ground arith

restore-counted :
    (kind : Legacy) (transparent : Bool) (r : ScoRoute) (command : List ℕ) (status slots : ℕ)
    → verdict (
        restore_event
          (count_rewritten kind r)
          (status_for status slots (enhanced_command kind transparent command)))
      ≡ legacy_status kind status slots
unfolding restore_event count_rewritten enhanced_command opcode_at
restore-counted Legacy.setup true r command status slots = rw (pending r.setup_pending) refl
restore-counted Legacy.setup false r command status slots = rw (pending r.setup_pending) refl
restore-counted Legacy.accept true r command status slots = rw (pending r.accept_pending) refl
restore-counted Legacy.accept false r command status slots = rw (pending r.accept_pending) refl

-- Every legacy command whose air coding has a mapping is rewritten if the buffer has room for it,
-- and when the controller answers the rewritten command by a Command Status, the host gets that
-- answer for the opcode it sent.
pub restore-rewrite :
    (r : ScoRoute) (command : List ℕ) (capacity : ℕ) (kind : Legacy) (transparent : Bool)
    (status slots : ℕ)
    → legacy_of command ≡ some kind
    → transparent_of (voice_setting kind command) ≡ some transparent
    → 3 + enh_params kind ≤ capacity
    → verdict (
        restore_event
          (rewrite_command r command capacity).0
          (status_for status slots (rewrite_command r command capacity).1))
      ≡ legacy_status kind status slots
unfolding rewrite_command
restore-rewrite r command capacity kind transparent status slots k t fits =
    let room : ltb capacity (3 + enh_params kind) ≡ false = ground arith in
    rw (k, rewrite_command, room, t) (restore-counted kind transparent r command status slots)
