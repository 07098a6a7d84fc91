-- ===== src/Fsm/Order.antt =====
-- src/common/qca_init_fsm.c: every packet takes the machine along an edge of the bring-up order, is
-- refused, or fails it.
use virt_bth_usb.Common.{
  ℕ, ◌≡◌, refl, ◌∙◌, ap, arith, Bool, true, false, none, some, inl, inr, cases,
}
use virt_bth_usb.Common.{List, leb, ◌==◌, if◌then◌else◌, inc32, length, Bool-cases, Option-cases}
use virt_bth_usb.Edl.{parse_version_event, parse_board_id_event}
use virt_bth_usb.Fsm.{
  State, start, version_request, set_baud_rate, patch_download, board_id_request, nvm_download,
  disable_logging, build_info, hci_reset, read_local_version, ready, failed, Fsm, fail, state_index,
  arm_nvm, select_alt, select_nvm, find_candidate,
}
use virt_bth_usb.Fsm.Select.{takes, takes_none, select_nvm-Chooses}
use virt_bth_usb.NvmName.{build_nvm_file_name, build_alt_nvm_file_name}
use virt_bth_usb.Fsm.Events.{
  is_tlv_acknowledgement, unexpected, advance, on_version, on_patch_ack, on_board_id, on_nvm_ack,
  on_logging, on_hci, on_packet_in, on_packet,
}
use virt_bth_usb.Fsm.Edges.{
  Edge, versioned, patch_goes_on, patch_done, selected, nvm_goes_on, nvm_done, quiet, built,
  was_reset, brought_up, Unawaited, awaits_none, no_version, no_acknowledgement, no_board_id,
  no_logging_answer, no_build_info, no_reset, no_local_version, Moves, moves, refuses, no_nvm,
}

module _ (f : Fsm) where
  -- Selecting an NVM file leaves the state and the event counts alone.
  abbrev Selects : Bool × Fsm → Type 0
  Selects r =
      (r.1.state ≡ f.state)
      × (r.1.events_handled ≡ f.events_handled)
      × (r.1.unexpected_events ≡ f.unexpected_events)
      × (r.1.board_id ≡ f.board_id)

  arm_nvm-Selects : (i : ℕ) (name : List ℕ) → Selects (arm_nvm f i name)
  unfolding arm_nvm
  arm_nvm-Selects i name = ground arith

  stays : Selects (false, f)
  stays = (refl, refl, refl, refl)

  select_alt-Selects : (target : List ℕ) → Selects (select_alt f target)
  unfolding select_alt
  select_alt-Selects target = elim (Option-cases (build_alt_nvm_file_name target 32)) [
    | inl n ↦ rw (n, select_alt) stays
    | inr (alt, s) ↦ elim (Option-cases (find_candidate f.candidates alt 0)) [
      | inl n ↦ rw (s, select_alt, n) stays
      | inr (i, t) ↦ rw (s, select_alt, t) (arm_nvm-Selects i alt)
    ]
  ]

  named-Selects :
      (target : List ℕ)
      → Selects (elim (find_candidate f.candidates target 0) [
        | none ↦ select_alt f target
        | some i ↦ arm_nvm f i target
      ])
  named-Selects target = elim (Option-cases (find_candidate f.candidates target 0)) [
    | inl n ↦ rw n (select_alt-Selects target)
    | inr (i, t) ↦ rw t (arm_nvm-Selects i target)
  ]

  select_nvm-Selects : Selects (select_nvm f)
  unfolding select_nvm
  select_nvm-Selects =
      cases Selects (length f.candidates == 0) (λ _. stays)
        (λ _.
          elim (Option-cases
            (build_nvm_file_name f.soc_version.soc_id f.soc_version.rom_version f.board_id 32)) [
              | inl n ↦ rw n stays
              | inr (target, t) ↦ rw t (named-Selects target)
            ])

-- The machine with the board ID, before an NVM file is selected.
abbrev with_board : Fsm → ℕ → Fsm
with_board f id = record f {
  board_id = id;
  board_id_valid = true;
  events_handled = inc32 f.events_handled;
}

module _ (f : Fsm) (p : List ℕ) where
  refused : Unawaited f p → Moves f p (unexpected f)
  unfolding unexpected
  refused why = refuses why

  on_version-Moves : f.state ≡ version_request → Moves f p (on_version f p)
  unfolding on_version advance
  on_version-Moves e = elim (Option-cases (parse_version_event p)) [
    | inl n ↦ rw (n, on_version) (refused (no_version e n))
    | inr (v, s) ↦ rw (s, on_version) (moves _ (versioned v e s refl refl) refl refl)
  ]

  on_patch_ack-Moves : f.state ≡ patch_download → Moves f p (on_patch_ack f p)
  unfolding on_patch_ack advance
  on_patch_ack-Moves e = elim (Bool-cases (is_tlv_acknowledgement p)) [
    | inr n ↦ rw n (refused (no_acknowledgement (inl e) n))
    | inl y ↦ elim (Bool-cases (leb f.patch_segments (inc32 f.patch_index))) [
      | inl last ↦ rw (y, last) (moves _ (patch_done e y (ground arith) refl) refl refl)
      | inr more ↦ rw (y, more) (moves _ (patch_goes_on e y (ground arith) e refl) refl refl)
    ]
  ]

  on_nvm_ack-Moves : f.state ≡ nvm_download → Moves f p (on_nvm_ack f p)
  unfolding on_nvm_ack advance
  on_nvm_ack-Moves e = elim (Bool-cases (is_tlv_acknowledgement p)) [
    | inr n ↦ rw n (refused (no_acknowledgement (inr e) n))
    | inl y ↦ elim (Bool-cases (leb f.nvm_segments (inc32 f.nvm_index))) [
      | inl last ↦ rw (y, last) (moves _ (nvm_done e y (ground arith) refl) refl refl)
      | inr more ↦ rw (y, more) (moves _ (nvm_goes_on e y (ground arith) e refl) refl refl)
    ]
  ]

  -- An answer that is awaited or not, with one state to go to.
  advance-Moves :
      (s : State) (ok : Bool)
      → (ok ≡ true → Edge f p (record f { state = s; events_handled = inc32 f.events_handled }))
      → (ok ≡ false → Unawaited f p)
      → Moves f p (if ok then advance s f else unexpected f)
  unfolding advance
  advance-Moves s true y n = moves _ (y refl) refl refl
  advance-Moves s false y n = refused (n refl)

  on_board_id-Moves : f.state ≡ board_id_request → Moves f p (on_board_id f p)
  unfolding on_board_id fail state_index
  on_board_id-Moves e = elim (Option-cases (parse_board_id_event p)) [
    | inl n ↦ rw (n, on_board_id) (refused (no_board_id e n))
    | inr (id, s) ↦
        let k = select_nvm-Selects (with_board f id) in
        elim (select_nvm-Chooses (with_board f id) id refl) [
          | takes i offset c y picks good image at index ↦
              rw (s, on_board_id, y)
                (moves _ (selected id i offset c e s picks good refl k.3 image at index) k.1 k.2)
          | takes_none n why ↦
              rw (s, on_board_id, n) (no_nvm id _ e s why refl (ap state_index (k.0 ∙ e)))
        ]
  ]

on_packet_in-Moves :
    (s : State) (f : Fsm) (p : List ℕ) → f.state ≡ s → Moves f p (on_packet_in s f p)
unfolding on_packet_in on_logging on_hci
on_packet_in-Moves start f p e = refused f p (awaits_none (inl e))
on_packet_in-Moves version_request f p e = on_version-Moves f p e
on_packet_in-Moves set_baud_rate f p e = refused f p (awaits_none (inr (inl e)))
on_packet_in-Moves patch_download f p e = on_patch_ack-Moves f p e
on_packet_in-Moves board_id_request f p e = on_board_id-Moves f p e
on_packet_in-Moves nvm_download f p e = on_nvm_ack-Moves f p e
on_packet_in-Moves disable_logging f p e =
    advance-Moves f p build_info _ (λ y. quiet e y refl) (no_logging_answer e)
on_packet_in-Moves build_info f p e =
    advance-Moves f p hci_reset _ (λ y. built e y refl) (no_build_info e)
on_packet_in-Moves hci_reset f p e =
    advance-Moves f p read_local_version _ (λ y. was_reset e y refl) (no_reset e)
on_packet_in-Moves read_local_version f p e =
    advance-Moves f p ready _ (λ y. brought_up e y refl) (no_local_version e)
on_packet_in-Moves ready f p e = refused f p (awaits_none (inr (inr (inl e))))
on_packet_in-Moves failed f p e = refused f p (awaits_none (inr (inr (inr e))))

-- Whatever packet arrives in whatever state: if it is the answer awaited in that state, it takes the
-- machine along one edge of the bring-up order and is counted as handled; in the wait for the board
-- ID, the image taken is then that of the candidate that the board ID picks, which passes the check.
-- If it is a board ID for which there is no such image, it fails the machine, which records the
-- failing state. And if it is not awaited, it changes nothing and is counted as unexpected.
pub on_packet-Moves : (f : Fsm) (p : List ℕ) → Moves f p (on_packet f p)
unfolding on_packet
on_packet-Moves f p = on_packet_in-Moves f.state f p refl
