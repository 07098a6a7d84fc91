-- ===== src/Fsm/Edges.antt =====
-- src/common/qca_init_fsm.c: the edges of the bring-up order, with the packets that drive the machine
-- along them.
use virt_bth_usb.Common.{ℕ, ◌+◌, ◌≤◌, ◌≡◌, ◌⊎◌, Bool, true, false, none, some}
use virt_bth_usb.Common.{List, ◌==◌, ◌&&◌, ◌||◌, inc32, length, byte}
use virt_bth_usb.Protocol.{qca_disable_logging, qca_disable_logging_sub_op}
use virt_bth_usb.Edl.{SocVersion, parse_version_event, parse_board_id_event}
use virt_bth_usb.Fsm.{
  start, version_request, set_baud_rate, patch_download, board_id_request, nvm_download,
  disable_logging, build_info, hci_reset, read_local_version, ready, failed, Fsm, Candidate,
  check_nvm,
}
use virt_bth_usb.Fsm.Select.{Picks, NoFile, own_name}
use virt_bth_usb.Fsm.Events.{is_tlv_acknowledgement, is_build_info_response, succeeded}

-- The answer to the command that turns logging off, without or with its sub-opcode.
abbrev pub logging_answer : List ℕ → Bool
logging_answer p =
    succeeded p qca_disable_logging
    && (length p == 7 || (length p == 8 && byte p 7 == qca_disable_logging_sub_op))

-- `Edge f p g`: packet `p` is the one awaited in the state of `f`, and `g` is in a state that follows
-- it, with what the packet says.
pub data Edge (f : Fsm) (p : List ℕ) (g : Fsm) : Type 0 where
  versioned :
      (v : SocVersion)
      → f.state ≡ version_request
      → parse_version_event p ≡ some v
      → g.state ≡ set_baud_rate
      → g.soc_version ≡ v
      → Edge f p g
  patch_goes_on :
      f.state ≡ patch_download
      → is_tlv_acknowledgement p ≡ true
      → inc32 f.patch_index + 1 ≤ f.patch_segments
      → g.state ≡ patch_download
      → g.patch_index ≡ inc32 f.patch_index
      → Edge f p g
  patch_done :
      f.state ≡ patch_download
      → is_tlv_acknowledgement p ≡ true
      → f.patch_segments ≤ inc32 f.patch_index
      → g.state ≡ board_id_request
      → Edge f p g
  selected :
      (id i offset : ℕ) (c : Candidate)
      → f.state ≡ board_id_request
      → parse_board_id_event p ≡ some id
      → Picks f.candidates (own_name f id) i c
      → check_nvm c.image ≡ some offset
      → g.state ≡ nvm_download
      → g.board_id ≡ id
      → g.nvm ≡ c.image
      → g.nvm_baud_offset ≡ offset
      → g.selected_nvm_index ≡ i
      → Edge f p g
  nvm_goes_on :
      f.state ≡ nvm_download
      → is_tlv_acknowledgement p ≡ true
      → inc32 f.nvm_index + 1 ≤ f.nvm_segments
      → g.state ≡ nvm_download
      → g.nvm_index ≡ inc32 f.nvm_index
      → Edge f p g
  nvm_done :
      f.state ≡ nvm_download
      → is_tlv_acknowledgement p ≡ true
      → f.nvm_segments ≤ inc32 f.nvm_index
      → g.state ≡ disable_logging
      → Edge f p g
  quiet : f.state ≡ disable_logging → logging_answer p ≡ true → g.state ≡ build_info → Edge f p g
  built : f.state ≡ build_info → is_build_info_response p ≡ true → g.state ≡ hci_reset → Edge f p g
  was_reset :
      f.state ≡ hci_reset
      → (succeeded p 0x0C03 && length p == 7) ≡ true
      → g.state ≡ read_local_version
      → Edge f p g
  brought_up :
      f.state ≡ read_local_version
      → (succeeded p 0x1001 && length p == 15) ≡ true
      → g.state ≡ ready
      → Edge f p g

-- The packet is not one that the machine awaits in its state.
pub data Unawaited (f : Fsm) (p : List ℕ) : Type 0 where
  awaits_none :
      (f.state ≡ start) ⊎ (f.state ≡ set_baud_rate) ⊎ (f.state ≡ ready) ⊎ (f.state ≡ failed)
      → Unawaited f p
  no_version : f.state ≡ version_request → parse_version_event p ≡ none → Unawaited f p
  no_acknowledgement :
      (f.state ≡ patch_download) ⊎ (f.state ≡ nvm_download)
      → is_tlv_acknowledgement p ≡ false
      → Unawaited f p
  no_board_id : f.state ≡ board_id_request → parse_board_id_event p ≡ none → Unawaited f p
  no_logging_answer : f.state ≡ disable_logging → logging_answer p ≡ false → Unawaited f p
  no_build_info : f.state ≡ build_info → is_build_info_response p ≡ false → Unawaited f p
  no_reset : f.state ≡ hci_reset → (succeeded p 0x0C03 && length p == 7) ≡ false → Unawaited f p
  no_local_version :
      f.state ≡ read_local_version → (succeeded p 0x1001 && length p == 15) ≡ false → Unawaited f p

-- What a packet may do to the machine: take it along an edge and be counted as handled; be none that
-- is awaited, change nothing and be counted as unexpected; or be a board ID without an NVM file.
pub data Moves (f : Fsm) (p : List ℕ) : Bool × Fsm → Type 0 where
  moves :
      (g : Fsm)
      → Edge f p g
      → g.events_handled ≡ inc32 f.events_handled
      → g.unexpected_events ≡ f.unexpected_events
      → Moves f p (true, g)
  refuses :
      Unawaited f p → Moves f p (false, record f { unexpected_events = inc32 f.unexpected_events })
  no_nvm :
      (id : ℕ) (g : Fsm)
      → f.state ≡ board_id_request
      → parse_board_id_event p ≡ some id
      → NoFile f.candidates (own_name f id)
      → g.state ≡ failed
      → g.last_failure_state ≡ 4
      → Moves f p (false, g)
