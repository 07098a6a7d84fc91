-- ===== src/Control/Outcome.antt =====
-- src/driver/endpoints.c, DeckBtEvtControlUrb: what may become of a control transfer.
use virt_bth_usb.Common.{ℕ, ◌/◌, ◌%◌, ◌≡◌, ◌⊎◌, false, ◌&&◌, ◌||◌, Option, none, some}
use virt_bth_usb.Common.{List, length, set, ◌==◌, inc32}
use virt_bth_usb.Control.{
  Setup, Reply, Control, CommandTransport, log_slots, log_entry, ctl_ok_hci, has_succeeded,
}
use virt_bth_usb.Common.{◌<◌, ◌≤◌, true}

-- One entry is written to the trace, for `setup` and with outcome 1 exactly on success.
pub record Traced {T : Type 0} (c : Control T) (setup : List ℕ) (r : Control T × Reply)
    : Type 0 where
  pub outcome : ℕ
  pub opcode : ℕ
  pub event_length : ℕ
  pub log :
      r.0.ctl_log
      ≡ set c.ctl_log (c.ctl_count % log_slots) (log_entry setup outcome opcode event_length)
  pub count : r.0.ctl_count ≡ inc32 c.ctl_count
  pub success : has_succeeded r.1 ≡ (outcome == ctl_ok_hci)

-- A standard request that the front end answers itself: the status is read into two bytes, or a
-- feature other than remote wake-up is changed.
pub data IsServed (s : Setup) (buffer : Option (List ℕ)) : Type 0 where
  status_read :
      (bytes : List ℕ) → s.request ≡ 0 → buffer ≡ some bytes → 2 ≤ length bytes → IsServed s buffer
  feature_changed :
      (s.request ≡ 1) ⊎ (s.request ≡ 3)
      → (s.request_type % 32 == 0 && s.value == 1) ≡ false
      → IsServed s buffer

-- Why a request is refused before the transport sees it: no request of these kinds, no buffer to take
-- a command from or to put the status in, or the remote wake-up feature.
pub data Refusal (s : Setup) (buffer : Option (List ℕ)) : Type 0 where
  unknown :
      (s.request_type == 0x20 && s.request == 0) ≡ false
      → (s.request_type / 32 % 4 == 0 && (s.request == 0 || (s.request == 1 || s.request == 3)))
        ≡ false
      → Refusal s buffer
  no_command : s.request_type ≡ 0x20 → s.request ≡ 0 → buffer ≡ none → Refusal s buffer
  no_status_buffer : s.request_type / 32 % 4 ≡ 0 → s.request ≡ 0 → buffer ≡ none → Refusal s buffer
  short_status_buffer :
      (bytes : List ℕ)
      → s.request_type / 32 % 4 ≡ 0
      → s.request ≡ 0
      → buffer ≡ some bytes
      → length bytes < 2
      → Refusal s buffer
  remote_wakeup :
      s.request_type / 32 % 4 ≡ 0
      → (s.request ≡ 1) ⊎ (s.request ≡ 3)
      → s.request_type % 32 ≡ 0
      → s.value ≡ 1
      → Refusal s buffer

-- The transport is untouched, and the request is refused for one of these reasons or is a standard one
-- that is served; or the request is an HCI command, the transport is given its bytes once, and success
-- is its acceptance.
pub data Seen {T : Type 0} (ops : CommandTransport T) (c : Control T) (s : Setup)
    (buffer : Option (List ℕ)) (r : Control T × Reply) : Type 0 where
  kept :
      r.0.transport ≡ c.transport
      → has_succeeded r.1 ≡ false
      → Refusal s buffer
      → Seen ops c s buffer r
  served :
      r.0.transport ≡ c.transport
      → has_succeeded r.1 ≡ true
      → s.request_type / 32 % 4 ≡ 0
      → IsServed s buffer
      → Seen ops c s buffer r
  forwarded :
      (bytes : List ℕ)
      → buffer ≡ some bytes
      → s.request_type ≡ 0x20
      → s.request ≡ 0
      → r.0.transport ≡ (ops.submit_command c.transport bytes).0
      → has_succeeded r.1 ≡ (ops.submit_command c.transport bytes).1
      → Seen ops c s buffer r
