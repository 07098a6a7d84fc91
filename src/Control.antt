-- ===== src/Control.antt =====
-- src/driver/endpoints.c, DeckBtEvtControlUrb, with DeckBtLogControl of src/driver/driver.c: requests on
-- the default pipe. What the framework finds in a request is a parameter, as is the transport.
pub mod Outcome
pub mod Handled
pub mod Delivered
mod Examples
use virt_bth_usb.Common.{
  ℕ, ◌+◌, ◌-◌, ◌*◌, ◌/◌, ◌%◌, Bool, true, false, not, ◌&&◌, ◌||◌, Option, none, some, min,
}
use virt_bth_usb.Common.{
  List, [], ◌∷◌, ◌++◌, length, get_or, set, take, replicate, byte, le16, put16, ltb, ◌==◌, ◌!=◌,
  if◌then◌else◌, inc32,
}
use virt_bth_usb.Bridge.Inbound.{Stream}
use virt_bth_usb.Endpoints.{Polled, Completion, drain}

-- DECKBT_CTL_LOG_SLOTS, DECKBT_SCO_CMD_TRACE_BYTES.
abbrev pub log_slots : ℕ
log_slots = 128

abbrev pub trace_bytes : ℕ
trace_bytes = 64

-- The outcome codes of the trace.
abbrev pub ctl_ok_hci : ℕ
ctl_ok_hci = 1

abbrev pub ctl_stalled : ℕ
ctl_stalled = 2

abbrev pub ctl_bad_buffer : ℕ
ctl_bad_buffer = 3

abbrev pub ctl_not_control : ℕ
ctl_not_control = 4

-- DECKBT_BMREQUEST_HCI_COMMAND.
abbrev pub hci_command_type : ℕ
hci_command_type = 0x20

-- WDF_USB_CONTROL_SETUP_PACKET, in its eight bytes.
pub record Setup : Type 0 where
  pub request_type : ℕ
  pub request : ℕ
  pub value : ℕ
  pub index : ℕ
  pub size : ℕ

abbrev pub setup_bytes : Setup → List ℕ
setup_bytes s = s.request_type ∷ s.request ∷ put16 s.value ++ (put16 s.index ++ put16 s.size)

-- A request: whether it submits a URB, the setup packet and the buffer, if they can be retrieved.
pub record ControlRequest : Type 0 where
  pub is_submit_urb : Bool
  pub setup : Option Setup
  pub buffer : Option (List ℕ)

-- A control transfer with its setup packet.
abbrev pub control_transfer : Setup → Option (List ℕ) → ControlRequest
control_transfer s buffer = record { is_submit_urb = true; setup = some s; buffer = buffer }

-- How a request is completed: refused with an NT status before or after it is taken for a URB,
-- stalled, or with success, the bytes completed and, on GET_STATUS, the bytes written.
pub data Reply : Type 0 where
  invalid_device_request nt_error stalled : Reply
  succeeded : ℕ → List ℕ → Reply

-- The fields of DECKBT_CONTROLLER for control requests.
pub record Control (T : Type 0) : Type 0 where
  pub transport : T
  pub ctl_log : List (List ℕ)
  pub ctl_count : ℕ
  pub sco_cmd_trace : List ℕ
  pub setup_commands : ℕ

abbrev pub log_entry : List ℕ → ℕ → ℕ → ℕ → List ℕ
log_entry setup outcome opcode event_length = setup ++ outcome ∷ event_length ∷ put16 opcode

-- DeckBtLogControl, but for the registry.
unfoldable pub log_control : {T : Type 0} → Control T → List ℕ → ℕ → ℕ → ℕ → Control T
log_control c setup outcome opcode event_length = record c {
  ctl_log = set c.ctl_log (c.ctl_count % log_slots) (log_entry setup outcome opcode event_length);
  ctl_count = inc32 c.ctl_count;
}

-- HciTransportSubmitCommand and HciTransportLastEventLength.
pub record CommandTransport (T : Type 0) : Type 0 where
  pub submit_command : T → List ℕ → T × Bool
  pub last_event_length : T → ℕ

-- A standard request, and the recipient of any.
unfoldable pub is_standard : Setup → Bool
is_standard s = s.request_type / 32 % 4 == 0

unfoldable pub is_remote_wakeup : Setup → Bool
is_remote_wakeup s = s.request_type % 32 == 0 && s.value == 1

unfoldable pub is_hci_command : Setup → Bool
is_hci_command s = s.request_type == hci_command_type && s.request == 0

-- The commands that set up a synchronous link.
unfoldable pub is_sync_opcode : ℕ → Bool
is_sync_opcode opcode =
    opcode == 0x0428 || opcode == 0x0429 || opcode == 0x043D || opcode == 0x043E || opcode == 0x0C26

unfoldable pub opcode_of : List ℕ → ℕ
opcode_of bytes = if ltb (length bytes) 2 then 0 else le16 bytes 0

unfoldable pub keep_sync : {T : Type 0} → List ℕ → Control T → Control T
keep_sync bytes c =
    let kept = take trace_bytes bytes in
    if is_sync_opcode (opcode_of bytes)
    then record c {
      sco_cmd_trace = kept ++ replicate (trace_bytes - length kept) 0;
      setup_commands = inc32 c.setup_commands;
    }
    else c

module _ {T : Type 0} where
  -- GET_STATUS.
  unfoldable pub get_status : Control T → Setup → Option (List ℕ) → Control T × Reply
  get_status c s none = (log_control c (setup_bytes s) ctl_bad_buffer 0 0, nt_error)
  get_status c s (some bytes) =
      if ltb (length bytes) 2
      then (log_control c (setup_bytes s) ctl_bad_buffer 0 0, nt_error)
      else (log_control c (setup_bytes s) ctl_ok_hci 0 2, succeeded 2 (0 ∷ 0 ∷ []))

  unfoldable pub stall : Control T → Setup → Control T × Reply
  stall c s = (log_control c (setup_bytes s) ctl_stalled 0 0, stalled)

  -- CLEAR_FEATURE and SET_FEATURE.
  unfoldable pub change_feature : Control T → Setup → Control T × Reply
  change_feature c s =
      if is_remote_wakeup s
      then stall c s
      else (log_control c (setup_bytes s) ctl_ok_hci 0 0, succeeded 0 [])

module _ {T : Type 0} (ops : CommandTransport T) where
  -- An HCI command.
  unfoldable pub hci_command : Control T → Setup → Option (List ℕ) → Control T × Reply
  hci_command c s none = (log_control c (setup_bytes s) ctl_bad_buffer 0 0, nt_error)
  hci_command c s (some bytes) =
      let (t, accepted) = ops.submit_command c.transport bytes in
      let submitted = keep_sync bytes (record c { transport = t }) in
      let event_length = min (ops.last_event_length t) 255 in
      let opcode = opcode_of bytes in
      if accepted
      then (
        log_control submitted (setup_bytes s) ctl_ok_hci opcode event_length,
        succeeded (length bytes) [],
      )
      else (log_control submitted (setup_bytes s) ctl_stalled opcode 0, stalled)

  -- What is not handled as a standard request.
  unfoldable pub handle_rest : Control T → Setup → Option (List ℕ) → Control T × Reply
  handle_rest c s buffer = if is_hci_command s then hci_command c s buffer else stall c s

  unfoldable pub handle_setup : Control T → Setup → Option (List ℕ) → Control T × Reply
  handle_setup c s buffer =
      if is_standard s && s.request == 0
      then get_status c s buffer
      else if is_standard s && (s.request == 1 || s.request == 3)
      then change_feature c s
      else handle_rest c s buffer

  unfoldable pub handle_control : Control T → Option Setup → Option (List ℕ) → Control T × Reply
  handle_control c none buffer = (log_control c (replicate 8 0) ctl_not_control 0 0, nt_error)
  handle_control c (some s) buffer = handle_setup c s buffer

  -- The request up to its completion.
  unfoldable pub answer_control : Control T → ControlRequest → Control T × Reply
  answer_control c r =
      if r.is_submit_urb then handle_control c r.setup r.buffer else (c, invalid_device_request)

abbrev pub is_command : Option Setup → Bool
is_command none = false
is_command (some s) = is_hci_command s

abbrev pub has_succeeded : Reply → Bool
has_succeeded (succeeded n bytes) = true
has_succeeded invalid_device_request = false
has_succeeded nt_error = false
has_succeeded stalled = false

-- DeckBtEvtControlUrb: after an accepted command the events are drained into the readers posted for
-- them. The state, the reply, the readers left and the completions.
unfoldable pub control_urb :
    {T : Type 0}
    → CommandTransport T
    → Polled T Stream.event
    → Control T
    → List (Option ℕ)
    → ControlRequest
    → Control T × Reply × List (Option ℕ) × List Completion
control_urb ops events c readers r =
    let (c', reply) = answer_control ops c r in
    let (t, left, done) = drain events c'.transport readers in
    if r.is_submit_urb && is_command r.setup && has_succeeded reply
    then (record c' { transport = t }, reply, left, done)
    else (c', reply, readers, [])
