-- ===== src/Stub.antt =====
-- src/driver/hci_stub.c: the synthetic HCI controller. Its event queue is a ring of 32 slots.
mod Tables
pub mod Transport
pub mod Replies
pub mod Queueing
mod Examples
use virt_bth_usb.Common.{ℕ, ◌+◌, ◌/◌, ◌%◌, Bool, true, false, ◌||◌, Option, none, some}
use virt_bth_usb.Common.{List, [], ◌∷◌, length, byte, le16, ◌==◌, ltb, leb, if◌then◌else◌, inc32}
use virt_bth_usb.Fifo.{Fifo, empty_fifo, front, drop_front, append_back}
use virt_bth_usb.Stub.Tables.{
  local_version, supported_commands, local_features, buffer_size, le_buffer_size, le_features,
  le_states, local_name, class_of_device, voice_setting, page_timeout, scan_enable, local_codecs,
  le_adv_tx_power, le_list_size, le_suggested_data_length, inq_rsp_tx_power, stored_link_keys,
  link_keys_written, link_keys_deleted, le_max_data_length, ext_features,
}

-- HCI_EVENT_FIFO_DEPTH and HCI_MAX_EVENT_SIZE.
abbrev pub event_depth : ℕ
event_depth = 32

abbrev pub max_event_size : ℕ
max_event_size = 257

-- HCI_STUB.
pub record HciStub : Type 0 where
  pub fifo : Fifo
  pub dropped : ℕ
  pub bd_addr : List ℕ

unfoldable pub stub_init : HciStub
stub_init = record {
  fifo = empty_fifo event_depth;
  dropped = 0;
  bd_addr = 0x01 ∷ 0x00 ∷ 0x00 ∷ 0xCB ∷ 0xDE ∷ 0x02 ∷ [];
}

unfoldable pub has_event : HciStub → Bool
has_event stub = ltb 0 stub.fifo.count

-- HciStubAllocSlot with the write into the slot that it gives; none when there is no slot.
unfoldable pub put_event : HciStub → List ℕ → HciStub × Bool
put_event stub event =
    if leb event_depth stub.fifo.count
    then (record stub { dropped = inc32 stub.dropped }, false)
    else (record stub { fifo = append_back event_depth stub.fifo event }, true)

abbrev pub command_complete : ℕ → List ℕ → List ℕ
command_complete opcode extra =
    0x0E ∷ ((4 + length extra) % 256) ∷ 1 ∷ (opcode % 256) ∷ (opcode / 256 % 256) ∷ 0 ∷ extra

unfoldable pub queue_command_complete : HciStub → ℕ → List ℕ → HciStub × Bool
queue_command_complete stub opcode extra =
    if ltb 255 (4 + length extra) || ltb max_event_size (2 + (4 + length extra))
    then (stub, false)
    else put_event stub (command_complete opcode extra)

-- The switch: what an opcode's answer carries behind the status.
unfoldable pub return_parameters : HciStub → ℕ → List ℕ → List ℕ
return_parameters stub opcode command =
    if opcode == 0x1001
    then local_version
    else if opcode == 0x1002
    then supported_commands
    else if opcode == 0x1003
    then local_features
    else if opcode == 0x1004
    then ext_features command
    else if opcode == 0x1005
    then buffer_size
    else if opcode == 0x1009
    then stub.bd_addr
    else if opcode == 0x2002
    then le_buffer_size
    else if opcode == 0x2003
    then le_features
    else if opcode == 0x201C
    then le_states
    else if opcode == 0x0C14
    then local_name
    else if opcode == 0x0C23
    then class_of_device
    else if opcode == 0x0C25
    then voice_setting
    else if opcode == 0x0C17
    then page_timeout
    else if opcode == 0x0C19
    then scan_enable
    else if opcode == 0x100B
    then local_codecs
    else if opcode == 0x2007
    then le_adv_tx_power
    else if opcode == 0x200F
    then le_list_size
    else if opcode == 0x202A
    then le_list_size
    else if opcode == 0x202F
    then le_max_data_length
    else if opcode == 0x2023
    then le_suggested_data_length
    else if opcode == 0x0C58
    then inq_rsp_tx_power
    else if opcode == 0x0C0D
    then stored_link_keys
    else if opcode == 0x0C11
    then link_keys_written
    else if opcode == 0x0C12
    then link_keys_deleted
    else []

-- Too short for its header or for the parameters that it announces.
unfoldable pub is_truncated : List ℕ → Bool
is_truncated command = ltb (length command) 3 || ltb (length command) (3 + byte command 2)

unfoldable pub submit_command : HciStub → List ℕ → HciStub × Bool
submit_command stub command =
    let opcode = le16 command 0 in
    if is_truncated command
    then (stub, false)
    else queue_command_complete stub opcode (return_parameters stub opcode command)

unfoldable pub pop_event : HciStub → ℕ → HciStub × Option (List ℕ)
pop_event stub capacity =
    let event = front stub.fifo in
    let rest = drop_front event_depth stub.fifo in
    if stub.fifo.count == 0
    then (stub, none)
    else if ltb capacity (length event)
    then (record stub { fifo = rest; dropped = inc32 stub.dropped }, none)
    else (record stub { fifo = rest }, some event)
