-- ===== src/Uart/Writes.antt =====
-- src/driver/qca_uart.c, the outbound path: QcaUartSendAsync, QcaUartSendTimed, QcaUartRequestBudget
-- and QcaUartWriteSlotCompletion. The framework's answers are a parameter, `Target`; a slot's buffer
-- is the framed packet that its request covers.
use virt_bth_usb.Common.{
  ℕ, zero, suc, ◌-◌, ◌/◌, ◌^◌, Bool, true, false, not, ◌&&◌, ◌||◌, Option, none, some, List, [],
  ◌∷◌, length, get_or, set, replicate, ltb, leb, ◌==◌, ◌!=◌, if◌then◌else◌, add32, sub32, inc32,
}
use virt_bth_usb.H4.{encode_packet}
pub mod Slots
pub mod Sending
pub mod Flight
mod Examples

-- NT_SUCCESS and the statuses that the code returns itself.
unfoldable pub nt_success : ℕ → Bool
nt_success status = ltb status (2 ^ 31)

abbrev pub status_success : ℕ
status_success = 0

abbrev pub status_cancelled : ℕ
status_cancelled = 0xC0000120

abbrev pub status_invalid_parameter : ℕ
status_invalid_parameter = 0xC000000D

-- QCA_UART_WRITE_SLOTS, QCA_UART_WRITE_BUF_SIZE.
abbrev pub write_slots : ℕ
write_slots = 4

abbrev pub write_buf_size : ℕ
write_buf_size = 2048

-- QCA_UART_WRITE_SLOT.
pub record WriteSlot : Type 0 where
  pub buffer : List ℕ
  pub in_use : Bool
  pub has_been_sent : Bool

abbrev pub empty_slot : WriteSlot
empty_slot = record { buffer = []; in_use = false; has_been_sent = false }

-- The fields of QCA_UART that the outbound path changes; StopRequested stands for the two events
-- that are set with it too.
pub record Writes : Type 0 where
  pub slots : List WriteSlot
  pub active_io_count : ℕ
  pub write_completions : ℕ
  pub total_bytes_written : ℕ
  pub write_errors : ℕ
  pub last_io_status : ℕ
  pub last_write_status : ℕ
  pub stop_requested : Bool

abbrev pub no_writes : ℕ → Writes
no_writes active = record {
  slots = replicate write_slots empty_slot;
  active_io_count = active;
  write_completions = 0;
  total_bytes_written = 0;
  write_errors = 0;
  last_io_status = 0;
  last_write_status = 0;
  stop_requested = false;
}

-- What WdfRequestSend does with a write: it stays pending, it completes before the call returns, or
-- it is refused with a status.
pub data Sent : Type 0 where
  pending : Sent
  inline : ℕ → ℕ → Sent
  refused : ℕ → Sent

-- What a send finds: IoTarget and WriteLock, the phase, the budget's inputs, and the answers of
-- WdfRequestReuse, WdfIoTargetFormatRequestForWrite and WdfRequestSend.
pub record Target : Type 0 where
  pub is_open : Bool
  pub phase : ℕ
  pub probe_active : Bool
  pub budget_unbounded : Bool
  pub elapsed : ℕ
  pub reuse : ℕ
  pub format : ℕ
  pub send : Sent

-- QcaUartRequestBudget, with the time since ProbeStarted in units of 100 ns.
unfoldable pub request_budget : Target → ℕ → Writes → ℕ × Writes
request_budget t maximum w =
    let elapsed = t.elapsed / 10000 in
    let remaining = 60000 - elapsed in
    if w.stop_requested
    then (0, w)
    else if not t.probe_active || t.budget_unbounded
    then (maximum, w)
    else if leb 60000 elapsed
    then (0, record w { stop_requested = true })
    else if ltb remaining maximum
    then (remaining, w)
    else (maximum, w)

unfoldable pub slot_at : ℕ → Writes → WriteSlot
slot_at i w = get_or w.slots i empty_slot

unfoldable pub put_slot : ℕ → WriteSlot → Writes → Writes
put_slot i s w = record w { slots = set w.slots i s }

-- `InUse = FALSE`.
unfoldable pub release : ℕ → Writes → Writes
release i w = put_slot i (record (slot_at i w) { in_use = false }) w

unfoldable pub count_write : ℕ → ℕ → Writes → Writes
count_write status information w =
    if nt_success status
    then record w {
      write_completions = inc32 w.write_completions;
      total_bytes_written = add32 w.total_bytes_written information;
    }
    else if status != status_cancelled
    then record w { write_errors = inc32 w.write_errors }
    else w

unfoldable pub io_completed : Writes → Writes
io_completed w = record w { active_io_count = sub32 w.active_io_count 1 }

-- QcaUartWriteSlotCompletion.
unfoldable pub write_slot_completion : ℕ → ℕ → ℕ → Writes → Writes
write_slot_completion i status information w =
    let counted = count_write status information (release i w) in
    io_completed record counted { last_io_status = status; last_write_status = status }

-- WdfRequestSend with the request counted as active, and the status.
unfoldable pub request_send : Sent → ℕ → Writes → ℕ × Writes
request_send pending i w = (status_success, w)
request_send (inline status information) i w =
    (status_success, write_slot_completion i status information w)
request_send (refused status) i w = (status, io_completed w)

-- QcaUartSendTimed for the write of a slot.
unfoldable pub send_timed : Target → ℕ → Writes → ℕ × Writes
send_timed t i w =
    let budget = request_budget t 5000 w in
    let started = record budget.1 { active_io_count = inc32 budget.1.active_io_count } in
    if budget.0 == 0 then (status_cancelled, budget.1) else request_send t.send i started

unfoldable pub first_free_slot : List WriteSlot → Option ℕ
first_free_slot [] = none
first_free_slot (s ∷ ss) =
    let rest = first_free_slot ss in
    if not s.in_use then some 0 else elim rest [ none ↦ none | some i ↦ some (suc i) ]

-- The slot taken and filled; a packet that cannot be framed leaves the buffer alone.
unfoldable pub fill_slot : ℕ → List ℕ → Writes → Writes
fill_slot i framed w =
    let taken = record (slot_at i w) { in_use = true } in
    put_slot i (if length framed == 0 then taken else record taken { buffer = framed }) w

unfoldable pub format_status : Target → Bool → List ℕ → ℕ
format_status t has_been_sent framed =
    let framing = if length framed == 0 then status_invalid_parameter else status_success in
    let reusing = if nt_success framing && has_been_sent then t.reuse else framing in
    if nt_success reusing then t.format else reusing

unfoldable pub give_up : ℕ → ℕ → Writes → Writes
give_up i status w =
    let freed = release i w in
    record freed { write_errors = inc32 w.write_errors; last_io_status = status }

unfoldable pub send_slot : Target → ℕ → List ℕ → Writes → Bool × Writes
send_slot t i framed w =
    let filled = fill_slot i framed w in
    let formatted = format_status t (slot_at i w).has_been_sent framed in
    let ready = put_slot i (record (slot_at i filled) { has_been_sent = true }) filled in
    let sent = send_timed t i ready in
    if not (nt_success formatted)
    then (false, give_up i formatted filled)
    else if nt_success sent.0
    then (true, sent.1)
    else (false, give_up i sent.0 sent.1)

-- The send with the slot chosen, `none` for no slot.
unfoldable pub send_chosen : Target → ℕ → List ℕ → Writes → Option ℕ → Bool × Writes
send_chosen t type packet w none = (false, record w { write_errors = inc32 w.write_errors })
send_chosen t type packet w (some i) = send_slot t i (encode_packet type packet write_buf_size) w

-- QcaUartSendAsync.
unfoldable pub send_async : Target → ℕ → List ℕ → Writes → Bool × Writes
send_async t type packet w =
    if not t.is_open || length packet == 0 || t.phase != 2
    then (false, w)
    else send_chosen t type packet w (first_free_slot w.slots)
