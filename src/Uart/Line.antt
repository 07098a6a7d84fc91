-- ===== src/Uart/Line.antt =====
-- src/driver/qca_uart.c, the serial line as the worker drives it: QcaUartSetBaudRate,
-- QcaUartGetModemStatus, QcaUartSetManualRts, QcaUartSetHardwareFlow, QcaUartWakeController and
-- QcaUartSwitchBaud. The port is a parameter: what it answers to an operation may depend on all the
-- operations before it.
pub mod Cts
pub mod Wake
pub mod Switch
mod Examples
use virt_bth_usb.Common.{
  ℕ, zero, suc, ◌+◌, ◌/◌, ◌%◌, Bool, true, false, not, ◌&&◌, List, [], ◌∷◌, ◌==◌, ltb,
  if◌then◌else◌, inc32,
}
use virt_bth_usb.Uart.Writes.{nt_success, status_success, status_cancelled}

-- A request to the port, or a wait. The reader is retired by QcaUartQuiesceRead and started by
-- QcaUartStartReadPump.
pub data Op : Type 0 where
  set_baud_rate : ℕ → Op
  set_line_control set_timeouts flow_handshake flow_manual_rts : Op
  get_modem_status clr_rts set_rts purge quiesce start_reader : Op
  sleep wait : ℕ → Op
  write : List ℕ → Op

-- The status of the newest operation of a history, the modem status that it reads, and whether
-- QcaUartRequestBudget leaves time after a history. A request that the budget forbids is one that
-- is answered with cancellation.
pub record Port : Type 0 where
  pub answer : List Op → ℕ
  pub modem : List Op → ℕ
  pub has_budget : List Op → Bool

-- The operations so far, newest first, and the fields of QCA_UART and of its record for the line.
pub record Line : Type 0 where
  pub history : List Op
  pub current_baud_rate : ℕ
  pub cts_asserted : Bool
  pub wake_pulses : ℕ

abbrev pub status_device_not_ready : ℕ
status_device_not_ready = 0xC00000A3

-- QCA_UART_WAKE_PULSES, QCA_UART_WAKE_PULSE_MS, QCA_UART_BAUD_SETTLE_MS.
abbrev pub max_wake_pulses : ℕ
max_wake_pulses = 5

abbrev pub wake_pulse_ms : ℕ
wake_pulse_ms = 5

abbrev pub baud_settle_ms : ℕ
baud_settle_ms = 300

-- SERIAL_CTS_STATE.
unfoldable pub has_cts : ℕ → Bool
has_cts modem = modem / 16 % 2 == 1

-- Steps until one of them fails.
abbrev pub and_then : ℕ × Line → (Line → ℕ × Line) → ℕ × Line
and_then r next = if nt_success r.0 then next r.1 else r

-- The verdict, of the loop's status, the last modem status and the status of handing RTS back.
unfoldable pub settle_wake : ℕ → ℕ → ℕ → Line → ℕ × Line
settle_wake status modem restored l =
    let overall = if nt_success status && not (nt_success restored) then restored else status in
    let asserted = nt_success overall && has_cts modem in
    let settled = record l { cts_asserted = asserted } in
    if not (nt_success overall)
    then (overall, settled)
    else if not asserted
    then (status_device_not_ready, settled)
    else (overall, settled)

module _ (port : Port) where
  unfoldable pub perform : Op → Line → ℕ × Line
  perform op l =
      let history = op ∷ l.history in (port.answer history, record l { history = history })

  unfoldable pub pause : ℕ → Line → Line
  pause ms l = record l { history = sleep ms ∷ l.history }

  -- QcaUartSetBaudRate, with the port open.
  unfoldable pub set_line_baud_rate : ℕ → Line → ℕ × Line
  set_line_baud_rate baud l = and_then (perform (set_baud_rate baud) l) (λ l1.
      and_then (perform set_line_control l1) (λ l2. and_then (perform set_timeouts l2) (λ l3.
        and_then (perform flow_handshake l3)
          (λ l4. (status_success, record l4 { current_baud_rate = baud })))))

  -- The status, the modem status, 0 when it was not read, and the line.
  unfoldable pub read_modem : Line → ℕ × ℕ × Line
  read_modem l =
      let (status, l') = perform get_modem_status l in
      (status, if nt_success status then port.modem l'.history else 0, l')

  -- One round of the loop: the status, the modem status, whether the loop is left, and the line.
  unfoldable pub pulse : ℕ → Line → ℕ × ℕ × Bool × Line
  pulse modem l =
      let (low, l1) = perform clr_rts l in
      let (high, l2) = perform set_rts (pause wake_pulse_ms l1) in
      let l3 = pause wake_pulse_ms l2 in
      let (status, modem', l4) = read_modem (record l3 { wake_pulses = inc32 l3.wake_pulses }) in
      if not (nt_success low)
      then (low, modem, true, l1)
      else if not (nt_success high)
      then (high, modem, true, l2)
      else (status, modem', nt_success status && has_cts modem', l4)

  -- The loop, for at most `n` rounds.
  unfoldable pub pulses : ℕ → ℕ → ℕ → Line → ℕ × ℕ × Line
  pulses zero status modem l = (status, modem, l)
  pulses (suc n) status modem l =
      let (status', modem', leaves, l') = pulse modem l in
      let rest = pulses n status' modem' l' in
      if not (nt_success status)
      then (status, modem, l)
      else if leaves
      then (status', modem', l')
      else rest

  -- RTS is left asserted and handed back to the handshake.
  unfoldable pub restore_rts : Line → ℕ × Line
  restore_rts l = and_then (perform set_rts l) (perform flow_handshake)

  -- The part of QcaUartWakeController with CTS low.
  unfoldable pub wake_by_pulses : ℕ → Line → ℕ × Line
  wake_by_pulses modem l =
      let (manual, l1) = perform flow_manual_rts l in
      let (status, modem', l2) = pulses max_wake_pulses manual modem l1 in
      let (restored, l3) = restore_rts l2 in settle_wake status modem' restored l3

  unfoldable pub wake_controller : Line → ℕ × Line
  wake_controller l =
      let (status, modem, l1) = read_modem l in
      if not (nt_success status)
      then (status, record l1 { cts_asserted = false })
      else if has_cts modem
      then (status_success, record l1 { cts_asserted = true })
      else wake_by_pulses modem l1

  -- QcaUartSwitchBaud.
  unfoldable pub switch_baud : ℕ → Line → ℕ × Line
  switch_baud baud l = and_then (perform quiesce l) (λ l1.
      let settled = pause baud_settle_ms l1 in
      if not (port.has_budget settled.history)
      then (status_cancelled, settled)
      else and_then (set_line_baud_rate baud settled)
          (λ l2. and_then (perform purge l2) (perform start_reader)))
