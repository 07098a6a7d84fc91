-- ===== src/Uart/Worker/Reset.antt =====
-- src/driver/qca_uart.c, the worker's resets of the controller: QcaUartResetSoc, QcaUartEnsureRom and
-- QcaUartHandback.
use virt_bth_usb.Common.{ℕ, not, ◌&&◌, ◌||◌, Option, some, List, [], ◌∷◌, ◌==◌, ◌!=◌, if◌then◌else◌}
use mathlib.Core.Option
use virt_bth_usb.Uart.Writes.{nt_success, status_success}
use virt_bth_usb.Uart.Line.{write, and_then, perform, pause, set_line_baud_rate, wake_controller}
use virt_bth_usb.Uart.Worker.{Board, Worker, status_not_found, quiesce_read, probe_rate}

abbrev pub status_invalid_device_state : ℕ
status_invalid_device_state = 0xC0000184

-- QCA_INIT_BAUD_RATE, QCA_OPER_BAUD_RATE and the times of a reset.
abbrev pub init_baud_rate : ℕ
init_baud_rate = 115200

abbrev pub oper_baud_rate : ℕ
oper_baud_rate = 3000000

abbrev pub ibs_wake_settle_ms : ℕ
ibs_wake_settle_ms = 10

abbrev pub soc_reset_settle_ms : ℕ
soc_reset_settle_ms = 200

-- The bytes of QcaUartResetSoc.
abbrev pub ibs_wake : List ℕ
ibs_wake = 0xFD ∷ 0xFD ∷ 0xFD ∷ []

abbrev pub soc_reset : List ℕ
soc_reset = 0x01 ∷ 0x40 ∷ 0xFC ∷ 0x00 ∷ []

-- The probe after a reset must have found the initial rate.
unfoldable pub verify_rom : ℕ × ℕ × Worker → ℕ × Worker
verify_rom (status, baud, w) =
    (if nt_success status && baud != init_baud_rate then status_invalid_device_state else status, w)

module _ (board : Board) where
  -- QcaUartResetSoc: wake-up bytes and the reset command at a rate, with CTS seen before them.
  unfoldable pub reset_soc : ℕ → Worker → ℕ × Worker
  reset_soc baud w =
      let (status, w0) = quiesce_read board w in
      let port = board.port in
      let at_rate =
        if w0.line.current_baud_rate != baud
        then set_line_baud_rate port baud w0.line
        else (status_success, w0.line) in
      let (sent, l) = and_then at_rate (λ l1. and_then (wake_controller port l1) (λ l2.
        and_then (perform port (write ibs_wake) l2) (λ l3.
          let (last, l4) = perform port (write soc_reset) (pause port ibs_wake_settle_ms l3) in
          (last, if nt_success last then pause port soc_reset_settle_ms l4 else l4)))) in
      if nt_success status then (sent, record w0 { line = l }) else (status, w0)

  -- The second half of QcaUartEnsureRom: a reset at the rate that answered, or at the operating rate,
  -- after which the controller must answer at the initial rate.
  unfoldable pub reset_to_rom : ℕ → Worker → Option (ℕ × Worker)
  reset_to_rom baud w =
      let (status, w1) = reset_soc (if baud == 0 then oper_baud_rate else baud) w in
      let again = Option.map verify_rom (probe_rate board w1) in
      if not (nt_success status) then some (status, w1) else again

  unfoldable pub ensure_from : ℕ × ℕ × Worker → Option (ℕ × Worker)
  ensure_from (status, baud, w) =
      let reset = reset_to_rom baud w in
      if not (nt_success status || status == status_not_found)
      then some (status, w)
      else if baud == init_baud_rate
      then some (status_success, w)
      else reset

  -- QcaUartEnsureRom.
  unfoldable pub ensure_rom : Worker → Option (ℕ × Worker)
  ensure_rom w = Option.bind (probe_rate board w) ensure_from

  -- QcaUartHandback: the status, the rate that answered after the reset or 0, and the worker.
  unfoldable pub handback : Worker → Option (ℕ × ℕ × Worker)
  handback w =
      let (status, w1) = reset_soc w.line.current_baud_rate w in
      if nt_success status then probe_rate board w1 else some (status, 0, w1)
