-- ===== src/Uart/Worker/Examples.antt =====
-- src/driver/qca_uart.c, the worker before a controller that answers the version request at the
-- operating rate first, and at the initial rate after a reset.
use virt_bth_usb.Common.{
  ℕ, Bool, true, false, some, List, [], ◌∷◌, ◌≡◌, ◌==◌, ◌&&◌, ◌||◌, ltb, get_or, length,
  if◌then◌else◌,
}
use virt_bth_usb.Identify.{identify_init}
use virt_bth_usb.Uart.Line.{Op, set_baud_rate, write, Port}
use virt_bth_usb.Uart.Worker.{Board, Worker, status_timeout, probe_rate}
use virt_bth_usb.Uart.Worker.Reset.{ensure_rom}
use virt_bth_usb.Uart.Worker.Ladder.{Tells, probe_rate-Ends}
use virt_bth_usb.Uart.Worker.Rom.{InRom, ensure_rom-InRom}

abbrev willing : Port
willing = record { answer = λ _. 0; modem = λ _. 16; has_budget = λ _. true }

-- The rate that the port has, and whether the reset command has been sent since the last answer.
abbrev rate_of : List Op → ℕ
rate_of [] = 0
rate_of (set_baud_rate rate ∷ before) = rate
rate_of (_ ∷ before) = rate_of before

abbrev was_reset : List Op → Bool
was_reset [] = false
was_reset (write bytes ∷ before) =
    ltb 3 (length bytes) && get_or bytes 2 0 == 0xFC && get_or bytes 3 1 == 0 || was_reset before
was_reset (_ ∷ before) = was_reset before

abbrev answers : List Op → Bool
answers h = rate_of h == (if was_reset h then 115200 else 3000000)

abbrev version_response : List ℕ
version_response =
    0x04 ∷ 0xFF ∷ 14 ∷ 0x00 ∷ 0x19 ∷ 9 ∷ 0 ∷ 0 ∷ 0 ∷ 2 ∷ 0 ∷ 1 ∷ 2 ∷ 0 ∷ 0x12 ∷ 0 ∷ 0 ∷ []

abbrev bench : Board
bench = record {
  port = willing;
  arrived = λ h. if answers h then version_response ∷ [] else [];
  waited = λ h. if answers h then 0 else status_timeout;
  stopped = λ _. false;
  read_status = λ _. 0;
}

abbrev idle : Worker
idle = record {
  line = record { history = []; current_baud_rate = 115200; cts_asserted = false; wake_pulses = 0 };
  identify = identify_init;
  waiting = false;
}

probe_rate-Ends_example : (r : ℕ × ℕ × Worker) × (probe_rate bench idle ≡ some r) × Tells r
probe_rate-Ends_example = probe_rate-Ends bench idle

ensure_rom-InRom_example : (r : ℕ × Worker) × (ensure_rom bench idle ≡ some r) × InRom r
ensure_rom-InRom_example = ensure_rom-InRom bench idle
