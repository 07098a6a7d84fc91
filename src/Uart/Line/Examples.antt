-- ===== src/Uart/Line/Examples.antt =====
-- src/driver/qca_uart.c, the serial line at a port with CTS that answers everything with success.
use virt_bth_usb.Common.{true, false, [], ◌∷◌}
use virt_bth_usb.Uart.Line.{Port, Line, wake_controller, switch_baud}
use virt_bth_usb.Uart.Line.Wake.{Wakes, wake_controller-Wakes}
use virt_bth_usb.Uart.Line.Switch.{Switches, switch_baud-Switches}

abbrev willing : Port
willing = record { answer = λ _. 0; modem = λ _. 16; has_budget = λ _. true }

-- CTS is seen only after the manual handshake.
abbrev sleepy : Port
sleepy = record {
  answer = λ _. 0;
  modem = λ h. elim h [ [] ↦ 0 | _ ∷ before ↦ elim before [ [] ↦ 0 | _ ∷ _ ↦ 16 ] ];
  has_budget = λ _. true;
}

abbrev opened : Line
opened = record { history = []; current_baud_rate = 115200; cts_asserted = false; wake_pulses = 0 }

wake_controller-Wakes_example : Wakes sleepy [] (wake_controller sleepy opened)
wake_controller-Wakes_example = wake_controller-Wakes sleepy opened

switch_baud-Switches_example : Switches 3000000 opened (switch_baud willing 3000000 opened)
switch_baud-Switches_example = switch_baud-Switches willing 3000000 opened
