-- ===== src/Control/Examples.antt =====
-- src/driver/endpoints.c, control requests at the synthetic controller.
use virt_bth_usb.Common.{ℕ, Option, some, List, [], ◌∷◌, replicate}
use virt_bth_usb.Stub.{HciStub, stub_init}
use virt_bth_usb.Stub.Transport.{transport_submit, last_event_length}
use virt_bth_usb.Control.{
  Setup, setup_bytes, Control, CommandTransport, answer_control, control_transfer,
}
use virt_bth_usb.Control.Outcome.{Traced, Seen}
use virt_bth_usb.Control.Handled.{answer_control-Done}

abbrev stub_commands : CommandTransport (Option HciStub)
stub_commands = record { submit_command = transport_submit; last_event_length = last_event_length }

abbrev fresh : Control (Option HciStub)
fresh = record {
  transport = some stub_init;
  ctl_log = replicate 128 (replicate 12 0);
  ctl_count = 0;
  sco_cmd_trace = replicate 64 0;
  setup_commands = 0;
}

-- The class request that carries a command, and HCI_Reset.
abbrev command_setup : Setup
command_setup = record { request_type = 0x20; request = 0; value = 0; index = 0; size = 3 }

abbrev reset_command : List ℕ
reset_command = 0x03 ∷ 0x0C ∷ 0x00 ∷ []

answer_control-Done_example :
    Traced fresh
      (setup_bytes command_setup)
      (answer_control stub_commands fresh (control_transfer command_setup (some reset_command)))
    × Seen stub_commands fresh command_setup
        (some reset_command)
        (answer_control stub_commands fresh (control_transfer command_setup (some reset_command)))
answer_control-Done_example =
    answer_control-Done stub_commands fresh command_setup (some reset_command)
