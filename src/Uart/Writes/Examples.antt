-- ===== src/Uart/Writes/Examples.antt =====
-- src/driver/qca_uart.c, the outbound path: concrete sends.
use virt_bth_usb.Common.{ℕ, ◌≡◌, refl, arith, Bool, true, false, List, [], ◌∷◌, set}
use virt_bth_usb.H4.{pkt_command}
use virt_bth_usb.Uart.Writes.{
  Writes, no_writes, Target, Sent, pending, inline, refused, send_async, slot_at, nt_success,
  send_slot, fill_slot, put_slot, format_status, send_timed, request_budget, request_send,
  write_slot_completion, count_write, io_completed, release, give_up,
}
use virt_bth_usb.Uart.Writes.Slots.{in_flight}
use virt_bth_usb.Uart.Writes.Flight.{IsFlight, Holds, submitted, Step-Holds}

abbrev answering : Sent → Target
answering send = record {
  is_open = true;
  phase = 2;
  probe_active = true;
  budget_unbounded = false;
  elapsed = 0;
  reuse = 0;
  format = 0;
  send = send;
}

-- HCI_Reset.
abbrev reset_command : List ℕ
reset_command = 0x03 ∷ 0x0C ∷ 0x00 ∷ []

abbrev after : Sent → Writes
after send = (send_async (answering send) pkt_command reset_command (no_writes 1)).1

no_writes-IsFlight : IsFlight 1 (no_writes 1)
unfolding in_flight
no_writes-IsFlight = record { table = refl; counted = refl }

Step-Holds_example : Holds 1 (no_writes 1) (after pending)
Step-Holds_example =
    Step-Holds 1 (no_writes 1) (after pending) (omega arith) no_writes-IsFlight
      (submitted (answering pending) pkt_command reset_command (no_writes 1) tt)

abbrev sent_slot : Sent → Bool × Writes
sent_slot send = send_slot (answering send) 0 (0x01 ∷ reset_command) (no_writes 1)

abbrev refusal : Sent
refusal = refused 0xC0000001

pending_framed :
    (sent_slot pending).1.slots
    ≡ set
        (no_writes 1).slots
        0
        (record { buffer = 0x01 ∷ reset_command; in_use = true; has_been_sent = true })
unfolding send_slot fill_slot put_slot slot_at format_status nt_success send_timed request_budget
    request_send write_slot_completion count_write io_completed release give_up
pending_framed = refl

-- A write that completes before the send returns has freed its slot and is counted.
inline_active : (sent_slot (inline 0 4)).1.active_io_count ≡ 1
unfolding send_slot fill_slot put_slot slot_at format_status nt_success send_timed request_budget
    request_send write_slot_completion count_write io_completed release give_up
inline_active = refl

inline_bytes : (sent_slot (inline 0 4)).1.total_bytes_written ≡ 4
unfolding send_slot fill_slot put_slot slot_at format_status nt_success send_timed request_budget
    request_send write_slot_completion count_write io_completed release give_up
inline_bytes = refl

refused_counted : (sent_slot refusal).1.write_errors ≡ 1
unfolding send_slot fill_slot put_slot slot_at format_status nt_success send_timed request_budget
    request_send write_slot_completion count_write io_completed release give_up
refused_counted = refl
