-- ===== src/Stub/Examples.antt =====
-- src/driver/hci_stub.c: concrete runs.
use virt_bth_usb.Common.{ℕ, ◌≡◌, refl, arith, List, [], ◌∷◌, Option, some}
use virt_bth_usb.Bridge.Inbound.{Stream}
use virt_bth_usb.Bridge.Delivery.{poll_queue}
use virt_bth_usb.Fifo.{empty_fifo, append_back}
use virt_bth_usb.Stub.{
  HciStub, stub_init, submit_command, is_truncated, queue_command_complete, return_parameters,
  put_event, pop_event,
}
use virt_bth_usb.Stub.Transport.{transport_submit, transport_pop}
use virt_bth_usb.Stub.Replies.{Submits, submit_command-Submits, stub_init-IsStub}
use virt_bth_usb.Stub.Queueing.{queue_of, transport_pop-poll_queue}

-- Read_BD_ADDR.
abbrev read_bd_addr : List ℕ
read_bd_addr = 0x09 ∷ 0x10 ∷ 0x00 ∷ []

submit_command-Submits_example :
    Submits stub_init read_bd_addr (submit_command stub_init read_bd_addr)
submit_command-Submits_example =
    submit_command-Submits stub_init read_bd_addr stub_init-IsStub
      (omega arith, (omega arith, (omega arith, tt)))

abbrev one_answer : Option HciStub
one_answer = (transport_submit (some stub_init) read_bd_addr).0

transport_pop-poll_queue_example :
    (
      queue_of (transport_pop one_answer Stream.event 257).0 Stream.event,
      (transport_pop one_answer Stream.event 257).1,
    )
    ≡ poll_queue Stream.event 257 (queue_of one_answer Stream.event)
transport_pop-poll_queue_example = transport_pop-poll_queue one_answer Stream.event 257

answer :
    (transport_pop one_answer Stream.event 257).1
    ≡ some (0x0E ∷ 10 ∷ 1 ∷ 0x09 ∷ 0x10 ∷ 0 ∷ 0x01 ∷ 0x00 ∷ 0x00 ∷ 0xCB ∷ 0xDE ∷ 0x02 ∷ [])
unfolding transport_pop transport_submit submit_command is_truncated queue_command_complete
    return_parameters stub_init put_event empty_fifo append_back pop_event
answer = refl
