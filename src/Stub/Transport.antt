-- ===== src/Stub/Transport.antt =====
-- src/driver/hci_stub.c, g_HciStubOps: the synthetic controller as a transport. The transport's
-- Context is none for a null pointer.
use virt_bth_usb.Common.{ℕ, ◌+◌, ◌-◌, ◌%◌, Bool, true, false, Option, none, some}
use virt_bth_usb.Common.{List, [], length, get_or, ◌==◌, ltb, if◌then◌else◌}
use virt_bth_usb.Fifo.{front}
use virt_bth_usb.Bridge.Inbound.{Stream}
use virt_bth_usb.Stub.{HciStub, event_depth, stub_init, has_event, submit_command, pop_event}

-- HciStubTransportSubmitCommand.
unfoldable pub transport_submit : Option HciStub → List ℕ → Option HciStub × Bool
transport_submit none packet = (none, false)
transport_submit (some stub) packet =
    let (stub', done) = submit_command stub packet in (some stub', done)

-- HciStubTransportSubmitAcl and HciStubTransportSubmitSco: without a radio there is nobody to send
-- to, and what the host sends is accepted and dropped.
unfoldable transport_submit_acl : Option HciStub → List ℕ → Option HciStub × Bool
transport_submit_acl stub packet = (stub, true)

unfoldable transport_submit_sco : Option HciStub → List ℕ → Option HciStub × Bool
transport_submit_sco stub packet = (stub, true)

-- HciStubTransportHasStream.
unfoldable pub transport_has : Option HciStub → Stream → Bool
transport_has none stream = false
transport_has (some stub) Stream.event = has_event stub
transport_has (some stub) Stream.acl = false
transport_has (some stub) Stream.sco = false

-- HciStubTransportPopStream, for a caller that asks for the length written.
unfoldable pub transport_pop : Option HciStub → Stream → ℕ → Option HciStub × Option (List ℕ)
transport_pop none stream capacity = (none, none)
transport_pop (some stub) Stream.acl capacity = (some stub, none)
transport_pop (some stub) Stream.sco capacity = (some stub, none)
transport_pop (some stub) Stream.event capacity =
    let (stub', popped) = pop_event stub capacity in
    if stub.fifo.count == 0
    then (some stub, none)
    else if ltb capacity (length (front stub.fifo))
    then (some stub, none)
    else (some stub', popped)

-- HciStubTransportLastEventLength.
unfoldable pub last_event_length : Option HciStub → ℕ
last_event_length none = 0
last_event_length (some stub) =
    if stub.fifo.count == 0
    then 0
    else length (get_or stub.fifo.slots ((stub.fifo.tail + event_depth - 1) % event_depth) [])

-- HciStubTransportReset.
unfoldable transport_reset : Option HciStub → Option HciStub
transport_reset none = none
transport_reset (some stub) = some stub_init
