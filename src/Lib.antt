-- ===== src/Lib.antt =====
-- Verification of DeckBtUsb's portable core: a virtual USB Bluetooth radio for Windows in front of a
-- Qualcomm controller on a UART.
--
-- The parts and how they interact. Bytes from the UART go through the H4 codec (src/common/h4_codec.c),
-- which cuts them into packets, and are routed on by the read completion (src/driver/qca_uart.c).
-- During bring-up the packets go to the identification probe (src/common/qca_identify.c) and to the
-- bring-up state machine (src/common/qca_init_fsm.c), which downloads the firmware images with the
-- commands that src/common/qca_tlv.c builds and reads the answers with its parsers. Afterwards they
-- go to the bridge (src/common/hci_bridge.c), which queues them for the USB front end and sends the
-- host's packets to the wire under the controller's buffer credits. Commands that set up voice are
-- rewritten on the way (src/common/sco_route.c). Voice itself goes between the isochronous endpoints
-- and the bridge through src/common/sco_usb.c. In front of USB there are the descriptors
-- (src/common/usb_descriptors.c), and the front end (src/driver/endpoints.c) drains the bridge's
-- streams into the requests that the USB stack posted; without a radio a synthetic controller
-- (src/driver/hci_stub.c) takes the place of the bridge.
--
-- Files:
--   Common, Common/*  Boolean tests, lists over native numbers, 16- and 32-bit unsigned arithmetic.
--   H4, H4/*          h4_codec.c. feed is H4DecoderFeedEx (and H4DecoderFeed without an out-of-band
--                     callback), feed_byte is H4FeedByte with a function for each state, encode_packet
--                     is H4EncodePacket.
--   Protocol          the constants of src/include/qca_protocol.h.
--   Tlv, Tlv/*        qca_tlv.c: images, segments, tags (QcaParseTlv, QcaBuildTlvSegmentCommand,
--                     QcaFindNvmHciBaudOffset) and the command builders.
--   Edl, Edl/*        qca_tlv.c: QcaParseEdlResponse, QcaParseVersionEvent, QcaParseBoardIdEvent.
--   NvmName, ...      qca_tlv.c: QcaBuildNvmFileName and QcaBuildAltNvmFileName.
--   Identify, ...     qca_identify.c.
--   Fsm, Fsm/*        qca_init_fsm.c: Fsm.Pump has QcaFsmInit, QcaFsmNext and the failure notices,
--                     Fsm.Events has QcaFsmOnPacket.
--   Fifo, Fifo/*      the shape of the four rings of HCI_BRIDGE.
--   Bridge, Bridge/*  hci_bridge.c: Bridge.Credits has the credit helpers, Bridge.Submit the host's
--                     operations, Bridge.Inbound the wire's feeds and the polled streams.
--   ScoRoute, ...     sco_route.c.
--   ScoUsb, ScoUsb/*  sco_usb.c: ScoUsb.Out has ScoUsbOutPush and ScoUsbOutRelease, ScoUsb.In has
--                     ScoUsbInFill and ScoUsbInAccept, ScoUsb.Pacing is about ScoUsbSchedule.
--   Stub, Stub/*      hci_stub.c, with the queue as a Fifo; Stub.Transport is its HCI_TRANSPORT_OPS.
--   UsbDescriptors, . usb_descriptors.c.
--   Uart, Uart/*      driver/qca_uart.c, the part of QcaUartReadCompletion under the lock: read_bytes
--                     feeds the decoder, on_h4_packet is QcaUartOnH4Packet, on_ibs_byte is
--                     QcaUartOnIbsByte, Uart.Sleep has QcaUartServiceIbs. Uart.Writes has
--                     QcaUartSendAsync and its completion; the framework's answers are a parameter.
--                     Uart.Line has the worker's operations on the line (QcaUartSetBaudRate,
--                     QcaUartWakeController, QcaUartSwitchBaud), Uart.Worker has QcaUartRunIdentify
--                     with QcaUartProbeRate, and Uart.Worker.Reset has QcaUartResetSoc,
--                     QcaUartEnsureRom and QcaUartHandback. The port, the packets that come, the waits
--                     and the requests to stop are functions of the operations done so far.
--   Arming            src/include/arming.h.
--   Endpoints, ...    driver/endpoints.c: drain is DeckBtDrainStream, run without another drain in
--                     between; Endpoints.Transports binds the bridge and the synthetic controller.
--   Voice, Voice/*    driver/endpoints.c, the isochronous endpoints: Voice.Accept has DeckBtScoAccept and
--                     DeckBtScoKick, Voice.Tick has DeckBtEvtScoTimer, DeckBtScoCompleteDue,
--                     DeckBtScoFillIn and DeckBtScoFlush, and Voice.Sections is their sections under
--                     the lock as a step relation; Voice.Arrivals has the sections with the
--                     transfers that have a slot and are not parked yet; Voice.Configure has
--                     DeckBtEvtEndpointsConfigure of driver/device.c.
--   Control, ...      driver/endpoints.c, DeckBtEvtControlUrb, with DeckBtLogControl of driver/driver.c.
--   Plug, Plug/*      driver/device.c, DeckBtCreateUsbDevice, and driver/driver.c,
--                     DeckBtPublishUartDevice, the D0 transitions, DeckBtEvtDeviceReleaseHardware and
--                     the end of DeckBtEvtDevicePrepareHardware. A child that was plugged out leaves
--                     in a step of its own, in Plug.Life.
--   Data, Data/*      driver/endpoints.c, DeckBtEvtDataUrb; Data.Transports binds the bridge.
--
-- State is a record and an operation returns the new record; a buffer with its length is a list of
-- bytes. Callbacks and the wire's operations are parameters over a context or wire state of any type.
-- Unsigned increments and sums keep C's wrap-around. Guards against NULL have no counterpart.
--
-- Fuel: the walk over the NVM tags gets one unit for each byte of the image and one more; every round
-- passes a tag header of 12 bytes. The drain of queued SCO packets is bounded by their count when it
-- starts, as each round takes one and none is added. The loops of the SCO framing that push and
-- reassemble get one unit for each byte, and every round takes a byte at least; the release gets the
-- number of queued frames. The loop that pulls packets is as long as its source gives some: its
-- fuel is a parameter, and is enough when it exceeds a measure of the source that every pull lowers.
-- The identification ladder gets four rounds, one more than it has rates, and each round that does
-- not end it takes a rate. A publication tries to create the child 20 times, as the code does.
--
-- Not modelled: the rest of the Windows driver around this core (src/driver, src/filter, src/isotest),
-- which is I/O, timers and locks of the driver framework: of driver/qca_uart.c, the loops around the
-- bring-up machine and around the steady session and the record for diagnosis; of driver/endpoints.c,
-- the publishing of counters; of driver/device.c, the registration of endpoints; of driver/driver.c,
-- the registry, the entry points and the choice of the backend; the names of the states for
-- diagnostics; the tools.
pub mod Common
pub mod H4
pub mod Protocol
pub mod Tlv
pub mod Edl
pub mod NvmName
pub mod Identify
pub mod Fsm
pub mod Fifo
pub mod Bridge
pub mod ScoRoute
pub mod ScoUsb
pub mod Stub
pub mod UsbDescriptors
pub mod Uart
pub mod Arming
pub mod Endpoints
pub mod Voice
pub mod Control
pub mod Data
pub mod Plug
