-- ===== src/Uart.antt =====
-- src/driver/qca_uart.c: what the read completion does with the bytes from the controller, under the
-- controller lock. They go through the H4 decoder; in-band sleep bytes between packets are answered
-- here, and packets go to the identification probe, to the bring-up machine or to the bridge. The
-- record has the fields of QCA_UART that this path reads or writes; a KEVENT is whether it is set.
pub mod Advertisers
pub mod Sound
pub mod Notified
pub mod Sleep
pub mod Writes
pub mod Line
pub mod Worker
mod Examples
use virt_bth_usb.Common.{ℕ, ◌+◌, ◌-◌, ◌%◌, Bool, true, false, not, ◌&&◌, ◌||◌, Option, none, some}
use virt_bth_usb.Common.{
  List, [], ◌∷◌, ◌++◌, length, take, drop, set, replicate, byte, ◌==◌, ◌!=◌, ltb, leb,
  if◌then◌else◌, inc32, add32,
}
use virt_bth_usb.H4.{Decoder, feed, pkt_event, pkt_acl, pkt_sco}
use virt_bth_usb.Identify.{Identify}
use virt_bth_usb.Identify
use virt_bth_usb.Fsm.{Fsm, State, state_index}
use virt_bth_usb.Fsm.Events
use virt_bth_usb.Bridge.{Bridge}
use virt_bth_usb.Bridge.Inbound.{Stream, on_inbound}
use virt_bth_usb.ScoRoute.{ScoRoute, restore_event}

-- QCA_PROBE_MODE.
pub data ProbeMode : Type 0 where
  full_probe identify_only steady : ProbeMode

abbrev pub is_steady : ProbeMode → Bool
is_steady full_probe = false
is_steady identify_only = false
is_steady steady = true

abbrev pub is_identify : ProbeMode → Bool
is_identify full_probe = false
is_identify identify_only = true
is_identify steady = false

-- QCA_UART_EVENT_TRACE_SLOTS, QCA_UART_EVENT_TRACE_STRIDE, QCA_UART_ADV_TABLE_SLOTS and
-- QCA_UART_SCO_LINK_BYTES.
abbrev pub trace_slots : ℕ
trace_slots = 128

abbrev pub trace_stride : ℕ
trace_stride = 8

abbrev pub adv_slots : ℕ
adv_slots = 48

abbrev pub sco_link_bytes : ℕ
sco_link_bytes = 20

-- QCA_ADV_SEEN.
pub record AdvSeen : Type 0 where
  pub address : List ℕ
  pub address_type : ℕ
  pub event_type : ℕ
  pub count : ℕ

-- PendingNotifyMask.
pub record Notify : Type 0 where
  pub event : Bool
  pub acl : Bool
  pub sco : Bool

abbrev pub no_notify : Notify
no_notify = record { event = false; acl = false; sco = false }

-- QCA_UART. AdvSeen[0..AdvSeenCount) is one list, as are the buffers with their lengths.
pub record Uart : Type 0 where
  pub probe_mode : ProbeMode
  pub phase : ℕ
  pub identify : Identify
  pub last_identify_packet : List ℕ
  pub fsm : Fsm
  pub fsm_waiting : Bool
  pub fsm_matched : Bool
  pub fsm_event : Bool
  pub last_reset_event : List ℕ
  pub reset_captured : Bool
  pub segments_acked : ℕ
  pub bridge : Bridge
  pub route : ScoRoute
  pub notify : Notify
  pub event_trace : List (List ℕ)
  pub event_trace_count : ℕ
  pub adv_reports : ℕ
  pub adv_seen : List AdvSeen
  pub sco_link_event : List ℕ
  pub sco_link_events : ℕ
  pub tx_awake : Bool
  pub ack_pending : Bool
  pub wake_ind_rx : ℕ
  pub sleep_ind_rx : ℕ
  pub work_event : Bool
  pub ack_event : Bool

-- QcaUartOnIbsByte: whether the byte is claimed.
unfoldable pub on_ibs_byte : Uart → ℕ → Bool × Uart
on_ibs_byte u b =
    if not (is_steady u.probe_mode) || u.phase != 2
    then (false, u)
    else if b == 0xFD
    then (
      true,
      record u { wake_ind_rx = inc32 u.wake_ind_rx; ack_pending = true; work_event = true },
    )
    else if b == 0xFE
    then (true, record u { sleep_ind_rx = inc32 u.sleep_ind_rx })
    else if b == 0xFC
    then (true, record u { tx_awake = true; ack_event = true })
    else (false, u)

-- The advertiser of a report with a single entry, none for any other report.
unfoldable pub advertiser_of : List ℕ → Option AdvSeen
advertiser_of p =
    if byte p 2 == 0x0D
    then (if ltb (length p) 13 || byte p 3 != 1
        then none
        else some (record {
          address = take 6 (drop 7 p);
          address_type = byte p 6;
          event_type = byte p 4;
          count = 1;
        }))
    else if ltb (length p) 12 || byte p 3 != 1
    then none
    else some (record {
      address = take 6 (drop 6 p);
      address_type = byte p 5;
      event_type = byte p 4;
      count = 1;
    })

-- RtlEqualMemory.
abbrev pub same_bytes : List ℕ → List ℕ → Bool
same_bytes [] [] = true
same_bytes [] (y ∷ ys) = false
same_bytes (x ∷ xs) [] = false
same_bytes (x ∷ xs) (y ∷ ys) = x == y && same_bytes xs ys

abbrev pub same_advertiser : AdvSeen → AdvSeen → Bool
same_advertiser a b = a.address_type == b.address_type && same_bytes a.address b.address

-- One more report of the advertiser: counted in its entry, or else, if there is room, a new one.
unfoldable pub count_advertiser : ℕ → List AdvSeen → AdvSeen → List AdvSeen
count_advertiser room [] new = if room == 0 then [] else new ∷ []
count_advertiser room (a ∷ seen) new =
    let rest = count_advertiser (room - 1) seen new in
    if same_advertiser a new
    then record a { event_type = new.event_type; count = inc32 a.count } ∷ seen
    else a ∷ rest

-- QcaUartNoteAdvertiser.
unfoldable pub note_advertiser : Uart → List ℕ → Uart
note_advertiser u payload = elim (advertiser_of payload) [
  | none ↦ u
  | some new ↦ record u { adv_seen = count_advertiser adv_slots u.adv_seen new }
]

unfoldable pub is_adv_report : List ℕ → Bool
is_adv_report p =
    leb 3 (length p)
    && byte p 0 == 0x3E
    && (byte p 2 == 0x02 || byte p 2 == 0x0B || byte p 2 == 0x0D)

-- The first bytes in a slot of zeros.
abbrev pub in_slot : ℕ → List ℕ → List ℕ
in_slot size p = take size (p ++ replicate size 0)

-- Advertising reports are counted, other events traced.
unfoldable pub trace_event : Uart → List ℕ → Uart
trace_event u p =
    if is_adv_report p
    then note_advertiser (record u { adv_reports = inc32 u.adv_reports }) p
    else record u {
      event_trace = set u.event_trace (u.event_trace_count % trace_slots) (in_slot trace_stride p);
      event_trace_count = inc32 u.event_trace_count;
    }

-- The latest synchronous link event is kept whole.
unfoldable pub keep_link_event : Uart → List ℕ → Uart
keep_link_event u p =
    if byte p 0 == 0x2C || byte p 0 == 0x2D
    then record u {
      sco_link_event = in_slot sco_link_bytes p;
      sco_link_events = inc32 u.sco_link_events;
    }
    else u

-- Write_LE_Host_Support was refused as an unsupported parameter.
unfoldable pub is_le_host_refusal : List ℕ → Bool
is_le_host_refusal p =
    length p == 6
    && byte p 0 == 0x0E
    && byte p 1 == 4
    && byte p 3 == 0x6D
    && byte p 4 == 0x0C
    && byte p 5 == 0x11

-- The event that the host gets for the controller's.
unfoldable pub host_event : ScoRoute → List ℕ → ScoRoute × List ℕ
host_event r p =
    let (r', event, done) = restore_event r p in
    if is_le_host_refusal p
    then (r, set p 5 0)
    else if length p == 6
    then (r', if done then event else p)
    else (r, p)

unfoldable pub mark : Notify → Stream → Notify
mark n Stream.event = record n { event = true }
mark n Stream.acl = record n { acl = true }
mark n Stream.sco = record n { sco = true }

-- A packet into the bridge, with the notification that it asks for.
unfoldable pub to_bridge : Uart → Stream → List ℕ → Uart
to_bridge u s p =
    let (b, queued) = on_inbound u.bridge s p in
    record u { bridge = b; notify = if queued then mark u.notify s else u.notify }

unfoldable pub on_steady_packet : Uart → ℕ → List ℕ → Uart
on_steady_packet u type p =
    let noted = keep_link_event (trace_event u p) p in
    let (r, event) = host_event noted.route p in
    if type == pkt_event
    then to_bridge (record noted { route = r }) Stream.event event
    else if type == pkt_acl
    then to_bridge u Stream.acl p
    else if type == pkt_sco
    then to_bridge u Stream.sco p
    else u

-- An event that answers HCI_Reset is kept.
unfoldable pub keep_reset_event : Uart → ℕ → List ℕ → Uart
keep_reset_event u type p =
    if state_index u.fsm.state == state_index State.hci_reset && type == pkt_event
    then record u { last_reset_event = take 257 p; reset_captured = true }
    else u

abbrev pub is_download : State → Bool
is_download s =
    state_index s == state_index State.patch_download
    || state_index s == state_index State.nvm_download

unfoldable pub on_bringup_packet : Uart → ℕ → List ℕ → Uart
on_bringup_packet u type p =
    let kept = keep_reset_event u type p in
    let (handled, fsm) = Events.on_packet u.fsm (type ∷ p) in
    if ltb 258 (length p + 1)
    then u
    else if not u.fsm_waiting
    then kept
    else if not handled
    then record kept { fsm = fsm }
    else record kept {
      fsm = fsm;
      segments_acked = if is_download u.fsm.state then inc32 u.segments_acked else u.segments_acked;
      fsm_waiting = false;
      fsm_matched = true;
      fsm_event = true;
    }

unfoldable pub on_identify_packet : Uart → ℕ → List ℕ → Uart
on_identify_packet u type p =
    let (identify, matched) = Identify.on_packet u.identify (type ∷ p) in
    if not u.fsm_waiting || ltb 258 (length p + 1)
    then u
    else if matched
    then record u {
      identify = identify;
      last_identify_packet = take 258 (type ∷ p);
      fsm_matched = true;
      fsm_event = true;
    }
    else record u { identify = identify }

-- QcaUartOnH4Packet.
unfoldable pub on_h4_packet : Uart → ℕ → List ℕ → Uart
on_h4_packet u type p =
    if is_identify u.probe_mode
    then on_identify_packet u type p
    else if u.phase == 1
    then on_bringup_packet u type p
    else if u.phase == 2
    then on_steady_packet u type p
    else u

-- QcaUartReadCompletion, the part under the lock: the decoder and the state after the bytes of a
-- read, and the streams that are to be notified.
unfoldable pub read_bytes : Decoder → Uart → List ℕ → Decoder × Uart × Notify
read_bytes d u bytes =
    let (d', u') = feed on_h4_packet (some on_ibs_byte) d u bytes in
    (d', record u' { notify = no_notify }, u'.notify)
