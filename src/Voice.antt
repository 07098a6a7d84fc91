-- ===== src/Voice.antt =====
-- src/driver/endpoints.c, voice on the isochronous endpoints: the state that a transfer and the
-- pacing timer share. An isochronous transfer is its packets with its buffer; the transport is a
-- parameter.
pub mod Accept
pub mod Tick
pub mod Sections
pub mod Armed
pub mod Order
pub mod Slots
pub mod Arrivals
pub mod Overtaking
pub mod Parking
pub mod Filling
pub mod Configure
mod Examples
use virt_bth_usb.Common.{
  ℕ, ◌+◌, ◌-◌, ◌%◌, ◌^◌, Bool, false, Option, none, some, List, [], length, ◌==◌,
}
use virt_bth_usb.Common.{not, ◌||◌, if◌then◌else◌}
use virt_bth_usb.ScoUsb.Out.{ScoOut, out_reset}
use virt_bth_usb.ScoUsb.In.{ScoIn, in_reset}

-- The statuses that an isochronous packet or a transfer is given.
pub data UsbdStatus : Type 0 where
  success data_overrun invalid_parameter cancelled : UsbdStatus

abbrev pub add64 : ℕ → ℕ → ℕ
add64 a b = (a + b) % 2 ^ 64

abbrev pub sub64 : ℕ → ℕ → ℕ
sub64 a b = (a + 2 ^ 64 - b) % 2 ^ 64

-- An element of IsoPacket.
pub record IsoPacket : Type 0 where
  pub offset : ℕ
  pub size : ℕ
  pub status : UsbdStatus

-- _URB_ISOCH_TRANSFER with the buffer of the transfer.
pub record Isoch : Type 0 where
  pub packets : List IsoPacket
  pub buffer : List ℕ
  pub transfer_flags : ℕ
  pub status : UsbdStatus
  pub error_count : ℕ

-- What a request holds: whether its URB is an isochronous transfer, and its buffer, if there is one.
pub record ScoRequest : Type 0 where
  pub is_isoch : Bool
  pub packets : List IsoPacket
  pub buffer : Option (List ℕ)
  pub transfer_flags : ℕ

unfoldable pub with_buffer : ScoRequest → Option (List ℕ) → Option Isoch
with_buffer r none = none
with_buffer r (some bytes) = some (record {
  packets = r.packets;
  buffer = bytes;
  transfer_flags = r.transfer_flags;
  status = success;
  error_count = 0;
})

-- DeckBtScoUrb.
unfoldable pub sco_urb : ScoRequest → Option Isoch
sco_urb r = if not r.is_isoch || length r.packets == 0 then none else with_buffer r r.buffer

-- DECKBT_SCO_STATS, but for the two of the alternate setting.
pub record ScoStats : Type 0 where
  pub out_max_packet : ℕ
  pub in_max_packet : ℕ
  pub out_urbs : ℕ
  pub in_urbs : ℕ
  pub out_iso_packets : ℕ
  pub in_iso_packets : ℕ
  pub out_bytes : ℕ
  pub in_bytes : ℕ
  pub out_hci_packets : ℕ
  pub out_rejected : ℕ
  pub out_ring_drops : ℕ
  pub out_resync_skips : ℕ
  pub in_hci_packets : ℕ
  pub in_source_packets : ℕ
  pub in_source_rejected : ℕ
  pub in_dropped_bytes : ℕ
  pub in_last_source_length : ℕ
  pub bad_urbs : ℕ
  pub unpaced_urbs : ℕ
  pub flushed : ℕ
  pub first_out_geometry : ℕ
  pub first_in_geometry : ℕ
  pub last_transfer_flags : ℕ
  pub max_late_us : ℕ
  pub last_out_header : ℕ

-- The counters of a controller whose context was just made.
abbrev pub no_stats : ScoStats
no_stats = record {
  out_max_packet = 0;
  in_max_packet = 0;
  out_urbs = 0;
  in_urbs = 0;
  out_iso_packets = 0;
  in_iso_packets = 0;
  out_bytes = 0;
  in_bytes = 0;
  out_hci_packets = 0;
  out_rejected = 0;
  out_ring_drops = 0;
  out_resync_skips = 0;
  in_hci_packets = 0;
  in_source_packets = 0;
  in_source_rejected = 0;
  in_dropped_bytes = 0;
  in_last_source_length = 0;
  bad_urbs = 0;
  unpaced_urbs = 0;
  flushed = 0;
  first_out_geometry = 0;
  first_in_geometry = 0;
  last_transfer_flags = 0;
  max_late_us = 0;
  last_out_header = 0;
}

-- DECKBT_SCO_REQUEST, with the transfer that it is parked for.
pub record Parked : Type 0 where
  pub due : ℕ
  pub bytes : ℕ
  pub status : UsbdStatus
  pub max_packet_size : ℕ
  pub isoch : Isoch

-- The fields of DECKBT_CONTROLLER for voice; the two queues with the oldest transfer first.
pub record Voice (T : Type 0) : Type 0 where
  pub transport : T
  pub out_queue : List Parked
  pub in_queue : List Parked
  pub timer_armed : Bool
  pub out_clock : ℕ
  pub in_clock : ℕ
  pub sco_out : ScoOut
  pub sco_in : ScoIn
  pub stats : ScoStats

-- HciTransportSubmitSco and, for HciStreamSco, HciTransportPopStream.
pub record ScoTransport (T : Type 0) : Type 0 where
  pub submit_sco : T → List ℕ → T × Bool
  pub pop_sco : T → Option (List ℕ × T)

-- A completed transfer: its status, the bytes completed, its packets and, for an IN transfer that
-- was filled, the bytes of each.
pub record Completed : Type 0 where
  pub status : UsbdStatus
  pub bytes : ℕ
  pub packets : List IsoPacket
  pub voice : List (List ℕ)
