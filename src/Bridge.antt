-- ===== src/Bridge.antt =====
-- src/common/hci_bridge.c and src/include/hci_bridge.h: the bridge between the USB front end and
-- the controller's wire. The bridge is a value; the wire's operations are parameters that take and
-- return the wire's own state `W`. A packet with its length is a list of bytes. The NULL guards on
-- the transport, the bridge and the packet have no counterpart; the NULL guards on the wire's
-- operations have.
pub mod Credits
pub mod Submit
pub mod Inbound
pub mod Accounting
pub mod Rings
pub mod Exact
pub mod Calls
pub mod Invariant
pub mod Untouched
pub mod Reachable
pub mod Conservation
pub mod Replay
pub mod Delivery
mod Examples
use virt_bth_usb.Common.{
  ℕ, zero, suc, ◌+◌, ◌-◌, ◌*◌, ◌/◌, ◌%◌, ◌^◌, Bool, true, false, not, Option, none, some,
}
use virt_bth_usb.Common.{
  List, [], ◌∷◌, ◌==◌, ltb, leb, ◌&&◌, ◌||◌, if◌then◌else◌, add16, get_or, set, replicate,
}
use virt_bth_usb.Fifo.{Fifo, empty_fifo, rewind}

-- HCI_BRIDGE_WIRE_OPS; `none` for a NULL table or entry.
pub record WireOps (W : Type 0) : Type 0 where
  pub send_command : Option (W → List ℕ → W × Bool)
  pub send_acl : Option (W → List ℕ → W × Bool)
  pub send_sco : Option (W → List ℕ → W × Bool)

abbrev pub max_command_size : ℕ
max_command_size = 258

abbrev pub max_event_size : ℕ
max_event_size = 260

abbrev pub max_acl_size : ℕ
max_acl_size = 1028

abbrev pub max_sco_size : ℕ
max_sco_size = 258

abbrev pub event_fifo_depth : ℕ
event_fifo_depth = 16

abbrev pub acl_in_fifo_depth : ℕ
acl_in_fifo_depth = 8

abbrev pub sco_fifo_depth : ℕ
sco_fifo_depth = 8

abbrev pub sco_out_fifo_depth : ℕ
sco_out_fifo_depth = 8

abbrev pub max_handles : ℕ
max_handles = 8

pub record HandleEntry : Type 0 where
  pub handle : ℕ
  pub outstanding : ℕ
  pub in_use : Bool

abbrev pub free_entry : HandleEntry
free_entry = record { handle = 0; outstanding = 0; in_use = false }

pub record Counters : Type 0 where
  pub commands_submitted : ℕ
  pub commands_held : ℕ
  pub commands_held_overwritten : ℕ
  pub commands_replayed : ℕ
  pub commands_sent_to_wire : ℕ
  pub commands_failed_wire : ℕ
  pub commands_dropped : ℕ
  pub acl_submitted : ℕ
  pub acl_sent_to_wire : ℕ
  pub acl_out_dropped_not_ready : ℕ
  pub acl_dropped_no_credit : ℕ
  pub acl_dropped_wire_failed : ℕ
  pub acl_dropped_no_handle_slot : ℕ
  pub sco_submitted : ℕ
  pub sco_sent_to_wire : ℕ
  pub sco_outbound_overwrites : ℕ
  pub sco_inbound_overwrites : ℕ
  pub sco_out_dropped_not_ready : ℕ
  pub events_received : ℕ
  pub events_queued : ℕ
  pub events_suppressed_vendor : ℕ
  pub events_dropped_not_ready : ℕ
  pub events_dropped_fifo_full : ℕ
  pub acl_received : ℕ
  pub acl_queued : ℕ
  pub acl_in_dropped_not_ready : ℕ
  pub acl_dropped_fifo_full : ℕ
  pub sco_received : ℕ
  pub sco_queued : ℕ
  pub sco_dropped_not_ready : ℕ
  pub sco_inbound_discarded_oversize : ℕ
  pub resets : ℕ

abbrev pub no_counts : Counters
no_counts = record {
  commands_submitted = 0;
  commands_held = 0;
  commands_held_overwritten = 0;
  commands_replayed = 0;
  commands_sent_to_wire = 0;
  commands_failed_wire = 0;
  commands_dropped = 0;
  acl_submitted = 0;
  acl_sent_to_wire = 0;
  acl_out_dropped_not_ready = 0;
  acl_dropped_no_credit = 0;
  acl_dropped_wire_failed = 0;
  acl_dropped_no_handle_slot = 0;
  sco_submitted = 0;
  sco_sent_to_wire = 0;
  sco_outbound_overwrites = 0;
  sco_inbound_overwrites = 0;
  sco_out_dropped_not_ready = 0;
  events_received = 0;
  events_queued = 0;
  events_suppressed_vendor = 0;
  events_dropped_not_ready = 0;
  events_dropped_fifo_full = 0;
  acl_received = 0;
  acl_queued = 0;
  acl_in_dropped_not_ready = 0;
  acl_dropped_fifo_full = 0;
  sco_received = 0;
  sco_queued = 0;
  sco_dropped_not_ready = 0;
  sco_inbound_discarded_oversize = 0;
  resets = 0;
}

-- HCI_BRIDGE, without the wire and the transport.
pub record Bridge : Type 0 where
  pub ready : Bool
  pub held_command : List ℕ
  pub held_command_pending : Bool
  pub event_fifo : Fifo
  pub acl_in_fifo : Fifo
  pub sco_in_fifo : Fifo
  pub outbound_sco_fifo : Fifo
  pub total_acl_buffers : ℕ
  pub available_acl_credits : ℕ
  pub handles : List HandleEntry
  pub counters : Counters

unfoldable pub bridge_init : Bridge
unfolding empty_fifo
bridge_init = record {
  ready = false;
  held_command = [];
  held_command_pending = false;
  event_fifo = empty_fifo event_fifo_depth;
  acl_in_fifo = empty_fifo acl_in_fifo_depth;
  sco_in_fifo = empty_fifo sco_fifo_depth;
  outbound_sco_fifo = empty_fifo sco_out_fifo_depth;
  total_acl_buffers = 0;
  available_acl_credits = 0;
  handles = replicate max_handles free_entry;
  counters = no_counts;
}

-- HciBridgeReset.
unfoldable pub bridge_reset : Bridge → Bridge
unfolding rewind
bridge_reset b = record b {
  held_command = [];
  held_command_pending = false;
  event_fifo = rewind b.event_fifo;
  acl_in_fifo = rewind b.acl_in_fifo;
  sco_in_fifo = rewind b.sco_in_fifo;
  outbound_sco_fifo = rewind b.outbound_sco_fifo;
  available_acl_credits = b.total_acl_buffers;
  handles = replicate max_handles free_entry;
  counters = record b.counters { resets = (b.counters.resets + 1) % 2 ^ 32 };
}
