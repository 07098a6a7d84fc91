-- ===== src/ScoUsb.antt =====
-- src/common/sco_usb.c: SCO voice between isochronous packets and HCI SCO packets. This file has the
-- parts that both directions share and the pacing of transfers; times are unsigned 64-bit counts of
-- 100 ns.
pub mod Out
pub mod In
pub mod Pacing
mod Examples
use virt_bth_usb.Common.{ℕ, ◌+◌, ◌*◌, ◌%◌, ◌^◌, List, byte, ltb, leb, ◌&&◌, if◌then◌else◌}

-- SCO_USB_HEADER_SIZE, SCO_USB_MAX_ISO_PACKET, SCO_USB_FRAME_100NS and SCO_USB_MSBC_FRAME_100NS.
abbrev pub header_size : ℕ
header_size = 3

abbrev pub max_iso_packet : ℕ
max_iso_packet = 63

abbrev pub frame_100ns : ℕ
frame_100ns = 10000

abbrev msbc_frame_100ns : ℕ
msbc_frame_100ns = 75000

-- The connection handle in the first two bytes of a packet.
unfoldable pub handle_of : List ℕ → ℕ
handle_of header = (byte header 0 + byte header 1 * 256) % 4096

-- The clock is its NextFree; the new one is also the completion time.
unfoldable pub schedule : ℕ → ℕ → ℕ → ℕ
schedule next_free now span =
    let start = if ltb now next_free then next_free else now in (start + span) % 2 ^ 64

unfoldable pub out_packet_span : ℕ → ℕ → ℕ
out_packet_span max_packet_size length =
    if leb max_iso_packet max_packet_size && ltb header_size length
    then msbc_frame_100ns
    else frame_100ns
