-- ===== src/Bridge/Inbound.antt =====
-- src/common/hci_bridge.c, controller to host: the three feeds of the wire layer, and the stream
-- operations of HCI_TRANSPORT_OPS that the front end polls.
use virt_bth_usb.Common.{ℕ, zero, suc, ◌+◌, ◌*◌, ◌/◌, Bool, true, false, not, Option, none, some}
use virt_bth_usb.Common.{
  List, ◌==◌, ltb, leb, ◌&&◌, ◌||◌, if◌then◌else◌, inc32, byte, le16, length, replicate,
}
use virt_bth_usb.Fifo.{front, drop_front, append_back}
use virt_bth_usb.Bridge.{
  Bridge, free_entry, max_event_size, event_fifo_depth, acl_in_fifo_depth, sco_fifo_depth,
  max_handles,
}
use virt_bth_usb.Bridge.Credits.{clamp_credits, record_acl_completed, record_disconnection}
use virt_bth_usb.Bridge.Submit.{is_acl, is_sco, handle_at}

unfoldable pub is_event : List ℕ → Bool
is_event p = leb 2 (length p) && length p == 2 + byte p 1 && leb (length p) max_event_size

-- Read_Buffer_Size told the controller's number of ACL buffers.
unfoldable pub set_acl_buffers : Bridge → ℕ → Bridge
set_acl_buffers b total = clamp_credits (
    if b.total_acl_buffers == 0
    then record b {
      handles = replicate max_handles free_entry;
      available_acl_credits = total;
      total_acl_buffers = total;
    }
    else record b { total_acl_buffers = total })

unfoldable pub snoop_buffer_size : Bridge → List ℕ → Bridge
snoop_buffer_size b p =
    if byte p 0 == 0x0E
      && leb 11 (length p)
      && le16 p 3 == 0x1005
      && byte p 5 == 0x00
      && leb 13 (length p)
    then set_acl_buffers b (le16 p 9)
    else b

-- The loop over the `n` handles of Number_Of_Completed_Packets that are left, from entry `i` on.
unfoldable pub complete_each : ℕ → ℕ → Bridge → List ℕ → Bridge
complete_each zero i b p = b
complete_each (suc n) i b p =
    let off = 3 + i * 4 in
    complete_each n (i + 1) (record_acl_completed b (handle_at p off) (le16 p (off + 2))) p

unfoldable pub snoop_completed : Bridge → List ℕ → Bridge
snoop_completed b p =
    if byte p 0 == 0x13 && leb 3 (length p) && leb (3 + byte p 2 * 4) (length p)
    then complete_each (byte p 2) 0 b p
    else b

unfoldable pub snoop_disconnection : Bridge → List ℕ → Bridge
snoop_disconnection b p =
    if byte p 0 == 0x05 && leb 6 (length p) && byte p 2 == 0x00
    then record_disconnection b (handle_at p 3)
    else b

-- A Command Complete or Command Status of a vendor opcode (OGF 0x3F).
unfoldable pub is_vendor_answer : List ℕ → Bool
is_vendor_answer p =
    (byte p 0 == 0x0E && leb 5 (length p) && le16 p 3 / 1024 == 0x3F)
    || (byte p 0 == 0x0F && leb 6 (length p) && le16 p 4 / 1024 == 0x3F)

unfoldable pub suppress : Bridge → Bridge
suppress b =
    let c = b.counters in
    record b { counters = record c { events_suppressed_vendor = inc32 c.events_suppressed_vendor } }

unfoldable pub queue_event : Bridge → List ℕ → Bridge × Bool
queue_event b p =
    let c = b.counters in
    if not b.ready
    then (
      record b {
        counters = record c { events_dropped_not_ready = inc32 c.events_dropped_not_ready };
      },
      false,
    )
    else if leb event_fifo_depth b.event_fifo.count
    then (
      record b {
        counters = record c { events_dropped_fifo_full = inc32 c.events_dropped_fifo_full };
      },
      false,
    )
    else (
      record b {
        event_fifo = append_back event_fifo_depth b.event_fifo p;
        counters = record c { events_queued = inc32 c.events_queued };
      },
      true,
    )

unfoldable pub count_event : Bridge → Bridge
count_event b =
    let c = b.counters in
    record b { counters = record c { events_received = inc32 c.events_received } }

-- The credit accounting that every event goes through.
unfoldable pub snoop : Bridge → List ℕ → Bridge
snoop b p = snoop_disconnection (snoop_completed (snoop_buffer_size b p) p) p

unfoldable pub on_event : Bridge → List ℕ → Bridge × Bool
on_event b p =
    if not (is_event p)
    then (b, false)
    else if byte p 0 == 0xFF
    then (suppress (count_event b), false)
    else if is_vendor_answer p
    then (suppress (snoop (count_event b) p), false)
    else queue_event (snoop (count_event b) p) p

unfoldable pub on_acl : Bridge → List ℕ → Bridge × Bool
on_acl b p =
    let c = record b.counters { acl_received = inc32 b.counters.acl_received } in
    if not (is_acl p)
    then (b, false)
    else if not b.ready
    then (
      record b {
        counters = record c { acl_in_dropped_not_ready = inc32 c.acl_in_dropped_not_ready };
      },
      false,
    )
    else if leb acl_in_fifo_depth b.acl_in_fifo.count
    then (
      record b { counters = record c { acl_dropped_fifo_full = inc32 c.acl_dropped_fifo_full } },
      false,
    )
    else (
      record b {
        acl_in_fifo = append_back acl_in_fifo_depth b.acl_in_fifo p;
        counters = record c { acl_queued = inc32 c.acl_queued };
      },
      true,
    )

-- The oldest packet goes if the queue is full, and the new one comes in.
unfoldable pub enqueue_sco_in : Bridge → List ℕ → Bridge
enqueue_sco_in b p =
    let c = record b.counters { sco_queued = inc32 b.counters.sco_queued } in
    let f = b.sco_in_fifo in
    if leb sco_fifo_depth f.count
    then record b {
      sco_in_fifo = append_back sco_fifo_depth (drop_front sco_fifo_depth f) p;
      counters = record c { sco_inbound_overwrites = inc32 c.sco_inbound_overwrites };
    }
    else record b { sco_in_fifo = append_back sco_fifo_depth f p; counters = c }

unfoldable pub on_sco : Bridge → List ℕ → Bridge × Bool
on_sco b p =
    let c = record b.counters { sco_received = inc32 b.counters.sco_received } in
    if not (is_sco p)
    then (b, false)
    else if not b.ready
    then (
      record b { counters = record c { sco_dropped_not_ready = inc32 c.sco_dropped_not_ready } },
      false,
    )
    else (enqueue_sco_in (record b { counters = c }) p, true)

-- HCI_STREAM.
pub data Stream : Type 0 where
  event acl sco : Stream

unfoldable pub on_inbound : Bridge → Stream → List ℕ → Bridge × Bool
on_inbound b event p = on_event b p
on_inbound b acl p = on_acl b p
on_inbound b sco p = on_sco b p

unfoldable pub has_stream : Bridge → Stream → Bool
has_stream b event = ltb 0 b.event_fifo.count
has_stream b acl = ltb 0 b.acl_in_fifo.count
has_stream b sco = ltb 0 b.sco_in_fifo.count

-- `some packet` where the function returns 1: Buffer[0..*Written).
unfoldable pub pop_stream : Bridge → Stream → ℕ → Bridge × Option (List ℕ)
pop_stream b event capacity =
    if b.event_fifo.count == 0
    then (b, none)
    else if ltb capacity (length (front b.event_fifo))
    then (b, none)
    else (
      record b { event_fifo = drop_front event_fifo_depth b.event_fifo },
      some (front b.event_fifo),
    )
pop_stream b acl capacity =
    if b.acl_in_fifo.count == 0
    then (b, none)
    else if ltb capacity (length (front b.acl_in_fifo))
    then (b, none)
    else (
      record b { acl_in_fifo = drop_front acl_in_fifo_depth b.acl_in_fifo },
      some (front b.acl_in_fifo),
    )
pop_stream b sco capacity =
    let dropped = drop_front sco_fifo_depth b.sco_in_fifo in
    let c = b.counters in
    if b.sco_in_fifo.count == 0
    then (b, none)
    else if ltb capacity (length (front b.sco_in_fifo))
    then (
      record b {
        sco_in_fifo = dropped;
        counters = record c {
          sco_inbound_discarded_oversize = inc32 c.sco_inbound_discarded_oversize;
        };
      },
      none,
    )
    else (record b { sco_in_fifo = dropped }, some (front b.sco_in_fifo))
