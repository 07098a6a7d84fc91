-- ===== src/Bridge/Submit.antt =====
-- src/common/hci_bridge.c, host to controller: the readiness switch and the three submit
-- operations of HCI_TRANSPORT_OPS.
use virt_bth_usb.Common.{ℕ, zero, suc, ◌+◌, ◌-◌, ◌*◌, ◌%◌, Bool, true, false, not, none, some}
use virt_bth_usb.Common.{
  List, ◌==◌, leb, ◌&&◌, if◌then◌else◌, inc32, add16, byte, length, get_or, set,
}
use virt_bth_usb.Fifo.{front, drop_front, append_back}
use virt_bth_usb.Bridge.{
  Bridge, WireOps, free_entry, max_command_size, max_acl_size, max_sco_size, sco_out_fifo_depth,
}
use virt_bth_usb.Bridge.Credits.{reserve_handle_slot}

-- The framing tests of a command, an ACL and a SCO packet.
unfoldable pub is_command : List ℕ → Bool
is_command p = leb 3 (length p) && length p == 3 + byte p 2 && leb (length p) max_command_size

unfoldable pub is_acl : List ℕ → Bool
is_acl p =
    leb 4 (length p) && length p == 4 + byte p 2 + byte p 3 * 256 && leb (length p) max_acl_size

unfoldable pub is_sco : List ℕ → Bool
is_sco p = leb 3 (length p) && length p == 3 + byte p 2 && leb (length p) max_sco_size

-- The 12-bit handle at offset `i`.
unfoldable pub handle_at : List ℕ → ℕ → ℕ
handle_at p i = (byte p i + byte p (i + 1) * 256) % 4096

module _ {W : Type 0} (ops : WireOps W) where
  -- The while loop of HciBridgeDrainOutboundSco, over at most `n` queued packets.
  unfoldable pub drain : (W → List ℕ → W × Bool) → ℕ → Bridge → W → Bridge × W
  drain send_sco zero b w = (b, w)
  drain send_sco (suc n) b w =
      let (w', ok) = send_sco w (front b.outbound_sco_fifo) in
      let c = b.counters in
      let rest =
        drain send_sco n
          (record b {
            outbound_sco_fifo = drop_front sco_out_fifo_depth b.outbound_sco_fifo;
            counters = record c { sco_sent_to_wire = inc32 c.sco_sent_to_wire };
          })
          w' in
      if ok then rest else (b, w')

  unfoldable pub drain_outbound_sco : Bridge → W → Bridge × W
  drain_outbound_sco b w = elim ops.send_sco [
    | none ↦ (b, w)
    | some send_sco ↦ drain send_sco b.outbound_sco_fifo.count b w
  ]

  -- The verdict, with what the counters say about it.
  unfoldable pub forward_command : Bridge → W → List ℕ → (Bridge × W) × Bool
  forward_command b w packet = elim ops.send_command [
    | none ↦ ((b, w), false)
    | some send_command ↦
        let (w', ok) = send_command w packet in
        let c = b.counters in
        if ok
        then (
          (
            record b {
              counters = record c { commands_sent_to_wire = inc32 c.commands_sent_to_wire };
            },
            w',
          ),
          true,
        )
        else (
          (
            record b {
              counters = record c { commands_failed_wire = inc32 c.commands_failed_wire };
            },
            w',
          ),
          false,
        )
  ]

  unfoldable pub replay : Bridge → W → Bridge × W
  replay b w =
      let c = b.counters in
      if b.held_command_pending
      then (forward_command
          (record b {
            held_command_pending = false;
            counters = record c { commands_replayed = inc32 c.commands_replayed };
          })
          w b.held_command).0
      else (b, w)

  unfoldable pub set_ready : Bridge → W → Bool → Bridge × W
  set_ready b w ready =
      let (b', w') = replay (record b { ready = ready }) w in
      if not b.ready && ready then drain_outbound_sco b' w' else (record b { ready = ready }, w)

  unfoldable pub submit_command : Bridge → W → List ℕ → (Bridge × W) × Bool
  submit_command b w packet =
      let c = b.counters in
      let c' = record c { commands_submitted = inc32 c.commands_submitted } in
      if not (is_command packet)
      then (
        (record b { counters = record c { commands_dropped = inc32 c.commands_dropped } }, w),
        false,
      )
      else if not b.ready
      then (
        (
          record b {
            held_command = packet;
            held_command_pending = true;
            counters = record c' {
              commands_held = inc32 c'.commands_held;
              commands_held_overwritten =
                  if b.held_command_pending
                  then inc32 c'.commands_held_overwritten
                  else c'.commands_held_overwritten;
            };
          },
          w,
        ),
        true,
      )
      else forward_command (record b { counters = c' }) w packet

  -- The packet has a slot in the handle table.
  unfoldable pub send_reserved : Bridge → W → List ℕ → ℕ → (Bridge × W) × Bool
  send_reserved b w packet slot = elim ops.send_acl [
    | none ↦ ((b, w), false)
    | some send_acl ↦
        let (w', ok) = send_acl w packet in
        let c = b.counters in
        let e = get_or b.handles slot free_entry in
        if ok
        then (
          (
            record b {
              available_acl_credits = b.available_acl_credits - 1;
              handles = set b.handles slot (record e { outstanding = add16 e.outstanding 1 });
              counters = record c { acl_sent_to_wire = inc32 c.acl_sent_to_wire };
            },
            w',
          ),
          true,
        )
        else (
          (
            record b {
              counters = record c { acl_dropped_wire_failed = inc32 c.acl_dropped_wire_failed };
            },
            w',
          ),
          false,
        )
  ]

  unfoldable pub send_with_credit : Bridge → W → List ℕ → (Bridge × W) × Bool
  send_with_credit b w packet =
      let (b', slot) = reserve_handle_slot b (handle_at packet 0) in
      let c = b'.counters in
      elim slot [
        | none ↦ (
          (
            record b' {
              counters = record c {
                acl_dropped_no_handle_slot = inc32 c.acl_dropped_no_handle_slot;
              };
            },
            w,
          ),
          false,
        )
        | some i ↦ send_reserved b' w packet i
      ]

  unfoldable pub submit_acl : Bridge → W → List ℕ → (Bridge × W) × Bool
  submit_acl b w packet =
      let c = record b.counters { acl_submitted = inc32 b.counters.acl_submitted } in
      if not (is_acl packet)
      then ((b, w), false)
      else if not b.ready
      then (
        (
          record b {
            counters = record c { acl_out_dropped_not_ready = inc32 c.acl_out_dropped_not_ready };
          },
          w,
        ),
        false,
      )
      else if b.available_acl_credits == 0
      then (
        (
          record b {
            counters = record c { acl_dropped_no_credit = inc32 c.acl_dropped_no_credit };
          },
          w,
        ),
        false,
      )
      else send_with_credit (record b { counters = c }) w packet

  -- The oldest packet goes if the queue is full, and the new one comes in.
  unfoldable pub enqueue_outbound_sco : Bridge → List ℕ → Bridge
  enqueue_outbound_sco b packet =
      let c = b.counters in
      let f = b.outbound_sco_fifo in
      if leb sco_out_fifo_depth f.count
      then record b {
        outbound_sco_fifo = append_back sco_out_fifo_depth (drop_front sco_out_fifo_depth f) packet;
        counters = record c { sco_outbound_overwrites = inc32 c.sco_outbound_overwrites };
      }
      else record b { outbound_sco_fifo = append_back sco_out_fifo_depth f packet }

  unfoldable pub submit_sco : Bridge → W → List ℕ → (Bridge × W) × Bool
  submit_sco b w packet =
      let c = record b.counters { sco_submitted = inc32 b.counters.sco_submitted } in
      if not (is_sco packet)
      then ((b, w), false)
      else if not b.ready
      then (
        (
          record b {
            counters = record c { sco_out_dropped_not_ready = inc32 c.sco_out_dropped_not_ready };
          },
          w,
        ),
        false,
      )
      else (drain_outbound_sco (enqueue_outbound_sco (record b { counters = c }) packet) w, true)
