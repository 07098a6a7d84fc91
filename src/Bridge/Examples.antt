-- ===== src/Bridge/Examples.antt =====
-- src/common/hci_bridge.c: concrete states and calls.
use virt_bth_usb.Bridge.Replay.{Replayed, submit_command-Replayed}
use virt_bth_usb.Bridge.Submit.{is_command, submit_command, set_ready}
use virt_bth_usb.Fifo.{empty_fifo}
use virt_bth_usb.Common.{ℕ, ◌+◌, ◌≡◌, refl, arith, true, false, some, List, [], ◌∷◌, All, replicate}
use virt_bth_usb.Bridge.{Bridge, WireOps, HandleEntry, free_entry, bridge_init}
use virt_bth_usb.Bridge.Inbound.{Stream, on_inbound, pop_stream}
use virt_bth_usb.Bridge.Accounting.{flying, IsBalanced}
use virt_bth_usb.Bridge.Exact.{IsExact}
use virt_bth_usb.Bridge.Calls.{Call, acl_out, inbound, poll, readiness, reset, run_calls}
use virt_bth_usb.Bridge.Rings.{IsSound, bridge_init-IsSound}
use virt_bth_usb.Bridge.Reachable.{IsByteCall, run_calls-init}
use virt_bth_usb.Bridge.Delivery.{
  waiting, accepts, attempt, poll_queue, on_inbound-attempt, pop_stream-poll_queue,
}

-- A wire that takes every packet and counts them.
abbrev some_wire : WireOps ℕ
some_wire = record {
  send_command = some (λ n p. (n + 1, true));
  send_acl = some (λ n p. (n + 1, true));
  send_sco = some (λ n p. (n + 1, false));
}

-- The host gets ready, learns of six ACL buffers, sends one packet on handle 1, is told that it was
-- sent, polls the event and resets.
abbrev some_calls : List Call
some_calls =
    readiness true
    ∷ inbound Stream.event (0x0E ∷ 11 ∷ 1 ∷ 5 ∷ 0x10 ∷ 0 ∷ 0xFD ∷ 3 ∷ 0x40 ∷ 6 ∷ 0 ∷ 8 ∷ 0 ∷ [])
    ∷ acl_out (1 ∷ 0 ∷ 1 ∷ 0 ∷ 9 ∷ [])
    ∷ inbound Stream.event (0x13 ∷ 5 ∷ 1 ∷ 1 ∷ 0 ∷ 1 ∷ 0 ∷ [])
    ∷ poll Stream.event 260
    ∷ reset
    ∷ []

some_calls-bytes : All IsByteCall some_calls
some_calls-bytes = ground arith

run_calls-init_example : IsSound (run_calls some_wire bridge_init 0 some_calls).0
run_calls-init_example = run_calls-init some_wire some_calls 0 some_calls-bytes

-- Six buffers, two packets in flight on handle 1.
abbrev busy_handles : List HandleEntry
busy_handles = record { handle = 1; outstanding = 2; in_use = true } ∷ replicate 7 free_entry

abbrev busy : Bridge
busy = record bridge_init {
  ready = true;
  total_acl_buffers = 6;
  available_acl_credits = 4;
  handles = busy_handles;
}

busy-flying : flying busy_handles ≡ 2
unfolding flying
busy-flying = refl

busy-IsBalanced : IsBalanced busy
busy-IsBalanced = record {
  table = refl;
  total_fits = omega arith;
  flying_fits = omega (arith, busy-flying);
  within = omega (arith, busy-flying);
}

busy-IsExact : IsExact busy
busy-IsExact = omega (arith, busy-flying)

abbrev disconnected : List ℕ
disconnected = 0x05 ∷ 4 ∷ 0 ∷ 1 ∷ 0 ∷ 0x13 ∷ []

on_inbound-attempt_example :
    (
      waiting (on_inbound busy Stream.event disconnected).0 Stream.event,
      (on_inbound busy Stream.event disconnected).1,
    )
    ≡ attempt
        (accepts busy Stream.event disconnected)
        Stream.event
        disconnected
        (waiting busy Stream.event)
on_inbound-attempt_example = on_inbound-attempt busy Stream.event disconnected bridge_init-IsSound.1

-- The same bridge with that event queued.
abbrev one_event : Bridge
one_event = (on_inbound busy Stream.event disconnected).0

pop_stream-poll_queue_example :
    (
      waiting (pop_stream one_event Stream.event 260).0 Stream.event,
      (pop_stream one_event Stream.event 260).1,
    )
    ≡ poll_queue Stream.event 260 (waiting one_event Stream.event)
pop_stream-poll_queue_example = pop_stream-poll_queue one_event Stream.event 260

-- HCI_Reset.
abbrev some_command : List ℕ
some_command = 3 ∷ 12 ∷ 0 ∷ []

some_command-framed : is_command some_command ≡ true
unfolding is_command
some_command-framed = refl

no_voice : bridge_init.outbound_sco_fifo.count ≡ 0
unfolding bridge_init empty_fifo
no_voice = refl

not_ready : bridge_init.ready ≡ false
unfolding bridge_init
not_ready = refl

submit_command-Replayed_example :
    let r = submit_command some_wire bridge_init 0 some_command in
    (r.1 ≡ true) × (r.0.1 ≡ 0) × Replayed 1 (set_ready some_wire r.0.0 r.0.1 true)
submit_command-Replayed_example =
    submit_command-Replayed some_wire (λ n p. (n + 1, true)) bridge_init 0 some_command refl
      no_voice not_ready some_command-framed
