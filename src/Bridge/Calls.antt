-- ===== src/Bridge/Calls.antt =====
-- The entries of src/common/hci_bridge.c as one alphabet: whatever the USB front end and the wire
-- layer may ask of a bridge, in any order.
use virt_bth_usb.Common.{ℕ, Bool, List, [], ◌∷◌}
use virt_bth_usb.Bridge.{Bridge, WireOps, bridge_reset}
use virt_bth_usb.Bridge.Submit.{submit_command, submit_acl, submit_sco, set_ready}
use virt_bth_usb.Bridge.Inbound.{Stream, on_inbound, pop_stream}

pub data Call : Type 0 where
  command : List ℕ → Call
  acl_out : List ℕ → Call
  sco_out : List ℕ → Call
  inbound : Stream → List ℕ → Call
  poll : Stream → ℕ → Call
  readiness : Bool → Call
  reset : Call

module _ {W : Type 0} (ops : WireOps W) where
  abbrev pub run_call : Bridge → W → Call → Bridge × W
  run_call b w (command p) = (submit_command ops b w p).0
  run_call b w (acl_out p) = (submit_acl ops b w p).0
  run_call b w (sco_out p) = (submit_sco ops b w p).0
  run_call b w (inbound s p) = ((on_inbound b s p).0, w)
  run_call b w (poll s capacity) = ((pop_stream b s capacity).0, w)
  run_call b w (readiness ready) = set_ready ops b w ready
  run_call b w reset = (bridge_reset b, w)

  unfoldable pub run_calls : Bridge → W → List Call → Bridge × W
  run_calls b w [] = (b, w)
  run_calls b w (call ∷ calls) = let (b', w') = run_call b w call in run_calls b' w' calls
