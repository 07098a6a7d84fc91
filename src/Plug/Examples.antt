-- ===== src/Plug/Examples.antt =====
-- src/driver/driver.c: a session on the UART, with a sleep and a release.
use virt_bth_usb.Common.{ℕ, true, false, []}
use virt_bth_usb.ScoUsb.Out.{out_reset}
use virt_bth_usb.ScoUsb.In.{in_reset}
use virt_bth_usb.Voice.{no_stats}
use virt_bth_usb.Plug.{Plug, Backends, prepare_uart, publish, d0_exit, d0_entry, release}

abbrev plain : Backends ℕ
plain = record { reset = λ t. 0; init_stub = λ t. 1; bind_stub = λ t. 2; bind_uart = λ t. 3 }

abbrev idle : Plug ℕ
idle = record {
  usb = record {
    calls = 0;
    inits = 0;
    devices = 0;
    plug_ins = 0;
    children = 0;
    leaving = 0;
    refused = 0;
    gone = 0;
    usb_device = false;
  };
  backend_prepared = false;
  is_uart = false;
  rearm_on_d0_entry = false;
  resume_rearms = 0;
  resume_replacements = 0;
  stub_arm_claimed = false;
  arm_claim = false;
  voice = record {
    transport = 0;
    out_queue = [];
    in_queue = [];
    timer_armed = false;
    out_clock = 0;
    in_clock = 0;
    sco_out = out_reset;
    sco_in = in_reset;
    stats = no_stats;
  };
}

-- Prepared, published, asleep and back, and published again.
abbrev resumed : Plug ℕ
resumed =
    let served = (publish plain (λ n. true) (prepare_uart plain false true idle).0).0 in
    (publish plain (λ n. true) (d0_entry (d0_exit false served)).0).0

-- Released, while the framework refuses to plug the second child out.
abbrev released : Plug ℕ
released = (release plain (λ n. false) resumed).0
