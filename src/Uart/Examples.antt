-- ===== src/Uart/Examples.antt =====
-- src/driver/qca_uart.c: concrete reads.
use virt_bth_usb.Common.{
  ℕ, ◌≡◌, refl, arith, true, false, some, List, [], ◌∷◌, All, IsByte, replicate, if◌then◌else◌,
  length-replicate,
}
use virt_bth_usb.H4.{decoder_init, idle, get_header_length}
use virt_bth_usb.H4.Bounds.{IsValid, decoder_init-IsValid}
use virt_bth_usb.Identify.{identify_init}
use virt_bth_usb.Fsm.Pump
use virt_bth_usb.Bridge.{bridge_init}
use virt_bth_usb.Bridge.Rings.{bridge_init-IsSound}
use virt_bth_usb.ScoRoute.{route_reset}
use virt_bth_usb.Uart.{Uart, ProbeMode, no_notify, trace_slots, read_bytes}
use virt_bth_usb.Uart.Advertisers.{AreDistinct}
use virt_bth_usb.Uart.Sound.{IsUart, read_bytes-IsUart}
use virt_bth_usb.Uart.Notified.{Told, read_bytes-Told}
use virt_bth_usb.Uart.Sleep.{Acks, service_ibs, has_wake, service_ibs-answers}

-- In steady operation, before the first packet.
abbrev serving : Uart
serving = record {
  probe_mode = ProbeMode.steady;
  phase = 2;
  identify = identify_init;
  last_identify_packet = [];
  fsm = (Pump.init [] [] 0).1;
  fsm_waiting = false;
  fsm_matched = false;
  fsm_event = false;
  last_reset_event = [];
  reset_captured = false;
  segments_acked = 0;
  bridge = bridge_init;
  route = route_reset;
  notify = no_notify;
  event_trace = replicate trace_slots (replicate 8 0);
  event_trace_count = 0;
  adv_reports = 0;
  adv_seen = [];
  sco_link_event = [];
  sco_link_events = 0;
  tx_awake = false;
  ack_pending = false;
  wake_ind_rx = 0;
  sleep_ind_rx = 0;
  work_event = false;
  ack_event = false;
}

serving-IsUart : IsUart serving
unfolding AreDistinct
serving-IsUart = record {
  bridge_sound = bridge_init-IsSound;
  table = record { fits = omega arith; distinct = tt };
  traced = length-replicate {A = List ℕ} trace_slots (replicate 8 0);
}

-- A wake-up request, an empty inquiry-complete event, a stray byte.
abbrev some_bytes : List ℕ
some_bytes = 0xFD ∷ 4 ∷ 1 ∷ 1 ∷ 0 ∷ 0x77 ∷ []

read_bytes-IsUart_example :
    let r = read_bytes decoder_init serving some_bytes in
    IsValid r.0 × All IsByte r.0.buffer × IsUart r.1
unfolding decoder_init
read_bytes-IsUart_example =
    read_bytes-IsUart decoder_init serving some_bytes (ground arith) decoder_init-IsValid tt
      serving-IsUart

read_bytes-Told_example :
    let r = read_bytes decoder_init serving some_bytes in Told bridge_init r.1.bridge r.2
read_bytes-Told_example = read_bytes-Told decoder_init serving some_bytes decoder_init-IsValid

abbrev no_acks : Acks
no_acks = record { cts_low = 0; sent = 0; failures = 0 }

abbrev requests : List ℕ
requests = 0xFD ∷ 0xFE ∷ 0xFD ∷ []

strays : All (λ b. get_header_length b ≡ 0) requests
unfolding get_header_length
strays = (refl, (refl, (refl, tt)))

init-idle : decoder_init.state ≡ idle
unfolding decoder_init
init-idle = refl

service_ibs-answers_example :
    let r = read_bytes decoder_init serving requests in
    let answer = service_ibs r.1 no_acks (some true) true in
    (answer.2 ≡ (if has_wake requests then 0xFC ∷ [] else []))
    × ((service_ibs answer.0 answer.1 (some true) true).2 ≡ [])
service_ibs-answers_example =
    service_ibs-answers decoder_init serving no_acks requests (refl, refl) refl init-idle strays
