-- ===== src/Data/Examples.antt =====
-- src/driver/endpoints.c, the data endpoints over the bridge: two readers for one event, a reader for ACL
-- data and an ACL packet.
use virt_bth_usb.Common.{ℕ, ◌+◌, refl, true, false, some, none, List, [], ◌∷◌, inl}
use virt_bth_usb.Bridge.{Bridge, WireOps, bridge_init}
use virt_bth_usb.Bridge.Inbound.{Stream, on_inbound}
use virt_bth_usb.ScoUsb.Out.{out_reset}
use virt_bth_usb.ScoUsb.In.{in_reset}
use virt_bth_usb.Voice.{ScoRequest, no_stats}
use virt_bth_usb.Data.{DataRequest, Front, ep_event_in, ep_acl_in, ep_acl_out, data_urbs}
use virt_bth_usb.Data.Served.{IsQuiet, Serves, all_of, events_in, acl_in, data_urbs-Serves}
use virt_bth_usb.Data.Transports.{bridge_data}

abbrev some_wire : WireOps ℕ
some_wire = record {
  send_command = some (λ n p. (n + 1, true));
  send_acl = some (λ n p. (n + 1, true));
  send_sco = some (λ n p. (n + 1, false));
}

-- An inquiry-complete event in a bridge that is ready.
abbrev one_event : Bridge
one_event = (on_inbound (record bridge_init { ready = true }) Stream.event (1 ∷ 1 ∷ 0 ∷ [])).0

abbrev front : Front (Bridge × ℕ)
front = record {
  voice = record {
    transport = (one_event, 0);
    out_queue = [];
    in_queue = [];
    timer_armed = false;
    out_clock = 0;
    in_clock = 0;
    sco_out = out_reset;
    sco_in = in_reset;
    stats = no_stats;
  };
  event_readers = [];
  acl_readers = [];
}

abbrev no_voice : ScoRequest
no_voice = record { is_isoch = false; packets = []; buffer = none; transfer_flags = 0 }

abbrev request_at : ℕ → List ℕ → ℕ × DataRequest
request_at address bytes = (
  0,
  record {
    is_submit_urb = true;
    address = address;
    max_packet_size = 16;
    buffer = some bytes;
    voice = no_voice;
    has_context = true;
    is_forwarded = true;
  },
)

abbrev requests : List (ℕ × DataRequest)
requests =
    request_at ep_event_in (0 ∷ 0 ∷ 0 ∷ 0 ∷ [])
    ∷ request_at ep_event_in (0 ∷ 0 ∷ 0 ∷ 0 ∷ [])
    ∷ request_at ep_acl_in (0 ∷ 0 ∷ [])
    ∷ request_at ep_acl_out (1 ∷ 0 ∷ 1 ∷ 0 ∷ 9 ∷ [])
    ∷ []

front-IsQuiet : IsQuiet (bridge_data some_wire) front
front-IsQuiet = record { events = inl refl; acl = inl refl }

data_urbs-Serves_example :
    Serves
      (bridge_data some_wire)
      front
      (data_urbs (bridge_data some_wire) front requests).0
      (all_of events_in (data_urbs (bridge_data some_wire) front requests).1)
      (all_of acl_in (data_urbs (bridge_data some_wire) front requests).1)
data_urbs-Serves_example = data_urbs-Serves (bridge_data some_wire) front requests front-IsQuiet
