-- ===== src/Data.antt =====
-- src/driver/endpoints.c, DeckBtEvtDataUrb: the transfers on the endpoints other than the default one.
-- A reader for events or for ACL data is parked behind the others and the stream is drained.
pub mod Served
pub mod Transports
mod Examples
use virt_bth_usb.Common.{
  ℕ, Bool, not, ◌||◌, Option, none, some, List, [], ◌∷◌, ◌++◌, length, ◌==◌, ◌≡◌, if◌then◌else◌,
}
use virt_bth_usb.Bridge.Inbound.{Stream}
use virt_bth_usb.Endpoints.{Polled, Completion, drain}
use virt_bth_usb.Voice.{ScoRequest, Voice, Completed}
use virt_bth_usb.Voice.Accept.{sco_accept}

abbrev pub ep_event_in : ℕ
ep_event_in = 0x81

abbrev pub ep_acl_out : ℕ
ep_acl_out = 0x02

abbrev pub ep_acl_in : ℕ
ep_acl_in = 0x82

abbrev pub ep_sco_out : ℕ
ep_sco_out = 0x03

abbrev pub ep_sco_in : ℕ
ep_sco_in = 0x83

-- The transport: its two polled streams and HciTransportSubmitAcl. Polling one stream and submitting
-- leave the other packets queued.
pub record DataTransport (T : Type 0) : Type 1 where
  pub events : Polled T Stream.event
  pub acl : Polled T Stream.acl
  pub submit_acl : T → List ℕ → T × Bool
  pub pop_events-acl : (t : T) (capacity : ℕ) → acl.queued (events.pop t capacity).0 ≡ acl.queued t
  pub pop_acl-events :
      (t : T) (capacity : ℕ) → events.queued (acl.pop t capacity).0 ≡ events.queued t
  pub submit-events : (t : T) (p : List ℕ) → events.queued (submit_acl t p).0 ≡ events.queued t
  pub submit-acl : (t : T) (p : List ℕ) → acl.queued (submit_acl t p).0 ≡ acl.queued t

-- A request on an endpoint of an address and a packet size: its buffer, if there is one, what it
-- holds for voice, and whether the framework gives it a context and forwards it to a queue.
pub record DataRequest : Type 0 where
  pub is_submit_urb : Bool
  pub address : ℕ
  pub max_packet_size : ℕ
  pub buffer : Option (List ℕ)
  pub voice : ScoRequest
  pub has_context : Bool
  pub is_forwarded : Bool

-- The fields of DECKBT_CONTROLLER for the data endpoints, the readers by the capacity of their
-- buffers.
pub record Front (T : Type 0) : Type 0 where
  pub voice : Voice T
  pub event_readers : List (Option ℕ)
  pub acl_readers : List (Option ℕ)

-- What becomes of a request: an error, a stall, success with a count of bytes, a place in a queue
-- with the completions that follow, or what the voice path makes of it.
pub data Reply : Type 0 where
  invalid_device_request nt_error stalled : Reply
  succeeded : ℕ → Reply
  parked_for_event parked_for_acl : List Completion → Reply
  accepted : Bool → Option Completed → Reply

abbrev pub capacity_of : Option (List ℕ) → Option ℕ
capacity_of none = none
capacity_of (some bytes) = some (length bytes)

module _ {T : Type 0} (ops : DataTransport T) where
  -- DeckBtDrainStream on the event stream, with the readers.
  unfoldable pub drain_events : List (Option ℕ) → Front T → Front T × List Completion
  drain_events readers f =
      let (t, left, done) = drain ops.events f.voice.transport readers in
      (record f { voice = record f.voice { transport = t }; event_readers = left }, done)

  unfoldable pub drain_acl : List (Option ℕ) → Front T → Front T × List Completion
  drain_acl readers f =
      let (t, left, done) = drain ops.acl f.voice.transport readers in
      (record f { voice = record f.voice { transport = t }; acl_readers = left }, done)

  unfoldable pub read_event : Front T → DataRequest → Front T × Reply
  read_event f r =
      let (f', done) = drain_events (f.event_readers ++ capacity_of r.buffer ∷ []) f in
      if r.is_forwarded then (f', parked_for_event done) else (f, nt_error)

  unfoldable pub read_acl : Front T → DataRequest → Front T × Reply
  read_acl f r =
      let (f', done) = drain_acl (f.acl_readers ++ capacity_of r.buffer ∷ []) f in
      if r.is_forwarded then (f', parked_for_acl done) else (f, nt_error)

  unfoldable pub write_acl : Front T → Option (List ℕ) → Front T × Reply
  write_acl f none = (f, nt_error)
  write_acl f (some bytes) =
      let (t, taken) = ops.submit_acl f.voice.transport bytes in
      let f' = record f { voice = record f.voice { transport = t } } in
      (f', if taken then succeeded (length bytes) else stalled)

-- DeckBtScoAccept on either endpoint.
unfoldable pub accept_voice : {T : Type 0} → ℕ → Front T → DataRequest → Front T × Reply
accept_voice now f r =
    let (v, starts, done) =
      sco_accept now r.max_packet_size (r.address == ep_sco_out) r.has_context r.is_forwarded
        r.voice f.voice in
    (record f { voice = v }, accepted starts done)

-- DeckBtEvtDataUrb at a time.
unfoldable pub data_urb :
    {T : Type 0} → DataTransport T → Front T → ℕ × DataRequest → Front T × Reply
data_urb ops f (now, r) =
    if not r.is_submit_urb
    then (f, invalid_device_request)
    else if r.address == ep_event_in
    then read_event ops f r
    else if r.address == ep_acl_in
    then read_acl ops f r
    else if r.address == ep_acl_out
    then write_acl ops f r.buffer
    else if r.address == ep_sco_out || r.address == ep_sco_in
    then accept_voice now f r
    else (f, stalled)

-- Requests one after the other.
unfoldable pub data_urbs :
    {T : Type 0} → DataTransport T → Front T → List (ℕ × DataRequest) → Front T × List Reply
data_urbs ops f [] = (f, [])
data_urbs ops f (r ∷ requests) =
    let (f', reply) = data_urb ops f r in
    let (z, replies) = data_urbs ops f' requests in (z, reply ∷ replies)
