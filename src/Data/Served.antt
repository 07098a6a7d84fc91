-- ===== src/Data/Served.antt =====
-- src/driver/endpoints.c, DeckBtEvtDataUrb: readers get the packets of their stream, in order, over any
-- sequence of requests.
use virt_bth_usb.Common.{
  ℕ, ◌≡◌, ◌⊎◌, refl, ap, ◌∙◌, inl, inr, Bool, true, false, not, ◌||◌, Option, none, some, either,
}
use virt_bth_usb.Common.{List, [], ◌∷◌, ◌++◌, append_assoc, ◌==◌}
use virt_bth_usb.Bridge.Inbound.{Stream}
use virt_bth_usb.Endpoints.{Polled, Completion, drain}
use virt_bth_usb.Endpoints.Drained.{handed, drain-Drained}
use virt_bth_usb.Voice.{Isoch, Voice, sco_urb}
use virt_bth_usb.Voice.Accept.{
  accept_found, sco_accept, accept_locked, accept_out, accept_in, park, kick,
}
use virt_bth_usb.Data.{
  DataTransport, DataRequest, Front, Reply, parked_for_event, parked_for_acl, ep_event_in,
  ep_acl_in, ep_acl_out, ep_sco_in, ep_sco_out, capacity_of, drain_events, drain_acl, read_event,
  read_acl, write_acl, accept_voice, data_urb, data_urbs,
}

-- The packets that went to readers with a reply.
abbrev pub events_in : Reply → List (List ℕ)
events_in (parked_for_event done) = handed done
events_in _ = []

abbrev pub acl_in : Reply → List (List ℕ)
acl_in (parked_for_acl done) = handed done
acl_in _ = []

abbrev pub all_of : (Reply → List (List ℕ)) → List Reply → List (List ℕ)
all_of f [] = []
all_of f (r ∷ replies) = f r ++ all_of f replies

-- Polling leaves what is queued on the other stream.
drain-keeps :
    {T : Type 0} {s : Stream} (ops : Polled T s) (q : T → List (List ℕ))
    → ((t : T) (capacity : ℕ) → q (ops.pop t capacity).0 ≡ q t)
    → (t : T) (readers : List (Option ℕ)) → q (drain ops t readers).0 ≡ q t
unfolding drain
drain-keeps ops q h t [] = refl
drain-keeps {T} ops q h t (none ∷ readers) =
    either (λ (r : T × List (Option ℕ) × List Completion). q r.0 ≡ q t) (not (ops.has t)) refl
      (drain-keeps ops q h t readers)
drain-keeps {T} ops q h t (some capacity ∷ readers) =
    either (λ (r : T × List (Option ℕ) × List Completion). q r.0 ≡ q t) (not (ops.has t)) refl
      (drain-keeps ops q h (ops.pop t capacity).0 readers ∙ h t capacity)

accept_found-transport :
    {T : Type 0} (now m : ℕ) (is_out has_context is_forwarded : Bool) (v : Voice T)
    (o : Option Isoch)
    → (accept_found now m is_out has_context is_forwarded v o).0.transport ≡ v.transport
unfolding accept_found accept_locked accept_out accept_in park kick
accept_found-transport now m is_out has_context is_forwarded v none = refl
accept_found-transport now m true true true v (some isoch) = refl
accept_found-transport now m true true false v (some isoch) = refl
accept_found-transport now m true false is_forwarded v (some isoch) = refl
accept_found-transport now m false true true v (some isoch) = refl
accept_found-transport now m false true false v (some isoch) = refl
accept_found-transport now m false false is_forwarded v (some isoch) = refl

module _ {T : Type 0} (ops : DataTransport T) where
  -- No reader and packet of a stream wait for each other.
  pub record IsQuiet (f : Front T) : Type 0 where
    pub events : (f.event_readers ≡ []) ⊎ (ops.events.queued f.voice.transport ≡ [])
    pub acl : (f.acl_readers ≡ []) ⊎ (ops.acl.queued f.voice.transport ≡ [])

  -- On each stream the packets handed over and those still queued are those queued before, in order.
  pub record Serves (f g : Front T) (events acl : List (List ℕ)) : Type 0 where
    pub events_in_order :
        events ++ ops.events.queued g.voice.transport ≡ ops.events.queued f.voice.transport
    pub acl_in_order : acl ++ ops.acl.queued g.voice.transport ≡ ops.acl.queued f.voice.transport
    pub quiet : IsQuiet g

  abbrev ServesReply : Front T → Front T × Reply → Type 0
  ServesReply f r = Serves f r.0 (events_in r.1) (acl_in r.1)

  -- What changes neither a queue nor the readers.
  keeps :
      (f g : Front T)
      → ops.events.queued g.voice.transport ≡ ops.events.queued f.voice.transport
      → ops.acl.queued g.voice.transport ≡ ops.acl.queued f.voice.transport
      → g.event_readers ≡ f.event_readers
      → g.acl_readers ≡ f.acl_readers
      → IsQuiet f
      → Serves f g [] []
  keeps f g e a re ra q = record {
    events_in_order = e;
    acl_in_order = a;
    quiet = record {
      events = elim q.events [ inl n ↦ inl (re ∙ n) | inr n ↦ inr (e ∙ n) ];
      acl = elim q.acl [ inl n ↦ inl (ra ∙ n) | inr n ↦ inr (a ∙ n) ];
    };
  }

  read_event-Serves :
      (f : Front T) (r : DataRequest) → IsQuiet f → ServesReply f (read_event ops f r)
  unfolding read_event drain_events
  read_event-Serves f r q =
      let t = f.voice.transport in
      let readers = f.event_readers ++ capacity_of r.buffer ∷ [] in
      let d = drain-Drained ops.events t readers (λ e. cc) in
      let other = drain-keeps ops.events ops.acl.queued ops.pop_events-acl t readers in
      either (ServesReply f) r.is_forwarded
        (record {
          events_in_order = d.in_order;
          acl_in_order = other;
          quiet = record {
            events = d.exhausted;
            acl = elim q.acl [ inl n ↦ inl n | inr n ↦ inr (other ∙ n) ];
          };
        })
        (keeps f f refl refl refl refl q)

  read_acl-Serves : (f : Front T) (r : DataRequest) → IsQuiet f → ServesReply f (read_acl ops f r)
  unfolding read_acl drain_acl
  read_acl-Serves f r q =
      let t = f.voice.transport in
      let readers = f.acl_readers ++ capacity_of r.buffer ∷ [] in
      let d = drain-Drained ops.acl t readers (λ e. cc) in
      let other = drain-keeps ops.acl ops.events.queued ops.pop_acl-events t readers in
      either (ServesReply f) r.is_forwarded
        (record {
          events_in_order = other;
          acl_in_order = d.in_order;
          quiet = record {
            acl = d.exhausted;
            events = elim q.events [ inl n ↦ inl n | inr n ↦ inr (other ∙ n) ];
          };
        })
        (keeps f f refl refl refl refl q)

  write_acl-Serves :
      (f : Front T) (o : Option (List ℕ)) → IsQuiet f → ServesReply f (write_acl ops f o)
  unfolding write_acl
  write_acl-Serves f none q = keeps f f refl refl refl refl q
  write_acl-Serves f (some bytes) q =
      let r = ops.submit_acl f.voice.transport bytes in
      let g = record f { voice = record f.voice { transport = r.0 } } in
      let k =
        keeps f g (ops.submit-events f.voice.transport bytes)
          (ops.submit-acl f.voice.transport bytes) refl refl q in
      either (λ (reply : Reply). ServesReply f (g, reply)) r.1 k k

  accept_voice-Serves :
      (now : ℕ) (f : Front T) (r : DataRequest) → IsQuiet f → ServesReply f (accept_voice now f r)
  unfolding accept_voice sco_accept
  accept_voice-Serves now f r q =
      let same =
        accept_found-transport now r.max_packet_size (r.address == ep_sco_out) r.has_context
          r.is_forwarded f.voice (sco_urb r.voice) in
      keeps f _ (ap ops.events.queued same) (ap ops.acl.queued same) refl refl q

  data_urb-Serves :
      (f : Front T) (r : ℕ × DataRequest) → IsQuiet f → ServesReply f (data_urb ops f r)
  unfolding data_urb
  data_urb-Serves f (now, r) q =
      let P : Front T × Reply → Type 0 = ServesReply f in
      let same = keeps f f refl refl refl refl q in
      either P (not r.is_submit_urb) same (
        either P (r.address == ep_event_in) (read_event-Serves f r q) (
          either P (r.address == ep_acl_in) (read_acl-Serves f r q) (
            either P (r.address == ep_acl_out) (write_acl-Serves f r.buffer q) (
              either P (r.address == ep_sco_out || r.address == ep_sco_in)
                (accept_voice-Serves now f r q) same))))

  -- Over any sequence of transfers on the data endpoints, from a state in which no reader and packet of
  -- a stream wait for each other, the packets that went to the readers of the events and of the ACL
  -- data and those still queued are those queued at first, whole and in order; and again no reader and
  -- packet wait for each other. For a transport of which each stream is polled like a queue by itself.
  pub data_urbs-Serves :
      (f : Front T) (requests : List (ℕ × DataRequest))
      → IsQuiet f
      → Serves f
          (data_urbs ops f requests).0
          (all_of events_in (data_urbs ops f requests).1)
          (all_of acl_in (data_urbs ops f requests).1)
  unfolding data_urbs
  data_urbs-Serves f [] q = keeps f f refl refl refl refl q
  data_urbs-Serves f (r ∷ requests) q =
      let first = data_urb-Serves f r q in
      let rest = data_urbs-Serves (data_urb ops f r).0 requests first.quiet in
      record {
        events_in_order =
            append_assoc (events_in (data_urb ops f r).1)
              (all_of events_in (data_urbs ops (data_urb ops f r).0 requests).1) _
            ∙ ap (λ xs. events_in (data_urb ops f r).1 ++ xs) rest.events_in_order
            ∙ first.events_in_order;
        acl_in_order =
            append_assoc (acl_in (data_urb ops f r).1)
              (all_of acl_in (data_urbs ops (data_urb ops f r).0 requests).1) _
            ∙ ap (λ xs. acl_in (data_urb ops f r).1 ++ xs) rest.acl_in_order
            ∙ first.acl_in_order;
        quiet = rest.quiet;
      }
