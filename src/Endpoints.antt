-- ===== src/Endpoints.antt =====
-- src/driver/endpoints.c, DeckBtDrainStream: packets of a stream complete the requests that are posted
-- for it. The transport is an interface: its operations and the contract of its streams.
pub mod Drained
pub mod Transports
mod Examples
use virt_bth_usb.Common.{ℕ, ◌≡◌, Bool, true, false, not, Option, none, some}
use virt_bth_usb.Common.{List, [], ◌∷◌, ltb, length, if◌then◌else◌}
use virt_bth_usb.Bridge.Inbound.{Stream}
use virt_bth_usb.Bridge.Delivery.{poll_queue}

-- HCI_TRANSPORT's HasStream and PopStream for one stream, as the queue of its packets.
pub record Polled (T : Type 0) (s : Stream) : Type 1 where
  pub has : T → Bool
  pub pop : T → ℕ → T × Option (List ℕ)
  pub queued : T → List (List ℕ)
  pub has-queued : (t : T) → has t ≡ ltb 0 (length (queued t))
  pub pop-queued :
      (t : T) (capacity : ℕ)
      → (queued (pop t capacity).0, (pop t capacity).1) ≡ poll_queue s capacity (queued t)

-- What a request is completed with: an error, for lack of a buffer, no bytes, since no packet was
-- popped, or a packet.
pub data Completion : Type 0 where
  failed empty : Completion
  sent : List ℕ → Completion

abbrev pub answer : Option (List ℕ) → Completion
answer none = empty
answer (some packet) = sent packet

module _ {T : Type 0} {s : Stream} (ops : Polled T s) where
  -- The for loop over the posted requests, each its buffer's capacity or none when there is no
  -- buffer: the transport, the requests still posted and the completions.
  unfoldable pub drain : T → List (Option ℕ) → T × List (Option ℕ) × List Completion
  drain t [] = (t, [], [])
  drain t (none ∷ requests) =
      let (t', left, done) = drain t requests in
      if not (ops.has t) then (t, none ∷ requests, []) else (t', left, failed ∷ done)
  drain t (some capacity ∷ requests) =
      let (popped, packet) = ops.pop t capacity in
      let (t', left, done) = drain popped requests in
      if not (ops.has t)
      then (t, some capacity ∷ requests, [])
      else (t', left, answer packet ∷ done)
