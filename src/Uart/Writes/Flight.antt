-- ===== src/Uart/Writes/Flight.antt =====
-- src/driver/qca_uart.c: the writes in flight, as a relation on states.
use virt_bth_usb.Common.{
  ℕ, ◌+◌, ◌^◌, ◌<◌, ◌≤◌, ◌≡◌, ◌⊎◌, ==_iff, refl, sym, ap, ◌∙◌, inl, inr, arith, Bool, true, false,
  not, Option, none, some, List, [], ◌∷◌, length, get_or, set, length-set, get_or-set_self,
  get_or-set_ne, either, Bool-cases, ◌==◌, ◌||◌, ◌!=◌,
}
use virt_bth_usb.H4.{encode_packet}
use virt_bth_usb.Uart.Writes.{
  WriteSlot, empty_slot, Writes, Target, write_slots, slot_at, write_slot_completion,
  first_free_slot, send_chosen, send_async, write_buf_size,
}
use virt_bth_usb.Uart.Writes.Slots.{flag, in_flight, in_flight-set, IsFree, first_free_slot-IsFree}
use virt_bth_usb.Uart.Writes.Sending.{Puts, IsRefusal, send_slot-Puts, write_slot_completion-Puts}

-- A step of the outbound path: a packet is submitted, or the target completes a write in flight.
pub data Step : Writes → Writes → Type 0 where
  submitted :
      (t : Target) (type : ℕ) (packet : List ℕ) (w : Writes)
      → IsRefusal t.send
      → Step w (send_async t type packet w).1
  completed :
      (i status information : ℕ) (w : Writes)
      → i < write_slots
      → (slot_at i w).in_use ≡ true
      → Step w (write_slot_completion i status information w)

-- The table has its slots, and the requests counted as active are the driver's others and a write
-- for each slot in use.
pub record IsFlight (others : ℕ) (w : Writes) : Type 0 where
  pub table : length w.slots ≡ write_slots
  pub counted : w.active_io_count ≡ others + in_flight w.slots

-- A slot in use before and after is the same slot.
abbrev pub HoldsSlots : Writes → Writes → Type 0
HoldsSlots w v =
    (j : ℕ) → (slot_at j w).in_use ≡ true → (slot_at j v).in_use ≡ true → slot_at j v ≡ slot_at j w

in_flight-le : (ss : List WriteSlot) → in_flight ss ≤ length ss
unfolding in_flight
in_flight-le [] = omega arith
in_flight-le (s ∷ ss) = ground (arith, in_flight-le ss)

not_both :
    (i j : ℕ) (s : WriteSlot) (ss : List WriteSlot)
    → i < length ss
    → i ≡ j
    → ((get_or ss i empty_slot).in_use ≡ false) ⊎ (s.in_use ≡ false)
    → (get_or ss j empty_slot).in_use ≡ true
    → (get_or (set ss i s) j empty_slot).in_use ≡ true
    → ⊥
not_both i j s ss h e (inl free) used still =
    let here : (get_or ss i empty_slot).in_use ≡ (get_or ss j empty_slot).in_use =
      ap (λ (k : ℕ). (get_or ss k empty_slot).in_use) e in
    cc
not_both i j s ss h e (inr free) used still =
    let written : (get_or (set ss i s) i empty_slot).in_use ≡ s.in_use =
      ap (λ (t : WriteSlot). t.in_use) (get_or-set_self ss i s empty_slot h) in
    let here : (get_or (set ss i s) i empty_slot).in_use
        ≡ (get_or (set ss i s) j empty_slot).in_use =
      ap (λ (k : ℕ). (get_or (set ss i s) k empty_slot).in_use) e in
    cc

-- Only slot `i` was written, and it was not in use before or is not after.
set-HoldsSlots :
    (i : ℕ) (s : WriteSlot) (w v : Writes)
    → i < length w.slots
    → v.slots ≡ set w.slots i s
    → ((slot_at i w).in_use ≡ false) ⊎ (s.in_use ≡ false)
    → HoldsSlots w v
unfolding slot_at
set-HoldsSlots i s w v h put o j used still =
    let at : get_or v.slots j empty_slot ≡ get_or (set w.slots i s) j empty_slot =
      ap (λ ss. get_or ss j empty_slot) put in
    let still_there : (get_or (set w.slots i s) j empty_slot).in_use ≡ true =
      sym (ap (λ (t : WriteSlot). t.in_use) at) ∙ still in
    elim (Bool-cases (i == j)) [
      | inl y ↦ absurd (not_both i j s w.slots h ((==_iff i j).0 y) o used still_there)
      | inr n ↦ at ∙ get_or-set_ne w.slots i j s empty_slot (λ e. ground (arith, n, e))
    ]

-- What a step gives.
abbrev pub Holds : ℕ → Writes → Writes → Type 0
Holds others w v = IsFlight others v × HoldsSlots w v

Puts-Holds :
    (others i : ℕ) (w v : Writes)
    → IsFlight others w
    → i < length w.slots
    → (slot_at i w).in_use ≡ false
    → Puts i w v
    → Holds others w v
unfolding slot_at
Puts-Holds others i w v f h free (s, put, count) =
    let flying : in_flight v.slots ≡ in_flight w.slots + flag s =
      ap in_flight put ∙ ground (arith, in_flight-set w.slots i s h, free) in
    (
      record {
        table = ap length put ∙ length-set w.slots i s ∙ f.table;
        counted = omega (arith, count, flying, f.counted);
      },
      set-HoldsSlots i s w v h put (inl free),
    )

errors-Holds :
    (others : ℕ) (w v : Writes)
    → IsFlight others w
    → v.slots ≡ w.slots
    → v.active_io_count ≡ w.active_io_count
    → Holds others w v
unfolding slot_at
errors-Holds others w v f s a = (
  record {
    table = ap length s ∙ f.table;
    counted = a ∙ f.counted ∙ ap (λ ss. others + in_flight ss) (sym s);
  },
  λ j used still. ap (λ ss. get_or ss j empty_slot) s,
)

completion-Holds :
    (others i status information : ℕ) (w : Writes)
    → others < 2 ^ 31
    → IsFlight others w
    → i < write_slots
    → (slot_at i w).in_use ≡ true
    → Holds others w (write_slot_completion i status information w)
unfolding slot_at
completion-Holds others i status information w o f h used =
    let inside : i < length w.slots = omega (arith, h, f.table) in
    let held = in_flight-le w.slots in
    let one : 0 < in_flight w.slots =
      ground (arith, in_flight-set w.slots i empty_slot inside, used) in
    let (s, put, free, count) =
      write_slot_completion-Puts i status information w (omega (arith, f.counted, one))
        (omega (arith, f.counted, f.table, held)) in
    let flying : in_flight (set w.slots i s) + 1 ≡ in_flight w.slots =
      ground (arith, in_flight-set w.slots i s inside, free, used) in
    (
      record {
        table = ap length put ∙ length-set w.slots i s ∙ f.table;
        counted = omega (arith, count, flying, f.counted, ap in_flight put);
      },
      set-HoldsSlots i s w (write_slot_completion i status information w) inside put (inr free),
    )

send_chosen-Holds :
    (others : ℕ) (t : Target) (type : ℕ) (packet : List ℕ) (w : Writes) (o : Option ℕ)
    → others < 2 ^ 31
    → IsRefusal t.send
    → IsFlight others w
    → IsFree w.slots o
    → Holds others w (send_chosen t type packet w o).1
unfolding send_chosen slot_at
send_chosen-Holds others t type packet w none o r f _ = errors-Holds others w _ f refl refl
send_chosen-Holds others t type packet w (some i) o r f free =
    let held = in_flight-le w.slots in
    Puts-Holds others i w _ f free.0 free.1 (
      send_slot-Puts t i (encode_packet type packet write_buf_size) w free.0
        (omega (arith, o, held, f.table, f.counted)) r)

send_async-Holds :
    (others : ℕ) (t : Target) (type : ℕ) (packet : List ℕ) (w : Writes)
    → others < 2 ^ 31
    → IsRefusal t.send
    → IsFlight others w
    → Holds others w (send_async t type packet w).1
unfolding send_async
send_async-Holds others t type packet w o r f =
    either (λ (s : Bool × Writes). Holds others w s.1)
      (not t.is_open || length packet == 0 || t.phase != 2) (errors-Holds others w w f refl refl)
      (send_chosen-Holds others t type packet w (first_free_slot w.slots) o r f
        (first_free_slot-IsFree w.slots))

-- In a step of the outbound path, a submission whatever the target answers, even with a completion
-- before the send returns, or the completion of a write in flight, the requests counted as active
-- stay the driver's others, fewer than 2^31, and one for each slot in use, and a slot in use before
-- and after keeps its buffer. A send that the framework refuses has a status of failure.
pub Step-Holds :
    (others : ℕ) (w v : Writes) → others < 2 ^ 31 → IsFlight others w → Step w v → Holds others w v
Step-Holds others w v o f (submitted t type packet _ r) =
    send_async-Holds others t type packet w o r f
Step-Holds others w v o f (completed i status information _ h used) =
    completion-Holds others i status information w o f h used
