-- ===== src/Uart/Writes/Slots.antt =====
-- src/driver/qca_uart.c: the table of write slots.
use virt_bth_usb.Common.{
  ℕ, zero, suc, ◌+◌, ◌<◌, ◌≡◌, refl, ap, arith, false, not, Option, none, some, List, [], ◌∷◌,
  length, get_or, set, cases, if◌then◌else◌,
}
use virt_bth_usb.Uart.Writes.{WriteSlot, empty_slot, first_free_slot}

abbrev pub flag : WriteSlot → ℕ
flag s = if s.in_use then 1 else 0

-- The slots in use.
unfoldable pub in_flight : List WriteSlot → ℕ
in_flight [] = 0
in_flight (s ∷ ss) = flag s + in_flight ss

pub in_flight-set :
    (ss : List WriteSlot) (i : ℕ) (s : WriteSlot)
    → i < length ss
    → in_flight (set ss i s) + flag (get_or ss i empty_slot) ≡ in_flight ss + flag s
unfolding in_flight
in_flight-set [] i s h = absurd (omega arith)
in_flight-set (x ∷ ss) zero s h = omega arith
in_flight-set (x ∷ ss) (suc i) s h = omega (arith, in_flight-set ss i s (omega arith))

pub set-set : (ss : List WriteSlot) (i : ℕ) (s t : WriteSlot) → set (set ss i s) i t ≡ set ss i t
set-set [] i s t = refl
set-set (x ∷ ss) zero s t = refl
set-set (x ∷ ss) (suc i) s t = ap (λ r. x ∷ r) (set-set ss i s t)

-- The index found is of a slot that is not in use.
abbrev pub IsFree : List WriteSlot → Option ℕ → Type 0
IsFree ss none = Unit
IsFree ss (some i) = (i < length ss) × ((get_or ss i empty_slot).in_use ≡ false)

abbrev next : Option ℕ → Option ℕ
next none = none
next (some i) = some (suc i)

IsFree-next :
    (s : WriteSlot) (ss : List WriteSlot) (o : Option ℕ) → IsFree ss o → IsFree (s ∷ ss) (next o)
IsFree-next s ss none v = tt
IsFree-next s ss (some i) v = (omega (arith, v.0), v.1)

pub first_free_slot-IsFree : (ss : List WriteSlot) → IsFree ss (first_free_slot ss)
unfolding first_free_slot
first_free_slot-IsFree [] = tt
first_free_slot-IsFree (s ∷ ss) =
    let rest = first_free_slot-IsFree ss in
    cases (IsFree (s ∷ ss)) (not s.in_use) (λ e. (omega arith, ground (arith, e)))
      (λ _. IsFree-next s ss (first_free_slot ss) rest)
