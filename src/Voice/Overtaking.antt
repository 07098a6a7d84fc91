-- ===== src/Voice/Overtaking.antt =====
-- src/driver/endpoints.c: the slots of the transfers that are parked and of those that are about to be.
use virt_bth_usb.Common.{ℕ, ◌+◌, ◌<◌, ◌≤◌, ◌≡◌, ◌⊎◌, refl, sym, ap, subst, ◌∙◌, arith, inl, inr}
use virt_bth_usb.Common.{List, [], ◌∷◌, ◌++◌, length, All, append_assoc}
use virt_bth_usb.Voice.{Parked}
use virt_bth_usb.Voice.Accept.{Slot, parked_of}
use virt_bth_usb.Voice.Order.{Ascends, Ascends-append, Ascends-weaken, All-append-one, All-weaken}
use virt_bth_usb.Voice.Arrivals.{Taken, Arriving, take_slot}

-- No slot after the clock.
abbrev pub Within : ℕ → List Parked → Type 0
Within clock queue = All (λ p. p.due ≤ clock) queue

abbrev pub parked : Taken → Parked
parked t = parked_of t.max_packet_size t.slot

-- As they would be parked in the order of the lock.
abbrev pub pending : List Taken → List Parked
pending [] = []
pending (t ∷ taken) = parked t ∷ pending taken

pending-append : (xs ys : List Taken) → pending (xs ++ ys) ≡ pending xs ++ pending ys
pending-append [] ys = refl
pending-append (x ∷ xs) ys = ap (λ q. parked x ∷ q) (pending-append xs ys)

-- The slots of the parked transfers and of those about to be, none after the clock, and in order unless
-- one was overtaken.
pub record Fits (clock : ℕ) (queue : List Parked) (a : Arriving) : Type 0 where
  pub within : Within clock (queue ++ pending a.taken)
  pub order : (0 < a.overtakes) ⊎ Ascends 0 (queue ++ pending a.taken)

Within-remove :
    (clock : ℕ) (before after : List Parked) (p : Parked)
    → Within clock (before ++ p ∷ after)
    → Within clock (before ++ after)
Within-remove clock [] after p w = w.1
Within-remove clock (b ∷ before) after p w = (w.0, Within-remove clock before after p w.1)

Ascends-remove :
    (low : ℕ) (before after : List Parked) (p : Parked)
    → Ascends low (before ++ p ∷ after)
    → Ascends low (before ++ after)
Ascends-remove low [] after p a = Ascends-weaken p.due low after a.0 a.1
Ascends-remove low (b ∷ before) after p a = (a.0, Ascends-remove b.due before after p a.1)

Within-left :
    (clock : ℕ) (queue more : List Parked) → Within clock (queue ++ more) → Within clock queue
Within-left clock [] more w = tt
Within-left clock (p ∷ queue) more w = (w.0, Within-left clock queue more w.1)

Ascends-left :
    (low : ℕ) (queue more : List Parked) → Ascends low (queue ++ more) → Ascends low queue
Ascends-left low [] more a = tt
Ascends-left low (p ∷ queue) more a = (a.0, Ascends-left p.due queue more a.1)

-- One that stood further back is parked first.
Within-swap :
    (clock : ℕ) (queue before after : List Parked) (p : Parked)
    → Within clock (queue ++ (before ++ p ∷ after))
    → Within clock (queue ++ p ∷ (before ++ after))
Within-swap clock [] [] after p w = w
Within-swap clock [] (b ∷ before) after p w =
    let rest = Within-swap clock [] before after p w.1 in (rest.0, (w.0, rest.1))
Within-swap clock (q ∷ queue) before after p w = (w.0, Within-swap clock queue before after p w.1)

-- The lists before and after a step.
at_end :
    (queue : List Parked) (taken : List Taken) (t : Taken)
    → queue ++ pending (taken ++ t ∷ []) ≡ (queue ++ pending taken) ++ parked t ∷ []
at_end queue taken t =
    ap (λ q. queue ++ q) (pending-append taken (t ∷ []))
    ∙ sym (append_assoc queue (pending taken) (parked t ∷ []))

split_at :
    (queue : List Parked) (before after : List Taken) (t : Taken)
    → queue ++ pending (before ++ t ∷ after) ≡ queue ++ (pending before ++ parked t ∷ pending after)
split_at queue before after t = ap (λ q. queue ++ q) (pending-append before (t ∷ after))

taken_out :
    (queue : List Parked) (before after : List Taken)
    → queue ++ pending (before ++ after) ≡ queue ++ (pending before ++ pending after)
taken_out queue before after = ap (λ q. queue ++ q) (pending-append before after)

parked_first :
    (queue : List Parked) (before after : List Taken) (p : Parked)
    → (queue ++ p ∷ []) ++ pending (before ++ after)
      ≡ queue ++ p ∷ (pending before ++ pending after)
parked_first queue before after p =
    append_assoc queue (p ∷ []) (pending (before ++ after))
    ∙ ap (λ q. queue ++ p ∷ q) (pending-append before after)

pub Fits-take :
    (clock m : ℕ) (queue : List Parked) (slot : Slot) (a : Arriving)
    → clock ≤ slot.due
    → Fits clock queue a
    → Fits slot.due queue (take_slot m slot a)
unfolding parked_of
Fits-take clock m queue slot a h f =
    let t : Taken = record { max_packet_size = m; slot = slot } in
    let b = All-weaken clock slot.due (queue ++ pending a.taken) h f.within in
    record {
      within =
          rw (at_end queue a.taken t)
            (All-append-one slot.due (queue ++ pending a.taken) (parked t) b (omega arith));
      order = elim f.order [
        | inl o ↦ inl o
        | inr asc ↦ inr (
            rw (at_end queue a.taken t)
              (Ascends-append 0 0 (queue ++ pending a.taken) (parked t) (omega arith) asc b))
      ];
    }

park_order :
    (queue : List Parked) (a : Arriving) (before after : List Taken) (t : Taken)
    → a.taken ≡ before ++ t ∷ after
    → (0 < a.overtakes) ⊎ Ascends 0 (queue ++ pending a.taken)
    → (0 < a.overtakes + length before)
      ⊎ Ascends 0 ((queue ++ parked t ∷ []) ++ pending (before ++ after))
park_order queue a [] after t e (inl o) = inl (omega (arith, o))
park_order queue a [] after t e (inr asc) = inr (
    subst (Ascends 0)
      (ap (λ ts. queue ++ pending ts) e ∙ sym (parked_first queue [] after (parked t))) asc)
park_order queue a (b ∷ before) after t e o = inl (omega arith)

pub Fits-park :
    (clock : ℕ) (queue : List Parked) (a : Arriving) (before after : List Taken) (t : Taken)
    → a.taken ≡ before ++ t ∷ after
    → Fits clock queue a
    → Fits clock
        (queue ++ parked t ∷ [])
        (record { taken = before ++ after; overtakes = a.overtakes + length before })
Fits-park clock queue a before after t e f =
    let all : Within clock (queue ++ (pending before ++ parked t ∷ pending after)) =
      subst (Within clock) (ap (λ ts. queue ++ pending ts) e ∙ split_at queue before after t)
        f.within in
    record {
      within =
          rw (parked_first queue before after (parked t))
            (Within-swap clock queue (pending before) (pending after) (parked t) all);
      order = park_order queue a before after t e f.order;
    }

pub Fits-refuse :
    (clock : ℕ) (queue : List Parked) (a : Arriving) (before after : List Taken) (t : Taken)
    → a.taken ≡ before ++ t ∷ after
    → Fits clock queue a
    → Fits clock queue (record { taken = before ++ after; overtakes = a.overtakes })
Fits-refuse clock queue a before after t e f =
    let old : queue ++ pending a.taken ≡ (queue ++ pending before) ++ parked t ∷ pending after =
      ap (λ ts. queue ++ pending ts) e
      ∙ split_at queue before after t
      ∙ sym (append_assoc queue (pending before) (parked t ∷ pending after)) in
    let new : queue ++ pending (before ++ after) ≡ (queue ++ pending before) ++ pending after =
      taken_out queue before after ∙ sym (append_assoc queue (pending before) (pending after)) in
    record {
      within = subst (Within clock) (sym new) (
          Within-remove clock (queue ++ pending before) (pending after) (parked t)
            (subst (Within clock) old f.within));
      order = elim f.order [
        | inl o ↦ inl o
        | inr asc ↦ inr (
            subst (Ascends 0) (sym new) (
              Ascends-remove 0 (queue ++ pending before) (pending after) (parked t)
                (subst (Ascends 0) old asc)))
      ];
    }

pub Fits-cancel :
    (clock : ℕ) (queue : List Parked) (a : Arriving) (before after : List Parked) (p : Parked)
    → queue ≡ before ++ p ∷ after
    → Fits clock queue a
    → Fits clock (before ++ after) a
Fits-cancel clock queue a before after p e f =
    let old : queue ++ pending a.taken ≡ before ++ p ∷ (after ++ pending a.taken) =
      ap (λ q. q ++ pending a.taken) e ∙ append_assoc before (p ∷ after) (pending a.taken) in
    let new : (before ++ after) ++ pending a.taken ≡ before ++ (after ++ pending a.taken) =
      append_assoc before after (pending a.taken) in
    record {
      within = subst (Within clock) (sym new) (
          Within-remove clock before (after ++ pending a.taken) p
            (subst (Within clock) old f.within));
      order = elim f.order [
        | inl o ↦ inl o
        | inr asc ↦ inr (
            subst (Ascends 0) (sym new)
              (Ascends-remove 0 before (after ++ pending a.taken) p (subst (Ascends 0) old asc)))
      ];
    }

-- What holds of the parked transfers alone.
pub Fits-Within :
    (clock : ℕ) (queue : List Parked) (a : Arriving) → Fits clock queue a → Within clock queue
Fits-Within clock queue a f = Within-left clock queue (pending a.taken) f.within

pub Fits-Ascends :
    (clock : ℕ) (queue : List Parked) (a : Arriving)
    → Fits clock queue a
    → (0 < a.overtakes) ⊎ Ascends 0 queue
Fits-Ascends clock queue a f = elim f.order [
  | inl o ↦ inl o
  | inr asc ↦ inr (Ascends-left 0 queue (pending a.taken) asc)
]
