-- ===== src/Bridge/Accounting.antt =====
-- src/common/hci_bridge.c, the ACL credits: the balance of credits and packets in flight, and the
-- credit helpers.
use virt_bth_usb.Common.{
  ℕ, zero, suc, ◌+◌, ◌-◌, ◌%◌, ◌^◌, ◌≤◌, ◌<◌, ◌≡◌, refl, ◌∙◌, ap, arith, Bool, true, false, Option,
  none, some, inl, inr,
}
use virt_bth_usb.Common.{
  List, [], ◌∷◌, length, get_or, set, length-set, get_or-set_self, leb, ◌==◌, ◌&&◌, if◌then◌else◌,
  Bool-cases, Option-cases,
}
use virt_bth_usb.Bridge.{Bridge, HandleEntry, free_entry, max_handles}
use virt_bth_usb.Bridge.Credits.{
  in_flight, total_in_flight, clamp_credits, find_handle, first_free, reserve_handle_slot,
  record_acl_completed, record_disconnection,
}

-- The packets in flight, with no wrap.
abbrev pub weight : HandleEntry → ℕ
weight e = if e.in_use then e.outstanding else 0

unfoldable pub flying : List HandleEntry → ℕ
flying [] = 0
flying (e ∷ es) = weight e + flying es

pub in_flight-flying :
    (es : List HandleEntry) (sum : ℕ)
    → sum + flying es < 2 ^ 16
    → in_flight es sum ≡ sum + flying es
unfolding in_flight flying
in_flight-flying [] sum h = omega arith
in_flight-flying (e ∷ es) sum h = elim (Bool-cases e.in_use) [
  | inl y ↦ ground (arith, in_flight-flying es ((sum + e.outstanding) % 2 ^ 16))
  | inr n ↦ ground (arith, in_flight-flying es sum)
]

pub flying-set :
    (es : List HandleEntry) (i : ℕ) (e : HandleEntry)
    → i < length es
    → flying (set es i e) + weight (get_or es i free_entry) ≡ flying es + weight e
unfolding flying
flying-set [] i e h = absurd (omega arith)
flying-set (x ∷ es) zero e h = omega arith
flying-set (x ∷ es) (suc i) e h = omega (arith, flying-set es i e (omega arith))

-- The table has its eight slots, nothing wraps, and available credits and packets in flight fit the
-- controller's buffers unless no credit is left.
pub record BalancedAt (handles : List HandleEntry) (available total : ℕ) : Type 0 where
  pub table : length handles ≡ max_handles
  pub total_fits : total < 2 ^ 16
  pub flying_fits : flying handles < 2 ^ 16
  pub within : available ≤ total - flying handles

abbrev pub IsBalanced : Bridge → Type 0
IsBalanced b = BalancedAt b.handles b.available_acl_credits b.total_acl_buffers

-- Before the clamp: credits were added, and nothing else is out of place.
pub record IsUnclamped (b : Bridge) : Type 0 where
  pub table : length b.handles ≡ max_handles
  pub total_fits : b.total_acl_buffers < 2 ^ 16
  pub flying_fits : flying b.handles < 2 ^ 16

pub clamp_credits-IsBalanced : (b : Bridge) → IsUnclamped b → IsBalanced (clamp_credits b)
unfolding clamp_credits total_in_flight
clamp_credits-IsBalanced b v = record {
  table = ground (arith, v.table);
  total_fits = ground (arith, v.total_fits);
  flying_fits = ground (arith, v.flying_fits);
  within = ground (arith, in_flight-flying b.handles 0, v.flying_fits);
}

-- The entry at `j` is at position `k` of the part of the table that starts at `i`.
pub record At (es : List HandleEntry) (i j : ℕ) (used : Bool) : Type 0 where
  k : ℕ
  place : j ≡ i + k
  inside : k < length es
  entry : (get_or es k free_entry).in_use ≡ used

At-cons :
    (x : HandleEntry) (es : List HandleEntry) (i j : ℕ) (u : Bool)
    → At es (i + 1) j u
    → At (x ∷ es) i j u
At-cons x es i j u v = record {
  k = suc v.k;
  place = omega (arith, v.place);
  inside = omega (arith, v.inside);
  entry = v.entry;
}

-- A handle that is found is in use, at an index of the table.
pub find_handle-At :
    (es : List HandleEntry) (handle i j : ℕ) → find_handle es handle i ≡ some j → At es i j true
unfolding find_handle
find_handle-At [] handle i j e = cc
find_handle-At (x ∷ es) handle i j e = elim (Bool-cases (x.in_use && x.handle == handle)) [
  | inl y ↦ record { k = 0; place = ground arith; inside = omega arith; entry = ground arith }
  | inr n ↦ At-cons x es i j true (find_handle-At es handle (i + 1) j (rw n at e))
]

first_free-At : (es : List HandleEntry) (i j : ℕ) → first_free es i ≡ some j → At es i j false
unfolding first_free
first_free-At [] i j e = cc
first_free-At (x ∷ es) i j e = elim (Bool-cases x.in_use) [
  | inl y ↦ At-cons x es i j false (first_free-At es (i + 1) j (rw y at e))
  | inr n ↦ record { k = 0; place = ground arith; inside = omega arith; entry = n }
]

-- The same at the start of the table.
pub found :
    (es : List HandleEntry) (j : ℕ) (u : Bool)
    → At es 0 j u
    → (j < length es) × ((get_or es j free_entry).in_use ≡ u)
found es j u v =
    let e : j ≡ v.k = omega (arith, v.place) in
    (omega (arith, v.inside), ap (λ (i : ℕ). (get_or es i free_entry).in_use) e ∙ v.entry)

pub record_acl_completed-IsBalanced :
    (b : Bridge) (handle completed : ℕ)
    → IsBalanced b
    → IsBalanced (record_acl_completed b handle completed)
unfolding record_acl_completed
record_acl_completed-IsBalanced b handle completed v =
    elim (Option-cases (find_handle b.handles handle 0)) [
      | inl n ↦ rw (n, record_acl_completed) v
      | inr (i, s) ↦
          let (inside, used) = found b.handles i true (find_handle-At b.handles handle 0 i s) in
          let e = get_or b.handles i free_entry in
          let actual = if leb completed e.outstanding then completed else e.outstanding in
          let e' : HandleEntry = record e { outstanding = e.outstanding - actual } in
          rw (s, record_acl_completed)
            (clamp_credits-IsBalanced _ (record {
              table = length-set b.handles i e' ∙ v.table;
              total_fits = v.total_fits;
              flying_fits = ground (arith, flying-set b.handles i e' inside, v.flying_fits);
            }))
    ]

pub record_disconnection-IsBalanced :
    (b : Bridge) (handle : ℕ) → IsBalanced b → IsBalanced (record_disconnection b handle)
unfolding record_disconnection
record_disconnection-IsBalanced b handle v = elim (Option-cases (find_handle b.handles handle 0)) [
  | inl n ↦ rw (n, record_disconnection) v
  | inr (i, s) ↦
      let (inside, used) = found b.handles i true (find_handle-At b.handles handle 0 i s) in
      let e' : HandleEntry = record (get_or b.handles i free_entry) {
        outstanding = 0;
        in_use = false;
      } in
      rw (s, record_disconnection)
        (clamp_credits-IsBalanced _ (record {
          table = length-set b.handles i e' ∙ v.table;
          total_fits = v.total_fits;
          flying_fits = omega (arith, flying-set b.handles i e' inside, v.flying_fits);
        }))
]

-- Slot `i` is in the table and in use.
pub record IsSlot (es : List HandleEntry) (i : ℕ) : Type 0 where
  pub inside : i < length es
  pub used : (get_or es i free_entry).in_use ≡ true

abbrev pub SlotOf : List HandleEntry → Option ℕ → Type 0
SlotOf es none = Unit
SlotOf es (some i) = IsSlot es i

-- Reserving changes neither the credits nor the packets in flight, and a slot that it gives is in use.
pub record Reserves (b : Bridge) (r : Bridge × Option ℕ) : Type 0 where
  pub same_flying : flying r.0.handles ≡ flying b.handles
  pub same_table : length r.0.handles ≡ length b.handles
  pub same_credits : r.0.available_acl_credits ≡ b.available_acl_credits
  pub same_total : r.0.total_acl_buffers ≡ b.total_acl_buffers
  pub slot : SlotOf r.0.handles r.1

set-used :
    (es : List HandleEntry) (i : ℕ) (e : HandleEntry)
    → i < length es
    → e.in_use ≡ true
    → IsSlot (set es i e) i
set-used es i e h u = record {
  inside = omega (arith, length-set es i e);
  used = ap (λ (x : HandleEntry). x.in_use) (get_or-set_self es i e free_entry h) ∙ u;
}

pub reserve-Reserves : (b : Bridge) (handle : ℕ) → Reserves b (reserve_handle_slot b handle)
unfolding reserve_handle_slot
reserve-Reserves b handle = elim (Option-cases (find_handle b.handles handle 0)) [
  | inr (i, s) ↦
      let (inside, used) = found b.handles i true (find_handle-At b.handles handle 0 i s) in
      rw (s, reserve_handle_slot)
        (record {
          same_flying = refl;
          same_table = refl;
          same_credits = refl;
          same_total = refl;
          slot = record { inside = inside; used = used };
        })
  | inl n ↦ elim (Option-cases (first_free b.handles 0)) [
    | inl full ↦
        rw (n, reserve_handle_slot, full)
          (record {
            same_flying = refl;
            same_table = refl;
            same_credits = refl;
            same_total = refl;
            slot = tt;
          })
    | inr (i, s) ↦
        let (inside, unused) = found b.handles i false (first_free-At b.handles 0 i s) in
        let e : HandleEntry = record { handle = handle; outstanding = 0; in_use = true } in
        rw (n, reserve_handle_slot, s)
          (record {
            same_flying = ground (arith, flying-set b.handles i e inside);
            same_table = length-set b.handles i e;
            same_credits = refl;
            same_total = refl;
            slot = set-used b.handles i e inside refl;
          })
  ]
]
