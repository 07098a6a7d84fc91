-- ===== src/Bridge/Credits.antt =====
-- src/common/hci_bridge.c: the helpers that account for the controller's ACL buffers.
use virt_bth_usb.Common.{ℕ, ◌+◌, ◌-◌, true, false, Option, none, some}
use virt_bth_usb.Common.{List, [], ◌∷◌, ◌==◌, ltb, leb, ◌&&◌, if◌then◌else◌, add16, get_or, set}
use virt_bth_usb.Bridge.{Bridge, HandleEntry, free_entry}

-- The sum is an unsigned short.
unfoldable pub in_flight : List HandleEntry → ℕ → ℕ
in_flight [] sum = sum
in_flight (e ∷ es) sum = in_flight es (if e.in_use then add16 sum e.outstanding else sum)

unfoldable pub total_in_flight : Bridge → ℕ
total_in_flight b = in_flight b.handles 0

unfoldable pub clamp_credits : Bridge → Bridge
clamp_credits b =
    let flying = total_in_flight b in
    let ceiling = if ltb flying b.total_acl_buffers then b.total_acl_buffers - flying else 0 in
    if b.total_acl_buffers == 0
    then record b { available_acl_credits = 0 }
    else if ltb ceiling b.available_acl_credits
    then record b { available_acl_credits = ceiling }
    else b

-- The loops over the table: the entry in use for a handle, and the first free one, from `i` on.
unfoldable pub find_handle : List HandleEntry → ℕ → ℕ → Option ℕ
find_handle [] handle i = none
find_handle (e ∷ es) handle i =
    let later = find_handle es handle (i + 1) in
    if e.in_use && e.handle == handle then some i else later

unfoldable pub first_free : List HandleEntry → ℕ → Option ℕ
first_free [] i = none
first_free (e ∷ es) i = let later = first_free es (i + 1) in if e.in_use then later else some i

-- The slot's index, `none` for -1.
unfoldable pub reserve_handle_slot : Bridge → ℕ → Bridge × Option ℕ
reserve_handle_slot b handle = elim (find_handle b.handles handle 0) [
  | some i ↦ (b, some i)
  | none ↦ elim (first_free b.handles 0) [
    | none ↦ (b, none)
    | some i ↦ (
      record b {
        handles = set b.handles i (record { handle = handle; outstanding = 0; in_use = true });
      },
      some i,
    )
  ]
]

unfoldable pub record_acl_completed : Bridge → ℕ → ℕ → Bridge
record_acl_completed b handle completed = elim (find_handle b.handles handle 0) [
  | none ↦ b
  | some i ↦
      let e = get_or b.handles i free_entry in
      let actual = if leb completed e.outstanding then completed else e.outstanding in
      clamp_credits (record b {
        handles = set b.handles i (record e { outstanding = e.outstanding - actual });
        available_acl_credits = add16 b.available_acl_credits actual;
      })
]

unfoldable pub record_disconnection : Bridge → ℕ → Bridge
record_disconnection b handle = elim (find_handle b.handles handle 0) [
  | none ↦ b
  | some i ↦
      let e = get_or b.handles i free_entry in
      clamp_credits (record b {
        handles = set b.handles i (record e { outstanding = 0; in_use = false });
        available_acl_credits = add16 b.available_acl_credits e.outstanding;
      })
]
