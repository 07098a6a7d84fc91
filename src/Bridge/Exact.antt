-- ===== src/Bridge/Exact.antt =====
-- src/common/hci_bridge.c: credits given back by completions and disconnections.
use virt_bth_usb.Common.{ℕ, ◌+◌, ◌-◌, ◌≡◌, ◌∙◌, arith, true, false, inl, inr}
use virt_bth_usb.Common.{get_or, length-set, leb, if◌then◌else◌, Option-cases}
use virt_bth_usb.Bridge.{Bridge, HandleEntry, free_entry}
use virt_bth_usb.Bridge.Credits.{
  total_in_flight, clamp_credits, find_handle, record_acl_completed, record_disconnection,
}
use virt_bth_usb.Bridge.Accounting.{
  flying, flying-set, IsBalanced, IsUnclamped, in_flight-flying, found, find_handle-At,
}

-- Completions and disconnections return credits one for one: if free credits and packets in flight
-- make up the controller's buffers, they still do.
abbrev pub IsExact : Bridge → Type 0
IsExact b = b.available_acl_credits + flying b.handles ≡ b.total_acl_buffers

clamp-IsExact : (b : Bridge) → IsUnclamped b → IsExact b → IsExact (clamp_credits b)
unfolding clamp_credits total_in_flight
clamp-IsExact b v e = ground (arith, in_flight-flying b.handles 0)

pub record_acl_completed-IsExact :
    (b : Bridge) (handle completed : ℕ)
    → IsBalanced b
    → IsExact b
    → IsExact (record_acl_completed b handle completed)
unfolding record_acl_completed
record_acl_completed-IsExact b handle completed v x =
    elim (Option-cases (find_handle b.handles handle 0)) [
      | inl n ↦ rw (n, record_acl_completed) x
      | inr (i, s) ↦
          let (inside, used) = found b.handles i true (find_handle-At b.handles handle 0 i s) in
          let e = get_or b.handles i free_entry in
          let actual = if leb completed e.outstanding then completed else e.outstanding in
          let e' : HandleEntry = record e { outstanding = e.outstanding - actual } in
          let sum = flying-set b.handles i e' inside in
          rw (s, record_acl_completed)
            (clamp-IsExact _
              (record {
                table = length-set b.handles i e' ∙ v.table;
                total_fits = v.total_fits;
                flying_fits = ground (arith, sum, v.flying_fits);
              })
              (ground (arith, sum, used, v.total_fits, x)))
    ]

pub record_disconnection-IsExact :
    (b : Bridge) (handle : ℕ) → IsBalanced b → IsExact b → IsExact (record_disconnection b handle)
unfolding record_disconnection
record_disconnection-IsExact b handle v x = elim (Option-cases (find_handle b.handles handle 0)) [
  | inl n ↦ rw (n, record_disconnection) x
  | inr (i, s) ↦
      let (inside, used) = found b.handles i true (find_handle-At b.handles handle 0 i s) in
      let e' : HandleEntry = record (get_or b.handles i free_entry) {
        outstanding = 0;
        in_use = false;
      } in
      let sum = flying-set b.handles i e' inside in
      rw (s, record_disconnection)
        (clamp-IsExact _
          (record {
            table = length-set b.handles i e' ∙ v.table;
            total_fits = v.total_fits;
            flying_fits = omega (arith, sum, v.flying_fits);
          })
          (ground (arith, sum, used, v.total_fits, x)))
]
