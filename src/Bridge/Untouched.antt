-- ===== src/Bridge/Untouched.antt =====
-- src/common/hci_bridge.c: the credit accounting of an event, and the queues.
use virt_bth_usb.Common.{ℕ, zero, suc, ◌+◌, ◌≡◌, refl, inl, inr}
use virt_bth_usb.Common.{List, ltb, ◌==◌, byte, either, Option-cases}
use virt_bth_usb.Bridge.{Bridge}
use virt_bth_usb.Bridge.Credits.{
  clamp_credits, find_handle, record_acl_completed, record_disconnection,
}
use virt_bth_usb.Bridge.Inbound.{
  set_acl_buffers, snoop_buffer_size, complete_each, snoop_completed, snoop_disconnection, snoop,
}

-- The credit accounting leaves the queues and the readiness alone.
abbrev pub Untouched : Bridge → Bridge → Type 0
Untouched b b' =
    (b'.event_fifo ≡ b.event_fifo)
    × (b'.ready ≡ b.ready)
    × (b'.acl_in_fifo ≡ b.acl_in_fifo)
    × (b'.sco_in_fifo ≡ b.sco_in_fifo)

clamp-Untouched : (b b' : Bridge) → Untouched b b' → Untouched b (clamp_credits b')
unfolding clamp_credits
clamp-Untouched b b' v =
    either (Untouched b) (b'.total_acl_buffers == 0) v
      (either (Untouched b) (ltb _ b'.available_acl_credits) v v)

completed-Untouched :
    (b b' : Bridge) (handle n : ℕ) → Untouched b b' → Untouched b (record_acl_completed b' handle n)
unfolding record_acl_completed
completed-Untouched b b' handle n v = elim (Option-cases (find_handle b'.handles handle 0)) [
  | inl e ↦ rw (e, record_acl_completed) v
  | inr (i, e) ↦ rw (e, record_acl_completed) (clamp-Untouched b _ v)
]

disconnection-Untouched :
    (b b' : Bridge) (handle : ℕ) → Untouched b b' → Untouched b (record_disconnection b' handle)
unfolding record_disconnection
disconnection-Untouched b b' handle v = elim (Option-cases (find_handle b'.handles handle 0)) [
  | inl e ↦ rw (e, record_disconnection) v
  | inr (i, e) ↦ rw (e, record_disconnection) (clamp-Untouched b _ v)
]

complete_each-Untouched :
    (n i : ℕ) (b b' : Bridge) (p : List ℕ) → Untouched b b' → Untouched b (complete_each n i b' p)
unfolding complete_each
complete_each-Untouched zero i b b' p v = v
complete_each-Untouched (suc n) i b b' p v =
    complete_each-Untouched n (i + 1) b _ p (completed-Untouched b b' _ _ v)

pub snoop-Untouched : (b : Bridge) (p : List ℕ) → Untouched b (snoop b p)
unfolding snoop snoop_buffer_size snoop_completed snoop_disconnection set_acl_buffers
snoop-Untouched b p =
    let b1 = snoop_buffer_size b p in
    let b2 = snoop_completed b1 p in
    let v1 : Untouched b b1 =
      either (Untouched b) _
        (clamp-Untouched b _ (
          either (Untouched b) (b.total_acl_buffers == 0) (refl, refl, refl, refl)
            (refl, refl, refl, refl)))
        (refl, refl, refl, refl) in
    let v2 : Untouched b b2 =
      either (Untouched b) _ (complete_each-Untouched (byte p 2) 0 b b1 p v1) v1 in
    either (Untouched b) _ (disconnection-Untouched b b2 _ v2) v2
