-- ===== src/Bridge/Conservation.antt =====
-- src/common/hci_bridge.c: the sum of free credits and packets in flight.
use virt_bth_usb.Common.{ℕ, ◌^◌, ◌<◌, subst, arith, Bool, not, inl, inr}
use virt_bth_usb.Common.{List, add16, get_or, ◌==◌, either, cases, Option-cases}
use virt_bth_usb.Bridge.{Bridge, HandleEntry, free_entry, WireOps}
use virt_bth_usb.Bridge.Credits.{reserve_handle_slot, record_acl_completed, record_disconnection}
use virt_bth_usb.Bridge.Submit.{send_reserved, send_with_credit, submit_acl, handle_at, is_acl}
use virt_bth_usb.Bridge.Accounting.{flying-set, IsBalanced, IsSlot, SlotOf, reserve-Reserves}
use virt_bth_usb.Bridge.Exact.{IsExact, record_acl_completed-IsExact, record_disconnection-IsExact}

module _ {W : Type 0} (ops : WireOps W) where
  abbrev ExactSent : (Bridge × W) × Bool → Type 0
  ExactSent r = IsExact r.0.0

  send_reserved-IsExact :
      (b : Bridge) (w : W) (p : List ℕ) (i : ℕ)
      → IsSlot b.handles i
      → 0 < b.available_acl_credits
      → b.total_acl_buffers < 2 ^ 16
      → IsExact b
      → ExactSent (send_reserved ops b w p i)
  unfolding send_reserved
  send_reserved-IsExact b w p i slot credit fits x = elim (Option-cases ops.send_acl) [
    | inl n ↦ rw (n, send_reserved) x
    | inr (send, s) ↦
        let e = get_or b.handles i free_entry in
        let e' : HandleEntry = record e { outstanding = add16 e.outstanding 1 } in
        let sum = flying-set b.handles i e' slot.inside in
        rw (s, send_reserved) (either ExactSent (send w p).1 (ground (arith, sum, slot.used, x)) x)
  ]

  send_with_credit-IsExact :
      (b : Bridge) (w : W) (p : List ℕ)
      → 0 < b.available_acl_credits
      → b.total_acl_buffers < 2 ^ 16
      → IsExact b
      → ExactSent (send_with_credit ops b w p)
  unfolding send_with_credit
  send_with_credit-IsExact b w p credit fits x =
      let b' = (reserve_handle_slot b (handle_at p 0)).0 in
      let r = reserve-Reserves b (handle_at p 0) in
      let x' : IsExact b' = omega (arith, r.same_flying, r.same_credits, r.same_total) in
      elim (Option-cases (reserve_handle_slot b (handle_at p 0)).1) [
        | inl n ↦ rw (n, send_with_credit) x'
        | inr (i, s) ↦
            rw (s, send_with_credit)
              (send_reserved-IsExact b' w p i (subst (SlotOf b'.handles) s r.slot)
                (omega (arith, r.same_credits)) (omega (arith, r.same_total)) x')
      ]

  -- Submitting an ACL packet keeps free credits and packets in flight adding up to the controller's
  -- buffers, on every path of the submission and whatever the wire answers, if they were balanced before.
  submit_acl-IsExact :
      (b : Bridge) (w : W) (p : List ℕ)
      → IsBalanced b
      → IsExact b
      → IsExact (submit_acl ops b w p).0.0
  unfolding submit_acl
  submit_acl-IsExact b w p v x = either ExactSent (not (is_acl p)) x (
      either ExactSent (not b.ready) x (
        cases ExactSent (b.available_acl_credits == 0) (λ none_left. x)
          (λ credit. send_with_credit-IsExact _ w p (ground arith) v.total_fits x)))

-- A completion report and a disconnection keep free credits and packets in flight adding up to the
-- controller's buffers, for a handle that is known or not and for any number of packets
-- reported, if they were balanced before.
returns-IsExact :
    (b : Bridge) (handle completed : ℕ)
    → IsBalanced b
    → IsExact b
    → IsExact (record_acl_completed b handle completed) × IsExact (record_disconnection b handle)
returns-IsExact b handle completed v x =
    (record_acl_completed-IsExact b handle completed v x, record_disconnection-IsExact b handle v x)
