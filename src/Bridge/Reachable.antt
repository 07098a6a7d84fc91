-- ===== src/Bridge/Reachable.antt =====
-- src/common/hci_bridge.c: the host's operations, and sequences of calls.
use virt_bth_usb.Common.{ℕ, zero, suc, ◌+◌, ◌≤◌, ◌<◌, ◌∙◌, arith, Bool, not, Option, inl, inr}
use virt_bth_usb.Common.{
  List, [], ◌∷◌, add16, IsByte, All, subst, get_or, set, length-set, leb, ◌==◌, ◌&&◌, either, cases,
  Option-cases,
}
use virt_bth_usb.Fifo.{drop_front}
use virt_bth_usb.Fifo.Queue.{drop_front-IsRing, append_back-IsRing}
use virt_bth_usb.Bridge.{Bridge, HandleEntry, free_entry, WireOps, bridge_init, sco_out_fifo_depth}
use virt_bth_usb.Bridge.Credits.{find_handle, first_free, reserve_handle_slot}
use virt_bth_usb.Bridge.Submit.{
  drain, drain_outbound_sco, forward_command, replay, set_ready, submit_command, send_reserved,
  send_with_credit, submit_acl, enqueue_outbound_sco, submit_sco, handle_at, is_acl, is_command,
  is_sco,
}
use virt_bth_usb.Fifo.{front}
use virt_bth_usb.Bridge.Accounting.{
  flying, flying-set, IsBalanced, Reserves, reserve-Reserves, IsSlot, SlotOf,
}
use virt_bth_usb.Bridge.Calls.{Call, run_call, run_calls}
use virt_bth_usb.Bridge.Invariant.{overwrite-IsRing, on_inbound-IsSound, pop_stream-IsSound}
use virt_bth_usb.Bridge.Rings.{
  IsSound, HasRings, with_outbound, bridge_init-IsSound, bridge_reset-IsSound,
}

-- A call's bytes are bytes.
abbrev pub IsByteCall : Call → Type 0
IsByteCall (Call.inbound s p) = All IsByte p
IsByteCall call = Unit

drop_count :
    (b : Bridge) (n : ℕ)
    → suc n ≤ b.outbound_sco_fifo.count
    → n ≤ (drop_front sco_out_fifo_depth b.outbound_sco_fifo).count
unfolding drop_front
drop_count b n h = omega arith

reserved-IsBalanced :
    (b : Bridge) (r : Bridge × Option ℕ) → Reserves b r → IsBalanced b → IsBalanced r.0
reserved-IsBalanced b r k v = record {
  table = k.same_table ∙ v.table;
  total_fits = omega (arith, k.same_total, v.total_fits);
  flying_fits = omega (arith, k.same_flying, v.flying_fits);
  within = omega (arith, k.same_flying, k.same_total, k.same_credits, v.within);
}

reserve-HasRings :
    (b : Bridge) (handle : ℕ) → HasRings b → HasRings (reserve_handle_slot b handle).0
unfolding reserve_handle_slot
reserve-HasRings b handle v = elim (Option-cases (find_handle b.handles handle 0)) [
  | inr (i, s) ↦ rw (s, reserve_handle_slot) v
  | inl n ↦ elim (Option-cases (first_free b.handles 0)) [
    | inl full ↦ rw (n, reserve_handle_slot, full) v
    | inr (i, s) ↦ rw (n, reserve_handle_slot, s) v
  ]
]

module _ {W : Type 0} (ops : WireOps W) where
  abbrev GoodSent : (Bridge × W) × Bool → Type 0
  GoodSent r = IsSound r.0.0

  abbrev GoodState : Bridge × W → Type 0
  GoodState r = IsSound r.0

  drain-IsSound :
      (send : W → List ℕ → W × Bool) (n : ℕ) (b : Bridge) (w : W)
      → n ≤ b.outbound_sco_fifo.count
      → IsSound b
      → GoodState (drain ops send n b w)
  unfolding drain
  drain-IsSound send zero b w h v = v
  drain-IsSound send (suc n) b w h v =
      either GoodState (send w (front b.outbound_sco_fifo)).1
        (drain-IsSound send n _ _ (drop_count b n h) (
          v.0,
          with_outbound v.1 (
              drop_front-IsRing sco_out_fifo_depth b.outbound_sco_fifo v.1.outbound_ring
                (omega arith)),
        ))
        v

  drain_outbound_sco-IsSound :
      (b : Bridge) (w : W) → IsSound b → GoodState (drain_outbound_sco ops b w)
  unfolding drain_outbound_sco
  drain_outbound_sco-IsSound b w v = elim (Option-cases ops.send_sco) [
    | inl n ↦ rw (n, drain_outbound_sco) v
    | inr (send, s) ↦
        rw (s, drain_outbound_sco)
          (drain-IsSound send b.outbound_sco_fifo.count b w (omega arith) v)
  ]

  forward_command-IsSound :
      (b : Bridge) (w : W) (p : List ℕ) → IsSound b → GoodSent (forward_command ops b w p)
  unfolding forward_command
  forward_command-IsSound b w p v = elim (Option-cases ops.send_command) [
    | inl n ↦ rw (n, forward_command) v
    | inr (send, s) ↦ rw (s, forward_command) (either GoodSent (send w p).1 v v)
  ]

  set_ready-IsSound :
      (b : Bridge) (w : W) (ready : Bool) → IsSound b → GoodState (set_ready ops b w ready)
  unfolding set_ready replay
  set_ready-IsSound b w ready v =
      let replayed : GoodState (replay ops (record b { ready = ready }) w) =
        either GoodState b.held_command_pending (forward_command-IsSound _ w b.held_command v) v in
      either GoodState (not b.ready && ready) (drain_outbound_sco-IsSound _ _ replayed) v

  submit_command-IsSound :
      (b : Bridge) (w : W) (p : List ℕ) → IsSound b → GoodSent (submit_command ops b w p)
  unfolding submit_command
  submit_command-IsSound b w p v =
      either GoodSent (not (is_command p)) v
        (either GoodSent (not b.ready) v (forward_command-IsSound _ w p v))

  send_reserved-IsSound :
      (b : Bridge) (w : W) (p : List ℕ) (i : ℕ)
      → IsSlot b.handles i
      → 0 < b.available_acl_credits
      → IsSound b
      → GoodSent (send_reserved ops b w p i)
  unfolding send_reserved
  send_reserved-IsSound b w p i slot credit v = elim (Option-cases ops.send_acl) [
    | inl n ↦ rw (n, send_reserved) v
    | inr (send, s) ↦
        let e = get_or b.handles i free_entry in
        let e' : HandleEntry = record e { outstanding = add16 e.outstanding 1 } in
        let sum = flying-set b.handles i e' slot.inside in
        let more : flying (set b.handles i e') ≤ flying b.handles + 1 =
          ground (arith, sum, slot.used) in
        rw (s, send_reserved)
          (either GoodSent (send w p).1
            (
              record {
                table = length-set b.handles i e' ∙ v.0.table;
                total_fits = v.0.total_fits;
                flying_fits = omega (arith, more, v.0.within, v.0.total_fits);
                within = omega (arith, more, v.0.within);
              },
              v.1,
            )
            v)
  ]

  send_with_credit-IsSound :
      (b : Bridge) (w : W) (p : List ℕ)
      → 0 < b.available_acl_credits
      → IsSound b
      → GoodSent (send_with_credit ops b w p)
  unfolding send_with_credit
  send_with_credit-IsSound b w p credit v =
      let b' = (reserve_handle_slot b (handle_at p 0)).0 in
      let r = reserve-Reserves b (handle_at p 0) in
      let v' : IsSound b' = (reserved-IsBalanced b _ r v.0, reserve-HasRings b _ v.1) in
      elim (Option-cases (reserve_handle_slot b (handle_at p 0)).1) [
        | inl n ↦ rw (n, send_with_credit) v'
        | inr (i, s) ↦
            rw (s, send_with_credit)
              (send_reserved-IsSound b' w p i (subst (SlotOf b'.handles) s r.slot)
                (omega (arith, r.same_credits)) v')
      ]

  submit_acl-IsSound :
      (b : Bridge) (w : W) (p : List ℕ) → IsSound b → GoodSent (submit_acl ops b w p)
  unfolding submit_acl
  submit_acl-IsSound b w p v = either GoodSent (not (is_acl p)) v (
      either GoodSent (not b.ready) v (
        cases GoodSent (b.available_acl_credits == 0) (λ none_left. v)
          (λ credit. send_with_credit-IsSound _ w p (ground arith) v)))

  submit_sco-IsSound :
      (b : Bridge) (w : W) (p : List ℕ) → IsSound b → GoodSent (submit_sco ops b w p)
  unfolding submit_sco enqueue_outbound_sco
  submit_sco-IsSound b w p v = either GoodSent (not (is_sco p)) v (
      either GoodSent (not b.ready) v (
        drain_outbound_sco-IsSound _ w (
          cases IsSound (leb sco_out_fifo_depth b.outbound_sco_fifo.count)
            (λ full. (
              v.0,
              with_outbound v.1 (
                  overwrite-IsRing sco_out_fifo_depth b.outbound_sco_fifo p v.1.outbound_ring full),
            ))
            (λ room. (
              v.0,
              with_outbound v.1 (
                  append_back-IsRing sco_out_fifo_depth b.outbound_sco_fifo p v.1.outbound_ring
                    (ground arith)),
            )))))

  run_call-IsSound :
      (b : Bridge) (w : W) (call : Call)
      → IsByteCall call
      → IsSound b
      → GoodState (run_call ops b w call)
  run_call-IsSound b w (Call.command p) h v = submit_command-IsSound b w p v
  run_call-IsSound b w (Call.acl_out p) h v = submit_acl-IsSound b w p v
  run_call-IsSound b w (Call.sco_out p) h v = submit_sco-IsSound b w p v
  run_call-IsSound b w (Call.inbound s p) h v = on_inbound-IsSound b s p h v
  run_call-IsSound b w (Call.poll s capacity) h v = pop_stream-IsSound b s capacity v
  run_call-IsSound b w (Call.readiness ready) h v = set_ready-IsSound b w ready v
  run_call-IsSound b w Call.reset h v = bridge_reset-IsSound b v

  pub run_calls-IsSound :
      (calls : List Call) (b : Bridge) (w : W)
      → All IsByteCall calls
      → IsSound b
      → IsSound (run_calls ops b w calls).0
  unfolding run_calls
  run_calls-IsSound [] b w h v = v
  run_calls-IsSound (call ∷ calls) b w h v =
      run_calls-IsSound calls _ _ h.1 (run_call-IsSound b w call h.0 v)

  -- Whatever the host and the controller do, in any order, the controller's packets being bytes,
  -- starting from a bridge just made: the credits left never exceed the controller's buffers less the packets in flight, the handle table
  -- and the counts of buffers and packets stay in their bounds, and the four rings stay well formed.
  pub run_calls-init :
      (calls : List Call) (w : W)
      → All IsByteCall calls
      → IsSound (run_calls ops bridge_init w calls).0
  run_calls-init calls w h = run_calls-IsSound calls bridge_init w h bridge_init-IsSound
