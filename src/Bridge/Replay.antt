-- ===== src/Bridge/Replay.antt =====
-- src/common/hci_bridge.c: commands submitted before the controller is ready.
use virt_bth_usb.Common.{
  ℕ, ◌≡◌, refl, sym, ◌∙◌, ap, subst, Bool, true, false, not, ◌&&◌, either, cases, some, inl, inr,
}
use virt_bth_usb.Common.{List, inc32, Option-cases}
use virt_bth_usb.Bridge.{Bridge, WireOps}
use virt_bth_usb.Bridge.Submit.{
  is_command, drain, drain_outbound_sco, forward_command, replay, set_ready, submit_command,
}

-- The bridge is ready, holds no command, and the wire is as after the command.
pub record Replayed {W : Type 0} (sent : W) (r : Bridge × W) : Type 0 where
  pub wire : r.1 ≡ sent
  pub nothing_held : r.0.held_command_pending ≡ false
  pub now_ready : r.0.ready ≡ true

-- After a command was forwarded.
record Forwarded {W : Type 0} (send : W → List ℕ → W × Bool) (b : Bridge) (w : W) (p : List ℕ)
    (r : Bridge × W) : Type 0 where
  wire : r.1 ≡ (send w p).0
  no_voice : r.0.outbound_sco_fifo.count ≡ b.outbound_sco_fifo.count
  same_held : r.0.held_command_pending ≡ b.held_command_pending
  same_ready : r.0.ready ≡ b.ready

module _ {W : Type 0} (ops : WireOps W) where
  drain_empty :
      (b : Bridge) (w : W) → b.outbound_sco_fifo.count ≡ 0 → drain_outbound_sco ops b w ≡ (b, w)
  unfolding drain_outbound_sco drain
  drain_empty b w e = elim (Option-cases ops.send_sco) [
    | inl n ↦ rw (n, drain_outbound_sco) refl
    | inr (send, s) ↦ rw (s, drain_outbound_sco) (ap (λ (n : ℕ). drain ops send n b w) e)
  ]

  forward_command-Forwarded :
      (send : W → List ℕ → W × Bool) (b : Bridge) (w : W) (p : List ℕ)
      → ops.send_command ≡ some send
      → Forwarded send b w p (forward_command ops b w p).0
  unfolding forward_command
  forward_command-Forwarded send b w p s =
      rw (s, forward_command)
        (either (λ (r : (Bridge × W) × Bool). Forwarded send b w p r.0) (send w p).1
          (record { wire = refl; no_voice = refl; same_held = refl; same_ready = refl })
          (record { wire = refl; no_voice = refl; same_held = refl; same_ready = refl }))

  set_ready-Replayed :
      (send : W → List ℕ → W × Bool) (b : Bridge) (w : W)
      → ops.send_command ≡ some send
      → b.outbound_sco_fifo.count ≡ 0
      → b.ready ≡ false
      → b.held_command_pending ≡ true
      → Replayed (send w b.held_command).0 (set_ready ops b w true)
  unfolding set_ready replay
  set_ready-Replayed send b w s e n h =
      let sent = (send w b.held_command).0 in
      let after = replay ops (record b { ready = true }) w in
      let f : Forwarded send (record b { ready = true; held_command_pending = false }) w
          b.held_command after =
        cases
          (Forwarded send (record b { ready = true; held_command_pending = false }) w
            b.held_command)
          b.held_command_pending
          (λ y.
            let g =
              forward_command-Forwarded send
                (record b {
                  ready = true;
                  held_command_pending = false;
                  counters = record b.counters {
                    commands_replayed = inc32 b.counters.commands_replayed;
                  };
                })
                w b.held_command s in
            record {
              wire = g.wire;
              no_voice = g.no_voice;
              same_held = g.same_held;
              same_ready = g.same_ready;
            })
          (λ o. cc) in
      cases (Replayed sent) (not b.ready && true)
        (λ y.
          subst (Replayed sent) (sym (drain_empty after.0 after.1 (f.no_voice ∙ e)))
            (record { wire = f.wire; nothing_held = f.same_held; now_ready = f.same_ready }))
        (λ o. cc (rw n at o))

  -- A well-formed command submitted before the controller is ready is accepted without touching the
  -- wire, and replaces one that was held; when the controller gets ready, with no voice queued, the
  -- wire is given that command, once, and none is held any more, whatever the wire answers.
  pub submit_command-Replayed :
      (send : W → List ℕ → W × Bool) (b : Bridge) (w : W) (p : List ℕ)
      → ops.send_command ≡ some send
      → b.outbound_sco_fifo.count ≡ 0
      → b.ready ≡ false
      → is_command p ≡ true
      → let r = submit_command ops b w p in
        (r.1 ≡ true) × (r.0.1 ≡ w) × Replayed (send w p).0 (set_ready ops r.0.0 r.0.1 true)
  unfolding submit_command
  submit_command-Replayed send b w p s e n c =
      let P : (Bridge × W) × Bool → Type 0 =
        λ r. (r.1 ≡ true) × (r.0.1 ≡ w) × Replayed (send w p).0 (set_ready ops r.0.0 r.0.1 true) in
      cases P (not (is_command p)) (λ o. cc (rw c at o))
        (λ y.
          cases P (not b.ready) (λ z. (refl, refl, set_ready-Replayed send _ w s e n refl))
            (λ o. cc (rw n at o)))
