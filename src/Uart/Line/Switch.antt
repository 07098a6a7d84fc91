-- ===== src/Uart/Line/Switch.antt =====
-- src/driver/qca_uart.c, QcaUartSwitchBaud: the order of its operations.
use virt_bth_usb.Common.{
  ℕ, suc, ◌+◌, ◌≤◌, ◌≡◌, ◌⊎◌, refl, sym, ap, ◌∙◌, inl, inr, arith, true, false, not, cases, List,
  ◌∷◌, drop,
}
use virt_bth_usb.Uart.Writes.{nt_success, status_success, status_cancelled}
use virt_bth_usb.Uart.Line.{
  Op, set_baud_rate, set_line_control, set_timeouts, flow_handshake, purge, quiesce, start_reader,
  sleep, Port, Line, baud_settle_ms, and_then, perform, pause, set_line_baud_rate, switch_baud,
}

-- The operations of a whole switch, newest first.
abbrev pub whole_switch : ℕ → List Op → List Op
whole_switch baud before =
    start_reader
    ∷ purge
    ∷ flow_handshake
    ∷ set_timeouts
    ∷ set_line_control
    ∷ set_baud_rate baud
    ∷ sleep baud_settle_ms
    ∷ quiesce
    ∷ before

-- The switch stops `k` operations before its end, for a failure unless `k` is 0, and then the new rate
-- is the line's.
pub record Switches (baud : ℕ) (l : Line) (r : ℕ × Line) : Type 0 where
  pub short : ℕ
  pub at_most : short ≤ 7
  pub history : r.1.history ≡ drop short (whole_switch baud l.history)
  pub complete : (nt_success r.0 ≡ false) ⊎ ((short ≡ 0) × (r.1.current_baud_rate ≡ baud))

success_succeeds : nt_success status_success ≡ true
unfolding nt_success
success_succeeds = refl

cancelled_fails : nt_success status_cancelled ≡ false
unfolding nt_success
cancelled_fails = refl

module _ (port : Port) (baud : ℕ) (l : Line) where
  abbrev P : ℕ × Line → Type 0
  P r = Switches baud l r

  stops :
      (k : ℕ) (r : ℕ × Line)
      → k ≤ 7
      → r.1.history ≡ drop k (whole_switch baud l.history)
      → nt_success r.0 ≡ false
      → P r
  stops k r h e n = record { short = k; at_most = h; history = e; complete = inl n }

  -- The operations of setting the rate.
  abbrev whole_rate : List Op → List Op
  whole_rate before = flow_handshake ∷ set_timeouts ∷ set_line_control ∷ set_baud_rate baud ∷ before

  abbrev Sets : List Op → ℕ × Line → Type 0
  Sets before r =
      ((nt_success r.0 ≡ true) × (r.1.history ≡ whole_rate before) × (r.1.current_baud_rate ≡ baud))
      ⊎ ((k : ℕ) × (k ≤ 3) × (r.1.history ≡ drop k (whole_rate before)) × (nt_success r.0 ≡ false))

  set_line_baud_rate-Sets : (m : Line) → Sets m.history (set_line_baud_rate port baud m)
  unfolding set_line_baud_rate perform
  set_line_baud_rate-Sets m =
      let S : ℕ × Line → Type 0 = Sets m.history in
      let rate = perform port (set_baud_rate baud) m in
      let control = perform port set_line_control rate.1 in
      let timeouts = perform port set_timeouts control.1 in
      let flow = perform port flow_handshake timeouts.1 in
      cases S (nt_success rate.0)
        (λ _.
          cases S (nt_success control.0)
            (λ _.
              cases S (nt_success timeouts.0)
                (λ _.
                  cases S (nt_success flow.0) (λ _. inl (success_succeeds, refl, refl))
                    (λ n. inr (0, omega arith, refl, n)))
                (λ n. inr (1, omega arith, refl, n)))
            (λ n. inr (2, omega arith, refl, n)))
        (λ n. inr (3, omega arith, refl, n))

  drop-two :
      (k : ℕ) (before : List Op)
      → k ≤ 3
      → drop (k + 2) (start_reader ∷ purge ∷ whole_rate before) ≡ drop k (whole_rate before)
  drop-two k before h =
      ap (λ n. drop n (start_reader ∷ purge ∷ whole_rate before)) {x = k + 2} {y = suc (suc k)}
        (omega arith)

  -- What follows the setting of the rate.
  restarts :
      (m : Line) (r : ℕ × Line)
      → m.history ≡ sleep baud_settle_ms ∷ quiesce ∷ l.history
      → Sets m.history r
      → P (and_then r (λ l2. and_then (perform port purge l2) (perform port start_reader)))
  unfolding perform
  restarts m r e (inl (ok, h, b)) =
      let whole = h ∙ ap whole_rate e in
      let purged = perform port purge r.1 in
      cases P (nt_success r.0)
        (λ _.
          cases P (nt_success purged.0)
            (λ _. record {
              short = 0;
              at_most = omega arith;
              history = ap (λ o. start_reader ∷ purge ∷ o) whole;
              complete = inr (refl, b);
            })
            (stops 1 purged (omega arith) (ap (λ o. purge ∷ o) whole)))
        (λ n. absurd (ground (arith, ok, n)))
  restarts m r e (inr (k, few, h, n)) =
      cases P (nt_success r.0) (λ ok. absurd (ground (arith, ok, n)))
        (stops (k + 2) r (omega (arith, few))
          (h ∙ ap (λ o. drop k (whole_rate o)) e ∙ sym (drop-two k _ few)))

  -- In any behaviour of the port, a switch of the rate retires the reader, waits, sets the rate, the
  -- line control, the timeouts and the handshake, purges and starts the reader, in this order; it
  -- stops early only with a failure, and with success the line has the new rate.
  pub switch_baud-Switches : Switches baud l (switch_baud port baud l)
  unfolding switch_baud perform pause
  switch_baud-Switches =
      let settled = pause port baud_settle_ms (perform port quiesce l).1 in
      cases P (nt_success (port.answer (quiesce ∷ l.history)))
        (λ _.
          cases P (not (port.has_budget settled.history))
            (λ _. stops 6 (status_cancelled, settled) (omega arith) refl cancelled_fails)
            (λ _.
              restarts settled (set_line_baud_rate port baud settled) refl
                (set_line_baud_rate-Sets settled)))
        (stops 7 (perform port quiesce l) (omega arith) refl)
