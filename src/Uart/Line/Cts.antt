-- ===== src/Uart/Line/Cts.antt =====
-- src/driver/qca_uart.c, QcaUartWakeController: a success with CTS comes from the port.
use virt_bth_usb.Common.{
  ℕ, zero, suc, ◌≡◌, refl, ap, arith, Bool, true, false, not, ◌&&◌, either, cases,
}
use virt_bth_usb.Common.{List, [], ◌∷◌, ◌++◌}
use virt_bth_usb.Uart.Writes.{nt_success}
use virt_bth_usb.Uart.Line.{
  Op, get_modem_status, set_rts, clr_rts, sleep, Port, Line, has_cts, perform, pause, read_modem,
  pulse, pulses, wake_pulse_ms,
}

-- `entry` are the operations before the call.
module _ (port : Port) (entry : List Op) where
  abbrev pub Extends : List Op → Type 0
  Extends h = (more : List Op) × (h ≡ more ++ entry)

  pub and_more : (op : Op) {h : List Op} → Extends h → Extends (op ∷ h)
  and_more op (more, e) = (op ∷ more, ap (λ r. op ∷ r) e)

  -- A modem status that was read without error during the call had CTS.
  pub record SawCts (h : List Op) : Type 0 where
    pub before : List Op
    pub since : List Op
    pub recent : Extends before
    pub past : h ≡ since ++ (get_modem_status ∷ before)
    pub read : nt_success (port.answer (get_modem_status ∷ before)) ≡ true
    pub seen : has_cts (port.modem (get_modem_status ∷ before)) ≡ true

  pub SawCts-later : (h : List Op) (op : Op) → SawCts h → SawCts (op ∷ h)
  SawCts-later h op s = record {
    before = s.before;
    since = op ∷ s.since;
    recent = s.recent;
    past = ap (λ r. op ∷ r) s.past;
    read = s.read;
    seen = s.seen;
  }

  -- A status that is a success and a modem status with CTS were read from the port.
  abbrev pub Vouched : ℕ → ℕ → List Op → Type 0
  Vouched status modem h = (nt_success status && has_cts modem) ≡ true → SawCts h

  failed-Vouched :
      (status modem : ℕ) (h : List Op) → nt_success status ≡ false → Vouched status modem h
  failed-Vouched status modem h e v = absurd (ground (arith, e, v))

  pub read_modem-Vouched :
      (l : Line)
      → Extends l.history
      → Vouched (read_modem port l).0 (read_modem port l).1 (read_modem port l).2.history
  unfolding read_modem perform
  read_modem-Vouched l x v = record {
    before = l.history;
    since = [];
    recent = x;
    past = refl;
    read = ground (arith, v);
    seen = ground (arith, v);
  }

  pulse-Vouched :
      (modem : ℕ) (l : Line)
      → Extends l.history
      → Vouched (pulse port modem l).0 (pulse port modem l).1 (pulse port modem l).3.history
  unfolding pulse perform pause
  pulse-Vouched modem l x =
      let P : ℕ × ℕ × Bool × Line → Type 0 = λ r. Vouched r.0 r.1 r.3.history in
      let low = perform port clr_rts l in
      let high = perform port set_rts (pause port wake_pulse_ms low.1) in
      cases P (not (nt_success low.0))
        (λ e. failed-Vouched low.0 modem low.1.history (ground (arith, e)))
        (λ _.
          cases P (not (nt_success high.0))
            (λ e. failed-Vouched high.0 modem high.1.history (ground (arith, e)))
            (λ _. read_modem-Vouched _ (
              and_more (sleep wake_pulse_ms)
                (and_more set_rts (and_more (sleep wake_pulse_ms) (and_more clr_rts x))))))

  pulse-Extends :
      (modem : ℕ) (l : Line) → Extends l.history → Extends (pulse port modem l).3.history
  unfolding pulse read_modem perform pause
  pulse-Extends modem l x =
      let P : ℕ × ℕ × Bool × Line → Type 0 = λ r. Extends r.3.history in
      let low = perform port clr_rts l in
      let high = perform port set_rts (pause port wake_pulse_ms low.1) in
      let raised = and_more set_rts (and_more (sleep wake_pulse_ms) (and_more clr_rts x)) in
      either P (not (nt_success low.0)) (and_more clr_rts x) (
        either P (not (nt_success high.0)) raised
          (and_more get_modem_status (and_more (sleep wake_pulse_ms) raised)))

  pub pulses-Vouched :
      (n status modem : ℕ) (l : Line)
      → Extends l.history
      → Vouched status modem l.history
      → Vouched
          (pulses port n status modem l).0
          (pulses port n status modem l).1
          (pulses port n status modem l).2.history
  unfolding pulses
  pulses-Vouched zero status modem l x v = v
  pulses-Vouched (suc n) status modem l x v =
      let P : ℕ × ℕ × Line → Type 0 = λ r. Vouched r.0 r.1 r.2.history in
      let r = pulse port modem l in
      let round = pulse-Vouched modem l x in
      either P (not (nt_success status)) v
        (either P r.2 round (pulses-Vouched n r.0 r.1 r.3 (pulse-Extends modem l x) round))
