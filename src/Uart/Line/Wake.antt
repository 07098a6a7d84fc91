-- ===== src/Uart/Line/Wake.antt =====
-- src/driver/qca_uart.c, QcaUartWakeController: success means that CTS was seen, and RTS is handed back.
use virt_bth_usb.Common.{
  ℕ, ◌≡◌, ◌⊎◌, refl, sym, subst, ap, ◌∙◌, inl, inr, arith, true, false, not, ◌&&◌, either, cases,
  Bool-cases,
}
use virt_bth_usb.Common.{List, [], ◌∷◌, ◌++◌, if◌then◌else◌}
use virt_bth_usb.Uart.Writes.{nt_success}
use virt_bth_usb.Uart.Line.{
  Op, get_modem_status, flow_manual_rts, flow_handshake, set_rts, Port, Line, has_cts,
  status_device_not_ready, perform, read_modem, pulses, restore_rts, settle_wake, wake_by_pulses,
  wake_controller, max_wake_pulses,
}
use virt_bth_usb.Uart.Line.Cts.{
  Extends, SawCts, Vouched, and_more, SawCts-later, read_modem-Vouched, pulses-Vouched,
}

not_ready_fails : nt_success status_device_not_ready ≡ false
unfolding nt_success
not_ready_fails = refl

-- `entry` are the operations before the call.
module _ (port : Port) (entry : List Op) where
  -- How RTS is left at the end: never taken from the handshake, or handed back to it, or stuck with
  -- the port refusing to set it.
  pub data HandsBack (r : ℕ × Line) : Type 0 where
    untouched : r.1.history ≡ get_modem_status ∷ entry → HandsBack r
    restored :
        (h : List Op)
        → r.1.history ≡ flow_handshake ∷ set_rts ∷ h
        → (nt_success r.0 ≡ false)
          ⊎ (nt_success (port.answer (flow_handshake ∷ set_rts ∷ h)) ≡ true)
        → HandsBack r
    stuck :
        (h : List Op)
        → r.1.history ≡ set_rts ∷ h
        → nt_success (port.answer (set_rts ∷ h)) ≡ false
        → nt_success r.0 ≡ false
        → HandsBack r

  pub record Wakes (r : ℕ × Line) : Type 0 where
    pub vouched :
        (nt_success r.0 ≡ false) ⊎ ((r.1.cts_asserted ≡ true) × SawCts port entry r.1.history)
    pub handed_back : HandsBack r

  -- What a verdict of success says.
  settle_wake-success :
      (status modem again : ℕ) (l : Line)
      → (nt_success (settle_wake status modem again l).0 ≡ false)
        ⊎ (((nt_success status && has_cts modem) ≡ true)
            × (nt_success again ≡ true)
            × ((settle_wake status modem again l).1.cts_asserted ≡ true))
  unfolding settle_wake
  settle_wake-success status modem again l =
      let not_ready = not_ready_fails in
      elim (Bool-cases (nt_success status)) [
        | inr n ↦ inl (rw (settle_wake, n, n, n))
        | inl y ↦ elim (Bool-cases (nt_success again)) [
          | inr m ↦ inl (rw (settle_wake, y, m, m, m))
          | inl z ↦ elim (Bool-cases (has_cts modem)) [
            | inr c ↦ inl (rw (settle_wake, y, z, c, y, not_ready))
            | inl c ↦ inr (ground (arith, y, c), z, rw (settle_wake, y, z, c, y))
          ]
        ]
      ]

  settle_wake-history :
      (status modem again : ℕ) (l : Line) → (settle_wake status modem again l).1.history ≡ l.history
  unfolding settle_wake
  settle_wake-history status modem again l =
      let P : ℕ × Line → Type 0 = λ r. r.1.history ≡ l.history in
      let overall = if nt_success status && not (nt_success again) then again else status in
      either P (not (nt_success overall)) refl
        (either P (not (nt_success overall && has_cts modem)) refl refl)

  -- The operations of handing RTS back, with their status.
  restore_rts-cases :
      (l : Line)
      → ((nt_success (port.answer (set_rts ∷ l.history)) ≡ false)
          × ((restore_rts port l).0 ≡ port.answer (set_rts ∷ l.history))
          × ((restore_rts port l).1.history ≡ set_rts ∷ l.history))
        ⊎ (((restore_rts port l).0 ≡ port.answer (flow_handshake ∷ set_rts ∷ l.history))
            × ((restore_rts port l).1.history ≡ flow_handshake ∷ set_rts ∷ l.history))
  unfolding restore_rts perform
  restore_rts-cases l = elim (Bool-cases (nt_success (port.answer (set_rts ∷ l.history)))) [
    | inl y ↦ inr (rw y, rw y)
    | inr n ↦ inl (n, rw n, rw n)
  ]

  abbrev Reread : Line → List Op → Type 0
  Reread l h = (h ≡ set_rts ∷ l.history) ⊎ (h ≡ flow_handshake ∷ set_rts ∷ l.history)

  SawCts-restored :
      (l : Line) (h : List Op) → SawCts port entry l.history → Reread l h → SawCts port entry h
  SawCts-restored l h s (inl e) =
      subst (SawCts port entry) (sym e) (SawCts-later port entry l.history set_rts s)
  SawCts-restored l h s (inr e) =
      subst (SawCts port entry) (sym e)
        (SawCts-later port entry _ flow_handshake (SawCts-later port entry l.history set_rts s))

  settle-Wakes :
      (l2 : Line) (status modem : ℕ)
      → Vouched port entry status modem l2.history
      → Wakes (settle_wake status modem (restore_rts port l2).0 (restore_rts port l2).1)
  settle-Wakes l2 status modem v =
      let restored_to = restore_rts port l2 in
      let r = settle_wake status modem restored_to.0 restored_to.1 in
      let same : r.1.history ≡ restored_to.1.history =
        settle_wake-history status modem restored_to.0 restored_to.1 in
      let verdict = settle_wake-success status modem restored_to.0 restored_to.1 in
      elim (restore_rts-cases l2) [
        | inl (failed, status_is, h) ↦ record {
          vouched = elim verdict [
            | inl n ↦ inl n
            | inr (seen, again, cts) ↦
                inr (cts, SawCts-restored l2 r.1.history (v seen) (inl (same ∙ h)))
          ];
          handed_back = stuck l2.history (same ∙ h) failed (elim verdict [
            | inl n ↦ n
            | inr (seen, again, cts) ↦ absurd (ground (arith, again, failed, status_is))
          ]);
        }
        | inr (status_is, h) ↦ record {
          vouched = elim verdict [
            | inl n ↦ inl n
            | inr (seen, again, cts) ↦
                inr (cts, SawCts-restored l2 r.1.history (v seen) (inr (same ∙ h)))
          ];
          handed_back = restored l2.history (same ∙ h) (elim verdict [
            | inl n ↦ inl n
            | inr (seen, again, cts) ↦ inr (sym (ap nt_success status_is) ∙ again)
          ]);
        }
      ]

  wake_by_pulses-Wakes :
      (modem : ℕ) (l : Line)
      → Extends port entry l.history
      → has_cts modem ≡ false
      → Wakes (wake_by_pulses port modem l)
  unfolding wake_by_pulses perform
  wake_by_pulses-Wakes modem l x low =
      let manual = perform port flow_manual_rts l in
      let p = pulses port max_wake_pulses manual.0 modem manual.1 in
      settle-Wakes p.2 p.0 p.1 (
        pulses-Vouched port entry max_wake_pulses manual.0 modem manual.1
          (and_more port entry flow_manual_rts x) (λ e. absurd (ground (arith, e, low))))

-- Whatever the port answers, waking the controller succeeds only if CTS was read asserted without
-- error during the call, and leaves RTS as it was, with the handshake, or hands it back to the
-- handshake at the end, or fails because the port refuses to set RTS or its handshake.
pub wake_controller-Wakes : (port : Port) (l : Line) → Wakes port l.history (wake_controller port l)
unfolding wake_controller read_modem perform
wake_controller-Wakes port l =
    let r = read_modem port l in
    let P : ℕ × Line → Type 0 = Wakes port l.history in
    let start : (more : List Op) × (l.history ≡ more ++ l.history) = ([], refl) in
    cases P (not (nt_success r.0))
      (λ e. record { vouched = inl (ground (arith, e)); handed_back = untouched refl })
      (λ ok.
        cases P (has_cts r.1)
          (λ c. record {
            vouched = inr (refl, read_modem-Vouched port l.history l start (ground (arith, ok, c)));
            handed_back = untouched refl;
          })
          (wake_by_pulses-Wakes port l.history r.1 r.2 (get_modem_status ∷ [], refl)))
