-- ===== src/Uart/Worker/Rom.antt =====
-- src/driver/qca_uart.c, QcaUartEnsureRom and QcaUartHandback: what their success means.
use virt_bth_usb.Common.{
  ℕ, ◌≡◌, ◌⊎◌, refl, sym, ◌∙◌, inl, inr, arith, true, false, not, ◌&&◌, ◌||◌, Bool-cases, Option,
  some, cases, subst,
}
use virt_bth_usb.Common.{◌==◌, ◌!=◌, if◌then◌else◌}
use mathlib.Core.Option
use virt_bth_usb.Uart.Writes.{nt_success, status_success}
use virt_bth_usb.Uart.Worker.{Board, Worker, status_not_found}
use virt_bth_usb.Uart.Worker.Reset.{
  init_baud_rate, oper_baud_rate, status_invalid_device_state, reset_soc, verify_rom, ensure_from,
  reset_to_rom, ensure_rom, handback,
}
use virt_bth_usb.Uart.Worker.Ladder.{Tells, probe_rate-Ends}

-- A failure, or an answer at the initial rate.
pub record InRom (r : ℕ × Worker) : Type 0 where
  pub rom :
      (nt_success r.0 ≡ false)
      ⊎ ((r.1.identify.answered ≡ true) × (r.1.identify.answered_rate ≡ init_baud_rate))

abbrev Settled : Option (ℕ × Worker) → Type 0
Settled o = (r : ℕ × Worker) × (o ≡ some r) × InRom r

settles : (r : ℕ × Worker) → InRom r → Settled (some r)
settles r h = (r, refl, h)

invalid_fails : nt_success status_invalid_device_state ≡ false
unfolding nt_success
invalid_fails = refl

-- A probe that reports the initial rate has an answer there.
told :
    (r : ℕ × ℕ × Worker)
    → Tells r
    → r.1 ≡ init_baud_rate
    → (r.2.identify.answered ≡ true) × (r.2.identify.answered_rate ≡ init_baud_rate)
told r t e = elim t.answered [
  | inl n ↦ absurd (omega (arith, n, e))
  | inr (ok, a) ↦ (a, t.rate ∙ e)
]

verified : (r : ℕ × ℕ × Worker) → Tells r → InRom (verify_rom r)
unfolding verify_rom
verified r t = record {
  rom =
      cases
        (λ (s : ℕ).
          (nt_success s ≡ false)
          ⊎ ((r.2.identify.answered ≡ true) × (r.2.identify.answered_rate ≡ init_baud_rate)))
        (nt_success r.0 && r.1 != init_baud_rate) (λ _. inl invalid_fails)
        (λ k. elim (Bool-cases (nt_success r.0)) [
          | inl y ↦ inr (told r t (ground (arith, k, y)))
          | inr n ↦ inl n
        ]);
}

module _ (board : Board) where
  reset_to_rom-Settled : (baud : ℕ) (w : Worker) → Settled (reset_to_rom board baud w)
  unfolding reset_to_rom
  reset_to_rom-Settled baud w =
      let reset = reset_soc board (if baud == 0 then oper_baud_rate else baud) w in
      let (r, e, t) = probe_rate-Ends board reset.1 in
      cases Settled (not (nt_success reset.0))
        (λ n. settles reset (record { rom = inl (ground (arith, n)) }))
        (λ _.
          subst (λ o. Settled (Option.map verify_rom o)) (sym e)
            (settles (verify_rom r) (verified r t)))

  ensure_from-Settled : (r : ℕ × ℕ × Worker) → Tells r → Settled (ensure_from board r)
  unfolding ensure_from
  ensure_from-Settled (status, baud, w) t =
      cases Settled (not (nt_success status || status == status_not_found))
        (λ n. settles (status, w) (record { rom = inl (ground (arith, n)) }))
        (λ _.
          cases Settled (baud == init_baud_rate)
            (λ e.
              settles (status_success, w)
                (record { rom = inr (told (status, baud, w) t (ground (arith, e))) }))
            (λ _. reset_to_rom-Settled baud w))

  -- Whatever the port answers, making the controller run from its ROM comes to an end, and succeeds
  -- only with an answer at the initial rate.
  pub ensure_rom-InRom : (w : Worker) → (r : ℕ × Worker) × (ensure_rom board w ≡ some r) × InRom r
  unfolding ensure_rom Option.bind
  ensure_rom-InRom w =
      let (r, e, t) = probe_rate-Ends board w in
      subst (λ o. Settled (Option.bind o (ensure_from board))) (sym e) (ensure_from-Settled r t)

  -- Handing the controller back comes to an end, and a rate is reported only with an answer at it.
  handback-ends :
      (w : Worker)
      → (r : ℕ × ℕ × Worker) × (handback board w ≡ some r)
        × ((r.1 ≡ 0) ⊎ ((r.2.identify.answered ≡ true) × (r.2.identify.answered_rate ≡ r.1)))
  unfolding handback
  handback-ends w =
      let reset = reset_soc board w.line.current_baud_rate w in
      let (r, e, t) = probe_rate-Ends board reset.1 in
      cases
        (λ o.
          (q : ℕ × ℕ × Worker) × (o ≡ some q)
          × ((q.1 ≡ 0) ⊎ ((q.2.identify.answered ≡ true) × (q.2.identify.answered_rate ≡ q.1))))
        (nt_success reset.0)
        (λ _. (r, e, elim t.answered [ inl n ↦ inl n | inr (ok, a) ↦ inr (a, t.rate) ]))
        (λ _. ((reset.0, 0, reset.1), refl, inl refl))
