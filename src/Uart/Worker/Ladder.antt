-- ===== src/Uart/Worker/Ladder.antt =====
-- src/driver/qca_uart.c, QcaUartRunIdentify: the ladder comes to an end.
use virt_bth_usb.Common.{
  ℕ, zero, suc, ◌+◌, ◌-◌, ◌<◌, ◌≤◌, ◌≡◌, ◌⊎◌, refl, ap, inl, inr, arith, Bool, true, false, not,
  ◌&&◌, ◌||◌, Option, none, some, either, cases,
}
use virt_bth_usb.Common.{List, [], ◌∷◌, ◌==◌, ◌!=◌, leb, ltb, get_or, inc32}
use mathlib.Core.Option
use virt_bth_usb.Edl.{parse_version_event}
use virt_bth_usb.Identify.{Identify, identify_init, next_rate, build_request, on_packet}
use virt_bth_usb.Uart.Writes.{nt_success}
use virt_bth_usb.Uart.Line.{
  Line, write, purge, start_reader, quiesce, perform, wake_controller, set_line_baud_rate,
}
use virt_bth_usb.Uart.Worker.{
  Board, Worker, Verdict, ends, continues, hear_all, try_line, hear, quiesce_read, judge,
  await_reply, conclude, close, reported, probe_rate, ask, try_rate, climb, rung, ladder,
  is_unsupported, status_wait_1, status_timeout,
}

-- The probe has handed out `i` of its three rates.
abbrev IsAt : ℕ → Identify → Type 0
IsAt i s = (s.index ≡ i) × (s.rate_count ≡ 3)

-- A round that does not end leaves the probe there.
abbrev Climbs : ℕ → Verdict → Type 0
Climbs i (ends status w) = Unit
Climbs i (continues w) = IsAt i w.identify

on_packet-IsAt : (i : ℕ) (s : Identify) (p : List ℕ) → IsAt i s → IsAt i (on_packet s p).0
unfolding on_packet
on_packet-IsAt i s p a =
    either (λ (r : Identify × Bool). IsAt i r.0) (s.finished || s.answered) a
      (either (λ (r : Identify × Bool). IsAt i r.0) (s.attempts == 0 || ltb s.rate_count s.attempts)
        a
        (elim (parse_version_event p)
          as (λ v.
            IsAt i
              (elim v as (λ _. Identify × Bool) [
                | none ↦ (s, false)
                | some v' ↦ (
                  record s {
                    version = v';
                    answered_rate = get_or s.rates (s.attempts - 1) 0;
                    answered = true;
                    finished = true;
                  },
                  true,
                )
              ]).0) [ none ↦ a | some v ↦ a ]))

module _ (i : ℕ) where
  hear_all-IsAt : (packets : List (List ℕ)) (s : Identify) → IsAt i s → IsAt i (hear_all packets s)
  unfolding hear_all
  hear_all-IsAt [] s a = a
  hear_all-IsAt (p ∷ packets) s a = hear_all-IsAt packets (on_packet s p).0 (on_packet-IsAt i s p a)

  try_line-Climbs :
      (f : Line → ℕ × Line) (w : Worker) (k : Worker → Verdict)
      → ((l : Line) → Climbs i (k (record w { line = l })))
      → Climbs i (try_line f w k)
  unfolding try_line
  try_line-Climbs f w k h = either (Climbs i) (nt_success (f w.line).0) (h (f w.line).1) tt

  module _ (board : Board) where
    hear-IsAt : (w : Worker) → IsAt i w.identify → IsAt i (hear board w).identify
    unfolding hear
    hear-IsAt w a =
        either (λ (v : Worker). IsAt i v.identify) w.waiting
          (hear_all-IsAt (board.arrived w.line.history) w.identify a) a

    judge-Climbs : (status : ℕ) (w : Worker) → IsAt i w.identify → Climbs i (judge board status w)
    unfolding judge
    judge-Climbs status w a =
        either (Climbs i) (status == status_wait_1 || board.stopped w.line.history) tt (
          either (Climbs i) (nt_success (board.read_status w.line.history))
            (either (Climbs i) w.identify.answered tt
              (either (Climbs i) (status != status_timeout) tt a))
            tt)

    await_reply-Climbs : (w : Worker) → IsAt i w.identify → Climbs i (await_reply board w)
    unfolding await_reply
    await_reply-Climbs w a =
        let heard = hear-IsAt w a in
        either (Climbs i) (board.port.has_budget (hear board w).line.history)
          (judge-Climbs _ _ (hear-IsAt _ heard)) tt

    ask-Climbs : (w : Worker) → IsAt i w.identify → Climbs i (ask board w)
    unfolding ask
    ask-Climbs w a = try_line-Climbs (perform board.port purge) w _ (λ l1.
        try_line-Climbs (wake_controller board.port) (record w { line = l1 }) _
          (λ l2.
            try_line-Climbs (perform board.port start_reader) (record w { line = l2 }) _
              (λ l3.
                either (Climbs i) (nt_success (board.read_status l3.history))
                  (try_line-Climbs (perform board.port (write (build_request 5)))
                    (record w { line = l3; waiting = true }) _
                    (λ l4. await_reply-Climbs (record w { line = l4; waiting = true }) a))
                  tt)))

    try_rate-Climbs : (rate : ℕ) (w : Worker) → IsAt i w.identify → Climbs i (try_rate board rate w)
    unfolding try_rate
    try_rate-Climbs rate w a =
        let r = set_line_baud_rate board.port rate w.line in
        either (Climbs i) (is_unsupported r.0) a
          (either (Climbs i) (not (nt_success r.0)) tt (ask-Climbs (record w { line = r.1 }) a))

-- A round hands out a rate, or ends.
abbrev Steps : ℕ → Verdict → Type 0
Steps i (ends status w) = Unit
Steps i (continues w) = (i < 3) × IsAt (suc i) w.identify

steps : (i : ℕ) (v : Verdict) → i < 3 → Climbs (suc i) v → Steps i v
steps i (ends status w) h c = tt
steps i (continues w) h c = (h, c)

-- What is told of a probe agrees with the record: it is over, its rate is the one reported, and a rate
-- is reported by a success that has an answer.
pub record Tells (r : ℕ × ℕ × Worker) : Type 0 where
  pub over : r.2.identify.finished ≡ true
  pub rate : r.2.identify.answered_rate ≡ r.1
  pub answered : (r.1 ≡ 0) ⊎ ((nt_success r.0 ≡ true) × (r.2.identify.answered ≡ true))

close-Tells : (overall : ℕ) (w : Worker) → Tells (reported (close overall w))
unfolding close reported
close-Tells overall w =
    cases (λ (r : ℕ × ℕ × Worker). Tells (reported r)) (nt_success overall && w.identify.answered)
      (λ good. record {
        over = refl;
        rate = ground (arith, good);
        answered = inr (ground (arith, good), ground (arith, good));
      })
      (λ _. record { over = refl; rate = ground arith; answered = inl (ground arith) })

module _ (board : Board) where
  climb-Steps :
      (i : ℕ) (w : Worker) → IsAt i w.identify → Steps i (climb board w (next_rate w.identify))
  unfolding next_rate climb
  climb-Steps i w (at, three) =
      let s = w.identify in
      let P : Identify × Option ℕ → Type 0 = λ r. Steps i (climb board w r) in
      either P s.answered tt (
        either P s.finished tt (
          cases P (leb s.rate_count s.index) (λ _. tt)
            (λ room.
              let h : i < 3 = ground arith in
              let up : IsAt (suc i)
                  (record s { index = inc32 s.index; attempts = inc32 s.attempts }) =
                (ground arith, three) in
              steps i _ h (try_rate-Climbs (suc i) board (get_or s.rates s.index 0) _ up))))

  quiesce_read-IsAt :
      (i : ℕ) (w : Worker) → IsAt i w.identify → IsAt i (quiesce_read board w).1.identify
  unfolding quiesce_read
  quiesce_read-IsAt i w a =
      hear-IsAt i board (record w { line = (perform board.port quiesce w.line).1 }) a

  rung-Steps : (i : ℕ) (w : Worker) → IsAt i w.identify → Steps i (rung board w)
  unfolding rung
  rung-Steps i w a =
      let r = quiesce_read board w in
      let P : Verdict → Type 0 = Steps i in
      either P (not (nt_success r.0)) tt (
        either P (board.port.has_budget r.1.line.history)
          (either P (nt_success (board.read_status r.1.line.history))
            (either P r.1.identify.answered tt (climb-Steps i r.1 (quiesce_read-IsAt i w a))) tt)
          tt)

  ladder-total :
      (fuel i : ℕ) (w : Worker)
      → 3 < fuel + i
      → i ≤ 3
      → IsAt i w.identify
      → (r : ℕ × Worker) × (ladder board fuel w ≡ some r)
  unfolding ladder
  ladder-total zero i w h top a = absurd (omega arith)
  ladder-total (suc fuel) i w h top a =
      (elim (rung board w)
          as (λ v.
            Steps i v
            → (r : ℕ × Worker) × (elim v as (λ _. Option (ℕ × Worker)) [
              | ends status w' ↦ some (status, w')
              | continues w' ↦ ladder board fuel w'
            ]
                ≡ some r)) [
                  | ends status w' ↦ λ _. ((status, w'), refl)
                  | continues w' ↦ λ at.
                      ladder-total fuel (suc i) w' (omega arith)
                        (let lt : i < 3 = at.0 in omega arith) at.1
                ])
        (rung-Steps i w a)

  conclude-Tells : (r : ℕ × Worker) → Tells (reported (conclude board r))
  unfolding conclude
  conclude-Tells (status, w) = close-Tells _ (quiesce_read board w).1

  -- With four rounds the probe comes to an end, whatever the port answers, the packets bring and the
  -- waits report: its record is finished, the rate in it is the one reported, and a rate other than 0
  -- is reported by a success with an answer only.
  pub probe_rate-Ends :
      (w : Worker) → (r : ℕ × ℕ × Worker) × (probe_rate board w ≡ some r) × Tells r
  unfolding probe_rate identify_init
  probe_rate-Ends w =
      let (r, e) =
        ladder-total 4 0 (record w { identify = identify_init; waiting = false }) (omega arith)
          (omega arith) (refl, refl) in
      (
        reported (conclude board r),
        ap (Option.map (λ q. reported (conclude board q))) e,
        conclude-Tells r,
      )
