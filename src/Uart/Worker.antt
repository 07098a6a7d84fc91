-- ===== src/Uart/Worker.antt =====
-- src/driver/qca_uart.c, the worker's probing of the controller: QcaUartRunIdentify and
-- QcaUartProbeRate, over the serial line and the ladder of rates. The port, the packets that reach
-- the probe, the waits and the requests to stop are parameters that may depend on all the operations
-- before them; the record for diagnosis is left out but for what is decided by it.
pub mod Ladder
pub mod Reset
pub mod Rom
mod Examples
use virt_bth_usb.Common.{
  ℕ, zero, suc, Bool, true, false, not, ◌&&◌, ◌||◌, Option, none, some, List, [], ◌∷◌, ◌==◌, ◌!=◌,
  if◌then◌else◌,
}
use mathlib.Core.Option
use virt_bth_usb.Identify.{Identify, identify_init, next_rate, build_request, on_packet}
use virt_bth_usb.Uart.Writes.{
  nt_success, status_success, status_cancelled, status_invalid_parameter,
}
use virt_bth_usb.Uart.Line.{
  Op, quiesce, purge, start_reader, write, wait, sleep, Port, Line, and_then, perform, pause,
  set_line_baud_rate, wake_controller,
}

-- Statuses; STATUS_TIMEOUT and STATUS_WAIT_1 count as successes.
abbrev pub status_wait_1 : ℕ
status_wait_1 = 1

abbrev pub status_timeout : ℕ
status_timeout = 0x102

abbrev pub status_not_found : ℕ
status_not_found = 0xC0000225

abbrev pub status_not_supported : ℕ
status_not_supported = 0xC00000BB

abbrev pub status_data_error : ℕ
status_data_error = 0xC000003E

-- What the worker meets after a history: the port, the H4 packets that have come for the probe, the
-- status of a wait, a request to stop, and the status of the reader.
pub record Board : Type 0 where
  pub port : Port
  pub arrived : List Op → List (List ℕ)
  pub waited : List Op → ℕ
  pub stopped : List Op → Bool
  pub read_status : List Op → ℕ

-- The line, the probe, and whether packets are taken for it (FsmWaitingForEvent).
pub record Worker : Type 0 where
  pub line : Line
  pub identify : Identify
  pub waiting : Bool

-- How a round of the ladder ends.
pub data Verdict : Type 0 where
  ends : ℕ → Worker → Verdict
  continues : Worker → Verdict

unfoldable pub hear_all : List (List ℕ) → Identify → Identify
hear_all [] s = s
hear_all (p ∷ packets) s = hear_all packets (on_packet s p).0

-- The statuses after which the ladder goes on to the next rate.
unfoldable pub is_unsupported : ℕ → Bool
is_unsupported status = status == status_invalid_parameter || status == status_not_supported

-- An operation of the line, after which the round goes on or ends with its status.
unfoldable pub try_line : (Line → ℕ × Line) → Worker → (Worker → Verdict) → Verdict
try_line f w k =
    let (status, l) = f w.line in
    if nt_success status then k (record w { line = l }) else ends status (record w { line = l })

-- QcaUartProbeRate keeps the rate of a success only.
unfoldable pub reported : ℕ × ℕ × Worker → ℕ × ℕ × Worker
reported (status, baud, w) = (status, if nt_success status then baud else 0, w)

-- The record at the end of a probe.
unfoldable pub close : ℕ → Worker → ℕ × ℕ × Worker
close overall w =
    let s = w.identify in
    if nt_success overall && s.answered
    then (overall, s.answered_rate, record w { identify = record s { finished = true } })
    else (
      overall,
      0,
      record w { identify = record s { answered = false; answered_rate = 0; finished = true } },
    )

module _ (board : Board) where
  -- The packets that have come are given to the probe.
  unfoldable pub hear : Worker → Worker
  hear w =
      if w.waiting
      then record w { identify = hear_all (board.arrived w.line.history) w.identify }
      else w

  -- QcaUartQuiesceRead: what comes until it clears FsmWaitingForEvent still counts.
  unfoldable pub quiesce_read : Worker → ℕ × Worker
  quiesce_read w =
      let (status, l) = perform board.port quiesce w.line in
      (status, record (hear (record w { line = l })) { waiting = false })

  abbrev pub reading : Worker → (Worker → Verdict) → Verdict
  reading w k =
      if nt_success (board.read_status w.line.history)
      then k w
      else ends (board.read_status w.line.history) w

  abbrev pub budgeted : Worker → (Worker → Verdict) → Verdict
  budgeted w k = if board.port.has_budget w.line.history then k w else ends status_cancelled w

  -- The end of a round, after the wait with its status.
  unfoldable pub judge : ℕ → Worker → Verdict
  judge status w =
      if status == status_wait_1 || board.stopped w.line.history
      then ends status_cancelled w
      else reading w (λ v.
        if v.identify.answered
        then ends status_success v
        else if status != status_timeout
        then ends (if nt_success status then status_data_error else status) v
        else continues v)

  -- The request is on its way.
  unfoldable pub await_reply : Worker → Verdict
  await_reply w = budgeted (hear w) (λ v.
      let l = v.line in
      let waited = hear (record v { line = record l { history = wait 1500 ∷ l.history } }) in
      judge (board.waited waited.line.history) waited)

  -- The request, once the line has the rate.
  unfoldable pub ask : Worker → Verdict
  ask w = try_line (perform board.port purge) w (λ w1.
      try_line (wake_controller board.port) w1 (λ w2.
        try_line (perform board.port start_reader) w2 (λ w3. reading w3 (λ w4.
          try_line (perform board.port (write (build_request 5))) (record w4 { waiting = true })
            await_reply))))

  unfoldable pub try_rate : ℕ → Worker → Verdict
  try_rate rate w =
      let (status, l) = set_line_baud_rate board.port rate w.line in
      let w' = record w { line = l } in
      if is_unsupported status
      then continues w'
      else if not (nt_success status)
      then ends status w'
      else ask w'

  unfoldable pub climb : Worker → Identify × Option ℕ → Verdict
  climb w (identify, none) = ends status_not_found (record w { identify = identify })
  climb w (identify, some rate) = try_rate rate (record w { identify = identify })

  -- One round of the loop.
  unfoldable pub rung : Worker → Verdict
  rung w =
      let (status, w0) = quiesce_read w in
      if not (nt_success status)
      then ends status w0
      else budgeted w0 (λ w1. reading w1 (λ w2.
        if w2.identify.answered then ends status_success w2 else climb w2 (next_rate w2.identify)))

  -- The loop, none if `fuel` rounds were too few.
  unfoldable pub ladder : ℕ → Worker → Option (ℕ × Worker)
  ladder zero w = none
  ladder (suc fuel) w = elim (rung w) [
    | ends status w' ↦ some (status, w')
    | continues w' ↦ ladder fuel w'
  ]

  -- What comes after the loop: the status, the rate that answered or 0, and the worker.
  unfoldable pub conclude : ℕ × Worker → ℕ × ℕ × Worker
  conclude (status, w) =
      let (drained, w') = quiesce_read w in
      let read = board.read_status w'.line.history in
      let overall =
        if not (nt_success status || status == status_not_found)
        then status
        else if board.stopped w'.line.history
        then status_cancelled
        else if not (nt_success drained)
        then drained
        else if not (nt_success read)
        then read
        else status in
      close overall w'

  -- QcaUartRunIdentify and QcaUartProbeRate: the status, the rate of a successful probe or 0, and the
  -- worker.
  unfoldable pub probe_rate : Worker → Option (ℕ × ℕ × Worker)
  probe_rate w =
      Option.map (λ r. reported (conclude r))
        (ladder 4 (record w { identify = identify_init; waiting = false }))
