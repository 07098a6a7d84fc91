-- ===== src/ScoUsb/Pacing.antt =====
-- src/common/sco_usb.c, ScoUsbSchedule: the completion times of an endpoint's transfers.
use virt_bth_usb.Common.{ℕ, ◌+◌, ◌^◌, ◌<◌, ◌≡◌, ◌∙◌, arith, List, [], ◌∷◌}
use Prim.Native.Nat.{max}
use virt_bth_usb.ScoUsb.{schedule}

-- Transfers, each with the time of its submission and the time that it stands for, one after
-- the other: the last one's completion.
unfoldable pub schedule_all : ℕ → List (ℕ × ℕ) → ℕ
schedule_all next_free [] = next_free
schedule_all next_free ((now, span) ∷ ts) = schedule_all (schedule next_free now span) ts

abbrev total_span : List (ℕ × ℕ) → ℕ
total_span [] = 0
total_span ((now, span) ∷ ts) = span + total_span ts

-- The latest that any of the transfers could end, had it and those after it run without a pause.
abbrev latest_run : List (ℕ × ℕ) → ℕ
latest_run [] = 0
latest_run ((now, span) ∷ ts) = max (now + span + total_span ts) (latest_run ts)

abbrev pub ends_by : ℕ → List (ℕ × ℕ) → ℕ
ends_by next_free ts = max (next_free + total_span ts) (latest_run ts)

schedule-max :
    (next_free now span : ℕ)
    → max next_free now + span < 2 ^ 64
    → schedule next_free now span ≡ max next_free now + span
unfolding schedule
schedule-max next_free now span h = ground (arith, h)

-- Transfers run back to back and pause only while none is submitted: the last completion is the
-- air time of all of them after the endpoint is free, or of some last ones of them after the first
-- of these is submitted, whichever is the later; unless that passes 64 bits.
pub schedule_all-ends_by :
    (next_free : ℕ) (ts : List (ℕ × ℕ))
    → ends_by next_free ts < 2 ^ 64
    → schedule_all next_free ts ≡ ends_by next_free ts
unfolding schedule_all
schedule_all-ends_by next_free [] h = omega arith
schedule_all-ends_by next_free ((now, span) ∷ ts) h =
    let first = schedule-max next_free now span (omega arith) in
    schedule_all-ends_by (schedule next_free now span) ts (omega (arith, first))
    ∙ omega (arith, first)
