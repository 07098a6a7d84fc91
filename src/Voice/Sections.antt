-- ===== src/Voice/Sections.antt =====
-- src/driver/endpoints.c: the sections of the voice path that run under the lock, as a relation on
-- states.
use virt_bth_usb.Common.{ℕ, ◌+◌, ◌-◌, ◌<◌, ◌≡◌, Bool, true, false}
use virt_bth_usb.Common.{List, ◌∷◌, ◌++◌, if◌then◌else◌}
use virt_bth_usb.Voice.{Isoch, Parked, Voice, ScoTransport}
use virt_bth_usb.Voice.Accept.{Slot, accept_locked, park, kick}
use virt_bth_usb.Voice.Tick.{tick_release, complete_one, tick_check, flush_framers}

-- The voice state with the requests between their section under the lock and their kick, the calls
-- of WdfTimerStart that are about to be made, whether the timer is set, and the running ticks that
-- have not made their check.
pub record System (T : Type 0) : Type 0 where
  pub voice : Voice T
  pub accepting : ℕ
  pub starting : ℕ
  pub scheduled : ℕ
  pub ticking : ℕ

abbrev pub one_if : Bool → ℕ
one_if b = if b then 1 else 0

module _ {T : Type 0} (ops : ScoTransport T) where
  -- A section of a request, of the timer or of a flush, a cancellation, or the bridge at work.
  pub data Step (s : System T) : System T → Type 0 where
    accepts :
        (now max_packet_size : ℕ) (is_out has_context : Bool) (isoch : Isoch)
        → Step s (record s {
          voice = (accept_locked now max_packet_size is_out has_context isoch s.voice).1;
          accepting = s.accepting + 1;
        })
    parks :
        (max_packet_size : ℕ) (is_out : Bool) (slot : Slot)
        → 0 < s.accepting
        → Step s (record s { voice = park max_packet_size is_out slot s.voice })
    kicks :
        0 < s.accepting
        → Step s (record s {
          voice = (kick s.voice).0;
          accepting = s.accepting - 1;
          starting = s.starting + one_if (kick s.voice).1;
        })
    starts :
        0 < s.starting
        → Step s (record s { starting = s.starting - 1; scheduled = s.scheduled + 1 })
    fires :
        (now : ℕ)
        → 0 < s.scheduled
        → Step s (record s {
          voice = tick_release ops now s.voice;
          scheduled = s.scheduled - 1;
          ticking = s.ticking + 1;
        })
    completes_out :
        (fuel now : ℕ) (p : Parked) (queue : List Parked)
        → 0 < s.ticking
        → s.voice.out_queue ≡ p ∷ queue
        → Step s (record s {
          voice = record (complete_one ops fuel false now p s.voice).0 { out_queue = queue };
        })
    completes_in :
        (fuel now : ℕ) (p : Parked) (queue : List Parked)
        → 0 < s.ticking
        → s.voice.in_queue ≡ p ∷ queue
        → Step s (record s {
          voice = record (complete_one ops fuel true now p s.voice).0 { in_queue = queue };
        })
    checks :
        0 < s.ticking
        → Step s (record s {
          voice = (tick_check s.voice).0;
          starting = s.starting + one_if (tick_check s.voice).1;
          ticking = s.ticking - 1;
        })
    cancels_out :
        (before after : List Parked) (p : Parked)
        → s.voice.out_queue ≡ before ++ p ∷ after
        → Step s (record s { voice = record s.voice { out_queue = before ++ after } })
    cancels_in :
        (before after : List Parked) (p : Parked)
        → s.voice.in_queue ≡ before ++ p ∷ after
        → Step s (record s { voice = record s.voice { in_queue = before ++ after } })
    flushes : (flushed : ℕ) → Step s (record s { voice = flush_framers flushed s.voice })
    bridges : (t : T) → Step s (record s { voice = record s.voice { transport = t } })

  pub data Reach (s : System T) : System T → Type 0 where
    here : Reach s s
    next : {t u : System T} → Reach s t → Step t u → Reach s u
