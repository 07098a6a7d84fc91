-- ===== src/Voice/Parking.antt =====
-- src/driver/endpoints.c: the order of the parked transfers over any interleaving of arrivals with the
-- timer.
use virt_bth_usb.Common.{ℕ, ◌<◌, ◌≡◌, ◌⊎◌, refl, inl, inr, Bool, true, false, either}
use virt_bth_usb.Common.{List, []}
use virt_bth_usb.Voice.{Parked, Voice, ScoTransport}
use virt_bth_usb.Voice.Accept.{park, kick, accept_locked, parked_of}
use virt_bth_usb.Voice.Tick.{tick_release, tick_check, is_pending}
use virt_bth_usb.Voice.Order.{InOrder, complete_one-Keeps}
use virt_bth_usb.Voice.Slots.{accept_locked-Advances}
use virt_bth_usb.Voice.Arrivals.{
  Arriving, Arrivals, Step, takes_out, takes_in, parks_out, parks_in, refuses_out, refuses_in,
  kicks, releases, completes_out, completes_in, checks, cancels_out, cancels_in, bridges, Reach,
  here, next,
}
use virt_bth_usb.Voice.Overtaking.{
  Within, Fits, Fits-take, Fits-park, Fits-refuse, Fits-cancel, Fits-Within, Fits-Ascends,
}

-- Both endpoints' transfers have slots that fit their clock.
pub record IsArriving {T : Type 0} (s : Arrivals T) : Type 0 where
  pub out : Fits s.voice.out_clock s.voice.out_queue s.out
  pub in_ : Fits s.voice.in_clock s.voice.in_queue s.in_

-- The clocks and the queues that `Fits` looks at.
Fits-same : {c d : ℕ} {q r : List Parked} {a : Arriving} → d ≡ c → r ≡ q → Fits c q a → Fits d r a
Fits-same {a = a} e f = λ x. rw (e, f) x

module _ {T : Type 0} (ops : ScoTransport T) where
  -- A section that leaves the queues, the clocks and the arrivals alone.
  untouched :
      (s : Arrivals T) (w : Voice T)
      → w.out_clock ≡ s.voice.out_clock
      → w.in_clock ≡ s.voice.in_clock
      → w.out_queue ≡ s.voice.out_queue
      → w.in_queue ≡ s.voice.in_queue
      → IsArriving s
      → IsArriving (record s { voice = w })
  untouched s w a b c d i = record { out = Fits-same a c i.out; in_ = Fits-same b d i.in_ }

  tick_check-IsArriving :
      (s : Arrivals T) → IsArriving s → IsArriving (record s { voice = (tick_check s.voice).0 })
  unfolding tick_check
  tick_check-IsArriving s i =
      either (λ (r : Voice T × Bool). IsArriving (record s { voice = r.0 })) (is_pending s.voice)
        (untouched s s.voice refl refl refl refl i)
        (untouched s (record s.voice { timer_armed = false }) refl refl refl refl i)

  Step-IsArriving : {s t : Arrivals T} → Step ops s t → IsArriving s → IsArriving t
  unfolding park kick tick_release parked_of
  Step-IsArriving {s} (takes_out now m has_context isoch e h) i =
      let a = accept_locked-Advances now m s.voice e true has_context isoch h in
      let slot = (accept_locked now m true has_context isoch s.voice).0 in
      record {
        out = Fits-same a.out_clock a.out_queue (Fits-take _ m _ slot s.out a.later i.out);
        in_ = Fits-same a.in_clock a.in_queue i.in_;
      }
  Step-IsArriving {s} (takes_in now m has_context isoch e h) i =
      let a = accept_locked-Advances now m s.voice e false has_context isoch h in
      let slot = (accept_locked now m false has_context isoch s.voice).0 in
      record {
        out = Fits-same a.out_clock a.out_queue i.out;
        in_ = Fits-same a.in_clock a.in_queue (Fits-take _ m _ slot s.in_ a.later i.in_);
      }
  Step-IsArriving {s} (parks_out before after t e) i = record {
    out = Fits-park _ _ s.out before after t e i.out;
    in_ = i.in_;
  }
  Step-IsArriving {s} (parks_in before after t e) i = record {
    out = i.out;
    in_ = Fits-park _ _ s.in_ before after t e i.in_;
  }
  Step-IsArriving {s} (refuses_out before after t e) i = record {
    out = Fits-refuse _ _ s.out before after t e i.out;
    in_ = i.in_;
  }
  Step-IsArriving {s} (refuses_in before after t e) i = record {
    out = i.out;
    in_ = Fits-refuse _ _ s.in_ before after t e i.in_;
  }
  Step-IsArriving {s} kicks i = record { out = i.out; in_ = i.in_ }
  Step-IsArriving {s} (releases now) i = record { out = i.out; in_ = i.in_ }
  Step-IsArriving {s} (completes_out fuel now p queue e) i =
      let (a, b, c, d) = complete_one-Keeps ops fuel false now p s.voice in
      record {
        out = Fits-same a refl (Fits-cancel _ _ s.out [] queue p e i.out);
        in_ = Fits-same b d i.in_;
      }
  Step-IsArriving {s} (completes_in fuel now p queue e) i =
      let (a, b, c, d) = complete_one-Keeps ops fuel true now p s.voice in
      record {
        out = Fits-same a c i.out;
        in_ = Fits-same b refl (Fits-cancel _ _ s.in_ [] queue p e i.in_);
      }
  Step-IsArriving {s} checks i = tick_check-IsArriving s i
  Step-IsArriving {s} (cancels_out before after p e) i = record {
    out = Fits-cancel _ _ s.out before after p e i.out;
    in_ = i.in_;
  }
  Step-IsArriving {s} (cancels_in before after p e) i = record {
    out = i.out;
    in_ = Fits-cancel _ _ s.in_ before after p e i.in_;
  }
  Step-IsArriving {s} (bridges t) i = record { out = i.out; in_ = i.in_ }

  Reach-IsArriving : {s t : Arrivals T} → IsArriving s → Reach ops s t → IsArriving t
  Reach-IsArriving i here = i
  Reach-IsArriving i (next r st) = Step-IsArriving st (Reach-IsArriving i r)

  Fits-InOrder :
      (clock : ℕ) (queue : List Parked) (a : Arriving)
      → Fits clock queue a
      → (0 < a.overtakes) ⊎ InOrder clock queue
  Fits-InOrder clock queue a f = elim (Fits-Ascends clock queue a f) [
    | inl o ↦ inl o
    | inr asc ↦ inr (record { ascends = asc; by_clock = Fits-Within clock queue a f })
  ]

  -- Over any interleaving of arrivals with the timer, the bridge and cancellations, but for a flush,
  -- where a transfer takes its slot in one section and is parked or completed in a later one, and
  -- transfers of one endpoint may overtake each other in between: no parked transfer has a slot after
  -- its endpoint's clock, and the transfers parked on an endpoint are in the order of their slots
  -- unless a transfer of that endpoint was parked before another that had taken its slot earlier.
  -- From a state in which this holds, for times and clocks below 2^63 and fewer than 2^32 packets in
  -- a transfer.
  pub Reach-InOrder :
      (s t : Arrivals T)
      → IsArriving s
      → Reach ops s t
      → Within t.voice.out_clock t.voice.out_queue
        × Within t.voice.in_clock t.voice.in_queue
        × ((0 < t.out.overtakes) ⊎ InOrder t.voice.out_clock t.voice.out_queue)
        × ((0 < t.in_.overtakes) ⊎ InOrder t.voice.in_clock t.voice.in_queue)
  Reach-InOrder s t i r =
      let j = Reach-IsArriving i r in
      (
        Fits-Within _ _ t.out j.out,
        Fits-Within _ _ t.in_ j.in_,
        Fits-InOrder _ _ t.out j.out,
        Fits-InOrder _ _ t.in_ j.in_,
      )
