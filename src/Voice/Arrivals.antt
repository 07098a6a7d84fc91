-- ===== src/Voice/Arrivals.antt =====
-- src/driver/endpoints.c, DeckBtScoAccept on queues that dispatch in parallel: a transfer takes its slot
-- under the lock, and is parked or completed some time after that.
use virt_bth_usb.Common.{ℕ, ◌+◌, ◌^◌, ◌<◌, ◌≡◌, Bool, true, false}
use virt_bth_usb.Common.{List, [], ◌∷◌, ◌++◌, length}
use virt_bth_usb.Voice.{Isoch, Parked, Voice, ScoTransport}
use virt_bth_usb.Voice.Accept.{Slot, accept_locked, park, kick}
use virt_bth_usb.Voice.Tick.{tick_release, complete_one, tick_check}
use virt_bth_usb.Voice.Slots.{IsEarly}

-- A transfer with its slot, between the section under the lock and its parking.
pub record Taken : Type 0 where
  pub max_packet_size : ℕ
  pub slot : Slot

-- The transfers of an endpoint in that place, in the order of the lock, and how many of them were
-- overtaken by one that was parked.
pub record Arriving : Type 0 where
  pub taken : List Taken
  pub overtakes : ℕ

abbrev pub take_slot : ℕ → Slot → Arriving → Arriving
take_slot max_packet_size slot a = record a {
  taken = a.taken ++ record { max_packet_size = max_packet_size; slot = slot } ∷ [];
}

pub record Arrivals (T : Type 0) : Type 0 where
  pub voice : Voice T
  pub out : Arriving
  pub in_ : Arriving

module _ {T : Type 0} (ops : ScoTransport T) where
  -- A section of an arrival, of the timer, a cancellation, or the bridge at work; but no flush.
  pub data Step (s : Arrivals T) : Arrivals T → Type 0 where
    takes_out :
        (now max_packet_size : ℕ) (has_context : Bool) (isoch : Isoch)
        → IsEarly now s.voice
        → length isoch.packets < 2 ^ 32
        → Step s (record s {
          voice = (accept_locked now max_packet_size true has_context isoch s.voice).1;
          out =
              take_slot max_packet_size
                (accept_locked now max_packet_size true has_context isoch s.voice).0
                s.out;
        })
    takes_in :
        (now max_packet_size : ℕ) (has_context : Bool) (isoch : Isoch)
        → IsEarly now s.voice
        → length isoch.packets < 2 ^ 32
        → Step s (record s {
          voice = (accept_locked now max_packet_size false has_context isoch s.voice).1;
          in_ =
              take_slot max_packet_size
                (accept_locked now max_packet_size false has_context isoch s.voice).0
                s.in_;
        })
    parks_out :
        (before after : List Taken) (t : Taken)
        → s.out.taken ≡ before ++ t ∷ after
        → Step s (record s {
          voice = park t.max_packet_size true t.slot s.voice;
          out = record { taken = before ++ after; overtakes = s.out.overtakes + length before };
        })
    parks_in :
        (before after : List Taken) (t : Taken)
        → s.in_.taken ≡ before ++ t ∷ after
        → Step s (record s {
          voice = park t.max_packet_size false t.slot s.voice;
          in_ = record { taken = before ++ after; overtakes = s.in_.overtakes + length before };
        })
    refuses_out :
        (before after : List Taken) (t : Taken)
        → s.out.taken ≡ before ++ t ∷ after
        → Step s
            (record s { out = record { taken = before ++ after; overtakes = s.out.overtakes } })
    refuses_in :
        (before after : List Taken) (t : Taken)
        → s.in_.taken ≡ before ++ t ∷ after
        → Step s
            (record s { in_ = record { taken = before ++ after; overtakes = s.in_.overtakes } })
    kicks : Step s (record s { voice = (kick s.voice).0 })
    releases : (now : ℕ) → Step s (record s { voice = tick_release ops now s.voice })
    completes_out :
        (fuel now : ℕ) (p : Parked) (queue : List Parked)
        → s.voice.out_queue ≡ p ∷ queue
        → Step s (record s {
          voice = record (complete_one ops fuel false now p s.voice).0 { out_queue = queue };
        })
    completes_in :
        (fuel now : ℕ) (p : Parked) (queue : List Parked)
        → s.voice.in_queue ≡ p ∷ queue
        → Step s (record s {
          voice = record (complete_one ops fuel true now p s.voice).0 { in_queue = queue };
        })
    checks : Step s (record s { voice = (tick_check s.voice).0 })
    cancels_out :
        (before after : List Parked) (p : Parked)
        → s.voice.out_queue ≡ before ++ p ∷ after
        → Step s (record s { voice = record s.voice { out_queue = before ++ after } })
    cancels_in :
        (before after : List Parked) (p : Parked)
        → s.voice.in_queue ≡ before ++ p ∷ after
        → Step s (record s { voice = record s.voice { in_queue = before ++ after } })
    bridges : (t : T) → Step s (record s { voice = record s.voice { transport = t } })

  pub data Reach (s : Arrivals T) : Arrivals T → Type 0 where
    here : Reach s s
    next : {t u : Arrivals T} → Reach s t → Step t u → Reach s u
