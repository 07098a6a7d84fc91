-- ===== src/Voice/Armed.antt =====
-- src/driver/endpoints.c: what is parked or queued is always attended by the pacing timer.
use virt_bth_usb.Common.{
  ℕ, ◌+◌, ◌-◌, ◌<◌, ◌≤◌, ◌≡◌, ◌⊎◌, refl, sym, ap, ◌∙◌, inl, inr, arith, Bool, true, false, ◌||◌,
  cases, Bool-cases,
}
use virt_bth_usb.Common.{List, ◌∷◌, ◌++◌, length, length-append, ◌!=◌}
use virt_bth_usb.ScoUsb.Out.{out_reset}
use virt_bth_usb.Voice.{Isoch, Parked, Voice, ScoTransport}
use virt_bth_usb.Voice.Accept.{Slot, accept_out, accept_in, accept_locked, park, kick}
use virt_bth_usb.Voice.Tick.{
  tick_release, fill_in, complete_one, is_pending, tick_check, flush_framers,
}
use virt_bth_usb.Voice.Sections.{
  System, one_if, Step, accepts, parks, kicks, starts, fires, completes_out, completes_in, checks,
  cancels_out, cancels_in, flushes, bridges, Reach, here, next,
}

-- One start of the timer is on its way while it is armed, and none otherwise; and what is parked or
-- queued has armed it, or a request is about to.
pub record IsPaced {T : Type 0} (s : System T) : Type 0 where
  pub one : s.starting + s.scheduled + s.ticking ≡ one_if s.voice.timer_armed
  pub covered : is_pending s.voice ≡ true → (s.voice.timer_armed ≡ true) ⊎ (0 < s.accepting)

-- Something is left, and so there was something.
any_left :
    (a b c a' b' c' : ℕ)
    → a' ≤ a
    → b' ≤ b
    → c' ≤ c
    → (a' != 0 || b' != 0 || c' != 0) ≡ true
    → (a != 0 || b != 0 || c != 0) ≡ true
any_left a b c a' b' c' h k l e = ground arith

length-without :
    (before after : List Parked) (p : Parked)
    → length (before ++ after) ≤ length (before ++ p ∷ after)
length-without before after p =
    omega (arith, length-append before after, length-append before (p ∷ after))

module _ {T : Type 0} where
  busy :
      (s : System T)
      → IsPaced s
      → 0 < s.starting + s.scheduled + s.ticking
      → s.voice.timer_armed ≡ true
  busy s p h = elim (Bool-cases s.voice.timer_armed) [
    | inl y ↦ y
    | inr n ↦ absurd (ground (arith, p.one, n))
  ]

  accept_locked-armed :
      (now max_packet_size : ℕ) (is_out has_context : Bool) (isoch : Isoch) (v : Voice T)
      → (accept_locked now max_packet_size is_out has_context isoch v).1.timer_armed ≡ v.timer_armed
  unfolding accept_locked accept_out accept_in
  accept_locked-armed now max_packet_size true true isoch v = refl
  accept_locked-armed now max_packet_size true false isoch v = refl
  accept_locked-armed now max_packet_size false true isoch v = refl
  accept_locked-armed now max_packet_size false false isoch v = refl

  park-armed :
      (max_packet_size : ℕ) (is_out : Bool) (slot : Slot) (v : Voice T)
      → (park max_packet_size is_out slot v).timer_armed ≡ v.timer_armed
  unfolding park
  park-armed max_packet_size true slot v = refl
  park-armed max_packet_size false slot v = refl

  complete_one-armed :
      (ops : ScoTransport T) (fuel : ℕ) (is_in : Bool) (now : ℕ) (p : Parked) (v : Voice T)
      → (complete_one ops fuel is_in now p v).0.timer_armed ≡ v.timer_armed
  unfolding complete_one fill_in
  complete_one-armed ops fuel true now p v = refl
  complete_one-armed ops fuel false now p v = refl

  pending_disarmed :
      (v : Voice T)
      → is_pending v ≡ false
      → is_pending (record v { timer_armed = false }) ≡ true
      → ⊥
  unfolding is_pending
  pending_disarmed v e l = cc

  check-IsPaced :
      (s : System T)
      → 0 < s.ticking
      → IsPaced s
      → IsPaced (record s {
        voice = (tick_check s.voice).0;
        starting = s.starting + one_if (tick_check s.voice).1;
        ticking = s.ticking - 1;
      })
  unfolding tick_check
  check-IsPaced s h p =
      let armed = busy s p (omega arith) in
      let P : Voice T × Bool → Type 0 = λ r.
        IsPaced
          (record s { voice = r.0; starting = s.starting + one_if r.1; ticking = s.ticking - 1 }) in
      cases P (is_pending s.voice) (λ _. record { one = omega (arith, p.one); covered = p.covered })
        (λ e. record {
          one = ground (arith, p.one, armed);
          covered = λ l. absurd (pending_disarmed s.voice e l);
        })

  module _ {ops : ScoTransport T} where
    Step-IsPaced : {s t : System T} → Step ops s t → IsPaced s → IsPaced t
    unfolding kick tick_release is_pending flush_framers out_reset
    Step-IsPaced {s} (accepts now m is_out ctx isoch) p = record {
      one = p.one ∙ ap one_if (sym (accept_locked-armed now m is_out ctx isoch s.voice));
      covered = λ _. inr (omega arith);
    }
    Step-IsPaced {s} (parks m is_out slot h) p = record {
      one = p.one ∙ ap one_if (sym (park-armed m is_out slot s.voice));
      covered = λ _. inr h;
    }
    Step-IsPaced {s} (kicks h) p = record {
      one = elim (Bool-cases s.voice.timer_armed) [
        | inl y ↦ ground (arith, p.one, y)
        | inr n ↦ ground (arith, p.one, n)
      ];
      covered = λ _. inl refl;
    }
    Step-IsPaced {s} (starts h) p = record { one = omega (arith, p.one); covered = p.covered }
    Step-IsPaced {s} (fires now h) p = record {
      one = omega (arith, p.one);
      covered = λ _. inl (busy s p (omega arith));
    }
    Step-IsPaced {s} (completes_out fuel now c queue h e) p = record {
      one = p.one ∙ ap one_if (sym (complete_one-armed ops fuel false now c s.voice));
      covered = λ _. inl (complete_one-armed ops fuel false now c s.voice ∙ busy s p (omega arith));
    }
    Step-IsPaced {s} (completes_in fuel now c queue h e) p = record {
      one = p.one ∙ ap one_if (sym (complete_one-armed ops fuel true now c s.voice));
      covered = λ _. inl (complete_one-armed ops fuel true now c s.voice ∙ busy s p (omega arith));
    }
    Step-IsPaced {s} (checks h) p = check-IsPaced s h p
    Step-IsPaced {s} (cancels_out before after c e) p = record {
      one = p.one;
      covered = λ l. p.covered (
          any_left s.voice.sco_out.count (length s.voice.out_queue) (length s.voice.in_queue)
            s.voice.sco_out.count (length (before ++ after)) (length s.voice.in_queue) (omega arith)
            (omega (arith, ap length e, length-without before after c)) (omega arith) l);
    }
    Step-IsPaced {s} (cancels_in before after c e) p = record {
      one = p.one;
      covered = λ l. p.covered (
          any_left s.voice.sco_out.count (length s.voice.out_queue) (length s.voice.in_queue)
            s.voice.sco_out.count (length s.voice.out_queue) (length (before ++ after))
            (omega arith) (omega arith) (omega (arith, ap length e, length-without before after c))
            l);
    }
    Step-IsPaced {s} (flushes flushed) p = record {
      one = p.one;
      covered = λ l. p.covered (
          any_left s.voice.sco_out.count (length s.voice.out_queue) (length s.voice.in_queue) 0
            (length s.voice.out_queue) (length s.voice.in_queue) (omega arith) (omega arith)
            (omega arith) l);
    }
    Step-IsPaced {s} (bridges t) p = record { one = p.one; covered = p.covered }

  Reach-IsPaced : {ops : ScoTransport T} {s t : System T} → IsPaced s → Reach ops s t → IsPaced t
  Reach-IsPaced p here = p
  Reach-IsPaced p (next r st) = Step-IsPaced st (Reach-IsPaced p r)

  -- From a paced state, such as one with nothing parked and the timer unarmed, in any interleaving
  -- of the sections of requests, ticks, flushes, cancellations and the bridge, at most one start of
  -- the timer, set timer or running tick exists; and nothing is parked or queued, or a request has
  -- still to make its kick, or there is exactly one.
  pub Reach-attends :
      {ops : ScoTransport T} (s t : System T)
      → IsPaced s
      → Reach ops s t
      → (t.starting + t.scheduled + t.ticking ≤ 1)
        × ((is_pending t.voice ≡ false)
            ⊎ (0 < t.accepting)
            ⊎ (t.starting + t.scheduled + t.ticking ≡ 1))
  Reach-attends s t p r =
      let q = Reach-IsPaced p r in
      (
        elim (Bool-cases t.voice.timer_armed) [
          | inl y ↦ ground (arith, q.one, y)
          | inr n ↦ ground (arith, q.one, n)
        ],
        elim (Bool-cases (is_pending t.voice)) [
          | inr none_left ↦ inl none_left
          | inl left ↦ elim (q.covered left) [
            | inl y ↦ inr (inr (ground (arith, q.one, y)))
            | inr k ↦ inr (inl k)
          ]
        ],
      )
