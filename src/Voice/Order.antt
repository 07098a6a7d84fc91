-- ===== src/Voice/Order.antt =====
-- src/driver/endpoints.c: the order of the parked transfers, and which of them a tick completes.
use virt_bth_usb.Common.{
  ℕ, suc, ◌<◌, ◌≤◌, ◌≡◌, refl, ap, ◌∙◌, arith, Bool, true, false, either, cases,
}
use virt_bth_usb.Common.{List, [], ◌∷◌, ◌++◌, length, All, ltb, if◌then◌else◌}
use virt_bth_usb.Voice.{Parked, Voice, ScoTransport, Completed}
use virt_bth_usb.Voice.Tick.{complete_one, complete_due, tick_complete, fill_in}

-- The slots end in the queue's order, not before `low`.
abbrev pub Ascends : ℕ → List Parked → Type 0
Ascends low [] = Unit
Ascends low (p ∷ queue) = (low ≤ p.due) × Ascends p.due queue

-- A queue in order, with no slot after its endpoint's clock.
pub record InOrder (clock : ℕ) (queue : List Parked) : Type 0 where
  pub ascends : Ascends 0 queue
  pub by_clock : All (λ p. p.due ≤ clock) queue

pub record IsOrdered {T : Type 0} (v : Voice T) : Type 0 where
  pub out : InOrder v.out_clock v.out_queue
  pub in_ : InOrder v.in_clock v.in_queue

Ascends-later :
    (now low : ℕ) (queue : List Parked)
    → now < low
    → Ascends low queue
    → All (λ p. now < p.due) queue
Ascends-later now low [] h a = tt
Ascends-later now low (p ∷ queue) h a =
    (omega (arith, a.0), Ascends-later now p.due queue (omega (arith, a.0)) a.1)

pub Ascends-weaken :
    (low low' : ℕ) (queue : List Parked) → low' ≤ low → Ascends low queue → Ascends low' queue
Ascends-weaken low low' [] h a = tt
Ascends-weaken low low' (p ∷ queue) h a = (omega (arith, a.0), a.1)

pub Ascends-append :
    (low due : ℕ) (queue : List Parked) (p : Parked)
    → low ≤ p.due
    → Ascends low queue
    → All (λ q. q.due ≤ p.due) queue
    → Ascends low (queue ++ p ∷ [])
Ascends-append low due [] p h a b = (h, tt)
Ascends-append low due (q ∷ queue) p h a b = (a.0, Ascends-append q.due due queue p b.0 a.1 b.1)

pub All-append-one :
    (clock : ℕ) (queue : List Parked) (p : Parked)
    → All (λ q. q.due ≤ clock) queue
    → p.due ≤ clock
    → All (λ q. q.due ≤ clock) (queue ++ p ∷ [])
All-append-one clock [] p b h = (h, tt)
All-append-one clock (q ∷ queue) p b h = (b.0, All-append-one clock queue p b.1 h)

pub All-weaken :
    (clock clock' : ℕ) (queue : List Parked)
    → clock ≤ clock'
    → All (λ q. q.due ≤ clock) queue
    → All (λ q. q.due ≤ clock') queue
All-weaken clock clock' [] h b = tt
All-weaken clock clock' (q ∷ queue) h b = (omega (arith, b.0), All-weaken clock clock' queue h b.1)

pub InOrder-append :
    (clock : ℕ) (queue : List Parked) (p : Parked)
    → InOrder clock queue
    → clock ≤ p.due
    → InOrder p.due (queue ++ p ∷ [])
InOrder-append clock queue p o h =
    let b = All-weaken clock p.due queue h o.by_clock in
    record {
      ascends = Ascends-append 0 0 queue p (omega arith) o.ascends b;
      by_clock = All-append-one p.due queue p b (omega arith);
    }

pub InOrder-weaken :
    (clock clock' : ℕ) (queue : List Parked)
    → clock ≤ clock'
    → InOrder clock queue
    → InOrder clock' queue
InOrder-weaken clock clock' queue h o = record {
  ascends = o.ascends;
  by_clock = All-weaken clock clock' queue h o.by_clock;
}

-- What a tick at `now` makes of a queue: the transfers whose slot has ended are completed, and those
-- alone, in order, and the others stay parked.
pub record Completes (now : ℕ) (queue left : List Parked) (done : List Completed) : Type 0 where
  pub gone : List Parked
  pub splits : gone ++ left ≡ queue
  pub ended : All (λ p. p.due ≤ now) gone
  pub waiting : All (λ p. now < p.due) left
  pub answered : length done ≡ length gone

module _ {T : Type 0} (ops : ScoTransport T) (fuel : ℕ) (is_in : Bool) (now : ℕ) where
  complete_due-Completes :
      (low : ℕ) (queue : List Parked) (v : Voice T)
      → Ascends low queue
      → Completes now queue
          (complete_due ops fuel is_in now queue v).1
          (complete_due ops fuel is_in now queue v).2
  unfolding complete_due
  complete_due-Completes low [] v a = record {
    gone = [];
    splits = refl;
    ended = tt;
    waiting = tt;
    answered = refl;
  }
  complete_due-Completes low (p ∷ queue) v a =
      let one = complete_one ops fuel is_in now p v in
      let rest = complete_due-Completes p.due queue one.0 a.1 in
      let P : Voice T × List Parked × List Completed → Type 0 =
        λ r. Completes now (p ∷ queue) r.1 r.2 in
      cases P (ltb now p.due)
        (λ later. record {
          gone = [];
          splits = refl;
          ended = tt;
          waiting =
              (ground (arith, later), Ascends-later now p.due queue (ground (arith, later)) a.1);
          answered = refl;
        })
        (λ over. record {
          gone = p ∷ rest.gone;
          splits = ap (λ q. p ∷ q) rest.splits;
          ended = (ground (arith, over), rest.ended);
          waiting = rest.waiting;
          answered = ap suc rest.answered;
        })

  complete_due-left :
      (clock low : ℕ) (queue : List Parked) (v : Voice T)
      → Ascends low queue
      → All (λ p. p.due ≤ clock) queue
      → Ascends low (complete_due ops fuel is_in now queue v).1
        × All (λ p. p.due ≤ clock) (complete_due ops fuel is_in now queue v).1
  unfolding complete_due
  complete_due-left clock low [] v a b = (tt, tt)
  complete_due-left clock low (p ∷ queue) v a b =
      let one = complete_one ops fuel is_in now p v in
      let rest = complete_due-left clock p.due queue one.0 a.1 b.1 in
      either
        (λ (r : Voice T × List Parked × List Completed).
          Ascends low r.1 × All (λ p. p.due ≤ clock) r.1)
        (ltb now p.due) (a, b) (Ascends-weaken p.due low _ a.0 rest.0, rest.1)

  -- What the completion of transfers leaves alone.
  abbrev pub Keeps : Voice T → Voice T → Type 0
  Keeps v w =
      (w.out_clock ≡ v.out_clock)
      × (w.in_clock ≡ v.in_clock)
      × (w.out_queue ≡ v.out_queue)
      × (w.in_queue ≡ v.in_queue)

  pub complete_one-Keeps :
      (p : Parked) (v : Voice T) → Keeps v (complete_one ops fuel is_in now p v).0
  unfolding complete_one fill_in
  complete_one-Keeps p v =
      either (λ (r : Voice T × Completed). Keeps v r.0) is_in (refl, refl, refl, refl)
        (refl, refl, refl, refl)

  complete_due-Keeps :
      (queue : List Parked) (v : Voice T) → Keeps v (complete_due ops fuel is_in now queue v).0
  unfolding complete_due
  complete_due-Keeps [] v = (refl, refl, refl, refl)
  complete_due-Keeps (p ∷ queue) v =
      let one = complete_one ops fuel is_in now p v in
      let (a, b, c, d) = complete_one-Keeps p v in
      let (a', b', c', d') = complete_due-Keeps queue one.0 in
      either (λ (r : Voice T × List Parked × List Completed). Keeps v r.0) (ltb now p.due)
        (refl, refl, refl, refl) (a' ∙ a, b' ∙ b, c' ∙ c, d' ∙ d)

abbrev pub queue_of : {T : Type 0} → Bool → Voice T → List Parked
queue_of is_in v = if is_in then v.in_queue else v.out_queue

-- With the transfers in order, a tick completes those whose slot has ended and no others, and the
-- transfers stay in order.
pub tick_complete-Completes :
    {T : Type 0} (ops : ScoTransport T) (fuel : ℕ) (is_in : Bool) (now : ℕ) (v : Voice T)
    → IsOrdered v
    → IsOrdered (tick_complete ops fuel is_in now v).0
      × Completes now
          (queue_of is_in v)
          (queue_of is_in (tick_complete ops fuel is_in now v).0)
          (tick_complete ops fuel is_in now v).1
unfolding tick_complete
tick_complete-Completes ops fuel true now v o =
    let (out_clock, in_clock, out_queue, in_queue) =
      complete_due-Keeps ops fuel true now v.in_queue v in
    let left =
      complete_due-left ops fuel true now v.in_clock 0 v.in_queue v o.in_.ascends o.in_.by_clock in
    (
      record {
        out = rw (out_clock, out_queue) o.out;
        in_ = rw in_clock (record { ascends = left.0; by_clock = left.1 });
      },
      complete_due-Completes ops fuel true now 0 v.in_queue v o.in_.ascends,
    )
tick_complete-Completes ops fuel false now v o =
    let (out_clock, in_clock, out_queue, in_queue) =
      complete_due-Keeps ops fuel false now v.out_queue v in
    let left =
      complete_due-left ops fuel false now v.out_clock 0 v.out_queue v o.out.ascends
        o.out.by_clock in
    (
      record {
        out = rw out_clock (record { ascends = left.0; by_clock = left.1 });
        in_ = rw (in_clock, in_queue) o.in_;
      },
      complete_due-Completes ops fuel false now 0 v.out_queue v o.out.ascends,
    )
