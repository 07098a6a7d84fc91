-- ===== src/Identify/Ladder.antt =====
-- src/common/qca_identify.c: sessions of the probe.
use virt_bth_usb.Common.{
  ℕ, zero, suc, ◌+◌, ◌-◌, ◌≤◌, ◌<◌, ◌≡◌, refl, arith, Bool, true, false, none, some,
}
use virt_bth_usb.Common.{List, [], ◌∷◌, ◌++◌, take, get_or}
use virt_bth_usb.Edl.{no_version}
use virt_bth_usb.Identify.{Identify, identify_init, next_rate, on_packet}

-- The caller's calls.
pub data Call : Type 0 where
  next : Call
  packet : List ℕ → Call

abbrev ladder : List ℕ
ladder = 115200 ∷ 3000000 ∷ 3200000 ∷ []

-- The state and the rates handed out so far, oldest first.
pub step : Identify × List ℕ → Call → Identify × List ℕ
step (s, out) next =
    let (s', rate) = next_rate s in (s', elim rate [ none ↦ out | some r ↦ out ++ (r ∷ []) ])
step (s, out) (packet p) = let (s', claimed) = on_packet s p in (s', out)

pub session : Identify × List ℕ → List Call → Identify × List ℕ
session s [] = s
session s (c ∷ cs) = session (step s c) cs

abbrev Answer : Bool → Identify → Type 0
Answer true s =
    (s.finished ≡ true) × (1 ≤ s.attempts) × (s.answered_rate ≡ get_or ladder (s.attempts - 1) 0)
Answer false s = (s.answered_rate ≡ 0) × (s.version ≡ no_version)

-- The rates handed out are a prefix of the ladder; an answer names the last of them.
pub record IsProbe (s : Identify) (out : List ℕ) : Type 0 where
  pub rates : s.rates ≡ 115200 ∷ 3000000 ∷ 3200000 ∷ 0 ∷ []
  pub three : s.rate_count ≡ 3
  pub in_step : s.index ≡ s.attempts
  pub at_most : s.attempts ≤ 3
  pub handed_out : out ≡ take s.attempts ladder
  pub answer : Answer s.answered s

take_more : (n : ℕ) → n < 3 → take n ladder ++ (get_or ladder n 0 ∷ []) ≡ take (n + 1) ladder
take_more zero h = refl
take_more (suc zero) h = refl
take_more (suc (suc zero)) h = refl
take_more (suc (suc (suc n))) h = absurd (omega arith)

-- The array's fourth slot is never read.
rates_ladder :
    (n : ℕ) → n < 3 → get_or (115200 ∷ 3000000 ∷ 3200000 ∷ 0 ∷ []) n 0 ≡ get_or ladder n 0
rates_ladder zero h = refl
rates_ladder (suc zero) h = refl
rates_ladder (suc (suc zero)) h = refl
rates_ladder (suc (suc (suc n))) h = absurd (omega arith)

next_rate-IsProbe :
    (s : Identify) (out : List ℕ)
    → IsProbe s out
    → let (s', out') = step (s, out) next in IsProbe s' out'
unfolding step next_rate
next_rate-IsProbe s out v = ground (arith, v.answer, take_more s.attempts, rates_ladder s.attempts)

on_packet-IsProbe :
    (s : Identify) (out p : List ℕ)
    → IsProbe s out
    → let (s', out') = step (s, out) (packet p) in IsProbe s' out'
unfolding step on_packet
on_packet-IsProbe s out p v = ground (arith, v.answer, rates_ladder (s.attempts - 1))

step-IsProbe :
    (s : Identify) (out : List ℕ) (c : Call)
    → IsProbe s out
    → let (s', out') = step (s, out) c in IsProbe s' out'
step-IsProbe s out next v = next_rate-IsProbe s out v
step-IsProbe s out (packet p) v = on_packet-IsProbe s out p v

session-IsProbe :
    (cs : List Call) (r : Identify × List ℕ)
    → IsProbe r.0 r.1
    → let (s', out') = session r cs in IsProbe s' out'
unfolding session
session-IsProbe [] r v = v
session-IsProbe (c ∷ cs) (s, out) v = session-IsProbe cs (step (s, out) c) (step-IsProbe s out c v)

-- After any sequence of calls on a fresh probe, the rates handed out are the first `attempts` of
-- 115200, 3000000 and 3200000, in that order and each once; while nothing answered, no rate and no
-- version are recorded, and an answer finishes the probe and records the rate handed out last.
pub session_init-IsProbe :
    (cs : List Call) → let (s, out) = session (identify_init, []) cs in IsProbe s out
unfolding identify_init
session_init-IsProbe cs = session-IsProbe cs _ (record {
  rates = refl;
  three = refl;
  in_step = refl;
  at_most = omega arith;
  handed_out = refl;
  answer = (refl, refl);
})
