-- ===== src/Fifo/Queue.antt =====
-- src/common/hci_bridge.c: the rings as queues, oldest packet first.
use virt_bth_usb.Common.{
  ℕ, zero, suc, ◌+◌, ◌-◌, ◌%◌, ◌≤◌, ◌<◌, ◌≡◌, ◌≢◌, refl, sym, ◌∙◌, ap, ap₂, arith,
}
use virt_bth_usb.Common.{
  List, [], ◌∷◌, ◌++◌, length, get_or, set, length-set, get_or-set_self, get_or-set_ne,
  length-replicate,
}
use native.Mathlib.Nat.{mod-add-mod, mod-eq_of_lt, mod-eq-sub-mod, mod-lt, add-zero}
use native.Mathlib.Decide.{dec_lt}
use virt_bth_usb.Fifo.{Fifo, empty_fifo, rewind, front, drop_front, append_back}

-- The representation invariant of a ring of `depth` slots.
pub record IsRing (depth : ℕ) (f : Fifo) : Type 0 where
  pub size : length f.slots ≡ depth
  pub positive : 0 < depth
  pub head_in : f.head < depth
  pub tail_at : f.tail ≡ (f.head + f.count) % depth
  pub count_in : f.count ≤ depth

-- `n` slots from `h` on, going round.
unfoldable pub run_of {ℓ} : {A : Type ℓ} → A → List A → ℕ → ℕ → ℕ → List A
run_of d slots depth h zero = []
run_of d slots depth h (suc n) = get_or slots h d ∷ run_of d slots depth ((h + 1) % depth) n

unfoldable pub contents : ℕ → Fifo → List (List ℕ)
contents depth f = run_of [] f.slots depth f.head f.count

-- Going on from `h` for fewer than `depth` steps one does not come back to it.
round-ne : (depth h k : ℕ) → h < depth → suc k < depth → (h + suc k) % depth ≢ h
round-ne depth h k p q = elim (dec_lt (h + suc k) depth) [
  | yes inside ↦ omega (arith, mod-eq_of_lt inside)
  | no past ↦ omega (
    arith,
    mod-eq-sub-mod {n = h + suc k} {m = depth} (omega arith),
    mod-eq_of_lt {n = h + suc k - depth} {m = depth} (omega arith),
  )
]

round_step : (depth h n : ℕ) → (h + suc n) % depth ≡ ((h + 1) % depth + n) % depth
round_step depth h n = rw mod-add-mod (ap (λ k. k % depth) (omega arith))

module _ {ℓ} {A : Type ℓ} (d x : A) (depth : ℕ) where
  -- A write to the slot behind a run extends the run.
  pub run_of-set :
      (n h i : ℕ) (slots : List A)
      → length slots ≡ depth
      → h < depth
      → n < depth
      → i ≡ (h + n) % depth
      → run_of d (set slots i x) depth h (suc n) ≡ run_of d slots depth h n ++ (x ∷ [])
  unfolding run_of
  run_of-set zero h i slots s p q e =
      rw (e, add-zero, mod-eq_of_lt p, get_or-set_self slots h x d (omega arith))
  run_of-set (suc n) h i slots s p q e =
      ap₂ ◌∷◌ (get_or-set_ne slots i h x d (λ r. round-ne depth h n p q (sym e ∙ r))) (
        run_of-set n ((h + 1) % depth) i slots s (omega arith) (omega arith)
          (e ∙ round_step depth h n))

pub empty_fifo-IsRing : (depth : ℕ) → 0 < depth → IsRing depth (empty_fifo depth)
unfolding empty_fifo
empty_fifo-IsRing depth p = record {
  size = length-replicate depth [];
  positive = p;
  head_in = p;
  tail_at = sym (mod-eq_of_lt p);
  count_in = omega arith;
}

pub rewind-IsRing : (depth : ℕ) (f : Fifo) → IsRing depth f → IsRing depth (rewind f)
unfolding rewind
rewind-IsRing depth f v = record {
  size = v.size;
  positive = v.positive;
  head_in = v.positive;
  tail_at = sym (mod-eq_of_lt v.positive);
  count_in = omega arith;
}

step_tail : (depth h n : ℕ) → 0 < n → (h + n) % depth ≡ ((h + 1) % depth + (n - 1)) % depth
step_tail depth h zero p = absurd (omega arith)
step_tail depth h (suc n) p =
    round_step depth h n ∙ ap (λ k. ((h + 1) % depth + k) % depth) {x = n} (omega arith)

pub drop_front-IsRing :
    (depth : ℕ) (f : Fifo) → IsRing depth f → 0 < f.count → IsRing depth (drop_front depth f)
unfolding drop_front
drop_front-IsRing depth f v h = record {
  size = v.size;
  positive = v.positive;
  head_in = mod-lt (f.head + 1) v.positive;
  tail_at = v.tail_at ∙ step_tail depth f.head f.count h;
  count_in = omega (arith, v.count_in);
}

pub append_back-IsRing :
    (depth : ℕ) (f : Fifo) (p : List ℕ)
    → IsRing depth f
    → f.count < depth
    → IsRing depth (append_back depth f p)
unfolding append_back
append_back-IsRing depth f p v h = record {
  size = length-set f.slots f.tail p ∙ v.size;
  positive = v.positive;
  head_in = v.head_in;
  tail_at =
      ap (λ k. (k + 1) % depth) v.tail_at
      ∙ mod-add-mod (f.head + f.count) depth 1
      ∙ ap (λ k. k % depth) (omega arith);
  count_in = omega arith;
}

-- Appending puts the packet at the end of the queue.
pub contents-append_back :
    (depth : ℕ) (f : Fifo) (p : List ℕ)
    → IsRing depth f
    → f.count < depth
    → contents depth (append_back depth f p) ≡ contents depth f ++ (p ∷ [])
unfolding contents append_back
contents-append_back depth f p v h =
    ap (λ (k : ℕ). run_of [] (set f.slots f.tail p) depth f.head k) {y = suc f.count} (omega arith)
    ∙ run_of-set [] p depth f.count f.head f.tail f.slots v.size v.head_in h v.tail_at

pub run_of-cons {ℓ} :
    {A : Type ℓ} (d : A) (slots : List A) (depth h n : ℕ)
    → 0 < n
    → run_of d slots depth h n ≡ get_or slots h d ∷ run_of d slots depth ((h + 1) % depth) (n - 1)
unfolding run_of
run_of-cons d slots depth h zero p = absurd (omega arith)
run_of-cons d slots depth h (suc n) p =
    ap (λ (k : ℕ). get_or slots h d ∷ run_of d slots depth ((h + 1) % depth) k) {x = n}
      (omega arith)

pub length-run {ℓ} :
    {A : Type ℓ} (d : A) (slots : List A) (depth h n : ℕ) → length (run_of d slots depth h n) ≡ n
unfolding run_of
length-run d slots depth h zero = refl
length-run d slots depth h (suc n) = ap suc (length-run d slots depth ((h + 1) % depth) n)

-- The oldest packet is the front, and dropping it leaves the rest.
pub contents-front :
    (depth : ℕ) (f : Fifo)
    → 0 < f.count
    → contents depth f ≡ front f ∷ contents depth (drop_front depth f)
unfolding contents drop_front
contents-front depth f h = run_of-cons [] f.slots depth f.head f.count h

pub contents_empty : (depth : ℕ) (f : Fifo) → f.count ≡ 0 → contents depth f ≡ []
unfolding contents run_of
contents_empty depth f h = ap (run_of [] f.slots depth f.head) h

pub length-contents : (depth : ℕ) (f : Fifo) → length (contents depth f) ≡ f.count
unfolding contents
length-contents depth f = length-run [] f.slots depth f.head f.count
