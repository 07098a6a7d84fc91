-- ===== src/Fsm/Fallback.antt =====
-- src/common/qca_init_fsm.c: the one fallback after a failed NVM download.
use virt_bth_usb.Common.{
  ℕ, List, ◌≡◌, refl, ◌∙◌, ap, true, false, none, some, inl, inr, either, cases, Bool-cases,
  Option-cases, get_or,
}
use virt_bth_usb.NvmName.{build_alt_nvm_file_name}
use virt_bth_usb.Tlv.{parse_tlv}
use virt_bth_usb.Fsm.{Fsm, failed, fail, check_nvm, arm_nvm, find_candidate, no_candidate}
use virt_bth_usb.Fsm.Pump.{on_nvm_failure}

-- The image of a candidate.
abbrev image_at : Fsm → ℕ → List ℕ
image_at f i = (get_or f.candidates i no_candidate).image

used_up : (f : Fsm) → f.nvm_fallback_used ≡ true → on_nvm_failure f ≡ fail f
unfolding on_nvm_failure
used_up f y = rw y refl

no_alternative :
    (f : Fsm)
    → f.nvm_fallback_used ≡ false
    → build_alt_nvm_file_name f.selected_nvm_name 32 ≡ none
    → on_nvm_failure f ≡ fail f
unfolding on_nvm_failure
no_alternative f n e =
    either (λ (r : Fsm). r ≡ fail f) f.nvm_fallback_used refl (rw (e, on_nvm_failure) refl)

not_there :
    (f : Fsm) (alt : List ℕ)
    → f.nvm_fallback_used ≡ false
    → build_alt_nvm_file_name f.selected_nvm_name 32 ≡ some alt
    → find_candidate f.candidates alt 0 ≡ none
    → on_nvm_failure f ≡ fail f
unfolding on_nvm_failure
not_there f alt n e d =
    either (λ (r : Fsm). r ≡ fail f) f.nvm_fallback_used refl (rw (e, on_nvm_failure, d) refl)

-- The machine that saw an unusable image.
abbrev saw : Fsm → ℕ → Fsm
saw f i = record f { nvm_info = (parse_tlv (image_at f i)).1 }

arm_unusable :
    (f : Fsm) (alt : List ℕ) (i : ℕ)
    → check_nvm (image_at f i) ≡ none
    → arm_nvm f i alt ≡ (false, saw f i)
unfolding arm_nvm
arm_unusable f alt i c = rw (c, arm_nvm) refl

arm_usable :
    (f : Fsm) (alt : List ℕ) (i o : ℕ)
    → check_nvm (image_at f i) ≡ some o
    → (arm_nvm f i alt).0 ≡ true
unfolding arm_nvm
arm_usable f alt i o c = rw (c, arm_nvm) refl

unusable :
    (f : Fsm) (alt : List ℕ) (i : ℕ)
    → f.nvm_fallback_used ≡ false
    → build_alt_nvm_file_name f.selected_nvm_name 32 ≡ some alt
    → find_candidate f.candidates alt 0 ≡ some i
    → check_nvm (image_at f i) ≡ none
    → on_nvm_failure f ≡ fail (saw f i)
unfolding on_nvm_failure
unusable f alt i n e d c =
    cases (λ (r : Fsm). r ≡ fail (saw f i)) f.nvm_fallback_used (λ y. cc)
      (λ z. rw (e, on_nvm_failure, d, arm_unusable f alt i c) refl)

usable :
    (f : Fsm) (alt : List ℕ) (i o : ℕ)
    → f.nvm_fallback_used ≡ false
    → build_alt_nvm_file_name f.selected_nvm_name 32 ≡ some alt
    → find_candidate f.candidates alt 0 ≡ some i
    → check_nvm (image_at f i) ≡ some o
    → (on_nvm_failure f).nvm_fallback_used ≡ true
unfolding on_nvm_failure
usable f alt i o n e d c =
    cases (λ (r : Fsm). r.nvm_fallback_used ≡ true) f.nvm_fallback_used (λ y. cc)
      (λ z. rw (e, on_nvm_failure, d, arm_usable f alt i o c) refl)

-- Whatever the machine was doing, the second NVM failure in a row fails it: a fallback image is
-- tried at most once.
on_nvm_failure-on_nvm_failure : (f : Fsm) → (on_nvm_failure (on_nvm_failure f)).state ≡ failed
unfolding fail
on_nvm_failure-on_nvm_failure f =
    let state_of = λ (g : Fsm). g.state in
    elim (Bool-cases f.nvm_fallback_used) [
      | inl y ↦ ap state_of (ap on_nvm_failure (used_up f y) ∙ used_up (fail f) y)
      | inr n ↦ elim (Option-cases (build_alt_nvm_file_name f.selected_nvm_name 32)) [
        | inl e ↦
            ap state_of (ap on_nvm_failure (no_alternative f n e) ∙ no_alternative (fail f) n e)
        | inr (alt, e) ↦ elim (Option-cases (find_candidate f.candidates alt 0)) [
          | inl d ↦
              ap state_of (ap on_nvm_failure (not_there f alt n e d) ∙ not_there (fail f) alt n e d)
          | inr (i, d) ↦ elim (Option-cases (check_nvm (image_at f i))) [
            | inl c ↦ ap state_of (
                ap on_nvm_failure (unusable f alt i n e d c)
                ∙ unusable (fail (saw f i)) alt i n e d c)
            | inr (o, c) ↦ ap state_of (used_up (on_nvm_failure f) (usable f alt i o n e d c))
          ]
        ]
      ]
    ]
