-- ===== src/Fsm/Select.antt =====
-- src/common/qca_init_fsm.c, the choice of an NVM file for a board ID.
use virt_bth_usb.Common.{
  ℕ, suc, ◌+◌, ◌≡◌, refl, ap, subst, arith, Bool, true, false, none, some, inl, inr, Option,
  Option-cases, Bool-cases, cases,
}
use virt_bth_usb.Common.{List, [], ◌∷◌, ◌++◌, length, All, get_or, ◌==◌}
use virt_bth_usb.NvmName.{build_nvm_file_name, build_alt_nvm_file_name}
use virt_bth_usb.Fsm.{
  Candidate, Fsm, named, no_candidate, check_nvm, arm_nvm, find_candidate, select_alt, select_nvm,
}

-- No candidate has the name.
abbrev pub Lacks : List Candidate → List ℕ → Type 0
Lacks candidates name = All (λ c. named c name ≡ false) candidates

-- Candidate `c`, behind `i` others, is the first of that name.
pub record IsFirst (candidates : List Candidate) (name : List ℕ) (i : ℕ) (c : Candidate)
    : Type 0 where
  pub before : List Candidate
  pub after : List Candidate
  pub splits : candidates ≡ before ++ c ∷ after
  pub lacks : Lacks before name
  pub names : named c name ≡ true
  pub index : i ≡ length before

-- The board's own name for a version and a board ID.
abbrev pub own_name : Fsm → ℕ → Option (List ℕ)
own_name f id = build_nvm_file_name f.soc_version.soc_id f.soc_version.rom_version id 32

-- The candidate to be taken for the board's own name: the first of that name or, if none has it, the
-- first of the generic name.
pub data Picks (candidates : List Candidate) (target : Option (List ℕ)) (i : ℕ) (c : Candidate)
    : Type 0 where
  own :
      (name : List ℕ)
      → target ≡ some name
      → IsFirst candidates name i c
      → Picks candidates target i c
  generic :
      (name alt : List ℕ)
      → target ≡ some name
      → Lacks candidates name
      → build_alt_nvm_file_name name 32 ≡ some alt
      → IsFirst candidates alt i c
      → Picks candidates target i c

-- Why there is no NVM file for a board ID.
pub data NoFile (candidates : List Candidate) (target : Option (List ℕ)) : Type 0 where
  no_candidates : candidates ≡ [] → NoFile candidates target
  no_name : target ≡ none → NoFile candidates target
  no_own_name :
      (name : List ℕ)
      → target ≡ some name
      → Lacks candidates name
      → build_alt_nvm_file_name name 32 ≡ none
      → NoFile candidates target
  no_generic :
      (name alt : List ℕ)
      → target ≡ some name
      → Lacks candidates name
      → build_alt_nvm_file_name name 32 ≡ some alt
      → Lacks candidates alt
      → NoFile candidates target
  damaged :
      (i : ℕ) (c : Candidate)
      → Picks candidates target i c
      → check_nvm c.image ≡ none
      → NoFile candidates target

-- What the choice for a board ID may do to machine `f`: take the image of the candidate that is to be
-- taken, which passes the check; or take none, since there is none.
pub data Chooses (candidates : List Candidate) (target : Option (List ℕ)) (r : Bool × Fsm)
    : Type 0 where
  takes :
      (i offset : ℕ) (c : Candidate)
      → r.0 ≡ true
      → Picks candidates target i c
      → check_nvm c.image ≡ some offset
      → r.1.nvm ≡ c.image
      → r.1.nvm_baud_offset ≡ offset
      → r.1.selected_nvm_index ≡ i
      → Chooses candidates target r
  takes_none : r.0 ≡ false → NoFile candidates target → Chooses candidates target r

Lacks-find :
    (cs : List Candidate) (name : List ℕ) (k : ℕ) → find_candidate cs name k ≡ none → Lacks cs name
unfolding find_candidate
Lacks-find [] name k e = tt
Lacks-find (c ∷ cs) name k e = elim (Bool-cases (named c name)) [
  | inl y ↦ absurd (cc (rw (y, find_candidate) at e))
  | inr n ↦ (n, Lacks-find cs name (k + 1) (rw n at e))
]

-- The index found, from `k` on.
abbrev Finds : List Candidate → List ℕ → ℕ → ℕ → Type 0
Finds cs name k j = (c : Candidate) × (i : ℕ) × (j ≡ k + i) × IsFirst cs name i c

Finds-find :
    (cs : List Candidate) (name : List ℕ) (k j : ℕ)
    → find_candidate cs name k ≡ some j
    → Finds cs name k j
unfolding find_candidate
Finds-find [] name k j e = absurd cc
Finds-find (c ∷ cs) name k j e = elim (Bool-cases (named c name)) [
  | inl y ↦ (
    c,
    0,
    ground (arith, e, y),
    record { before = []; after = cs; splits = refl; lacks = tt; names = y; index = refl },
  )
  | inr n ↦
      let (d, i, same, first) = Finds-find cs name (k + 1) j (rw n at e) in
      (
        d,
        suc i,
        omega (arith, same),
        record {
          before = c ∷ first.before;
          after = first.after;
          splits = ap (λ q. c ∷ q) first.splits;
          lacks = (n, first.lacks);
          names = first.names;
          index = ap suc first.index;
        },
      )
]

get_or-append_at :
    (before after : List Candidate) (c : Candidate) (d : Candidate)
    → get_or (before ++ c ∷ after) (length before) d ≡ c
get_or-append_at [] after c d = refl
get_or-append_at (b ∷ before) after c d = get_or-append_at before after c d

IsFirst-get_or :
    {cs : List Candidate} {name : List ℕ} {i : ℕ} {c : Candidate}
    → IsFirst cs name i c
    → get_or cs i no_candidate ≡ c
IsFirst-get_or {c = c} first =
    rw (first.splits, first.index) (get_or-append_at first.before first.after c no_candidate)

empty : (cs : List Candidate) → (length cs == 0) ≡ true → cs ≡ []
empty [] e = refl
empty (c ∷ cs) e = absurd (ground (arith, e))

module _ (f : Fsm) (id : ℕ) where
  arm_nvm-Chooses :
      (i : ℕ) (c : Candidate) (name : List ℕ)
      → get_or f.candidates i no_candidate ≡ c
      → Picks f.candidates (own_name f id) i c
      → Chooses f.candidates (own_name f id) (arm_nvm f i name)
  unfolding arm_nvm
  arm_nvm-Chooses i c name at picks = elim (Option-cases (check_nvm c.image)) [
    | inl n ↦ rw (at, arm_nvm, n) (takes_none refl (damaged i c picks n))
    | inr (offset, s) ↦
        rw (at, arm_nvm, s)
          (takes i offset c refl picks s (ap (λ (d : Candidate). d.image) at) refl refl)
  ]

  select_alt-Chooses :
      (name : List ℕ)
      → own_name f id ≡ some name
      → Lacks f.candidates name
      → Chooses f.candidates (own_name f id) (select_alt f name)
  unfolding select_alt
  select_alt-Chooses name e lacks = elim (Option-cases (build_alt_nvm_file_name name 32)) [
    | inl n ↦ rw (n, select_alt) (takes_none refl (no_own_name name e lacks n))
    | inr (alt, s) ↦ elim (Option-cases (find_candidate f.candidates alt 0)) [
      | inl n ↦
          rw (s, select_alt, n)
            (takes_none refl (no_generic name alt e lacks s (Lacks-find f.candidates alt 0 n)))
      | inr (j, t) ↦
          let (c, i, same, first) = Finds-find f.candidates alt 0 j t in
          let at : j ≡ i = omega (arith, same) in
          rw (s, select_alt, t, at)
            (arm_nvm-Chooses i c alt (IsFirst-get_or first) (generic name alt e lacks s first))
    ]
  ]

  named-Chooses :
      (name : List ℕ)
      → own_name f id ≡ some name
      → Chooses f.candidates (own_name f id) (elim (find_candidate f.candidates name 0) [
        | none ↦ select_alt f name
        | some i ↦ arm_nvm f i name
      ])
  named-Chooses name e = elim (Option-cases (find_candidate f.candidates name 0)) [
    | inl n ↦ rw n (select_alt-Chooses name e (Lacks-find f.candidates name 0 n))
    | inr (j, t) ↦
        let (c, i, same, first) = Finds-find f.candidates name 0 j t in
        let at : j ≡ i = omega (arith, same) in
        rw (t, at) (arm_nvm-Chooses i c name (IsFirst-get_or first) (own name e first))
  ]

  -- The machine has the board ID.
  pub select_nvm-Chooses : f.board_id ≡ id → Chooses f.candidates (own_name f id) (select_nvm f)
  unfolding select_nvm
  select_nvm-Chooses same =
      cases (Chooses f.candidates (own_name f id)) (length f.candidates == 0)
        (λ e. takes_none refl (no_candidates (empty f.candidates e)))
        (λ _. elim (Option-cases (own_name f f.board_id)) [
          | inl n ↦ rw n (takes_none refl (no_name (subst (λ k. own_name f k ≡ none) same n)))
          | inr (name, t) ↦ rw t (named-Chooses name (subst (λ k. own_name f k ≡ some name) same t))
        ])
