-- ===== src/ScoUsb/In/Gather.antt =====
-- src/common/sco_usb.c, the loop of ScoUsbInFill that pulls packets until a payload is queued.
use virt_bth_usb.Common.{
  ℕ, zero, suc, ◌%◌, ◌≤◌, ◌<◌, ◌≡◌, ◌⊎◌, refl, sym, ap, ◌∙◌, arith, Bool, true, false, inl, inr,
}
use virt_bth_usb.Common.{
  List, [], ◌∷◌, ◌++◌, map, drop, le16, IsByte, All, append-nil, append_assoc, Option, some, none,
}
use virt_bth_usb.Common.{ltb, cases, Option-cases, ◌!=◌, ◌&&◌}
use virt_bth_usb.ScoUsb.{header_size}
use virt_bth_usb.ScoUsb.Out.Packets.{concat}
use virt_bth_usb.ScoUsb.In.{ScoIn, is_malformed, in_accept, gather}
use virt_bth_usb.ScoUsb.In.Voice.{IsIn, voice, frame_of}
use virt_bth_usb.ScoUsb.In.Accept.{in_accept-IsIn, in_accept-voice, in_accept-link, in_accept-frame}

-- The voice of packets, one after the other.
abbrev pub payloads : List (List ℕ) → List ℕ
payloads ps = concat (map (drop header_size) ps)

-- A well-formed packet of the connection `h`.
pub record IsVoice (h : ℕ) (p : List ℕ) : Type 0 where
  pub bytes : All IsByte p
  pub formed : is_malformed p ≡ false
  pub link : le16 p 0 % 4096 ≡ h

-- The queued voice, if there was any, is of the connection `h`.
abbrev pub IsOnLink : ℕ → ScoIn → Type 0
IsOnLink h s = s.have_handle ≡ true → s.handle_field % 4096 ≡ h

same_link : (have : Bool) (a b h : ℕ) → a ≡ h → (have ≡ true → b ≡ h) → (have && a != b) ≡ false
same_link false a b h e f = refl
same_link true a b h e f = ground (arith, e, f refl)

in_accept-appends :
    (h : ℕ) (s : ScoIn) (p : List ℕ)
    → IsIn s
    → s.fifo_count ≤ 255
    → IsOnLink h s
    → IsVoice h p
    → voice (in_accept s p) ≡ voice s ++ drop header_size p
in_accept-appends h s p v n l g =
    let other = same_link s.have_handle (le16 p 0 % 4096) (s.handle_field % 4096) h g.link l in
    in_accept-voice s p v n g.bytes ∙ (rw (g.formed, other))

module _ {C : Type 0} (pull : C → Option (List ℕ × C)) where
  -- From one context to another by pulling these packets.
  pub data Pulls : C → List (List ℕ) → C → Type 0 where
    stop : (c : C) → Pulls c [] c
    more :
        (c c' c'' : C) (p : List ℕ) (ps : List (List ℕ))
        → pull c ≡ some (p, c')
        → Pulls c' ps c''
        → Pulls c (p ∷ ps) c''

  pub gather-IsIn :
      (fuel payload : ℕ) (c : C) (s : ScoIn)
      → ((c c' : C) (p : List ℕ) → pull c ≡ some (p, c') → All IsByte p)
      → payload ≤ 255
      → IsIn s
      → IsIn (gather pull fuel payload c s).0
  unfolding gather
  gather-IsIn zero payload c s b n v = v
  gather-IsIn (suc fuel) payload c s b n v =
      cases (λ (r : ScoIn × C). IsIn r.0) (ltb s.fifo_count payload)
        (λ few. elim (Option-cases (pull c)) [
          | inl e ↦ rw e v
          | inr ((p, c'), e) ↦ rw e (
              gather-IsIn fuel payload c' (in_accept s p) b n
                (in_accept-IsIn s p v (ground (arith, few, n)) (b c c' p e)))
        ])
        (λ enough. v)

  -- With packets of one connection only, the voice pulled is what is queued more.
  pub gather-appends :
      (h fuel payload : ℕ) (c : C) (s : ScoIn)
      → ((c c' : C) (p : List ℕ) → pull c ≡ some (p, c') → IsVoice h p)
      → payload ≤ 255
      → IsIn s
      → IsOnLink h s
      → (let r = gather pull fuel payload c s in
          (ps : List (List ℕ)) × Pulls c ps r.1 × (voice r.0 ≡ voice s ++ payloads ps))
  unfolding gather
  gather-appends h zero payload c s g n v l = ([], stop c, sym (append-nil (voice s)))
  gather-appends h (suc fuel) payload c s g n v l =
      let Appends : ScoIn × C → Type 0 =
        λ r. (ps : List (List ℕ)) × Pulls c ps r.1 × (voice r.0 ≡ voice s ++ payloads ps) in
      cases Appends (ltb s.fifo_count payload)
        (λ few. elim (Option-cases (pull c)) [
          | inl e ↦ rw e ([], stop c, sym (append-nil (voice s)))
          | inr ((p, c'), e) ↦
              let few' : s.fifo_count ≤ 255 = ground (arith, few, n) in
              let voiced = g c c' p e in
              let link : IsOnLink h (in_accept s p) =
                λ _. ap (λ k. k % 4096) (in_accept-link s p voiced.formed) ∙ voiced.link in
              let (ps, steps, sum) =
                gather-appends h fuel payload c' (in_accept s p) g n
                  (in_accept-IsIn s p v few' voiced.bytes) link in
              rw e (
                p ∷ ps,
                more c c' (gather pull fuel payload c' (in_accept s p)).1 p ps e steps,
                sum
                    ∙ ap (λ x. x ++ payloads ps) (in_accept-appends h s p v few' l voiced)
                    ∙ append_assoc (voice s) (drop header_size p) (payloads ps),
              )
        ])
        (λ enough. ([], stop c, sym (append-nil (voice s))))

  -- Enough fuel is a bound on how often the source gives a packet: then the loop stops because a
  -- payload is queued or because there is no packet.
  pub gather_done :
      (measure : C → ℕ)
      → ((c c' : C) (p : List ℕ) → pull c ≡ some (p, c') → measure c' < measure c)
      → (fuel payload : ℕ) (c : C) (s : ScoIn) → measure c < fuel
      → (let r = gather pull fuel payload c s in (payload ≤ r.0.fifo_count) ⊎ (pull r.1 ≡ none))
  unfolding gather
  gather_done measure d zero payload c s h = absurd (omega arith)
  gather_done measure d (suc fuel) payload c s h =
      cases (λ (r : ScoIn × C). (payload ≤ r.0.fifo_count) ⊎ (pull r.1 ≡ none))
        (ltb s.fifo_count payload)
        (λ few. elim (Option-cases (pull c)) [
          | inl e ↦ rw e (inr e)
          | inr ((p, c'), e) ↦
              rw e
                (gather_done measure d fuel payload c' (in_accept s p) (omega (arith, d c c' p e)))
        ])
        (λ enough. inl (ground (arith, enough)))

  pub gather-frame :
      (fuel payload : ℕ) (c : C) (s : ScoIn)
      → frame_of (gather pull fuel payload c s).0 ≡ frame_of s
  unfolding gather
  gather-frame zero payload c s = refl
  gather-frame (suc fuel) payload c s =
      cases (λ (r : ScoIn × C). frame_of r.0 ≡ frame_of s) (ltb s.fifo_count payload)
        (λ few. elim (Option-cases (pull c)) [
          | inl e ↦ rw e
          | inr ((p, c'), e) ↦
              rw e (gather-frame fuel payload c' (in_accept s p) ∙ in_accept-frame s p)
        ])
        (λ enough. refl)
