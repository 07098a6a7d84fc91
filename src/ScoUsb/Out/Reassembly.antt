-- ===== src/ScoUsb/Out/Reassembly.antt =====
-- src/common/sco_usb.c, ScoUsbOutRelease: the reassembly as a stream of single bytes.
use virt_bth_usb.Common.{
  ℕ, zero, suc, ◌+◌, ◌-◌, ◌≤◌, ◌<◌, ◌≡◌, refl, sym, ap, ◌∙◌, Bool, false, arith, subst,
}
use virt_bth_usb.Common.{
  List, [], ◌∷◌, ◌++◌, length, take, drop, byte, ◌==◌, append_assoc, take-append-drop,
  length-append, length-take, length-drop, get_or-append_left,
}
use virt_bth_usb.Common.{if◌then◌else◌, either, cases, Bool-cases, inl, inr}
use native.Mathlib.Decide.{dec_lt}
use virt_bth_usb.ScoUsb.{handle_of}
use virt_bth_usb.ScoUsb.Out.{Chunk, Progress, is_whole, lacks, hand_over, reassemble}

-- What the reassembly depends on, without the ring that the bytes come from.
pub record Line (C : Type 0) : Type 0 where
  pub packet : List ℕ
  pub resync : Bool
  pub last_handle : ℕ
  pub context : C

abbrev pub line_of : {C : Type 0} → Progress C → Line C
line_of p = record {
  packet = p.out.packet;
  resync = p.out.resync;
  last_handle = p.out.last_handle;
  context = p.context;
}

abbrev pub ring_of : {C : Type 0} → Progress C → List Chunk × ℕ × ℕ
ring_of p = (p.out.ring, p.out.head, p.out.count)

module _ {C : Type 0} (emit : C → List ℕ → C) where
  -- The bytes of the packet so far: handed over when they are a packet, kept when not.
  unfoldable pub put : Line C → List ℕ → Line C
  put l packet =
      if is_whole packet
      then record l { packet = []; last_handle = handle_of packet; context = emit l.context packet }
      else record l { packet = packet }

  -- One byte after another.
  unfoldable pub absorb : Line C → List ℕ → Line C
  absorb l [] = l
  absorb l (b ∷ bytes) = absorb (put l (l.packet ++ (b ∷ []))) bytes

suc-==-zero : (n : ℕ) → (suc n == 0) ≡ false
suc-==-zero n = ground arith

length-snoc : {A : Type 0} (xs : List A) (x : A) → length (xs ++ (x ∷ [])) ≡ length xs + 1
length-snoc xs x = length-append xs (x ∷ [])

-- The header is there from the third byte on, whatever follows.
byte-append : (pk ys : List ℕ) → 3 ≤ length pk → byte (pk ++ ys) 2 ≡ byte pk 2
byte-append pk ys h = get_or-append_left pk ys 2 0 (omega arith)

-- While two bytes are lacking, one more does not complete the packet.
is_whole-snoc : (pk : List ℕ) (b : ℕ) → 2 ≤ lacks pk → is_whole (pk ++ (b ∷ [])) ≡ false
unfolding is_whole lacks
is_whole-snoc pk b h = elim (dec_lt (length pk) 3) [
  | yes q ↦ ground (arith, length-snoc pk b)
  | no q ↦ ground (arith, length-snoc pk b, byte-append pk (b ∷ []) (omega arith))
]

lacks-snoc : (pk : List ℕ) (b : ℕ) → 2 ≤ lacks pk → lacks (pk ++ (b ∷ [])) ≡ lacks pk - 1
unfolding lacks
lacks-snoc pk b h = elim (dec_lt (length pk) 3) [
  | yes q ↦ ground (arith, length-snoc pk b)
  | no q ↦ ground (arith, length-snoc pk b, byte-append pk (b ∷ []) (omega arith))
]

-- Bytes that are lacking leave a packet that is whole or lacks some still.
lacks-append :
    (pk ys : List ℕ)
    → 0 < lacks pk
    → length ys ≤ lacks pk
    → is_whole (pk ++ ys) ≡ false
    → 0 < lacks (pk ++ ys)
unfolding is_whole lacks
lacks-append pk ys p h w =
    let e = length-append pk ys in
    elim (dec_lt (length pk) 3) [
      | yes q ↦ ground (arith, e)
      | no q ↦ ground (arith, e, byte-append pk ys (omega arith))
    ]

module _ {C : Type 0} (emit : C → List ℕ → C) where
  pub put-part :
      (l : Line C) (pk : List ℕ) → is_whole pk ≡ false → put emit l pk ≡ record l { packet = pk }
  unfolding put
  put-part l pk h = rw h

  pub put-kept :
      (l : Line C) (pk pk' : List ℕ) → put emit (record l { packet = pk }) pk' ≡ put emit l pk'
  unfolding put
  put-kept l pk pk' = refl

  -- Bytes that are lacking, taken one by one, are taken as one piece.
  absorb-put :
      (l : Line C) (y : ℕ) (ys : List ℕ)
      → length (y ∷ ys) ≤ lacks l.packet
      → absorb emit l (y ∷ ys) ≡ put emit l (l.packet ++ (y ∷ ys))
  unfolding absorb
  absorb-put l y [] h = refl
  absorb-put l y (z ∷ zs) h =
      let more : 2 ≤ lacks l.packet = omega arith in
      ap (λ m. absorb emit m (z ∷ zs))
        (put-part l (l.packet ++ (y ∷ [])) (is_whole-snoc l.packet y more))
      ∙ absorb-put (record l { packet = l.packet ++ (y ∷ []) }) z zs
          (omega (arith, lacks-snoc l.packet y more))
      ∙ put-kept l (l.packet ++ (y ∷ [])) ((l.packet ++ (y ∷ [])) ++ (z ∷ zs))
      ∙ ap (put emit l) (append_assoc l.packet (y ∷ []) (z ∷ zs))

  pub absorb_piece :
      (l : Line C) (ys : List ℕ)
      → 0 < length ys
      → length ys ≤ lacks l.packet
      → absorb emit l ys ≡ put emit l (l.packet ++ ys)
  absorb_piece l [] h k = absurd (omega arith)
  absorb_piece l (y ∷ ys) h k = absorb-put l y ys k

  pub absorb-append :
      (l : Line C) (xs ys : List ℕ) → absorb emit l (xs ++ ys) ≡ absorb emit (absorb emit l xs) ys
  unfolding absorb
  absorb-append l [] ys = refl
  absorb-append l (x ∷ xs) ys = absorb-append (put emit l (l.packet ++ (x ∷ []))) xs ys

  hand_over-put :
      (p : Progress C) (pk : List ℕ) → line_of (hand_over emit p pk) ≡ put emit (line_of p) pk
  unfolding hand_over put
  hand_over-put p pk = elim (Bool-cases (is_whole pk)) [ inl w ↦ rw w | inr w ↦ rw w ]

  hand_over-ring : (p : Progress C) (pk : List ℕ) → ring_of (hand_over emit p pk) ≡ ring_of p
  unfolding hand_over
  hand_over-ring p pk = either (λ (q : Progress C). ring_of q ≡ ring_of p) (is_whole pk) refl refl

  -- The packet handed over or kept lacks bytes again.
  pub put-Lacking :
      (l : Line C) (ys : List ℕ)
      → 0 < lacks l.packet
      → length ys ≤ lacks l.packet
      → 0 < lacks (put emit l (l.packet ++ ys)).packet
  unfolding put lacks
  put-Lacking l ys h k =
      cases (λ (m : Line C). 0 < lacks m.packet) (is_whole (l.packet ++ ys)) (λ w. omega arith)
        (λ w. lacks-append l.packet ys h k w)

  -- A round of the loop.
  reassemble-suc :
      (fuel : ℕ) (p : Progress C) (b : ℕ) (bytes : List ℕ)
      → reassemble emit (suc fuel) p (b ∷ bytes)
        ≡ reassemble emit fuel
            (hand_over emit p (p.out.packet ++ take (lacks p.out.packet) (b ∷ bytes)))
            (drop (lacks p.out.packet) (b ∷ bytes))
  unfolding reassemble
  reassemble-suc fuel p b bytes = rw (suc-==-zero (length bytes))

  pub reassemble-absorb :
      (fuel : ℕ) (p : Progress C) (bytes : List ℕ)
      → length bytes ≤ fuel
      → 0 < lacks p.out.packet
      → line_of (reassemble emit fuel p bytes) ≡ absorb emit (line_of p) bytes
  unfolding reassemble absorb
  reassemble-absorb zero p [] h k = refl
  reassemble-absorb zero p (b ∷ bytes) h k = absurd (omega arith)
  reassemble-absorb (suc fuel) p [] h k = refl
  reassemble-absorb (suc fuel) p (b ∷ bytes) h k =
      let n = lacks p.out.packet in
      let piece : List ℕ = take n (b ∷ bytes) in
      let rest : List ℕ = drop n (b ∷ bytes) in
      let short : length piece ≤ n = omega (arith, length-take n (b ∷ bytes)) in
      let some_bytes : 0 < length piece = omega (arith, length-take n (b ∷ bytes)) in
      let taken = hand_over-put p (p.out.packet ++ piece) in
      ap line_of (reassemble-suc fuel p b bytes)
      ∙ reassemble-absorb fuel (hand_over emit p (p.out.packet ++ piece)) rest
          (omega (arith, length-drop n (b ∷ bytes)))
          (subst (λ (m : Line C). 0 < lacks m.packet) (sym taken)
            (put-Lacking (line_of p) piece k short))
      ∙ ap (λ m. absorb emit m rest) (taken ∙ sym (absorb_piece (line_of p) piece some_bytes short))
      ∙ sym (absorb-append (line_of p) piece rest)
      ∙ ap (absorb emit (line_of p)) (take-append-drop n (b ∷ bytes))

  pub reassemble-ring :
      (fuel : ℕ) (p : Progress C) (bytes : List ℕ)
      → ring_of (reassemble emit fuel p bytes) ≡ ring_of p
  unfolding reassemble
  reassemble-ring zero p bytes = refl
  reassemble-ring (suc fuel) p bytes =
      either (λ (q : Progress C). ring_of q ≡ ring_of p) (length bytes == 0) refl
        (reassemble-ring fuel (hand_over emit p (p.out.packet ++ take (lacks p.out.packet) bytes))
            (drop (lacks p.out.packet) bytes)
          ∙ hand_over-ring p (p.out.packet ++ take (lacks p.out.packet) bytes))
