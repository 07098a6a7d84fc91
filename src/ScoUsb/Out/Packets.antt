-- ===== src/ScoUsb/Out/Packets.antt =====
-- src/common/sco_usb.c, ScoUsbOutRelease: a stream of whole HCI SCO packets through the reassembly.
use virt_bth_usb.Common.{ℕ, ◌+◌, ◌≤◌, ◌<◌, ◌≡◌, refl, sym, ap, ◌∙◌, true, false, arith}
use virt_bth_usb.Common.{
  List, [], ◌∷◌, ◌++◌, length, take, drop, byte, take-append-drop, length-take, length-drop,
  get_or-append_left,
}
use virt_bth_usb.Common.{All}
use native.Mathlib.Decide.{dec_lt}
use virt_bth_usb.ScoUsb.{handle_of}
use virt_bth_usb.ScoUsb.Out.{is_whole, lacks}
use virt_bth_usb.ScoUsb.Out.Reassembly.{
  Line, put, absorb, absorb_piece, absorb-append, put-part, put-kept, put-Lacking,
}

abbrev pub concat : {A : Type 0} → List (List A) → List A
concat [] = []
concat (x ∷ xs) = x ++ concat xs

abbrev pub IsWhole : List ℕ → Type 0
IsWhole w = is_whole w ≡ true

whole_length : (w : List ℕ) → IsWhole w → length w ≡ 3 + byte w 2
unfolding is_whole
whole_length w h = ground arith

byte-take : (w : List ℕ) → 3 ≤ length w → byte (take 3 w) 2 ≡ byte w 2
byte-take w h =
    sym (get_or-append_left (take 3 w) (drop 3 w) 2 0 (omega (arith, length-take 3 w)))
    ∙ ap (λ v. byte v 2) (take-append-drop 3 w)

header_part : (w : List ℕ) → 3 ≤ length w → 0 < byte w 2 → is_whole (take 3 w) ≡ false
unfolding is_whole
header_part w h k = ground (arith, length-take 3 w, byte-take w h)

lacks-header : (w : List ℕ) → 3 ≤ length w → lacks (take 3 w) ≡ byte w 2
unfolding lacks
lacks-header w h = ground (arith, length-take 3 w, byte-take w h)

lacks_start : lacks [] ≡ 3
unfolding lacks
lacks_start = refl

module _ {C : Type 0} (emit : C → List ℕ → C) where
  -- A whole packet in one piece, from its first byte.
  absorb_packet :
      (l : Line C) (w : List ℕ)
      → IsWhole w
      → absorb emit (record l { packet = [] }) w ≡ put emit l w
  absorb_packet l w h =
      let start : Line C = record l { packet = [] } in
      let size = whole_length w h in
      elim (dec_lt 0 (byte w 2)) [
        | yes long ↦
            ap (absorb emit start) (sym (take-append-drop 3 w))
            ∙ absorb-append emit start (take 3 w) (drop 3 w)
            ∙ ap (λ m. absorb emit m (drop 3 w))
                (absorb_piece emit start (take 3 w) (omega (arith, length-take 3 w))
                    (omega (arith, length-take 3 w, lacks_start))
                  ∙ put-part emit start (take 3 w) (header_part w (omega arith) long))
            ∙ absorb_piece emit (record start { packet = take 3 w }) (drop 3 w)
                (omega (arith, length-drop 3 w))
                (omega (arith, length-drop 3 w, lacks-header w (omega arith)))
            ∙ put-kept emit l (take 3 w) (take 3 w ++ drop 3 w)
            ∙ ap (put emit l) (take-append-drop 3 w)
        | no short ↦
            absorb_piece emit start w (omega arith) (omega (arith, lacks_start))
            ∙ put-kept emit l [] w
      ]

  -- The line after the packets of a list, one handed over after the other.
  unfoldable pub deliver : Line C → List (List ℕ) → Line C
  deliver l [] = l
  deliver l (w ∷ ws) =
      deliver (record l { packet = []; last_handle = handle_of w; context = emit l.context w }) ws

  put-whole :
      (l : Line C) (w : List ℕ)
      → IsWhole w
      → put emit l w
        ≡ record l { packet = []; last_handle = handle_of w; context = emit l.context w }
  unfolding put
  put-whole l w h = rw h

  pub absorb-concat :
      (l : Line C) (ws : List (List ℕ))
      → l.packet ≡ []
      → All IsWhole ws
      → absorb emit l (concat ws) ≡ deliver l ws
  unfolding deliver absorb
  absorb-concat l [] e h = refl
  absorb-concat l (w ∷ ws) e h =
      absorb-append emit l w (concat ws)
      ∙ ap (λ pk. absorb emit (absorb emit (record l { packet = pk }) w) (concat ws)) e
      ∙ ap (λ m. absorb emit m (concat ws)) (absorb_packet l w h.0 ∙ put-whole l w h.0)
      ∙ absorb-concat
          (record l { packet = []; last_handle = handle_of w; context = emit l.context w }) ws refl
          h.1

  pub absorb-Lacking :
      (l : Line C) (bytes : List ℕ) → 0 < lacks l.packet → 0 < lacks (absorb emit l bytes).packet
  unfolding absorb
  absorb-Lacking l [] h = h
  absorb-Lacking l (b ∷ bytes) h =
      absorb-Lacking (put emit l (l.packet ++ (b ∷ []))) bytes
        (put-Lacking emit l (b ∷ []) h (omega arith))
