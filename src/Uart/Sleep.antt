-- ===== src/Uart/Sleep.antt =====
-- src/driver/qca_uart.c, QcaUartOnIbsByte and QcaUartServiceIbs: the in-band sleep handshake. The
-- modem status is none when it cannot be read, and else whether the CTS line is set; the status of
-- the write is a parameter too.
use virt_bth_usb.Common.{
  ℕ, ◌≡◌, refl, sym, ap, ◌∙◌, inl, inr, Bool, true, false, not, Option, some, none,
}
use virt_bth_usb.Common.{
  List, [], ◌∷◌, ◌==◌, ◌!=◌, ◌||◌, either, cases, Bool-cases, All, inc32, if◌then◌else◌,
}
use virt_bth_usb.H4.{Decoder, idle, get_header_length}
use virt_bth_usb.H4.Bytes.{claim_each, feed-claim_each}
use virt_bth_usb.Uart.{Uart, is_steady, on_ibs_byte, on_h4_packet, read_bytes}

-- The counters of QcaUartServiceIbs.
pub record Acks : Type 0 where
  pub cts_low : ℕ
  pub sent : ℕ
  pub failures : ℕ

-- QcaUartServiceIbs: the state, the counters and the bytes written.
unfoldable pub service_ibs : Uart → Acks → Option Bool → Bool → Uart × Acks × List ℕ
service_ibs u acks cts written =
    let taken = record u { work_event = false; ack_pending = false } in
    let failed = record acks { failures = inc32 acks.failures } in
    let answered : Uart × Acks × List ℕ =
      if written
      then (taken, record acks { sent = inc32 acks.sent }, 0xFC ∷ [])
      else (taken, failed, 0xFC ∷ []) in
    if not u.ack_pending then (taken, acks, []) else elim cts [
      | none ↦ (taken, failed, [])
      | some set ↦
          if set then answered else (taken, record acks { cts_low = inc32 acks.cts_low }, [])
    ]

abbrev pub has_wake : List ℕ → Bool
has_wake [] = false
has_wake (b ∷ bs) = b == 0xFD || has_wake bs

-- Steady operation in phase 2, where the handshake is spoken.
abbrev pub IsServing : Uart → Type 0
IsServing u = (is_steady u.probe_mode ≡ true) × (u.phase ≡ 2)

serving : (u : Uart) → IsServing u → (not (is_steady u.probe_mode) || u.phase != 2) ≡ false
serving u v = rw (v.0, v.1)

or-false : (t b : Bool) → b ≡ false → t ≡ (t || b)
or-false true b e = refl
or-false false b e = sym e

or-true : (t b : Bool) → b ≡ true → true ≡ (t || b)
or-true true b e = refl
or-true false b e = sym e

or_assoc : (a b c : Bool) → ((a || b) || c) ≡ (a || (b || c))
or_assoc true b c = refl
or_assoc false b c = refl

on_ibs_byte-IsServing : (u : Uart) (b : ℕ) → IsServing u → IsServing (on_ibs_byte u b).1
unfolding on_ibs_byte
on_ibs_byte-IsServing u b v =
    let P : Bool × Uart → Type 0 = λ r. IsServing r.1 in
    either P (not (is_steady u.probe_mode) || u.phase != 2) v
      (either P (b == 0xFD) v (either P (b == 0xFE) v (either P (b == 0xFC) v v)))

on_ibs_byte-pending :
    (u : Uart) (b : ℕ)
    → IsServing u
    → (on_ibs_byte u b).1.ack_pending ≡ (u.ack_pending || b == 0xFD)
unfolding on_ibs_byte
on_ibs_byte-pending u b v =
    let P : Bool × Uart → Type 0 = λ r. r.1.ack_pending ≡ (u.ack_pending || b == 0xFD) in
    let other : (b == 0xFD) ≡ false → u.ack_pending ≡ (u.ack_pending || b == 0xFD) =
      or-false u.ack_pending (b == 0xFD) in
    let on = serving u v in
    cases P (not (is_steady u.probe_mode) || u.phase != 2) (λ e. cc)
      (λ _.
        cases P (b == 0xFD) (or-true u.ack_pending (b == 0xFD))
          (λ n. either P (b == 0xFE) (other n) (either P (b == 0xFC) (other n) (other n))))

claim_each-pending :
    (u : Uart) (bs : List ℕ)
    → IsServing u
    → (claim_each on_h4_packet on_ibs_byte u bs).ack_pending ≡ (u.ack_pending || has_wake bs)
unfolding claim_each
claim_each-pending u [] v = or-false u.ack_pending false refl
claim_each-pending u (b ∷ bs) v =
    claim_each-pending (on_ibs_byte u b).1 bs (on_ibs_byte-IsServing u b v)
    ∙ ap (λ t. t || has_wake bs) (on_ibs_byte-pending u b v)
    ∙ or_assoc u.ack_pending (b == 0xFD) (has_wake bs)

service_ibs-pending :
    (u : Uart) (acks : Acks)
    → (service_ibs u acks (some true) true).2 ≡ (if u.ack_pending then 0xFC ∷ [] else [])
unfolding service_ibs
service_ibs-pending u acks = elim (Bool-cases u.ack_pending) [ inl y ↦ rw y | inr n ↦ rw n ]

service_ibs-taken :
    (u : Uart) (acks : Acks) → (service_ibs u acks (some true) true).0.ack_pending ≡ false
unfolding service_ibs
service_ibs-taken u acks =
    either (λ (r : Uart × Acks × List ℕ). r.0.ack_pending ≡ false) (not u.ack_pending) refl refl

-- In steady operation the controller's requests to wake up, any number of them in any bytes of
-- the handshake between two packets, are answered by one acknowledgement when the worker next
-- runs with the line clear and the write succeeds, and without a request none is sent.
pub service_ibs-answers :
    (d : Decoder) (u : Uart) (acks : Acks) (bs : List ℕ)
    → IsServing u
    → u.ack_pending ≡ false
    → d.state ≡ idle
    → All (λ b. get_header_length b ≡ 0) bs
    → (let r = read_bytes d u bs in
        let answer = service_ibs r.1 acks (some true) true in
        (answer.2 ≡ (if has_wake bs then 0xFC ∷ [] else []))
        × ((service_ibs answer.0 answer.1 (some true) true).2 ≡ []))
unfolding read_bytes
service_ibs-answers d u acks bs v none_pending e h =
    let after = feed-claim_each on_h4_packet on_ibs_byte bs d u e h in
    let r = read_bytes d u bs in
    let pending : r.1.ack_pending ≡ has_wake bs =
      ap (λ (w : Uart). w.ack_pending) after
      ∙ claim_each-pending u bs v
      ∙ ap (λ t. t || has_wake bs) none_pending in
    (
      service_ibs-pending r.1 acks ∙ ap (λ (t : Bool). if t then 0xFC ∷ [] else []) pending,
      service_ibs-pending (service_ibs r.1 acks (some true) true).0 _
          ∙ ap (λ (t : Bool). if t then 0xFC ∷ [] else []) (service_ibs-taken r.1 acks),
    )
