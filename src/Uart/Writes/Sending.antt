-- ===== src/Uart/Writes/Sending.antt =====
-- src/driver/qca_uart.c: what the send of a slot and its completion do to the slot and to the count
-- of active requests.
use virt_bth_usb.Common.{
  ℕ, zero, suc, ◌+◌, ◌-◌, ◌/◌, ◌^◌, ◌<◌, ◌≡◌, refl, sym, ap, ◌∙◌, arith, Bool, true, false, not,
  List, [], ◌∷◌, length, get_or, set, length-set, get_or-set_self, either, cases, ◌==◌, ltb, leb,
  ◌||◌, ◌!=◌,
}
use virt_bth_usb.Uart.Writes.{
  WriteSlot, empty_slot, Writes, Target, Sent, pending, inline, refused, nt_success, status_success,
  status_cancelled, request_budget, slot_at, put_slot, release, count_write, io_completed,
  write_slot_completion, request_send, send_timed, fill_slot, format_status, give_up, send_slot,
}
use virt_bth_usb.Uart.Writes.Slots.{flag, set-set}

-- `Puts i w v`: from `w` to `v` at most slot `i` and the counters change, and the requests counted
-- as active are those of `w` with the slot's, if it is in use.
abbrev pub Puts : ℕ → Writes → Writes → Type 0
Puts i w v =
    (s : WriteSlot) × (v.slots ≡ set w.slots i s) × (v.active_io_count ≡ w.active_io_count + flag s)

-- Nothing but counters changes.
abbrev Keeps : Writes → Writes → Type 0
Keeps w v = (v.slots ≡ w.slots) × (v.active_io_count ≡ w.active_io_count)

request_budget-Keeps :
    (t : Target) (maximum : ℕ) (w : Writes) → Keeps w (request_budget t maximum w).1
unfolding request_budget
request_budget-Keeps t maximum w =
    let P : ℕ × Writes → Type 0 = λ r. Keeps w r.1 in
    either P w.stop_requested (refl, refl)
      (either P (not t.probe_active || t.budget_unbounded) (refl, refl)
        (either P (leb 60000 (t.elapsed / 10000)) (refl, refl)
          (either P (ltb (60000 - t.elapsed / 10000) maximum) (refl, refl) (refl, refl))))

count_write-Keeps :
    (status information : ℕ) (w : Writes) → Keeps w (count_write status information w)
unfolding count_write
count_write-Keeps status information w =
    either (Keeps w) (nt_success status) (refl, refl)
      (either (Keeps w) (status != status_cancelled) (refl, refl) (refl, refl))

-- A completion takes one request off the count and frees its slot.
pub write_slot_completion-Puts :
    (i status information : ℕ) (w : Writes)
    → 0 < w.active_io_count
    → w.active_io_count < 2 ^ 32
    → (s : WriteSlot) × ((write_slot_completion i status information w).slots ≡ set w.slots i s)
      × (s.in_use ≡ false)
      × ((write_slot_completion i status information w).active_io_count + 1 ≡ w.active_io_count)
unfolding write_slot_completion io_completed release put_slot slot_at
write_slot_completion-Puts i status information w h k =
    let kept = count_write-Keeps status information (release i w) in
    let same : (count_write status information (release i w)).active_io_count ≡ w.active_io_count =
      kept.1 in
    (record (slot_at i w) { in_use = false }, kept.0, refl, omega (arith, same))

-- A send that the framework refuses has a status of failure.
abbrev pub IsRefusal : Sent → Type 0
IsRefusal pending = Unit
IsRefusal (inline status information) = Unit
IsRefusal (refused status) = nt_success status ≡ false

pub set-get_or : (ss : List WriteSlot) (i : ℕ) → set ss i (get_or ss i empty_slot) ≡ ss
set-get_or [] i = refl
set-get_or (x ∷ ss) zero = refl
set-get_or (x ∷ ss) (suc i) = ap (λ r. x ∷ r) (set-get_or ss i)

success_succeeds : nt_success status_success ≡ true
unfolding nt_success
success_succeeds = refl

cancelled_fails : nt_success status_cancelled ≡ false
unfolding nt_success
cancelled_fails = refl

-- How a send of slot `i` ends, of the status and the state: with a success, the slot is in use and
-- counted or is free again; with a failure, the slot is left to be freed.
abbrev Ends : ℕ → Writes → ℕ × Writes → Type 0
Ends i w r = (nt_success r.0 ≡ true → Puts i w r.1) × (nt_success r.0 ≡ false → Keeps w r.1)

request_send-Ends :
    (o : Sent) (i : ℕ) (w v : Writes)
    → IsRefusal o
    → (slot_at i w).in_use ≡ true
    → w.active_io_count + 1 < 2 ^ 32
    → v.slots ≡ w.slots
    → v.active_io_count ≡ w.active_io_count + 1
    → Ends i w (request_send o i v)
unfolding request_send slot_at io_completed
request_send-Ends pending i w v r u h s a =
    let success = success_succeeds in
    (
      λ _. (get_or w.slots i empty_slot, s ∙ sym (set-get_or w.slots i), ground (arith, a, u)),
      λ e. cc,
    )
request_send-Ends (inline status information) i w v r u h s a =
    let success = success_succeeds in
    let (x, put, free, count) =
      write_slot_completion-Puts i status information v (omega (arith, a)) (omega (arith, a)) in
    (λ _. (x, put ∙ ap (λ z. set z i x) s, ground (arith, a, free, count)), λ e. cc)
request_send-Ends (refused status) i w v r u h s a = (λ e. cc, λ _. (s, omega (arith, a)))

send_timed-Ends :
    (t : Target) (i : ℕ) (w : Writes)
    → w.active_io_count + 1 < 2 ^ 32
    → IsRefusal t.send
    → (slot_at i w).in_use ≡ true
    → Ends i w (send_timed t i w)
unfolding send_timed
send_timed-Ends t i w h r u =
    let cancelled = cancelled_fails in
    let kept = request_budget-Keeps t 5000 w in
    let budget = request_budget t 5000 w in
    either (Ends i w) (budget.0 == 0) (λ e. cc, λ _. kept)
      (request_send-Ends t.send i w _ r u h kept.0 (omega (arith, kept.1)))

-- From `w` to `v` slot `i` is written and no request is counted.
abbrev IsWrite : ℕ → Writes → Writes → Type 0
IsWrite i w v =
    (s : WriteSlot) × (v.slots ≡ set w.slots i s) × (v.active_io_count ≡ w.active_io_count)

IsWrite-Puts : (i : ℕ) (w v z : Writes) → IsWrite i w v → Puts i v z → Puts i w z
IsWrite-Puts i w v z (s, put, same) (x, later, count) = (
  x,
  later ∙ ap (λ ss. set ss i x) put ∙ set-set w.slots i s x,
  count ∙ ap (λ a. a + flag x) same,
)

give_up-Puts : (i status : ℕ) (w v : Writes) → IsWrite i w v → Puts i w (give_up i status v)
unfolding give_up release put_slot slot_at
give_up-Puts i status w v (s, put, same) =
    let freed = record (get_or v.slots i empty_slot) { in_use = false } in
    (freed, ap (λ ss. set ss i freed) put ∙ set-set w.slots i s freed, omega (arith, same))

IsWrite-Keeps : (i : ℕ) (w v z : Writes) → IsWrite i w v → Keeps v z → IsWrite i w z
IsWrite-Keeps i w v z (s, put, same) kept = (s, kept.0 ∙ put, kept.1 ∙ same)

fill_slot-taken :
    (i : ℕ) (framed : List ℕ) (w : Writes)
    → i < length w.slots
    → (slot_at i (fill_slot i framed w)).in_use ≡ true
unfolding fill_slot put_slot slot_at
fill_slot-taken i framed w h =
    let taken = record (get_or w.slots i empty_slot) { in_use = true } in
    ap (λ (s : WriteSlot). s.in_use) (get_or-set_self w.slots i _ empty_slot h)
    ∙ either (λ (s : WriteSlot). s.in_use ≡ true) (length framed == 0) {x = taken} refl refl

slot_at-put_slot :
    (i : ℕ) (s : WriteSlot) (w : Writes) → i < length w.slots → slot_at i (put_slot i s w) ≡ s
unfolding slot_at put_slot
slot_at-put_slot i s w h = get_or-set_self w.slots i s empty_slot h

length-fill_slot :
    (i : ℕ) (framed : List ℕ) (w : Writes) → length (fill_slot i framed w).slots ≡ length w.slots
unfolding fill_slot put_slot
length-fill_slot i framed w = length-set w.slots i _

pub send_slot-Puts :
    (t : Target) (i : ℕ) (framed : List ℕ) (w : Writes)
    → i < length w.slots
    → w.active_io_count + 1 < 2 ^ 32
    → IsRefusal t.send
    → Puts i w (send_slot t i framed w).1
unfolding send_slot fill_slot put_slot
send_slot-Puts t i framed w h k r =
    let P : Bool × Writes → Type 0 = λ o. Puts i w o.1 in
    let filled = fill_slot i framed w in
    let marked = record (slot_at i filled) { has_been_sent = true } in
    let ready = put_slot i marked filled in
    let formatted = format_status t (slot_at i w).has_been_sent framed in
    let written : IsWrite i w filled = (_, refl, refl) in
    let written_again : IsWrite i w ready = (marked, set-set w.slots i _ marked, refl) in
    let used : (slot_at i ready).in_use ≡ true =
      ap (λ (s : WriteSlot). s.in_use)
        (slot_at-put_slot i marked filled (omega (arith, h, length-fill_slot i framed w)))
      ∙ fill_slot-taken i framed w h in
    let ends = send_timed-Ends t i ready k r used in
    let sent = send_timed t i ready in
    either P (not (nt_success formatted)) (give_up-Puts i formatted w filled written) (
      cases P (nt_success sent.0) (λ e. IsWrite-Puts i w ready sent.1 written_again (ends.0 e))
        (λ e.
          give_up-Puts i sent.0 w sent.1 (IsWrite-Keeps i w ready sent.1 written_again (ends.1 e))))
