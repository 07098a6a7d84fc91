-- ===== src/Uart/Sound.antt =====
-- src/driver/qca_uart.c, QcaUartReadCompletion: what every read keeps, whatever bytes arrive.
use virt_bth_usb.Common.{
  ℕ, zero, suc, ◌+◌, ◌≡◌, arith, Bool, not, ◌&&◌, ◌||◌, ◌∙◌, some, inl, inr, subst,
}
use virt_bth_usb.Common.{
  List, [], ◌∷◌, length, set, All, IsByte, byte, le16, ◌==◌, ◌!=◌, ltb, either, Option-cases,
  length-set,
}
use virt_bth_usb.H4.{Decoder, pkt_event, pkt_acl, pkt_sco}
use virt_bth_usb.H4.Bounds.{IsValid, feed-IsValid}
use virt_bth_usb.H4.Bytes.{feed-Kept}
use virt_bth_usb.Identify
use virt_bth_usb.Fsm.Events
use virt_bth_usb.Bridge.{Bridge}
use virt_bth_usb.Bridge.Inbound.{Stream}
use virt_bth_usb.Bridge.Rings.{IsSound}
use virt_bth_usb.Bridge.Invariant.{on_inbound-IsSound}
use virt_bth_usb.ScoRoute.{
  ScoRoute, Legacy, op_legacy, op_enhanced, opcode_at, put_opcode, restore_event,
}
use virt_bth_usb.Uart.{
  Uart, AdvSeen, trace_slots, adv_slots, on_ibs_byte, is_steady, is_identify, advertiser_of,
  note_advertiser, trace_event, keep_link_event, host_event, is_le_host_refusal, to_bridge,
  on_steady_packet, keep_reset_event, on_bringup_packet, on_identify_packet, on_h4_packet,
  read_bytes, is_adv_report,
}
use virt_bth_usb.Uart.Advertisers.{IsTable, count_advertiser-IsTable}

-- The bridge is sound, and the tables for diagnosis have their sizes.
pub record AreSound (bridge : Bridge) (seen : List AdvSeen) (trace : List (List ℕ)) : Type 0 where
  pub bridge_sound : IsSound bridge
  pub table : IsTable adv_slots seen
  pub traced : length trace ≡ trace_slots

abbrev pub IsUart : Uart → Type 0
IsUart u = AreSound u.bridge u.adv_seen u.event_trace

pub All-set :
    {A : Type 0} (P : A → Type 0) (xs : List A) (i : ℕ) (x : A)
    → All P xs
    → P x
    → All P (set xs i x)
All-set P [] i x h p = tt
All-set P (y ∷ xs) zero x h p = (p, h.1)
All-set P (y ∷ xs) (suc i) x h p = (h.0, All-set P xs i x h.1 p)

IsRestored : ScoRoute × List ℕ × Bool → Type 0
IsRestored r = All IsByte r.1

put_opcode-bytes :
    (p : List ℕ) (i : ℕ) (kind : Legacy)
    → All IsByte p
    → All IsByte (put_opcode p i (op_legacy kind))
put_opcode-bytes p i Legacy.setup h =
    All-set IsByte _ (i + 1) _ (All-set IsByte p i _ h (omega arith)) (omega arith)
put_opcode-bytes p i Legacy.accept h =
    All-set IsByte _ (i + 1) _ (All-set IsByte p i _ h (omega arith)) (omega arith)

restore_event-bytes : (r : ScoRoute) (p : List ℕ) → All IsByte p → IsRestored (restore_event r p)
unfolding restore_event IsRestored
restore_event-bytes r p h = elim (Option-cases (opcode_at p)) [
  | inl n ↦ rw (n, restore_event) h
  | inr (i, s) ↦
      rw (s, restore_event)
        (either IsRestored (le16 p i == op_enhanced Legacy.setup && r.setup_pending != 0)
          (put_opcode-bytes p i Legacy.setup h)
          (either IsRestored (le16 p i == op_enhanced Legacy.accept && r.accept_pending != 0)
            (put_opcode-bytes p i Legacy.accept h) h))
]

-- What the host gets for bytes is bytes.
host_event-bytes : (r : ScoRoute) (p : List ℕ) → All IsByte p → All IsByte (host_event r p).1
unfolding host_event IsRestored
host_event-bytes r p h =
    let P : ScoRoute × List ℕ → Type 0 = λ e. All IsByte e.1 in
    either P (is_le_host_refusal p) (All-set IsByte p 5 0 h (omega arith)) (
      either P (length p == 6)
        (either (All IsByte) (restore_event r p).2 (restore_event-bytes r p h) h) h)

on_ibs_byte-IsUart : (u : Uart) (b : ℕ) → IsUart u → IsUart (on_ibs_byte u b).1
unfolding on_ibs_byte
on_ibs_byte-IsUart u b v =
    let P : Bool × Uart → Type 0 = λ r. IsUart r.1 in
    either P (not (is_steady u.probe_mode) || u.phase != 2) v
      (either P (b == 0xFD) v (either P (b == 0xFE) v (either P (b == 0xFC) v v)))

note_advertiser-IsUart : (u : Uart) (p : List ℕ) → IsUart u → IsUart (note_advertiser u p)
unfolding note_advertiser
note_advertiser-IsUart u p v = elim (Option-cases (advertiser_of p)) [
  | inl n ↦ rw (n, note_advertiser) v
  | inr (new, s) ↦
      rw (s, note_advertiser)
        (record {
          bridge_sound = v.bridge_sound;
          table = count_advertiser-IsTable adv_slots u.adv_seen new v.table;
          traced = v.traced;
        })
]

trace_event-IsUart :
    (u : Uart) (p : List ℕ) → IsUart u → IsUart (keep_link_event (trace_event u p) p)
unfolding trace_event keep_link_event
trace_event-IsUart u p v =
    let traced : IsUart (trace_event u p) =
      either IsUart (is_adv_report p) (note_advertiser-IsUart _ p v) (record {
        bridge_sound = v.bridge_sound;
        table = v.table;
        traced = length-set u.event_trace _ _ ∙ v.traced;
      }) in
    either IsUart (byte p 0 == 0x2C || byte p 0 == 0x2D) traced traced

to_bridge-IsUart :
    (u : Uart) (s : Stream) (p : List ℕ) → All IsByte p → IsUart u → IsUart (to_bridge u s p)
unfolding to_bridge
to_bridge-IsUart u s p h v = record {
  bridge_sound = on_inbound-IsSound u.bridge s p h v.bridge_sound;
  table = v.table;
  traced = v.traced;
}

on_steady_packet-IsUart :
    (u : Uart) (type : ℕ) (p : List ℕ)
    → All IsByte p
    → IsUart u
    → IsUart (on_steady_packet u type p)
unfolding on_steady_packet
on_steady_packet-IsUart u type p h v =
    let noted = keep_link_event (trace_event u p) p in
    either IsUart (type == pkt_event)
      (to_bridge-IsUart _ Stream.event _ (host_event-bytes noted.route p h)
        (trace_event-IsUart u p v))
      (either IsUart (type == pkt_acl) (to_bridge-IsUart u Stream.acl p h v)
        (either IsUart (type == pkt_sco) (to_bridge-IsUart u Stream.sco p h v) v))

keep_reset_event-IsUart :
    (u : Uart) (type : ℕ) (p : List ℕ) → IsUart u → IsUart (keep_reset_event u type p)
unfolding keep_reset_event
keep_reset_event-IsUart u type p v = either IsUart _ v v

on_identify_packet-IsUart :
    (u : Uart) (type : ℕ) (p : List ℕ) → IsUart u → IsUart (on_identify_packet u type p)
unfolding on_identify_packet
on_identify_packet-IsUart u type p v =
    either IsUart (not u.fsm_waiting || ltb 258 (length p + 1)) v
      (either IsUart (Identify.on_packet u.identify (type ∷ p)).1 v v)

on_bringup_packet-IsUart :
    (u : Uart) (type : ℕ) (p : List ℕ) → IsUart u → IsUart (on_bringup_packet u type p)
unfolding on_bringup_packet
on_bringup_packet-IsUart u type p v =
    let kept = keep_reset_event-IsUart u type p v in
    either IsUart (ltb 258 (length p + 1)) v (
      either IsUart (not u.fsm_waiting) kept
        (either IsUart (not (Events.on_packet u.fsm (type ∷ p)).0) kept kept))

on_h4_packet-IsUart :
    (u : Uart) (type : ℕ) (p : List ℕ) → All IsByte p → IsUart u → IsUart (on_h4_packet u type p)
unfolding on_h4_packet
on_h4_packet-IsUart u type p h v =
    either IsUart (is_identify u.probe_mode) (on_identify_packet-IsUart u type p v) (
      either IsUart (u.phase == 1) (on_bringup_packet-IsUart u type p v)
        (either IsUart (u.phase == 2) (on_steady_packet-IsUart u type p h v) v))

-- A read of any bytes keeps the decoder valid, the bridge sound, so that its credits and rings stay
-- within their bounds, and the tables for diagnosis within theirs; in every phase and probe mode.
pub read_bytes-IsUart :
    (d : Decoder) (u : Uart) (bytes : List ℕ)
    → All IsByte bytes
    → IsValid d
    → All IsByte d.buffer
    → IsUart u
    → (let r = read_bytes d u bytes in IsValid r.0 × All IsByte r.0.buffer × IsUart r.1)
unfolding read_bytes
read_bytes-IsUart d u bytes b v held s =
    let claims : (claim : Uart → ℕ → Bool × Uart) (c : Uart) (k : ℕ)
        → some on_ibs_byte ≡ some claim
        → IsUart c
        → IsUart (claim c k).1 =
      λ claim c k e w.
        let same : on_ibs_byte ≡ claim = cc in
        subst (λ f. IsUart (f c k).1) same (on_ibs_byte-IsUart c k w) in
    let kept =
      feed-Kept on_h4_packet (some on_ibs_byte) IsUart (λ c t p h w. on_h4_packet-IsUart c t p h w)
        claims bytes d u b (held, s) in
    let valid =
      feed-IsValid on_h4_packet (some on_ibs_byte) (λ _. Unit) (λ _ _ _ _ _. tt) (λ _ _ _ _ _. tt)
        bytes d u v tt in
    (valid.0, kept.0, kept.1)
