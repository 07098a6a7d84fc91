-- ===== src/Uart/Notified.antt =====
-- src/driver/qca_uart.c, QcaUartReadCompletion: the streams that a read asks to notify.
use virt_bth_usb.Common.{ℕ, ◌≡◌, ◌⊎◌, ◌∙◌, refl, Bool, true, false, not, some, inl, inr, subst}
use virt_bth_usb.Common.{
  List, ◌∷◌, ◌==◌, ◌!=◌, ◌||◌, ◌&&◌, ◌+◌, length, leb, ltb, byte, inc32, either, Option-cases,
  if◌then◌else◌,
}
use virt_bth_usb.H4.{Decoder, pkt_event, pkt_acl, pkt_sco}
use virt_bth_usb.H4.Bounds.{IsValid, feed-IsValid}
use virt_bth_usb.Fifo.{Fifo}
use virt_bth_usb.Identify
use virt_bth_usb.Fsm.{State, state_index}
use virt_bth_usb.Fsm.Events
use virt_bth_usb.Bridge.{Bridge, event_fifo_depth, acl_in_fifo_depth, sco_fifo_depth}
use virt_bth_usb.Bridge.Submit.{is_acl, is_sco}
use virt_bth_usb.Bridge.Inbound.{
  Stream, on_inbound, on_event, on_acl, on_sco, queue_event, enqueue_sco_in, count_event, suppress,
  snoop, is_event, is_vendor_answer,
}
use virt_bth_usb.Bridge.Untouched.{Untouched, snoop-Untouched}
use virt_bth_usb.Uart.{
  Uart, Notify, mark, to_bridge, on_ibs_byte, is_steady, is_identify, note_advertiser,
  advertiser_of, is_adv_report, trace_event, keep_link_event, on_steady_packet, keep_reset_event,
  on_bringup_packet, on_identify_packet, on_h4_packet, read_bytes,
}

pub fifo_of : Bridge → Stream → Fifo
fifo_of b Stream.event = b.event_fifo
fifo_of b Stream.acl = b.acl_in_fifo
fifo_of b Stream.sco = b.sco_in_fifo

pub is_marked : Notify → Stream → Bool
is_marked n Stream.event = n.event
is_marked n Stream.acl = n.acl
is_marked n Stream.sco = n.sco

-- The bridge's verdict is true when a queue changed, which then is the stream's.
abbrev Queues : Bridge → Stream → Bridge × Bool → Type 0
Queues b s r = (t : Stream) → (fifo_of r.0 t ≡ fifo_of b t) ⊎ ((r.1 ≡ true) × (t ≡ s))

module _ (b : Bridge) where
  nothing_queued : (s : Stream) (b' : Bridge) (q : Bool) → Untouched b b' → Queues b s (b', q)
  unfolding fifo_of
  nothing_queued s b' q u Stream.event = inl u.0
  nothing_queued s b' q u Stream.acl = inl u.2
  nothing_queued s b' q u Stream.sco = inl u.3

  event_queued :
      (b' : Bridge)
      → Untouched b b'
      → (f : Fifo) → Queues b Stream.event (record b' { event_fifo = f }, true)
  unfolding fifo_of
  event_queued b' u f Stream.event = inr (refl, refl)
  event_queued b' u f Stream.acl = inl u.2
  event_queued b' u f Stream.sco = inl u.3

  acl_queued :
      (b' : Bridge)
      → Untouched b b'
      → (f : Fifo) → Queues b Stream.acl (record b' { acl_in_fifo = f }, true)
  unfolding fifo_of
  acl_queued b' u f Stream.event = inl u.0
  acl_queued b' u f Stream.acl = inr (refl, refl)
  acl_queued b' u f Stream.sco = inl u.3

  sco_queued :
      (b' : Bridge)
      → Untouched b b'
      → (f : Fifo) → Queues b Stream.sco (record b' { sco_in_fifo = f }, true)
  unfolding fifo_of
  sco_queued b' u f Stream.event = inl u.0
  sco_queued b' u f Stream.acl = inl u.2
  sco_queued b' u f Stream.sco = inr (refl, refl)

  on_event-Queues : (p : List ℕ) → Queues b Stream.event (on_event b p)
  unfolding on_event queue_event suppress count_event
  on_event-Queues p =
      let P = Queues b Stream.event in
      let counted = count_event b in
      let snooped = snoop counted p in
      let u : Untouched b snooped = snoop-Untouched counted p in
      let same = nothing_queued Stream.event in
      either P (not (is_event p)) (same b false (refl, refl, refl, refl)) (
        either P (byte p 0 == 0xFF) (same (suppress counted) false (refl, refl, refl, refl)) (
          either P (is_vendor_answer p) (same (suppress snooped) false u) (
            either P (not snooped.ready) (same _ false u) (
              either P (leb event_fifo_depth snooped.event_fifo.count) (same _ false u)
                (event_queued _ u _)))))

  on_acl-Queues : (p : List ℕ) → Queues b Stream.acl (on_acl b p)
  unfolding on_acl
  on_acl-Queues p =
      let P = Queues b Stream.acl in
      let u : Untouched b b = (refl, refl, refl, refl) in
      let same = nothing_queued Stream.acl in
      either P (not (is_acl p)) (same b false u) (
        either P (not b.ready) (same _ false u) (
          either P (leb acl_in_fifo_depth b.acl_in_fifo.count) (same _ false u) (acl_queued _ u _)))

  on_sco-Queues : (p : List ℕ) → Queues b Stream.sco (on_sco b p)
  unfolding on_sco enqueue_sco_in
  on_sco-Queues p =
      let P = Queues b Stream.sco in
      let u : Untouched b b = (refl, refl, refl, refl) in
      let same = nothing_queued Stream.sco in
      either P (not (is_sco p)) (same b false u) (
        either P (not b.ready) (same _ false u) (
          either (λ (b' : Bridge). P (b', true)) (leb sco_fifo_depth b.sco_in_fifo.count)
            (sco_queued _ u _) (sco_queued _ u _)))

  on_inbound-Queues : (s : Stream) (p : List ℕ) → Queues b s (on_inbound b s p)
  unfolding on_inbound
  on_inbound-Queues Stream.event p = on_event-Queues p
  on_inbound-Queues Stream.acl p = on_acl-Queues p
  on_inbound-Queues Stream.sco p = on_sco-Queues p

mark-marked : (n : Notify) (s : Stream) → is_marked (mark n s) s ≡ true
unfolding mark is_marked
mark-marked n Stream.event = refl
mark-marked n Stream.acl = refl
mark-marked n Stream.sco = refl

mark-keeps : (n : Notify) (s t : Stream) → is_marked n t ≡ true → is_marked (mark n s) t ≡ true
unfolding mark is_marked
mark-keeps n Stream.event Stream.event h = refl
mark-keeps n Stream.event Stream.acl h = h
mark-keeps n Stream.event Stream.sco h = h
mark-keeps n Stream.acl Stream.event h = h
mark-keeps n Stream.acl Stream.acl h = refl
mark-keeps n Stream.acl Stream.sco h = h
mark-keeps n Stream.sco Stream.event h = h
mark-keeps n Stream.sco Stream.acl h = h
mark-keeps n Stream.sco Stream.sco h = refl

-- Since `before`, every queue that changed is marked.
abbrev pub Told : Bridge → Bridge → Notify → Type 0
Told before b n = (t : Stream) → (fifo_of b t ≡ fifo_of before t) ⊎ (is_marked n t ≡ true)

module _ (before : Bridge) where
  abbrev IsTold : Uart → Type 0
  IsTold u = Told before u.bridge u.notify

  to_bridge-IsTold : (u : Uart) (s : Stream) (p : List ℕ) → IsTold u → IsTold (to_bridge u s p)
  unfolding to_bridge
  to_bridge-IsTold u s p v t =
      let r = on_inbound u.bridge s p in
      let n : Notify = if r.1 then mark u.notify s else u.notify in
      let kept : is_marked u.notify t ≡ true → is_marked n t ≡ true =
        λ m. either (λ (k : Notify). is_marked k t ≡ true) r.1 (mark-keeps u.notify s t m) m in
      elim (on_inbound-Queues u.bridge s p t) [
        | inl same ↦ elim (v t) [ inl e ↦ inl (same ∙ e) | inr m ↦ inr (kept m) ]
        | inr (queued, e) ↦ inr (rw (queued, e) (mark-marked u.notify s))
      ]

  trace_event-IsTold :
      (u : Uart) (p : List ℕ) → IsTold u → IsTold (keep_link_event (trace_event u p) p)
  unfolding trace_event keep_link_event note_advertiser
  trace_event-IsTold u p v =
      let noted : IsTold (note_advertiser (record u { adv_reports = inc32 u.adv_reports }) p) =
        elim (Option-cases (advertiser_of p)) [
          | inl n ↦ rw (n, note_advertiser) v
          | inr (new, s) ↦ rw (s, note_advertiser) v
        ] in
      let traced : IsTold (trace_event u p) = either IsTold (is_adv_report p) noted v in
      either IsTold (byte p 0 == 0x2C || byte p 0 == 0x2D) traced traced

  on_steady_packet-IsTold :
      (u : Uart) (type : ℕ) (p : List ℕ) → IsTold u → IsTold (on_steady_packet u type p)
  unfolding on_steady_packet
  on_steady_packet-IsTold u type p v =
      either IsTold (type == pkt_event)
        (to_bridge-IsTold _ Stream.event _ (trace_event-IsTold u p v))
        (either IsTold (type == pkt_acl) (to_bridge-IsTold u Stream.acl p v)
          (either IsTold (type == pkt_sco) (to_bridge-IsTold u Stream.sco p v) v))

  on_identify_packet-IsTold :
      (u : Uart) (type : ℕ) (p : List ℕ) → IsTold u → IsTold (on_identify_packet u type p)
  unfolding on_identify_packet
  on_identify_packet-IsTold u type p v =
      either IsTold (not u.fsm_waiting || ltb 258 (length p + 1)) v
        (either IsTold (Identify.on_packet u.identify (type ∷ p)).1 v v)

  on_bringup_packet-IsTold :
      (u : Uart) (type : ℕ) (p : List ℕ) → IsTold u → IsTold (on_bringup_packet u type p)
  unfolding on_bringup_packet keep_reset_event
  on_bringup_packet-IsTold u type p v =
      let kept : IsTold (keep_reset_event u type p) =
        either IsTold (state_index u.fsm.state == state_index State.hci_reset && type == pkt_event)
          v v in
      either IsTold (ltb 258 (length p + 1)) v (
        either IsTold (not u.fsm_waiting) kept
          (either IsTold (not (Events.on_packet u.fsm (type ∷ p)).0) kept kept))

  on_h4_packet-IsTold :
      (u : Uart) (type : ℕ) (p : List ℕ) → IsTold u → IsTold (on_h4_packet u type p)
  unfolding on_h4_packet
  on_h4_packet-IsTold u type p v =
      either IsTold (is_identify u.probe_mode) (on_identify_packet-IsTold u type p v) (
        either IsTold (u.phase == 1) (on_bringup_packet-IsTold u type p v)
          (either IsTold (u.phase == 2) (on_steady_packet-IsTold u type p v) v))

  on_ibs_byte-IsTold : (u : Uart) (b : ℕ) → IsTold u → IsTold (on_ibs_byte u b).1
  unfolding on_ibs_byte
  on_ibs_byte-IsTold u b v =
      let P : Bool × Uart → Type 0 = λ r. IsTold r.1 in
      either P (not (is_steady u.probe_mode) || u.phase != 2) v
        (either P (b == 0xFD) v (either P (b == 0xFE) v (either P (b == 0xFC) v v)))

-- No read queues a packet without asking to notify its stream, however many packets its bytes
-- complete: a stream that is not to be notified has the queue that it had before.
pub read_bytes-Told :
    (d : Decoder) (u : Uart) (bytes : List ℕ)
    → IsValid d
    → (let r = read_bytes d u bytes in Told u.bridge r.1.bridge r.2)
unfolding read_bytes
read_bytes-Told d u bytes v =
    let P = IsTold u.bridge in
    let claims : (claim : Uart → ℕ → Bool × Uart)
        → some on_ibs_byte ≡ some claim
        → (c : Uart) (b : ℕ) → P c
        → P (claim c b).1 =
      λ claim e c b w.
        let same : on_ibs_byte ≡ claim = cc in
        subst (λ f. P (f c b).1) same (on_ibs_byte-IsTold u.bridge c b w) in
    (feed-IsValid on_h4_packet (some on_ibs_byte) P
      (λ c t p k w. on_h4_packet-IsTold u.bridge c t p k) (λ claim c b e k. claims claim e c b k)
      bytes d u v (λ t. inl refl)).1
