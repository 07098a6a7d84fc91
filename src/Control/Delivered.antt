-- ===== src/Control/Delivered.antt =====
-- src/driver/endpoints.c, DeckBtEvtControlUrb: the events of an accepted command reach the readers.
use virt_bth_usb.Common.{
  ℕ, ◌≡◌, refl, sym, subst, ◌∙◌, arith, true, false, ◌&&◌, Option, some, cases,
}
use virt_bth_usb.Common.{List, []}
use virt_bth_usb.Bridge.Inbound.{Stream}
use virt_bth_usb.Endpoints.{Polled, Completion, drain}
use virt_bth_usb.Endpoints.Drained.{Drained, drain-Drained}
use virt_bth_usb.Control.{
  Setup, Reply, Control, CommandTransport, is_hci_command, has_succeeded, answer_control,
  control_transfer, control_urb,
}
use virt_bth_usb.Control.Outcome.{kept, served, forwarded}
use virt_bth_usb.Control.Handled.{answer_control-Done}

-- The answer was a success to an HCI command, the transport took its bytes, and the events that it
-- then had queued went to readers; or it was not, and no reader was touched.
pub data Delivers {T : Type 0} (ops : CommandTransport T) (events : Polled T Stream.event)
    (c : Control T) (readers : List (Option ℕ)) (s : Setup) (buffer : Option (List ℕ))
    (out : Control T × Reply × List (Option ℕ) × List Completion) : Type 0 where
  untouched :
      (is_hci_command s && has_succeeded out.1) ≡ false
      → out.2 ≡ readers
      → out.3 ≡ []
      → Delivers ops events c readers s buffer out
  delivered :
      (bytes : List ℕ)
      → buffer ≡ some bytes
      → has_succeeded out.1 ≡ true
      → (ops.submit_command c.transport bytes).1 ≡ true
      → Drained events (ops.submit_command c.transport bytes).0 (out.0.transport, out.2, out.3)
      → Delivers ops events c readers s buffer out

module _ {T : Type 0} (ops : CommandTransport T) (events : Polled T Stream.event)
    (c : Control T) where
  drained :
      (readers : List (Option ℕ)) (s : Setup) (buffer : Option (List ℕ))
      → (is_hci_command s && has_succeeded (answer_control ops c (control_transfer s buffer)).1)
        ≡ true
      → (let a = answer_control ops c (control_transfer s buffer) in
          let d = drain events a.0.transport readers in
          Delivers ops events c readers s buffer (record a.0 { transport = d.0 }, a.1, d.1, d.2))
  unfolding is_hci_command
  drained readers s buffer e =
      let a = answer_control ops c (control_transfer s buffer) in
      elim (answer_control-Done ops c s buffer).1 [
        | kept t n why ↦ absurd (ground (arith, e, n))
        | served t ok std v ↦ absurd (ground (arith, e, std))
        | forwarded bytes b t z taken accepted ↦
            delivered bytes b (ground (arith, e)) (sym accepted ∙ ground (arith, e)) (
              subst (λ t. Drained events t (drain events a.0.transport readers)) taken
                (drain-Drained events a.0.transport readers (λ f. cc)))
      ]

  -- After a control transfer with a setup packet, no reader is touched unless it is an HCI command
  -- that succeeds; then the transport accepted its bytes, and the events that it had queued after
  -- that go to the readers, whole and in order, until no event or no reader is left.
  control_urb-Delivers :
      (readers : List (Option ℕ)) (s : Setup) (buffer : Option (List ℕ))
      → Delivers ops events c readers s buffer
          (control_urb ops events c readers (control_transfer s buffer))
  unfolding control_urb
  control_urb-Delivers readers s buffer =
      cases (Delivers ops events c readers s buffer)
        (is_hci_command s && has_succeeded (answer_control ops c (control_transfer s buffer)).1)
        (drained readers s buffer) (λ e. untouched e refl refl)
