-- ===== src/Control/Handled.antt =====
-- src/driver/endpoints.c, DeckBtEvtControlUrb: what reaches the transport, what is traced and what is
-- answered with success.
use virt_bth_usb.Common.{
  ℕ, ◌/◌, ◌%◌, ◌≡◌, ◌⊎◌, refl, sym, ap, ◌∙◌, arith, false, ◌&&◌, ◌||◌, Option, none, some, either,
  cases, min,
}
use virt_bth_usb.Common.{List, [], ◌∷◌, length, ltb, ◌==◌, inc32}
use virt_bth_usb.Control.{
  Setup, setup_bytes, Reply, nt_error, stalled, succeeded, Control, CommandTransport, log_control,
  ctl_ok_hci, ctl_stalled, ctl_bad_buffer, is_standard, is_remote_wakeup, is_hci_command, opcode_of,
  keep_sync, is_sync_opcode, get_status, stall, change_feature, hci_command, handle_rest,
  handle_setup, handle_control, answer_control, control_transfer, has_succeeded,
}
use virt_bth_usb.Control.Outcome.{
  Traced, IsServed, status_read, feature_changed, Refusal, unknown, no_command, no_status_buffer,
  short_status_buffer, remote_wakeup, Seen, kept, served, forwarded,
}

module _ {T : Type 0} where
  logged :
      (c : Control T) (setup : List ℕ) (outcome opcode event_length : ℕ) (reply : Reply)
      (d : Control T)
      → d.ctl_log ≡ c.ctl_log
      → d.ctl_count ≡ c.ctl_count
      → has_succeeded reply ≡ (outcome == ctl_ok_hci)
      → Traced c setup (log_control d setup outcome opcode event_length, reply)
  unfolding log_control
  logged c setup outcome opcode event_length reply d log count e = record {
    outcome = outcome;
    opcode = opcode;
    event_length = event_length;
    log = rw (log, count);
    count = ap inc32 count;
    success = e;
  }

  keep_sync-log : (bytes : List ℕ) (c : Control T) → (keep_sync bytes c).ctl_log ≡ c.ctl_log
  unfolding keep_sync
  keep_sync-log bytes c =
      either (λ (d : Control T). d.ctl_log ≡ c.ctl_log) (is_sync_opcode (opcode_of bytes)) refl refl

  keep_sync-count : (bytes : List ℕ) (c : Control T) → (keep_sync bytes c).ctl_count ≡ c.ctl_count
  unfolding keep_sync
  keep_sync-count bytes c =
      either (λ (d : Control T). d.ctl_count ≡ c.ctl_count) (is_sync_opcode (opcode_of bytes)) refl
        refl

  keep_sync-transport :
      (bytes : List ℕ) (c : Control T) → (keep_sync bytes c).transport ≡ c.transport
  unfolding keep_sync
  keep_sync-transport bytes c =
      either (λ (d : Control T). d.transport ≡ c.transport) (is_sync_opcode (opcode_of bytes)) refl
        refl

  log_control-transport :
      (c : Control T) (setup : List ℕ) (outcome opcode event_length : ℕ)
      → (log_control c setup outcome opcode event_length).transport ≡ c.transport
  unfolding log_control
  log_control-transport c setup outcome opcode event_length = refl

module _ {T : Type 0} (ops : CommandTransport T) (c : Control T) (s : Setup) where
  abbrev Done : Option (List ℕ) → Control T × Reply → Type 0
  Done buffer r = Traced c (setup_bytes s) r × Seen ops c s buffer r

  -- A request that leaves the transport alone and does not succeed.
  refused :
      (buffer : Option (List ℕ)) (outcome : ℕ) (reply : Reply)
      → Refusal s buffer
      → false ≡ (outcome == ctl_ok_hci)
      → has_succeeded reply ≡ false
      → Done buffer (log_control c (setup_bytes s) outcome 0 0, reply)
  refused buffer outcome reply why e n = (
    logged c (setup_bytes s) outcome 0 0 reply c refl refl (n ∙ e),
    kept (log_control-transport c (setup_bytes s) outcome 0 0) n why,
  )

  answered :
      (buffer : Option (List ℕ)) (n : ℕ) (bytes : List ℕ)
      → s.request_type / 32 % 4 ≡ 0
      → IsServed s buffer
      → Done buffer (log_control c (setup_bytes s) ctl_ok_hci 0 n, succeeded n bytes)
  answered buffer n bytes std v = (
    logged c (setup_bytes s) ctl_ok_hci 0 n (succeeded n bytes) c refl refl refl,
    served (log_control-transport c (setup_bytes s) ctl_ok_hci 0 n) refl std v,
  )

  stall-Done : (buffer : Option (List ℕ)) → Refusal s buffer → Done buffer (stall c s)
  unfolding stall
  stall-Done buffer why = refused buffer ctl_stalled stalled why refl refl

  get_status-Done :
      (buffer : Option (List ℕ))
      → s.request_type / 32 % 4 ≡ 0
      → s.request ≡ 0
      → Done buffer (get_status c s buffer)
  unfolding get_status
  get_status-Done none std e =
      refused none ctl_bad_buffer nt_error (no_status_buffer std e refl) refl refl
  get_status-Done (some bytes) std e =
      cases (Done (some bytes)) (ltb (length bytes) 2)
        (λ short.
          refused (some bytes) ctl_bad_buffer nt_error
            (short_status_buffer bytes std e refl (ground (arith, short))) refl refl)
        (λ fits.
          answered (some bytes) 2 (0 ∷ 0 ∷ []) std
            (status_read bytes e refl (ground (arith, fits))))

  change_feature-Done :
      (buffer : Option (List ℕ))
      → s.request_type / 32 % 4 ≡ 0
      → (s.request ≡ 1) ⊎ (s.request ≡ 3)
      → Done buffer (change_feature c s)
  unfolding change_feature is_remote_wakeup
  change_feature-Done buffer std e =
      cases (Done buffer) (is_remote_wakeup s)
        (λ wake.
          stall-Done buffer (remote_wakeup std e (ground (arith, wake)) (ground (arith, wake))))
        (λ other. answered buffer 0 [] std (feature_changed e other))

  -- The transport has been given the command, and accepted it or not.
  submitted :
      (bytes : List ℕ) (outcome n : ℕ) (reply : Reply)
      → s.request_type ≡ 0x20
      → s.request ≡ 0
      → has_succeeded reply ≡ (outcome == ctl_ok_hci)
      → has_succeeded reply ≡ (ops.submit_command c.transport bytes).1
      → Done (some bytes) (
        log_control
            (keep_sync bytes (record c { transport = (ops.submit_command c.transport bytes).0 }))
            (setup_bytes s)
            outcome
            (opcode_of bytes)
            n,
        reply,
      )
  submitted bytes outcome n reply t z e accepted =
      let given = record c { transport = (ops.submit_command c.transport bytes).0 } in
      (
        logged c (setup_bytes s) outcome (opcode_of bytes) n reply (keep_sync bytes given)
            (keep_sync-log bytes given) (keep_sync-count bytes given) e,
        forwarded bytes refl t z
            (log_control-transport (keep_sync bytes given) (setup_bytes s) outcome (opcode_of bytes)
                n
              ∙ keep_sync-transport bytes given)
            accepted,
      )

  hci_command-Done :
      (buffer : Option (List ℕ))
      → s.request_type ≡ 0x20
      → s.request ≡ 0
      → Done buffer (hci_command ops c s buffer)
  unfolding hci_command
  hci_command-Done none t e = refused none ctl_bad_buffer nt_error (no_command t e refl) refl refl
  hci_command-Done (some bytes) t e =
      let after = (ops.submit_command c.transport bytes).0 in
      cases (Done (some bytes)) (ops.submit_command c.transport bytes).1
        (λ accepted.
          submitted bytes ctl_ok_hci (min (ops.last_event_length after) 255)
            (succeeded (length bytes) []) t e refl (sym accepted))
        (λ rejected. submitted bytes ctl_stalled 0 stalled t e refl (sym rejected))

  handle_rest-Done :
      (buffer : Option (List ℕ))
      → (is_standard s && s.request == 0) ≡ false
      → (is_standard s && (s.request == 1 || s.request == 3)) ≡ false
      → Done buffer (handle_rest ops c s buffer)
  unfolding handle_rest is_hci_command is_standard
  handle_rest-Done buffer no_status no_feature =
      cases (Done buffer) (is_hci_command s)
        (λ e. hci_command-Done buffer (ground (arith, e)) (ground (arith, e)))
        (λ other. stall-Done buffer (unknown other (ground (arith, no_status, no_feature))))

  handle_setup-Done : (buffer : Option (List ℕ)) → Done buffer (handle_setup ops c s buffer)
  unfolding handle_setup is_standard
  handle_setup-Done buffer =
      cases (Done buffer) (is_standard s && s.request == 0)
        (λ e. get_status-Done buffer (ground (arith, e)) (ground (arith, e)))
        (λ no_status.
          cases (Done buffer) (is_standard s && (s.request == 1 || s.request == 3))
            (λ e. change_feature-Done buffer (ground (arith, e)) (ground (arith, e)))
            (λ no_feature. handle_rest-Done buffer no_status no_feature))

-- A control transfer with a setup packet is traced in one entry, whose outcome is 1 exactly on
-- success. An HCI command with a buffer is given to the transport, its bytes once, and the answer is
-- the transport's acceptance. Anything else leaves the transport alone: a standard request for the
-- status with two bytes of room, or for a feature other than remote wake-up, succeeds, and a request
-- is refused only if it has no buffer or too short a one, asks for remote wake-up, or is no HCI
-- command, status or feature request.
pub answer_control-Done :
    {T : Type 0} (ops : CommandTransport T) (c : Control T) (s : Setup) (buffer : Option (List ℕ))
    → Traced c (setup_bytes s) (answer_control ops c (control_transfer s buffer))
      × Seen ops c s buffer (answer_control ops c (control_transfer s buffer))
unfolding answer_control handle_control
answer_control-Done ops c s buffer = handle_setup-Done ops c s buffer
