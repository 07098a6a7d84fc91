-- ===== src/Plug.antt =====
-- src/driver/driver.c and src/driver/device.c, the USB child: its creation, the plug-in by the UART
-- worker, and the preparation, the power transitions and the release of the hardware around it. The
-- framework's answers are a parameter, by the number of calls before. A child that the framework is
-- asked to plug out is handed over to it, whatever it answers, and leaves some time later if it has
-- accepted. The calls that arm the worker or ask it to stop are left out.
pub mod Created
pub mod Life
mod Examples
use virt_bth_usb.Common.{
  ℕ, zero, suc, ◌+◌, ◌-◌, Bool, true, false, not, ◌&&◌, ◌||◌, Option, none, some, List, [], ◌∷◌,
  if◌then◌else◌, inc32,
}
use virt_bth_usb.UsbDescriptors.{get_string_descriptor}
use virt_bth_usb.Voice.{Voice}
use virt_bth_usb.Voice.Tick.{flush}

-- The calls so far, the init objects and device objects that the driver holds, the calls that plugged a
-- child in, and what has become of these children: they are plugged in and the driver has not asked for
-- their removal; or it has, and they are on their way out, the framework refused, or they are gone. And
-- whether UsbDevice is set.
pub record Usb : Type 0 where
  pub calls : ℕ
  pub inits : ℕ
  pub devices : ℕ
  pub plug_ins : ℕ
  pub children : ℕ
  pub leaving : ℕ
  pub refused : ℕ
  pub gone : ℕ
  pub usb_device : Bool

-- The fields of DECKBT_CONTROLLER for the child, and g_DeckBtStubArmClaim.
pub record Plug (T : Type 0) : Type 0 where
  pub usb : Usb
  pub backend_prepared : Bool
  pub is_uart : Bool
  pub rearm_on_d0_entry : Bool
  pub resume_rearms : ℕ
  pub resume_replacements : ℕ
  pub stub_arm_claimed : Bool
  pub arm_claim : Bool
  pub voice : Voice T

-- HciTransportReset, and the transport bound to the synthetic controller, after HciStubInit or not, or
-- to the UART.
pub record Backends (T : Type 0) : Type 0 where
  pub reset : T → T
  pub init_stub : T → T
  pub bind_stub : T → T
  pub bind_uart : T → T

module _ (answers : ℕ → Bool) where
  unfoldable pub ask : Usb → Bool × Usb
  ask u = (answers u.calls, record u { calls = u.calls + 1 })

  -- The loop over the string descriptors.
  unfoldable pub add_strings : List ℕ → Usb → Bool × Usb
  add_strings [] u = (true, u)
  add_strings (i ∷ strings) u =
      let (ok, asked) = ask u in
      let rest = add_strings strings asked in
      elim (get_string_descriptor i) [
        | none ↦ (false, u)
        | some d ↦ if ok then rest else (false, asked)
      ]

  unfoldable pub add_descriptors : Usb → Bool × Usb
  add_descriptors u =
      let (device, u1) = ask u in
      let (config, u2) = ask u1 in
      let (lang_ids, u3) = ask u2 in
      let rest = add_strings (1 ∷ 2 ∷ 3 ∷ []) u3 in
      if not device
      then (false, u1)
      else if not config
      then (false, u2)
      else if not lang_ids
      then (false, u3)
      else rest

  -- The device object and its plug-in, with the cleanup.
  unfoldable pub create_object : Usb → Bool × Usb
  create_object u =
      let (is_created, u1) = ask u in
      let (is_plugged, u2) = ask (record u1 { inits = u1.inits - 1; devices = u1.devices + 1 }) in
      if not is_created
      then (false, record u1 { inits = u1.inits - 1 })
      else if is_plugged
      then (
        true,
        record u2 { plug_ins = u2.plug_ins + 1; children = u2.children + 1; usb_device = true },
      )
      else (false, record u2 { devices = u2.devices - 1 })

  -- DeckBtCreateUsbDevice.
  unfoldable pub create_usb_device : Usb → Bool × Usb
  create_usb_device u =
      let (is_allocated, u1) = ask u in
      let (ok, u2) = add_descriptors (record u1 { inits = u1.inits + 1 }) in
      if not is_allocated
      then (false, u1)
      else if not ok
      then (false, record u2 { inits = u2.inits - 1 })
      else create_object u2

  -- The loop of DeckBtPublishUartDevice, with `n` attempts after this one.
  unfoldable pub attempts : ℕ → Usb → Bool × Usb
  attempts zero u = create_usb_device u
  attempts (suc n) u =
      let (ok, tried) = create_usb_device u in
      let rest = attempts n tried in if ok then (true, tried) else rest

  -- UdecxUsbDevicePlugOutAndDelete, with UsbDevice cleared: the status, and the child handed over.
  unfoldable pub plug_out : Usb → Bool × Usb
  plug_out u =
      let (ok, u1) = ask u in
      (
        ok,
        record u1 {
          usb_device = false;
          devices = u1.devices - 1;
          children = u1.children - 1;
          leaving = if ok then u1.leaving + 1 else u1.leaving;
          refused = if ok then u1.refused else u1.refused + 1;
        },
      )

-- A child that was plugged out leaves.
unfoldable pub leave : Usb → Usb
leave u = record u { leaving = u.leaving - 1; gone = u.gone + 1 }

unfoldable pub flush_and_reset : {T : Type 0} → Backends T → Voice T → Voice T
flush_and_reset b v = let (w, n) = flush v in record w { transport = b.reset w.transport }

module _ {T : Type 0} (b : Backends T) where
  -- The end of DeckBtEvtDevicePrepareHardware for the UART: whether a worker is still active, and
  -- whether the probe is armed.
  unfoldable pub prepare_uart : Bool → Bool → Plug T → Plug T × Bool
  prepare_uart is_active is_armed c =
      let v = c.voice in
      let bound = b.bind_uart v.transport in
      if is_active
      then (record c { backend_prepared = false; is_uart = false }, false)
      else if is_armed
      then (
        record c {
          backend_prepared = true;
          is_uart = true;
          voice = record v { transport = bound };
        },
        true,
      )
      else (
        record c {
          backend_prepared = false;
          is_uart = false;
          voice = record v { transport = b.bind_stub bound };
        },
        false,
      )

module _ {T : Type 0} (b : Backends T) (answers : ℕ → Bool) where
  -- A child from before a sleep is plugged out, whatever the status of that.
  unfoldable pub remove_stale : Plug T → Plug T
  remove_stale c =
      if c.usb.usb_device
      then record c { usb = (plug_out answers c.usb).1; voice = flush_and_reset b c.voice }
      else c

  -- DeckBtEvtDeviceReleaseHardware, with its status.
  unfoldable pub release : Plug T → Plug T × Bool
  release c =
      let (status, usb) = if c.usb.usb_device then plug_out answers c.usb else (true, c.usb) in
      (
        record c {
          usb = usb;
          backend_prepared = false;
          is_uart = false;
          stub_arm_claimed = false;
          arm_claim = if c.stub_arm_claimed then false else c.arm_claim;
          voice = let v = (flush c.voice).0 in record v { transport = b.init_stub v.transport };
        },
        status,
      )

  -- DeckBtPublishUartDevice, between the waits for the gate.
  unfoldable pub publish : Plug T → Plug T × Bool
  publish c =
      let cleared = remove_stale c in
      let (ok, usb) = attempts answers 19 cleared.usb in
      let published = record cleared {
        usb = usb;
        resume_replacements =
            if c.usb.usb_device && ok then inc32 c.resume_replacements else c.resume_replacements;
      } in
      if not c.backend_prepared || not c.is_uart then (c, false) else (published, ok)

  -- The end of DeckBtEvtDevicePrepareHardware for the synthetic controller, once the arming is claimed.
  unfoldable pub prepare_stub : Plug T → Plug T × Bool
  prepare_stub c =
      let v = c.voice in
      let ready = b.init_stub v.transport in
      let (ok, usb) = create_usb_device answers c.usb in
      let bound = record c { usb = usb; is_uart = false; voice = record v { transport = ready } } in
      if ok then (record bound { backend_prepared = true }, true) else (
        record bound {
          backend_prepared = false;
          voice = record v { transport = b.bind_stub ready };
          stub_arm_claimed = false;
          arm_claim = if c.stub_arm_claimed then false else c.arm_claim;
        },
        false,
      )

module _ {T : Type 0} where
  -- DeckBtEvtControllerD0Exit, for D3Final or another target.
  unfoldable pub d0_exit : Bool → Plug T → Plug T
  d0_exit is_final c = record c {
    rearm_on_d0_entry = not is_final && c.backend_prepared && c.is_uart && c.usb.usb_device;
  }

  -- DeckBtEvtControllerD0Entry: whether the session is armed again.
  unfoldable pub d0_entry : Plug T → Plug T × Bool
  d0_entry c =
      if c.rearm_on_d0_entry
      then (record c { rearm_on_d0_entry = false; resume_rearms = inc32 c.resume_rearms }, true)
      else (c, false)
