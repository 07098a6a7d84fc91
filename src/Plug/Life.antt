-- ===== src/Plug/Life.antt =====
-- src/driver/driver.c, the life of the USB child over preparations, publications by the worker, power
-- transitions and releases in any order.
use virt_bth_usb.Common.{ℕ, ◌+◌, ◌<◌, ◌≡◌, ◌⊎◌, Bool, true, false, if◌then◌else◌}
use virt_bth_usb.Plug.{
  Usb, Plug, Backends, leave, publish, prepare_uart, prepare_stub, release, d0_exit, d0_entry,
}

abbrev pub count_if : Bool → ℕ
count_if t = if t then 1 else 0

-- The driver holds no init object, and the one device object and child that UsbDevice names, if any.
-- Every child ever plugged in is accounted for.
pub record IsHeld (u : Usb) : Type 0 where
  pub inits : u.inits ≡ 0
  pub devices : u.devices ≡ count_if u.usb_device
  pub children : u.children ≡ count_if u.usb_device
  pub accounts : u.plug_ins ≡ u.children + u.leaving + u.refused + u.gone

-- What a creation makes of no child.
abbrev Fresh : Bool × Usb → Type 0
Fresh r = IsHeld r.1 × (r.1.usb_device ≡ r.0)

module _ {T : Type 0} (b : Backends T) where
  -- The callbacks of the framework and the worker, and the framework's work on a child that it has
  -- been asked to remove. The hardware is prepared when it was never prepared or has been released,
  -- and the answers of the framework may be others in each step.
  pub data Step (c : Plug T) : Plug T → Type 0 where
    prepares_stub :
        (answers : ℕ → Bool) → c.backend_prepared ≡ false → Step c (prepare_stub b answers c).0
    prepares_uart :
        (is_active is_armed : Bool)
        → c.backend_prepared ≡ false
        → Step c (prepare_uart b is_active is_armed c).0
    publishes : (answers : ℕ → Bool) → Step c (publish b answers c).0
    exits_d0 : (is_final : Bool) → Step c (d0_exit is_final c)
    enters_d0 : Step c (d0_entry c).0
    releases : (answers : ℕ → Bool) → Step c (release b answers c).0
    leaves : 0 < c.usb.leaving → Step c (record c { usb = leave c.usb })

  pub data Reach (c : Plug T) : Plug T → Type 0 where
    here : Reach c c
    next : {d e : Plug T} → Reach c d → Step d e → Reach c e

  -- And there is no child that the driver has not asked to leave unless the backend is prepared.
  pub record IsPlugged (c : Plug T) : Type 0 where
    pub held : IsHeld c.usb
    pub covered : (c.backend_prepared ≡ true) ⊎ (c.usb.usb_device ≡ false)
