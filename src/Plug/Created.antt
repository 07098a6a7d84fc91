-- ===== src/Plug/Created.antt =====
-- src/driver/device.c, DeckBtCreateUsbDevice: it leaves a child or nothing.
use virt_bth_usb.Common.{
  ℕ, zero, suc, ◌+◌, ◌-◌, ◌≡◌, refl, ap, ◌∙◌, arith, Bool, true, false, not, List, [], ◌∷◌, inl,
  inr, Option-cases, either,
}
use virt_bth_usb.UsbDescriptors.{get_string_descriptor}
use virt_bth_usb.Plug.{
  Usb, ask, add_strings, add_descriptors, create_object, create_usb_device, attempts,
}

-- The children that have been plugged out are the same.
pub record SameLeft (u v : Usb) : Type 0 where
  pub leaving : v.leaving ≡ u.leaving
  pub refused : v.refused ≡ u.refused
  pub gone : v.gone ≡ u.gone

-- Only calls were made.
pub record Same (u v : Usb) : Type 0 where
  pub inits : v.inits ≡ u.inits
  pub devices : v.devices ≡ u.devices
  pub plug_ins : v.plug_ins ≡ u.plug_ins
  pub children : v.children ≡ u.children
  pub left : SameLeft u v
  pub usb_device : v.usb_device ≡ u.usb_device

-- Nothing is left behind, or a child that UsbDevice names.
pub data Creates (u : Usb) (r : Bool × Usb) : Type 0 where
  nothing_left : r.0 ≡ false → Same u r.1 → Creates u r
  plugged_in :
      r.0 ≡ true
      → r.1.inits ≡ u.inits
      → r.1.devices ≡ u.devices + 1
      → r.1.plug_ins ≡ u.plug_ins + 1
      → r.1.children ≡ u.children + 1
      → SameLeft u r.1
      → r.1.usb_device ≡ true
      → Creates u r

same_left : (u : Usb) → SameLeft u u
same_left u = record { leaving = refl; refused = refl; gone = refl }

SameLeft-trans : {u v w : Usb} → SameLeft u v → SameLeft v w → SameLeft u w
SameLeft-trans s t = record {
  leaving = t.leaving ∙ s.leaving;
  refused = t.refused ∙ s.refused;
  gone = t.gone ∙ s.gone;
}

same :
    (u v : Usb)
    → v.inits ≡ u.inits
    → v.devices ≡ u.devices
    → v.plug_ins ≡ u.plug_ins
    → v.children ≡ u.children
    → SameLeft u v
    → v.usb_device ≡ u.usb_device
    → Same u v
same u v a b p c l d = record {
  inits = a;
  devices = b;
  plug_ins = p;
  children = c;
  left = l;
  usb_device = d;
}

-- Another count of calls.
called : (u : Usb) (n : ℕ) → Same u (record u { calls = n })
called u n =
    same u _ refl refl refl refl (record { leaving = refl; refused = refl; gone = refl }) refl

Same-trans : {u v w : Usb} → Same u v → Same v w → Same u w
Same-trans s t = record {
  inits = t.inits ∙ s.inits;
  devices = t.devices ∙ s.devices;
  plug_ins = t.plug_ins ∙ s.plug_ins;
  children = t.children ∙ s.children;
  left = SameLeft-trans s.left t.left;
  usb_device = t.usb_device ∙ s.usb_device;
}

module _ (answers : ℕ → Bool) where
  add_strings-Same : (strings : List ℕ) (u : Usb) → Same u (add_strings answers strings u).1
  unfolding add_strings ask
  add_strings-Same [] u = called u u.calls
  add_strings-Same (i ∷ strings) u =
      let rest = add_strings-Same strings (record u { calls = u.calls + 1 }) in
      elim (Option-cases (get_string_descriptor i)) [
        | inl n ↦ rw (n, add_strings) (called u u.calls)
        | inr (d, e) ↦
            rw (e, add_strings)
              (either (λ (r : Bool × Usb). Same u r.1) (answers u.calls)
                (Same-trans (called u (u.calls + 1)) rest) (called u (u.calls + 1)))
      ]

  add_descriptors-Same : (u : Usb) → Same u (add_descriptors answers u).1
  unfolding add_descriptors ask
  add_descriptors-Same u =
      let asked = record u { calls = u.calls + 1 + 1 + 1 } in
      let P : Bool × Usb → Type 0 = λ r. Same u r.1 in
      let rest = add_strings-Same (1 ∷ 2 ∷ 3 ∷ []) asked in
      either P (not (answers u.calls)) (called u _) (
        either P (not (answers (u.calls + 1))) (called u _) (
          either P (not (answers (u.calls + 1 + 1))) (called u _)
            (Same-trans (called u (u.calls + 1 + 1 + 1)) rest)))

  pub create_usb_device-Creates : (u : Usb) → Creates u (create_usb_device answers u)
  unfolding create_usb_device create_object ask
  create_usb_device-Creates u =
      let P : Bool × Usb → Type 0 = Creates u in
      let started = record u { calls = u.calls + 1; inits = u.inits + 1 } in
      let described = add_descriptors answers started in
      let d = add_descriptors-Same started in
      let inits : described.1.inits - 1 ≡ u.inits = omega (arith, d.inits) in
      let left : SameLeft u described.1 = record {
        leaving = d.left.leaving;
        refused = d.left.refused;
        gone = d.left.gone;
      } in
      let reset : (n : ℕ)
          → Same u (record described.1 { calls = n; inits = described.1.inits - 1 }) =
        λ n.
          same u _ inits d.devices d.plug_ins d.children
            (record { leaving = left.leaving; refused = left.refused; gone = left.gone })
            d.usb_device in
      either P (not (answers u.calls)) (nothing_left refl (called u _)) (
        either P (not described.0) (nothing_left refl (reset described.1.calls)) (
          either P (not (answers described.1.calls))
            (nothing_left refl (reset (described.1.calls + 1)))
            (either P (answers (described.1.calls + 1))
              (plugged_in refl inits (ap (λ n. n + 1) d.devices) (ap (λ n. n + 1) d.plug_ins)
                (ap (λ n. n + 1) d.children)
                (record { leaving = left.leaving; refused = left.refused; gone = left.gone }) refl)
              (nothing_left refl (
                same u _ inits (omega (arith, d.devices)) d.plug_ins d.children
                  (record { leaving = left.leaving; refused = left.refused; gone = left.gone })
                  d.usb_device)))))

  -- What comes after an attempt that left nothing.
  again : (u v : Usb) (r : Bool × Usb) → Same u v → Creates v r → Creates u r
  again u v r s (nothing_left f t) = nothing_left f (Same-trans s t)
  again u v r s (plugged_in f i d p c l e) =
      plugged_in f (i ∙ s.inits) (d ∙ ap (λ n. n + 1) s.devices) (p ∙ ap (λ n. n + 1) s.plug_ins)
        (c ∙ ap (λ n. n + 1) s.children) (SameLeft-trans s.left l) e

  pub attempts-Creates : (n : ℕ) (u : Usb) → Creates u (attempts answers n u)
  unfolding attempts
  attempts-Creates zero u = create_usb_device-Creates u
  attempts-Creates (suc n) u =
      let tried = create_usb_device answers u in
      let rest = attempts-Creates n tried.1 in
      elim (create_usb_device-Creates u) [
        | nothing_left f s ↦ rw f (again u tried.1 _ s rest)
        | plugged_in f i d p c l e ↦ rw f (plugged_in refl i d p c l e)
      ]
