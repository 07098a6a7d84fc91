-- ===== src/Bridge/Rings.antt =====
-- src/common/hci_bridge.c: what it is for the four rings and the credits to be in order.
use virt_bth_usb.Common.{ℕ, zero, suc, ◌≡◌, refl, arith}
use virt_bth_usb.Common.{replicate, ltb, ◌==◌, either}
use virt_bth_usb.Fifo.{Fifo}
use virt_bth_usb.Fifo.Queue.{IsRing, empty_fifo-IsRing, rewind-IsRing}
use virt_bth_usb.Bridge.{
  Bridge, free_entry, max_handles, bridge_init, bridge_reset, event_fifo_depth, acl_in_fifo_depth,
  sco_fifo_depth, sco_out_fifo_depth,
}
use virt_bth_usb.Bridge.Credits.{clamp_credits}
use virt_bth_usb.Bridge.Accounting.{flying, IsBalanced}

pub record Rings (events acl sco outbound : Fifo) : Type 0 where
  pub events_ring : IsRing event_fifo_depth events
  pub acl_ring : IsRing acl_in_fifo_depth acl
  pub sco_ring : IsRing sco_fifo_depth sco
  pub outbound_ring : IsRing sco_out_fifo_depth outbound

pub with_events : {e a s o e' : Fifo} → Rings e a s o → IsRing event_fifo_depth e' → Rings e' a s o
with_events v r = record {
  events_ring = r;
  acl_ring = v.acl_ring;
  sco_ring = v.sco_ring;
  outbound_ring = v.outbound_ring;
}

pub with_acl : {e a s o a' : Fifo} → Rings e a s o → IsRing acl_in_fifo_depth a' → Rings e a' s o
with_acl v r = record {
  events_ring = v.events_ring;
  acl_ring = r;
  sco_ring = v.sco_ring;
  outbound_ring = v.outbound_ring;
}

pub with_sco : {e a s o s' : Fifo} → Rings e a s o → IsRing sco_fifo_depth s' → Rings e a s' o
with_sco v r = record {
  events_ring = v.events_ring;
  acl_ring = v.acl_ring;
  sco_ring = r;
  outbound_ring = v.outbound_ring;
}

pub with_outbound :
    {e a s o o' : Fifo} → Rings e a s o → IsRing sco_out_fifo_depth o' → Rings e a s o'
with_outbound v r = record {
  events_ring = v.events_ring;
  acl_ring = v.acl_ring;
  sco_ring = v.sco_ring;
  outbound_ring = r;
}

abbrev pub HasRings : Bridge → Type 0
HasRings b = Rings b.event_fifo b.acl_in_fifo b.sco_in_fifo b.outbound_sco_fifo

abbrev pub IsSound : Bridge → Type 0
IsSound b = IsBalanced b × HasRings b

pub flying-replicate : (n : ℕ) → flying (replicate n free_entry) ≡ 0
unfolding flying
flying-replicate zero = refl
flying-replicate (suc n) = omega (arith, flying-replicate n)

pub bridge_init-IsSound : IsSound bridge_init
unfolding bridge_init
bridge_init-IsSound = (
  record {
    table = refl;
    total_fits = omega arith;
    flying_fits = omega (arith, flying-replicate max_handles);
    within = omega arith;
  },
  record {
    events_ring = empty_fifo-IsRing 16 (omega arith);
    acl_ring = empty_fifo-IsRing 8 (omega arith);
    sco_ring = empty_fifo-IsRing 8 (omega arith);
    outbound_ring = empty_fifo-IsRing 8 (omega arith);
  },
)

pub bridge_reset-IsSound : (b : Bridge) → IsSound b → IsSound (bridge_reset b)
unfolding bridge_reset
bridge_reset-IsSound b v = (
  record {
    table = refl;
    total_fits = v.0.total_fits;
    flying_fits = omega (arith, flying-replicate max_handles);
    within = omega (arith, flying-replicate max_handles);
  },
  record {
    events_ring = rewind-IsRing _ _ v.1.events_ring;
    acl_ring = rewind-IsRing _ _ v.1.acl_ring;
    sco_ring = rewind-IsRing _ _ v.1.sco_ring;
    outbound_ring = rewind-IsRing _ _ v.1.outbound_ring;
  },
)

pub clamp_credits-HasRings : (b : Bridge) → HasRings b → HasRings (clamp_credits b)
unfolding clamp_credits
clamp_credits-HasRings b v =
    either HasRings (b.total_acl_buffers == 0) v
      (either HasRings (ltb _ b.available_acl_credits) v v)
