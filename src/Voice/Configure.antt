-- ===== src/Voice/Configure.antt =====
-- src/driver/device.c, DeckBtEvtEndpointsConfigure: a change of the alternate setting is recognised from
-- the endpoints that are configured and released, and ends the voice stream.
use virt_bth_usb.Common.{
  ℕ, zero, suc, ◌+◌, ◌%◌, ◌≤◌, ◌≡◌, refl, sym, arith, Bool, ◌||◌, Option, none, some, List, [], ◌∷◌,
}
use virt_bth_usb.Common.{◌==◌, ltb, drop, get_or, if◌then◌else◌, inc32}
use virt_bth_usb.UsbDescriptors.{sco_alt_packet_sizes}
use virt_bth_usb.ScoUsb.Out.{out_reset}
use virt_bth_usb.ScoUsb.In.{in_reset}
use virt_bth_usb.Voice.{Voice}
use virt_bth_usb.Voice.Tick.{flush_framers, flush}

-- DECKBT_ENDPOINT.
pub record Endpoint : Type 0 where
  pub address : ℕ
  pub max_packet_size : ℕ

-- AltSetting and AltChanges of DECKBT_SCO_STATS.
pub record Setting : Type 0 where
  pub alt_setting : ℕ
  pub alt_changes : ℕ

unfoldable pub is_sco : Endpoint → Bool
is_sco e = e.address == 0x03 || e.address == 0x83

-- The larger of two sizes, the first of them none for -1.
unfoldable pub larger : Option ℕ → ℕ → Option ℕ
larger none n = some n
larger (some m) n = if ltb m n then some n else some m

unfoldable pub largest_from : Option ℕ → List Endpoint → Option ℕ
largest_from size [] = size
largest_from size (e ∷ endpoints) =
    largest_from (if is_sco e then larger size e.max_packet_size else size) endpoints

-- DeckBtScoPacketSizeIn, none for -1.
unfoldable pub sco_packet_size_in : List Endpoint → Option ℕ
sco_packet_size_in endpoints = largest_from none endpoints

-- The loop over the settings from `setting`, of which the last one with the size counts.
unfoldable pub match_setting : ℕ → ℕ → List ℕ → ℕ → ℕ
match_setting size setting [] alt = alt
match_setting size setting (s ∷ sizes) alt =
    match_setting size (setting + 1) sizes (if s == size % 65536 then setting else alt)

unfoldable pub setting_of : Option ℕ → ℕ
setting_of none = 0
setting_of (some size) =
    if ltb 0 size then match_setting size 1 (drop 1 sco_alt_packet_sizes) 0 else 0

unfoldable pub change_setting : {T : Type 0} → Option ℕ → Setting → Voice T → Setting × Voice T
change_setting configured s v = (
  record s { alt_setting = setting_of configured; alt_changes = inc32 s.alt_changes },
  (flush v).0,
)

-- The configuration by the packet sizes of the endpoints configured and released.
unfoldable pub configure_sizes :
    {T : Type 0} → Option ℕ → Option ℕ → Setting → Voice T → Setting × Voice T
configure_sizes none none s v = (s, v)
configure_sizes none (some released) s v = change_setting none s v
configure_sizes (some configured) released s v = change_setting (some configured) s v

-- DeckBtEvtEndpointsConfigure with nothing in between.
unfoldable pub configure :
    {T : Type 0} → List Endpoint → List Endpoint → Setting → Voice T → Setting × Voice T
configure configured released s v =
    configure_sizes (sco_packet_size_in configured) (sco_packet_size_in released) s v

-- No transfer is parked, no voice is queued, and the clocks start again.
pub record IsEnded {T : Type 0} (v : Voice T) : Type 0 where
  pub out_queue : v.out_queue ≡ []
  pub in_queue : v.in_queue ≡ []
  pub sco_out : v.sco_out ≡ out_reset
  pub sco_in : v.sco_in ≡ in_reset
  pub out_clock : v.out_clock ≡ 0
  pub in_clock : v.in_clock ≡ 0

flush-IsEnded : {T : Type 0} (v : Voice T) → IsEnded (flush v).0
unfolding flush flush_framers
flush-IsEnded v = record {
  out_queue = refl;
  in_queue = refl;
  sco_out = refl;
  sco_in = refl;
  out_clock = refl;
  in_clock = refl;
}

-- The seven sizes are those of seven settings.
setting_of-size : (alt : ℕ) → alt ≤ 6 → setting_of (some (get_or sco_alt_packet_sizes alt 0)) ≡ alt
unfolding setting_of match_setting
setting_of-size zero h = refl
setting_of-size (suc zero) h = refl
setting_of-size (suc (suc zero)) h = refl
setting_of-size (suc (suc (suc zero))) h = refl
setting_of-size (suc (suc (suc (suc zero)))) h = refl
setting_of-size (suc (suc (suc (suc (suc zero))))) h = refl
setting_of-size (suc (suc (suc (suc (suc (suc zero)))))) h = refl
setting_of-size (suc (suc (suc (suc (suc (suc (suc n))))))) h = absurd (omega (arith, h))

-- The endpoints configured or released are those of a setting: the ones configured have its packet
-- size, or there is none of them and some are released.
pub data Selects (alt : ℕ) (configured released : List Endpoint) : Type 0 where
  by_size :
      sco_packet_size_in configured ≡ some (get_or sco_alt_packet_sizes alt 0)
      → Selects alt configured released
  by_release :
      (size : ℕ)
      → alt ≡ 0
      → sco_packet_size_in configured ≡ none
      → sco_packet_size_in released ≡ some size
      → Selects alt configured released

-- When the SCO endpoints configured are those of one of the seven alternate settings, or some are
-- released and none configured, which is setting 0, then that setting is recorded, the change is
-- counted, and the voice stream is ended: no transfer is parked, no voice is queued, and the clocks
-- start again.
pub configure-recognises :
    {T : Type 0} (alt : ℕ) (configured released : List Endpoint) (s : Setting) (v : Voice T)
    → alt ≤ 6
    → Selects alt configured released
    → ((configure configured released s v).0.alt_setting ≡ alt)
      × ((configure configured released s v).0.alt_changes ≡ inc32 s.alt_changes)
      × IsEnded (configure configured released s v).1
unfolding configure configure_sizes change_setting setting_of
configure-recognises alt configured released s v h (by_size e) =
    rw e (setting_of-size alt h, refl, flush-IsEnded v)
configure-recognises alt configured released s v h (by_release size z n e) =
    rw (n, e) (sym z, refl, flush-IsEnded v)

-- Endpoints of other kinds change nothing.
configure_others :
    {T : Type 0} (configured released : List Endpoint) (s : Setting) (v : Voice T)
    → sco_packet_size_in configured ≡ none
    → sco_packet_size_in released ≡ none
    → configure configured released s v ≡ (s, v)
unfolding configure configure_sizes
configure_others configured released s v n m = rw (n, m) refl
