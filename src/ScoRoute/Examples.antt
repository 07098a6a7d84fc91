-- ===== src/ScoRoute/Examples.antt =====
-- The rewriting's theorems for one command.
use virt_bth_usb.Common.{ℕ, ◌≡◌, ◌⊎◌, refl, arith, true, some, List, [], ◌∷◌}
use virt_bth_usb.ScoRoute.{
  setup, route_reset, legacy_of, transparent_of, voice_setting, rewrite_command, restore_event,
}
use virt_bth_usb.ScoRoute.Enhanced.{
  IsRewritten, rewrite_command-IsRewritten, verdict, status_for, legacy_status, restore-rewrite,
}

-- Setup_Synchronous_Connection on handle 1, transparent air coding.
abbrev some_setup : List ℕ
some_setup =
    0x28 ∷ 0x04 ∷ 17 ∷ 1 ∷ 0 ∷ 0x40 ∷ 0x1F ∷ 0 ∷ 0 ∷ 0x40 ∷ 0x1F ∷ 0 ∷ 0 ∷ 13 ∷ 0 ∷ 0x03 ∷ 0 ∷ 2
    ∷ 0x80 ∷ 3 ∷ []

rewrite_command-IsRewritten_example :
    (rewrite_command route_reset some_setup 66 ≡ (route_reset, []))
    ⊎ IsRewritten route_reset some_setup 66 (rewrite_command route_reset some_setup 66)
rewrite_command-IsRewritten_example = rewrite_command-IsRewritten route_reset some_setup 66

some_setup-legacy : legacy_of some_setup ≡ some setup
unfolding legacy_of
some_setup-legacy = refl

some_setup-transparent : transparent_of (voice_setting setup some_setup) ≡ some true
unfolding transparent_of
some_setup-transparent = refl

restore-rewrite_example :
    verdict (
      restore_event
        (rewrite_command route_reset some_setup 66).0
        (status_for 0 1 (rewrite_command route_reset some_setup 66).1))
    ≡ legacy_status setup 0 1
restore-rewrite_example =
    restore-rewrite route_reset some_setup 66 setup true 0 1 some_setup-legacy
      some_setup-transparent (omega arith)
