-- ===== src/Uart/Advertisers.antt =====
-- src/driver/qca_uart.c, QcaUartNoteAdvertiser: the table of advertisers.
use virt_bth_usb.Common.{ℕ, ◌-◌, ◌≤◌, ◌≡◌, arith, false}
use virt_bth_usb.Common.{List, [], ◌∷◌, length, All, ◌==◌, either, cases}
use virt_bth_usb.Uart.{AdvSeen, same_advertiser, count_advertiser}

-- No two entries are of the same advertiser.
unfoldable pub AreDistinct : List AdvSeen → Type 0
AreDistinct [] = Unit
AreDistinct (a ∷ seen) = All (λ b. same_advertiser a b ≡ false) seen × AreDistinct seen

-- The table's entries, none of an advertiser that another one is of, and no more than its slots.
pub record IsTable (room : ℕ) (seen : List AdvSeen) : Type 0 where
  pub fits : length seen ≤ room
  pub distinct : AreDistinct seen

count_advertiser-fits :
    (room : ℕ) (seen : List AdvSeen) (new : AdvSeen)
    → length seen ≤ room
    → length (count_advertiser room seen new) ≤ room
unfolding count_advertiser
count_advertiser-fits room [] new h =
    cases (λ (r : List AdvSeen). length r ≤ room) (room == 0) (λ _. omega arith)
      (λ some_room. ground (arith, some_room))
count_advertiser-fits room (a ∷ seen) new h =
    either (λ (r : List AdvSeen). length r ≤ room) (same_advertiser a new) h
      (omega (arith, count_advertiser-fits (room - 1) seen new (omega arith)))

-- An entry that is not the new one's stays apart from all the others.
count_advertiser-apart :
    (a : AdvSeen) (room : ℕ) (seen : List AdvSeen) (new : AdvSeen)
    → same_advertiser a new ≡ false
    → All (λ b. same_advertiser a b ≡ false) seen
    → All (λ b. same_advertiser a b ≡ false) (count_advertiser room seen new)
unfolding count_advertiser
count_advertiser-apart a room [] new h k =
    either (All (λ b. same_advertiser a b ≡ false)) (room == 0) tt (h, tt)
count_advertiser-apart a room (b ∷ seen) new h k =
    either (All (λ c. same_advertiser a c ≡ false)) (same_advertiser b new) k
      (k.0, count_advertiser-apart a (room - 1) seen new h k.1)

count_advertiser-distinct :
    (room : ℕ) (seen : List AdvSeen) (new : AdvSeen)
    → AreDistinct seen
    → AreDistinct (count_advertiser room seen new)
unfolding count_advertiser AreDistinct
count_advertiser-distinct room [] new h = either AreDistinct (room == 0) tt (tt, tt)
count_advertiser-distinct room (a ∷ seen) new h =
    cases AreDistinct (same_advertiser a new) (λ same. h)
      (λ other. (
        count_advertiser-apart a (room - 1) seen new other h.0,
        count_advertiser-distinct (room - 1) seen new h.1,
      ))

pub count_advertiser-IsTable :
    (room : ℕ) (seen : List AdvSeen) (new : AdvSeen)
    → IsTable room seen
    → IsTable room (count_advertiser room seen new)
count_advertiser-IsTable room seen new v = record {
  fits = count_advertiser-fits room seen new v.fits;
  distinct = count_advertiser-distinct room seen new v.distinct;
}
