-- ===== src/H4/Examples.antt =====
-- The codec's theorems at concrete streams.
use virt_bth_usb.Common.{ℕ, ◌≡◌, refl, arith, none, List, [], ◌∷◌, All}
use virt_bth_usb.H4.{
  decoder_init, feed, idle, get_header_length, get_max_payload, parse_payload_length, encode_packet,
}
use virt_bth_usb.H4.Bounds.{IsValid, feed-IsValid, decoder_init-IsValid}
use virt_bth_usb.H4.Stream.{feed_chunks, joined}
use virt_bth_usb.H4.RoundTrip.{Packet, ArePackets, wire, Decodes, feed_chunks-wire}
use virt_bth_usb.H4.Account.{Accounts, tally, no_tally, feed_init-Accounts}

-- A callback that keeps the packets it was called with, newest first.
abbrev keep_all : List Packet → ℕ → List ℕ → List Packet
keep_all c t p = (t, p) ∷ c

-- HCI_Reset, and an empty inquiry-complete event.
abbrev two_packets : List Packet
two_packets = (1, 3 ∷ 12 ∷ 0 ∷ []) ∷ (4, 1 ∷ 1 ∷ 0 ∷ []) ∷ []

two_packets-ArePackets : ArePackets two_packets
unfolding get_header_length parse_payload_length get_max_payload
two_packets-ArePackets = (
  record { known = omega arith; framed = refl; legal = omega arith },
  (record { known = omega arith; framed = refl; legal = omega arith }, tt),
)

abbrev two_chunks : List (List ℕ)
two_chunks = (1 ∷ 3 ∷ []) ∷ (12 ∷ 0 ∷ 4 ∷ 1 ∷ 1 ∷ 0 ∷ []) ∷ []

two_chunks-joined : joined two_chunks ≡ wire two_packets
unfolding encode_packet
two_chunks-joined = refl

init-idle : decoder_init.state ≡ idle
unfolding decoder_init
init-idle = refl

feed_chunks-wire_example :
    Decodes keep_all none two_packets decoder_init []
      (feed_chunks keep_all none decoder_init [] two_chunks)
feed_chunks-wire_example =
    feed_chunks-wire keep_all none two_packets two_chunks decoder_init [] two_packets-ArePackets
      two_chunks-joined init-idle

feed-IsValid_example :
    IsValid (feed keep_all none decoder_init [] (1 ∷ 3 ∷ 12 ∷ 0 ∷ 9 ∷ [])).0
    × ArePackets (feed keep_all none decoder_init [] (1 ∷ 3 ∷ 12 ∷ 0 ∷ 9 ∷ [])).1
feed-IsValid_example =
    feed-IsValid keep_all none ArePackets (λ c t p k w. (w, k)) (λ claim c b e k. cc)
      (1 ∷ 3 ∷ 12 ∷ 0 ∷ 9 ∷ []) decoder_init [] decoder_init-IsValid tt

feed_init-Accounts_example :
    let (d, c) = feed tally none decoder_init no_tally (0xFE ∷ 4 ∷ 1 ∷ 1 ∷ 0 ∷ 2 ∷ []) in
    Accounts 6 d c
feed_init-Accounts_example = feed_init-Accounts (0xFE ∷ 4 ∷ 1 ∷ 1 ∷ 0 ∷ 2 ∷ [])

strays : All (λ (b : ℕ). get_header_length b ≡ 0) (0xFE ∷ 0xFD ∷ [])
unfolding get_header_length
strays = (refl, (refl, tt))
