-- ===== src/Identify/Examples.antt =====
-- The probe's theorem for one session.
use virt_bth_usb.Common.{List, [], ◌∷◌}
use virt_bth_usb.Identify.{identify_init}
use virt_bth_usb.Identify.Ladder.{Call, next, packet, session, IsProbe, session_init-IsProbe}

-- Two rates without an answer, then a version response, then one more request.
abbrev some_calls : List Call
some_calls =
    next
    ∷ next
    ∷ packet
        (0x04 ∷ 0xFF ∷ 14 ∷ 0x00 ∷ 0x19 ∷ 9 ∷ 0 ∷ 0 ∷ 0 ∷ 2 ∷ 0 ∷ 1 ∷ 2 ∷ 0 ∷ 0x12 ∷ 0 ∷ 0 ∷ [])
    ∷ next
    ∷ []

session_init-IsProbe_example :
    let (s, out) = session (identify_init, []) some_calls in IsProbe s out
session_init-IsProbe_example = session_init-IsProbe some_calls
