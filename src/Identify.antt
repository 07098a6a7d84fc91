-- ===== src/Identify.antt =====
-- src/common/qca_identify.c: the identification probe that steps through baud rates. The record and
-- its out-parameters are values; the NULL guards have no counterpart.
pub mod Ladder
mod Examples
use virt_bth_usb.Common.{
  ℕ, ◌+◌, ◌-◌, ◌/◌, ◌%◌, ◌^◌, Bool, true, false, Option, none, some, List, [], ◌∷◌,
}
use virt_bth_usb.Common.{◌==◌, ltb, leb, ◌||◌, if◌then◌else◌, get_or, inc32}
use virt_bth_usb.H4.{pkt_command}
use virt_bth_usb.Protocol.{edl_patch_cmd_opcode, edl_patch_ver_req_cmd}
use virt_bth_usb.Edl.{SocVersion, no_version, parse_version_event}

pub record Identify : Type 0 where
  pub rates : List ℕ
  pub rate_count : ℕ
  pub index : ℕ
  pub attempts : ℕ
  pub answered : Bool
  pub finished : Bool
  pub answered_rate : ℕ
  pub version : SocVersion

unfoldable pub identify_init : Identify
identify_init = record {
  rates = 115200 ∷ 3000000 ∷ 3200000 ∷ 0 ∷ [];
  rate_count = 3;
  index = 0;
  attempts = 0;
  answered = false;
  finished = false;
  answered_rate = 0;
  version = no_version;
}

-- `some rate` where the function returns TRUE and writes *Rate.
unfoldable pub next_rate : Identify → Identify × Option ℕ
next_rate s =
    if s.answered
    then (record s { finished = true }, none)
    else if s.finished
    then (s, none)
    else if leb s.rate_count s.index
    then (record s { finished = true }, none)
    else (
      record s { index = inc32 s.index; attempts = inc32 s.attempts },
      some (get_or s.rates s.index 0),
    )

pub build_request : ℕ → List ℕ
build_request capacity =
    if ltb capacity 5
    then []
    else pkt_command
      ∷ edl_patch_cmd_opcode % 256
      ∷ edl_patch_cmd_opcode / 256 % 256
      ∷ 0x01
      ∷ edl_patch_ver_req_cmd
      ∷ []

unfoldable pub on_packet : Identify → List ℕ → Identify × Bool
on_packet s packet =
    if s.finished || s.answered
    then (s, false)
    else if s.attempts == 0 || ltb s.rate_count s.attempts
    then (s, false)
    else elim (parse_version_event packet) [
      | none ↦ (s, false)
      | some v ↦ (
        record s {
          version = v;
          answered_rate = get_or s.rates (s.attempts - 1) 0;
          answered = true;
          finished = true;
        },
        true,
      )
    ]
