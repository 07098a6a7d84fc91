-- ===== src/Edl/Envelope.antt =====
-- src/common/qca_tlv.c: the EDL responses, as the packets that a controller would build.
use virt_bth_usb.Common.{
  ℕ, ◌+◌, ◌≡◌, ◌↔◌, ◌≢◌, Option-cases, ◌⊎◌, refl, sym, ◌∙◌, ap, arith, none, some, inl, inr,
}
use virt_bth_usb.Common.{List, [], ◌∷◌, length, All, IsByte, ◌==◌, Bool-cases, byte}
use virt_bth_usb.Common.{subst}
use virt_bth_usb.Edl.Version.{Encodes, make_version-iff-Encodes}
use virt_bth_usb.Edl.{
  edl_offset, parse_edl_response, parse_version_event, version_payload, make_version, SocVersion,
}

-- A vendor event with status 0, the selector and the data.
abbrev pub vendor_response : ℕ → List ℕ → List ℕ
vendor_response selector fields = 0x04 ∷ 0xFF ∷ (2 + length fields) ∷ 0x00 ∷ selector ∷ fields

-- A Command Complete of opcode 0xFC00 with the same.
abbrev pub complete_response : ℕ → ℕ → List ℕ → List ℕ
complete_response ncmd selector fields =
    0x04 ∷ 0x0E ∷ (5 + length fields) ∷ ncmd ∷ 0x00 ∷ 0xFC ∷ 0x00 ∷ selector ∷ fields

pub parse-vendor :
    (selector : ℕ) (fields : List ℕ)
    → parse_edl_response (vendor_response selector fields) selector ≡ some fields
unfolding parse_edl_response edl_offset
parse-vendor selector fields = ground arith

pub parse_complete :
    (ncmd selector : ℕ) (fields : List ℕ)
    → parse_edl_response (complete_response ncmd selector fields) selector ≡ some fields
unfolding parse_edl_response edl_offset
parse_complete ncmd selector fields = ground arith

abbrev pub Responds : List ℕ → ℕ → List ℕ → Type 0
Responds packet selector fields =
    (packet ≡ vendor_response selector fields)
    ⊎ ((ncmd : ℕ) × (packet ≡ complete_response ncmd selector fields))

parse-some :
    (packet : List ℕ) (selector : ℕ) (fields : List ℕ)
    → All IsByte packet
    → parse_edl_response packet selector ≡ some fields
    → Responds packet selector fields
unfolding parse_edl_response edl_offset
parse-some [] s f b e = cc
parse-some (p0 ∷ []) s f b e = cc
parse-some (p0 ∷ p1 ∷ []) s f b e = cc
parse-some (p0 ∷ p1 ∷ p2 ∷ []) s f b e = cc
parse-some (p0 ∷ p1 ∷ p2 ∷ p3 ∷ []) s f b e = cc
parse-some (p0 ∷ p1 ∷ p2 ∷ p3 ∷ p4 ∷ []) s f b e = inl (ground arith)
parse-some (p0 ∷ p1 ∷ p2 ∷ p3 ∷ p4 ∷ p5 ∷ []) s f b e = inl (ground arith)
parse-some (p0 ∷ p1 ∷ p2 ∷ p3 ∷ p4 ∷ p5 ∷ p6 ∷ []) s f b e = inl (ground arith)
parse-some (p0 ∷ p1 ∷ p2 ∷ p3 ∷ p4 ∷ p5 ∷ p6 ∷ p7 ∷ r) s f b e = elim (Bool-cases (p1 == 0xFF)) [
  | inl v ↦ inl (ground arith)
  | inr n ↦ inr (p3, ground arith)
]

-- A response of bytes is accepted for a selector, with some data, exactly if it is a well-formed
-- vendor event or Command Complete of opcode 0xFC00 with status 0, that selector and that data.
parse_edl_response-iff-Responds :
    (packet : List ℕ) (selector : ℕ) (fields : List ℕ)
    → All IsByte packet
    → (parse_edl_response packet selector ≡ some fields) ↔ Responds packet selector fields
parse_edl_response-iff-Responds packet selector fields b = (
  parse-some packet selector fields b,
  λ r. elim r [
    | inl v ↦ ap (λ (p : List ℕ). parse_edl_response p selector) v ∙ parse-vendor selector fields
    | inr (ncmd, c) ↦
        ap (λ (p : List ℕ). parse_edl_response p selector) c ∙ parse_complete ncmd selector fields
  ],
)

-- The version fields in either envelope: 12 bytes, behind one more byte in a Command Complete.
abbrev pub VersionPacket : List ℕ → List ℕ → Type 0
VersionPacket packet fields =
    (packet ≡ vendor_response 0x19 fields)
    ⊎ ((ncmd : ℕ) × (extra : ℕ) × (packet ≡ complete_response ncmd 0x19 (extra ∷ fields)))

payload-vendor :
    (fields : List ℕ) (v : SocVersion)
    → (version_payload 0xFF fields ≡ some v)
      ↔ ((length fields ≡ 12) × (make_version fields ≡ some v))
unfolding version_payload
payload-vendor fields v = (λ e. ground arith, λ e. ground arith)

payload_complete :
    (fields : List ℕ) (v : SocVersion)
    → version_payload 0x0E fields ≡ some v
    → (x : ℕ) × (rest : List ℕ) × (fields ≡ x ∷ rest)
      × (length rest ≡ 12)
      × (make_version rest ≡ some v)
unfolding version_payload
payload_complete [] v e = cc
payload_complete (x ∷ rest) v e = (x, rest, refl, ground arith, ground arith)

complete_payload :
    (x : ℕ) (rest : List ℕ) (v : SocVersion)
    → length rest ≡ 12
    → make_version rest ≡ some v
    → version_payload 0x0E (x ∷ rest) ≡ some v
unfolding version_payload
complete_payload x rest v n e = ground arith

at_fields :
    (packet fields : List ℕ)
    → parse_edl_response packet 0x19 ≡ some fields
    → parse_version_event packet ≡ version_payload (byte packet 1) fields
unfolding parse_version_event
at_fields packet fields e = rw (e, parse_version_event)

abbrev MadeIn : List ℕ → SocVersion → Type 0
MadeIn packet v =
    (fields : List ℕ) × (length fields ≡ 12)
    × VersionPacket packet fields
    × (make_version fields ≡ some v)

-- The packet carries twelve bytes that encode the version.
abbrev pub VersionIn : List ℕ → SocVersion → Type 0
VersionIn packet v =
    (fields : List ℕ) × (length fields ≡ 12) × VersionPacket packet fields × Encodes fields v

version_of :
    (packet fields : List ℕ) (v : SocVersion)
    → parse_edl_response packet 0x19 ≡ some fields
    → Responds packet 0x19 fields
    → parse_version_event packet ≡ some v
    → MadeIn packet v
version_of packet fields v e (inl q) p =
    let code : byte packet 1 ≡ 0xFF = ap (λ (x : List ℕ). byte x 1) q in
    let r =
      (payload-vendor fields v).0 (
        ap (λ (k : ℕ). version_payload k fields) (sym code)
        ∙ sym (at_fields packet fields e)
        ∙ p) in
    (fields, r.0, inl q, r.1)
version_of packet fields v e (inr (ncmd, q)) p =
    let code : byte packet 1 ≡ 0x0E = ap (λ (x : List ℕ). byte x 1) q in
    let (x, rest, same, n, m) =
      payload_complete fields v (
        ap (λ (k : ℕ). version_payload k fields) (sym code)
        ∙ sym (at_fields packet fields e)
        ∙ p) in
    (rest, n, inr (ncmd, x, q ∙ ap (complete_response ncmd 0x19) same), m)

version_parsed :
    (packet : List ℕ) (v : SocVersion) → MadeIn packet v → parse_version_event packet ≡ some v
version_parsed packet v (fields, n, inl q, m) =
    ap parse_version_event q
    ∙ at_fields _ fields (parse-vendor 0x19 fields)
    ∙ (payload-vendor fields v).1 (n, m)
version_parsed packet v (fields, n, inr (ncmd, x, q), m) =
    ap parse_version_event q
    ∙ at_fields _ (x ∷ fields) (parse_complete ncmd 0x19 (x ∷ fields))
    ∙ complete_payload x fields v n m

no_version_in :
    (packet : List ℕ) (v : SocVersion)
    → parse_edl_response packet 0x19 ≡ none
    → parse_version_event packet ≢ some v
unfolding parse_version_event
no_version_in packet v e p = cc (rw (e, parse_version_event) at p)

fields-bytes :
    (packet fields : List ℕ) → All IsByte packet → VersionPacket packet fields → All IsByte fields
fields-bytes packet fields b (inl q) =
    let w : All IsByte (vendor_response 0x19 fields) = subst (All IsByte) q b in w.1.1.1.1.1
fields-bytes packet fields b (inr (ncmd, extra, q)) =
    let w : All IsByte (complete_response ncmd 0x19 (extra ∷ fields)) = subst (All IsByte) q b in
    w.1.1.1.1.1.1.1.1.1

MadeIn-iff :
    (packet : List ℕ) (v : SocVersion) → All IsByte packet → MadeIn packet v ↔ VersionIn packet v
MadeIn-iff packet v b =
    let iff : (fields : List ℕ)
        → length fields ≡ 12
        → VersionPacket packet fields
        → (make_version fields ≡ some v) ↔ Encodes fields v =
      λ fields n q. make_version-iff-Encodes fields v (fields-bytes packet fields b q) n in
    (
      λ (fields, n, q, m). (fields, n, q, (iff fields n q).0 m),
      λ (fields, n, q, m). (fields, n, q, (iff fields n q).1 m),
    )

-- A packet of bytes yields a version exactly if it is an accepted response to selector 0x19 with
-- exactly 12 version bytes, behind one extra byte if it is a Command Complete, and these bytes are
-- the product, the patch level, the ROM field and the SOC id of the version, low byte first, the last
-- two not zero. The version has the SOC id, cut to 16 bits, above the ROM field as its SOC version,
-- and bits 8-11 and 0-3 of the ROM field as its ROM version.
pub parse_version_event_iff :
    (packet : List ℕ) (v : SocVersion)
    → All IsByte packet
    → (parse_version_event packet ≡ some v) ↔ VersionIn packet v
parse_version_event_iff packet v b = (
  λ p. elim (Option-cases (parse_edl_response packet 0x19)) [
    | inl e ↦ absurd (no_version_in packet v e p)
    | inr (fields, e) ↦ (MadeIn-iff packet v b).0 (
        version_of packet fields v e ((parse_edl_response-iff-Responds packet 0x19 fields b).0 e) p)
  ],
  λ m. version_parsed packet v ((MadeIn-iff packet v b).1 m),
)
