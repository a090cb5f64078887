-- ===== src/V3_1_1/Ack/Laws.antt =====
-- packet/v3_1_1/puback.rs and its three siblings: valid packets, and the round trip.
use mqtt_protocol_core.Common.{
  ℕ, ◌≡◌, refl, Bool, true, false, List, ◌∷◌, Option, none, some, length, arith, Option-cases, inl,
  inr,
}
use mathlib.Core.Option
use mqtt_protocol_core.ResultCode.{ok}
use mqtt_protocol_core.Vbi.Encoding.{bytes}
use mqtt_protocol_core.Codec.{vbi-bytes, is_zero_id}
use mqtt_protocol_core.V3_1_1.Ack.{
  GenericAck, GenericAckBuilder, code_bytes, body, validate, assemble, parse_code, parse, build,
}

module _ {Code : Type 0} (header : ℕ) (from_u8 : ℕ → Option Code) where
  abbrev pub is_code : Option ℕ → Bool
  is_code none = true
  is_code (some rc) = elim (from_u8 rc) [ none ↦ false | some c ↦ true ]

  pub record IsValid (p : GenericAck) : Type 0 where
    pub header_lem : p.fixed_header ≡ header
    pub framed : p.remaining_length ≡ bytes (length (body p))
    pub non_zero : is_zero_id p.packet_id_buf ≡ false
    pub known : is_code p.reason_code_buf ≡ true

  assemble-valid :
      (p : GenericAck) → IsValid p → assemble header p.packet_id_buf p.reason_code_buf ≡ some (ok p)
  unfolding assemble
  assemble-valid p v =
      ground (arith, vbi-bytes 2 (omega arith), vbi-bytes 3 (omega arith), v.header_lem, v.framed)

  parse_body :
      (x y : ℕ) (code : Option ℕ) (p : GenericAck)
      → is_code code ≡ true
      → is_zero_id (x, y) ≡ false
      → assemble header (x, y) code ≡ some (ok p)
      → parse header from_u8 (x ∷ y ∷ code_bytes code)
        ≡ some (ok (p, length (x ∷ y ∷ code_bytes code)))
  unfolding parse parse_code
  parse_body x y none p k z e = rw (z, e) refl
  parse_body x y (some rc) p k z e = elim (Option-cases (from_u8 rc)) [
    | inl n ↦ ground arith
    | inr (c, n) ↦ rw (z, n, e) refl
  ]

  -- A valid packet is read back from what follows its length.
  pub parse-body :
      (p : GenericAck) → IsValid p → parse header from_u8 (body p) ≡ some (ok (p, length (body p)))
  parse-body p v =
      parse_body p.packet_id_buf.0 p.packet_id_buf.1 p.reason_code_buf p v.known v.non_zero
        (assemble-valid p v)

  -- What a builder gives is valid, if its code was set by `reason_code`.
  pub build-IsValid :
      (b : GenericAckBuilder) (p : GenericAck)
      → is_code (Option.get_or b.reason_code_buf none) ≡ true
      → build header b ≡ some (ok p)
      → IsValid p
  unfolding build validate assemble
  build-IsValid b p k e = ground (arith, vbi-bytes 2 (omega arith), vbi-bytes 3 (omega arith))

  pub parse-IsValid :
      (bs : List ℕ) (p : GenericAck) (n : ℕ)
      → parse header from_u8 bs ≡ some (ok (p, n))
      → IsValid p
  unfolding parse parse_code assemble
  parse-IsValid bs p n e = ground (arith, vbi-bytes 2 (omega arith), vbi-bytes 3 (omega arith))
