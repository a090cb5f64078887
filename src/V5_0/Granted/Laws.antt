-- ===== src/V5_0/Granted/Laws.antt =====
-- packet/v5_0/suback.rs and unsuback.rs: valid packets, and the round trip.
use mathlib.Core.List.{append_assoc}
use mqtt_protocol_core.Common.{
  ℕ, ◌+◌, ◌≤◌, ◌≡◌, ap, sym, ◌∙◌, true, false, List, ◌++◌, Option, some, length, arith,
  length-append, drop, drop-length, All,
}
use mqtt_protocol_core.ResultCode.{ok}
use mqtt_protocol_core.Vbi.{max_value}
use mqtt_protocol_core.Vbi.Encoding.{bytes}
use mqtt_protocol_core.Wire.Property.{Property}
use mqtt_protocol_core.Wire.Property.Laws as PropertyLaws
use mqtt_protocol_core.Wire.Property.Sequence
use mqtt_protocol_core.Wire.Property.Sequence.Laws.{parse-encoded, length-sequence}
use mqtt_protocol_core.Codec.{vbi-bytes, is_nil, id_bytes}
use mqtt_protocol_core.Codec.Laws.{all_codes, read_codes_all}
use mqtt_protocol_core.V5_0.Granted.{GenericGranted, body, validate_properties, assemble, parse}

module _ {Code : Type 0} (header : ℕ) (from_u8 : ℕ → Option Code) where
  pub record IsValid (p : GenericGranted) : Type 0 where
    pub header_lem : p.fixed_header ≡ header
    pub framed : p.remaining_length ≡ bytes (length (body p))
    pub props_framed : p.property_length ≡ bytes (Sequence.size p.props)
    pub props_lem : All PropertyLaws.IsValid p.props
    pub props_size : Sequence.size p.props ≤ max_value
    pub allowed : validate_properties p.props ≡ ok tt
    pub codes : all_codes from_u8 p.reason_codes_buf ≡ true
    pub some_code : is_nil p.reason_codes_buf ≡ false

drop-encoded :
    (ps : List Property) (rest : List ℕ)
    → drop
        (length (bytes (Sequence.size ps)) + Sequence.size ps)
        (bytes (Sequence.size ps) ++ (Sequence.to_continuous_buffer ps ++ rest))
      ≡ rest
drop-encoded ps rest =
    let l = bytes (Sequence.size ps) in
    let enc = Sequence.to_continuous_buffer ps in
    let e : length l + Sequence.size ps ≡ length (l ++ enc) =
      omega (arith, length-append l enc, length-sequence ps) in
    ap (λ n. drop n (l ++ (enc ++ rest))) e
    ∙ ap (drop (length (l ++ enc))) (sym (append_assoc l enc rest))
    ∙ drop-length (l ++ enc) rest

-- How many bytes a packet has behind its remaining length.
length-body :
    {Code : Type 0} (header : ℕ) (from_u8 : ℕ → Option Code) (p : GenericGranted)
    → IsValid header from_u8 p
    → 2
        + (length (bytes (Sequence.size p.props)) + Sequence.size p.props)
        + length p.reason_codes_buf
      ≡ length (body p)
length-body header from_u8 p v = omega (
  arith,
  ap (length {0}) v.props_framed,
  length-append p.property_length (Sequence.to_continuous_buffer p.props ++ p.reason_codes_buf),
  length-append (Sequence.to_continuous_buffer p.props) p.reason_codes_buf,
  length-sequence p.props,
)

assemble-valid :
    {Code : Type 0} (header : ℕ) (from_u8 : ℕ → Option Code) (p : GenericGranted)
    → IsValid header from_u8 p
    → length (body p) ≤ max_value
    → assemble header p.packet_id_buf
        (length (bytes (Sequence.size p.props)) + Sequence.size p.props)
        p.props
        (bytes (Sequence.size p.props))
        p.reason_codes_buf
      ≡ some (ok p)
unfolding assemble
assemble-valid header from_u8 p v h =
    rw (length-body header from_u8 p v, vbi-bytes (length (body p)) h)
      (ground (arith, v.header_lem, v.framed, v.props_framed))

-- A valid SUBACK or UNSUBACK of version 5.0 whose bytes behind the remaining length have a length that a
-- variable byte integer can hold is what `parse` returns for these bytes, with their number as the length
-- consumed.
pub parse-body :
    {Code : Type 0} (header : ℕ) (from_u8 : ℕ → Option Code) (p : GenericGranted)
    → IsValid header from_u8 p
    → length (body p) ≤ max_value
    → parse header from_u8 (body p) ≡ some (ok (p, length (body p)))
unfolding parse
parse-body header from_u8 p v h =
    let tail = Sequence.to_continuous_buffer p.props ++ p.reason_codes_buf in
    ap (λ l. parse header from_u8 (id_bytes p.packet_id_buf ++ (l ++ tail))) v.props_framed
    ∙ rw
        (
          parse-encoded p.props p.reason_codes_buf v.props_lem v.props_size,
          v.allowed,
          vbi-bytes (Sequence.size p.props) v.props_size,
          drop-encoded p.props p.reason_codes_buf,
          read_codes_all from_u8 p.reason_codes_buf v.codes,
          v.some_code,
          assemble-valid header from_u8 p v h,
        )
        (ap (λ n. some (ok (p, n))) (length-body header from_u8 p v))
