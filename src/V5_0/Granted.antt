-- ===== src/V5_0/Granted.antt =====
-- packet/v5_0/suback.rs and unsuback.rs. The two files differ in the fixed header and in the type of
-- the reason codes, which are the parameters here.
pub mod Laws
use mathlib.Core.Option
use mqtt_protocol_core.Common.{
  ℕ, ◌+◌, Bool, true, false, List, [], ◌∷◌, ◌++◌, Option, none, some, if◌then◌else◌, length, map,
  drop,
}
use mqtt_protocol_core.ResultCode.{Result, ok, err, malformed_packet, protocol_error}
use mqtt_protocol_core.ResultCode.Codes.{
  SubackReasonCode, suback_reason_as_u8, suback_reason_from_u8, UnsubackReasonCode,
  unsuback_reason_as_u8, unsuback_reason_from_u8,
}
use mqtt_protocol_core.Wire.Binary.{be_u16}
use mqtt_protocol_core.Wire.Property.{Property, PropertyId}
use mqtt_protocol_core.Wire.Property.Sequence
use mqtt_protocol_core.Codec.{
  ◌>>=◌, pass, fail, vbi, is_zero_id, id_bytes, id_of, total_size, read_codes, is_nil,
}
use mqtt_protocol_core.V5_0.Tail.{once_each}

pub record GenericGranted : Type 0 where
  pub fixed_header : ℕ
  pub remaining_length : List ℕ
  pub packet_id_buf : ℕ × ℕ
  pub property_length : List ℕ
  pub props : List Property
  pub reason_codes_buf : List ℕ

pub record GenericGrantedBuilder : Type 0 where
  pub packet_id_buf : Option (ℕ × ℕ)
  pub reason_codes_buf : Option (List ℕ)
  pub props : Option (List Property)

pub packet_id : GenericGranted → ℕ
packet_id p = be_u16 p.packet_id_buf.0 p.packet_id_buf.1

-- A byte that is no code reads as the given one.
pub reason_codes : {Code : Type 0} → (ℕ → Option Code) → Code → GenericGranted → List Code
reason_codes from_u8 otherwise p =
    map (λ byte. Option.get_or (from_u8 byte) otherwise) p.reason_codes_buf

abbrev pub size : GenericGranted → ℕ
size p = total_size p.remaining_length

-- What follows the remaining length.
abbrev pub body : GenericGranted → List ℕ
body p =
    id_bytes p.packet_id_buf
    ++ (p.property_length ++ (Sequence.to_continuous_buffer p.props ++ p.reason_codes_buf))

unfoldable pub to_continuous_buffer : GenericGranted → List ℕ
to_continuous_buffer p = p.fixed_header ∷ (p.remaining_length ++ body p)

pub validate_properties : List Property → Result (Unit {0})
unfolding once_each
validate_properties props = once_each (PropertyId.reason_string ∷ []) props

pub assemble : ℕ → ℕ × ℕ → ℕ → List Property → List ℕ → List ℕ → Option (Result GenericGranted)
assemble header id prop_size props prop_len codes = do
  remaining_length ← vbi (2 + prop_size + length codes)
  pass (record {
    fixed_header = header;
    remaining_length = remaining_length;
    packet_id_buf = id;
    property_length = prop_len;
    props = props;
    reason_codes_buf = codes;
  })

-- The remaining length counts the bytes that the properties took, their length included.
pub parse : {Code : Type 0} → ℕ → (ℕ → Option Code) → List ℕ → Option (Result (GenericGranted × ℕ))
unfolding assemble validate_properties
parse header from_u8 [] = fail malformed_packet
parse header from_u8 (x ∷ []) = fail malformed_packet
parse header from_u8 (x ∷ y ∷ rest) = do
  parsed ← Sequence.parse rest
  u ← some (validate_properties parsed.0)
  prop_len ← vbi (Sequence.size parsed.0)
  codes ← some (read_codes from_u8 (drop parsed.1 rest))
  if is_nil codes then fail protocol_error else do
    p ← assemble header (x, y) parsed.1 parsed.0 prop_len codes
    pass (p, 2 + parsed.1 + length codes)

-- The builder's `packet_id`, and `reason_codes` of both packets.
pub with_packet_id : ℕ → GenericGrantedBuilder → GenericGrantedBuilder
with_packet_id id b = record b { packet_id_buf = some (id_of id) }

pub with_suback_codes : List SubackReasonCode → GenericGrantedBuilder → GenericGrantedBuilder
with_suback_codes codes b = record b { reason_codes_buf = some (map suback_reason_as_u8 codes) }

pub with_unsuback_codes : List UnsubackReasonCode → GenericGrantedBuilder → GenericGrantedBuilder
with_unsuback_codes codes b = record b { reason_codes_buf = some (map unsuback_reason_as_u8 codes) }

abbrev pub codes_of : GenericGrantedBuilder → List ℕ
codes_of b = Option.get_or b.reason_codes_buf []

pub validate : GenericGrantedBuilder → Result (ℕ × ℕ)
unfolding validate_properties
validate b = elim b.packet_id_buf [
  | none ↦ err malformed_packet
  | some id ↦
      if is_zero_id id
      then err malformed_packet
      else if is_nil (codes_of b)
      then err protocol_error
      else elim b.props [
        | none ↦ ok id
        | some props ↦ elim (validate_properties props) [ ok u ↦ ok id | err e ↦ err e ]
      ]
]

pub build : ℕ → GenericGrantedBuilder → Option (Result GenericGranted)
unfolding validate assemble
build header b =
    let props = Option.get_or b.props [] in
    do
      id ← some (validate b)
      prop_len ← vbi (Sequence.size props)
      assemble header id (length prop_len + Sequence.size props) props prop_len (codes_of b)

-- suback.rs.
abbrev pub suback_codes : GenericGranted → List SubackReasonCode
suback_codes = reason_codes suback_reason_from_u8 SubackReasonCode.unspecified_error

abbrev pub parse_suback : List ℕ → Option (Result (GenericGranted × ℕ))
parse_suback = parse 0x90 suback_reason_from_u8

abbrev pub build_suback : GenericGrantedBuilder → Option (Result GenericGranted)
build_suback = build 0x90

-- unsuback.rs.
abbrev pub unsuback_codes : GenericGranted → List UnsubackReasonCode
unsuback_codes = reason_codes unsuback_reason_from_u8 UnsubackReasonCode.unspecified_error

abbrev pub parse_unsuback : List ℕ → Option (Result (GenericGranted × ℕ))
parse_unsuback = parse 0xB0 unsuback_reason_from_u8

abbrev pub build_unsuback : GenericGrantedBuilder → Option (Result GenericGranted)
build_unsuback = build 0xB0
