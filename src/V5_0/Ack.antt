-- ===== src/V5_0/Ack.antt =====
-- packet/v5_0/puback.rs, pubrec.rs, pubrel.rs and pubcomp.rs. The four files differ in the fixed header
-- and in the type of the reason code, which are the parameters here; puback.rs has a length of 0 also
-- where it has no properties, which it does not write.
pub mod Laws
use mathlib.Core.Option
use mqtt_protocol_core.Common.{
  ℕ, ◌+◌, ◌/◌, ◌%◌, Bool, true, false, List, [], ◌∷◌, ◌++◌, Option, none, some, if◌then◌else◌,
  length,
}
use mqtt_protocol_core.ResultCode.{Result, ok, err, malformed_packet}
use mqtt_protocol_core.Wire.Binary.{be_u16}
use mqtt_protocol_core.Wire.Property.{Property, PropertyId, reason_string}
use mqtt_protocol_core.Wire.Property.Sequence
use mqtt_protocol_core.Codec.{◌>>=◌, pass, fail, vbi, is_zero_id, id_bytes, id_of, total_size}
use mqtt_protocol_core.V5_0.Tail.{Tail, tail_bytes, tail_size, once_each, read_tail}

pub record GenericAck : Type 0 where
  pub fixed_header : ℕ
  pub remaining_length : List ℕ
  pub packet_id_buf : ℕ × ℕ
  pub tail : Tail

pub record GenericAckBuilder : Type 0 where
  pub packet_id_buf : Option (ℕ × ℕ)
  pub reason_code_buf : Option ℕ
  pub props : Option (List Property)

pub packet_id : GenericAck → ℕ
packet_id p = be_u16 p.packet_id_buf.0 p.packet_id_buf.1

pub reason_code : {Code : Type 0} → (ℕ → Option Code) → GenericAck → Option Code
reason_code from_u8 p = Option.bind p.tail.reason_code_buf from_u8

abbrev pub size : GenericAck → ℕ
size p = total_size p.remaining_length

-- What follows the remaining length.
abbrev pub body : GenericAck → List ℕ
body p = id_bytes p.packet_id_buf ++ tail_bytes p.tail

unfoldable pub to_continuous_buffer : GenericAck → List ℕ
to_continuous_buffer p = p.fixed_header ∷ (p.remaining_length ++ body p)

unfoldable pub validate_properties : List Property → Result (Unit {0})
unfolding once_each
validate_properties props = once_each (PropertyId.reason_string ∷ []) props

pub assemble : ℕ → ℕ × ℕ → Tail → Option (Result GenericAck)
assemble header id tail = do
  remaining_length ← vbi (2 + tail_size tail)
  pass (record {
    fixed_header = header;
    remaining_length = remaining_length;
    packet_id_buf = id;
    tail = tail;
  })

pub parse : {Code : Type 0} → ℕ → (ℕ → Option Code) → List ℕ → Option (Result (GenericAck × ℕ))
unfolding assemble validate_properties
parse header from_u8 [] = fail malformed_packet
parse header from_u8 (x ∷ []) = fail malformed_packet
parse header from_u8 (x ∷ y ∷ rest) = if is_zero_id (x, y) then fail malformed_packet else do
  tail ← read_tail from_u8 validate_properties rest
  p ← assemble header (x, y) tail.0
  pass (p, 2 + tail.1)

-- Properties without a reason code are refused.
pub validate : GenericAckBuilder → Result (ℕ × ℕ)
unfolding validate_properties
validate b = elim b.packet_id_buf [
  | none ↦ err malformed_packet
  | some id ↦ if is_zero_id id then err malformed_packet else elim b.props [
    | none ↦ ok id
    | some props ↦ elim b.reason_code_buf [
      | none ↦ err malformed_packet
      | some rc ↦ elim (validate_properties props) [ ok u ↦ ok id | err e ↦ err e ]
    ]
  ]
]

-- The length of the properties, if there are any.
pub length_of : Option (List Property) → Option (Result (Option (List ℕ)))
length_of none = pass none
length_of (some props) = do encoded ← vbi (Sequence.size props); pass (some encoded)

pub build : ℕ → GenericAckBuilder → Option (Result GenericAck)
unfolding validate assemble length_of
build header b = do
  id ← some (validate b)
  encoded ← length_of b.props
  assemble header id
      (record { reason_code_buf = b.reason_code_buf; property_length = encoded; props = b.props })
