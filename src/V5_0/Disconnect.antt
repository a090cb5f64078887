-- ===== src/V5_0/Disconnect.antt =====
-- packet/v5_0/disconnect.rs.
pub mod Laws
use mathlib.Core.Option
use mqtt_protocol_core.Common.{
  ℕ, ◌+◌, Bool, true, false, List, [], ◌∷◌, ◌++◌, Option, none, some, if◌then◌else◌, length,
}
use mqtt_protocol_core.ResultCode.{Result, ok, err, malformed_packet, DisconnectReasonCode}
use mqtt_protocol_core.ResultCode.Codes.{disconnect_reason_from_u8, disconnect_reason_as_u8}
use mqtt_protocol_core.Wire.Property.{Property, PropertyId, reason_string}
use mqtt_protocol_core.Codec.{◌>>=◌, pass, fail, vbi, total_size}
use mqtt_protocol_core.V5_0.Tail.{Tail, tail_bytes, tail_size, once_each, read_tail}
use mqtt_protocol_core.V5_0.Ack.{length_of}

pub record Disconnect : Type 0 where
  pub fixed_header : ℕ
  pub remaining_length : List ℕ
  pub tail : Tail

pub record DisconnectBuilder : Type 0 where
  pub reason_code_buf : Option ℕ
  pub props : Option (List Property)

pub reason_code : Disconnect → Option DisconnectReasonCode
reason_code p = Option.bind p.tail.reason_code_buf disconnect_reason_from_u8

abbrev pub size : Disconnect → ℕ
size p = total_size p.remaining_length

-- What follows the remaining length.
abbrev pub body : Disconnect → List ℕ
body p = tail_bytes p.tail

unfoldable pub to_continuous_buffer : Disconnect → List ℕ
to_continuous_buffer p = p.fixed_header ∷ (p.remaining_length ++ body p)

pub validate_disconnect_properties : List Property → Result (Unit {0})
unfolding once_each
validate_disconnect_properties props =
    once_each
      (PropertyId.session_expiry_interval ∷ PropertyId.reason_string ∷ PropertyId.server_reference
        ∷ [])
      props

pub assemble : Tail → Option (Result Disconnect)
assemble tail = do
  remaining_length ← vbi (tail_size tail)
  pass (record { fixed_header = 0xE0; remaining_length = remaining_length; tail = tail })

pub parse : List ℕ → Option (Result (Disconnect × ℕ))
unfolding assemble validate_disconnect_properties
parse bs = do
  tail ← read_tail disconnect_reason_from_u8 validate_disconnect_properties bs
  p ← assemble tail.0
  pass (p, tail.1)

pub with_reason_code : DisconnectReasonCode → DisconnectBuilder → DisconnectBuilder
with_reason_code rc b = record b { reason_code_buf = some (disconnect_reason_as_u8 rc) }

pub validate : DisconnectBuilder → Result (Unit {0})
unfolding validate_disconnect_properties
validate b = elim b.props [
  | none ↦ ok tt
  | some props ↦ elim b.reason_code_buf [
    | none ↦ err malformed_packet
    | some rc ↦ validate_disconnect_properties props
  ]
]

pub build : DisconnectBuilder → Option (Result Disconnect)
unfolding validate assemble
build b = do
  u ← some (validate b)
  encoded ← length_of b.props
  assemble
      (record { reason_code_buf = b.reason_code_buf; property_length = encoded; props = b.props })
