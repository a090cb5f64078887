-- ===== src/V5_0/Auth.antt =====
-- packet/v5_0/auth.rs.
pub mod Laws
use mathlib.Core.Option
use mqtt_protocol_core.Common.{
  ℕ, ◌+◌, Bool, true, false, List, [], ◌∷◌, ◌++◌, Option, none, some, if◌then◌else◌, length, ◌==◌,
  ◌&&◌, ltb,
}
use mqtt_protocol_core.ResultCode.{Result, ok, err, malformed_packet, protocol_error}
use mqtt_protocol_core.ResultCode.Codes.{AuthReasonCode, auth_reason_from_u8, auth_reason_as_u8}
use mqtt_protocol_core.Wire.Property.{Property, PropertyId}
use mqtt_protocol_core.Codec.{◌>>=◌, pass, fail, vbi, total_size}
use mqtt_protocol_core.V5_0.Tail.{Tail, tail_bytes, tail_size, once_each, count_id, read_tail}
use mqtt_protocol_core.V5_0.Ack.{length_of}

pub record Auth : Type 0 where
  pub fixed_header : ℕ
  pub remaining_length : List ℕ
  pub tail : Tail

pub record AuthBuilder : Type 0 where
  pub reason_code_buf : Option ℕ
  pub props : Option (List Property)

abbrev pub code_of : Option ℕ → Option AuthReasonCode
code_of rc = Option.bind rc auth_reason_from_u8

pub reason_code : Auth → Option AuthReasonCode
reason_code p = code_of p.tail.reason_code_buf

abbrev pub size : Auth → ℕ
size p = total_size p.remaining_length

-- What follows the remaining length.
abbrev pub body : Auth → List ℕ
body p = tail_bytes p.tail

unfoldable pub to_continuous_buffer : Auth → List ℕ
to_continuous_buffer p = p.fixed_header ∷ (p.remaining_length ++ body p)

-- `rc != AuthReasonCode::Success`, if there is a code.
is_other : Option AuthReasonCode → Bool
is_other none = false
is_other (some AuthReasonCode.success) = false
is_other (some AuthReasonCode.continue_authentication) = true
is_other (some AuthReasonCode.re_authenticate) = true

-- Data, and any code but success, ask for a method.
require_method : Option AuthReasonCode → List Property → Result (Unit {0})
unfolding is_other count_id
require_method rc props =
    if ltb 0 (count_id PropertyId.authentication_data props)
      && count_id PropertyId.authentication_method props == 0
    then err protocol_error
    else if is_other rc && count_id PropertyId.authentication_method props == 0
    then err protocol_error
    else ok tt

pub validate_auth_packet : Option AuthReasonCode → Option (List Property) → Result (Unit {0})
unfolding is_other require_method once_each
validate_auth_packet rc none = if is_other rc then err protocol_error else ok tt
validate_auth_packet rc (some props) =
    elim (once_each
      (PropertyId.authentication_method ∷ PropertyId.authentication_data ∷ PropertyId.reason_string
        ∷ [])
      props) [ err e ↦ err e | ok u ↦ require_method rc props ]

pub assemble : Tail → Option (Result Auth)
assemble tail = do
  remaining_length ← vbi (tail_size tail)
  pass (record { fixed_header = 0xF0; remaining_length = remaining_length; tail = tail })

-- The properties alone are not checked while they are read.
abbrev pub unchecked : List Property → Result (Unit {0})
unchecked props = ok tt

pub parse : List ℕ → Option (Result (Auth × ℕ))
unfolding assemble validate_auth_packet
parse bs = do
  tail ← read_tail auth_reason_from_u8 unchecked bs
  u ← some (validate_auth_packet (code_of tail.0.reason_code_buf) tail.0.props)
  p ← assemble tail.0
  pass (p, tail.1)

abbrev or_empty : Option (List Property) → Option (List Property)
or_empty none = some []
or_empty (some props) = some props

-- A code sets empty properties where there are none.
pub with_reason_code : AuthReasonCode → AuthBuilder → AuthBuilder
with_reason_code rc b = record b {
  reason_code_buf = some (auth_reason_as_u8 rc);
  props = or_empty b.props;
}

pub validate : AuthBuilder → Result (Unit {0})
unfolding validate_auth_packet
validate b = elim b.reason_code_buf [
  | some rc ↦ validate_auth_packet (auth_reason_from_u8 rc) b.props
  | none ↦ elim b.props [
    | none ↦ validate_auth_packet none none
    | some props ↦ err malformed_packet
  ]
]

pub build : AuthBuilder → Option (Result Auth)
unfolding validate assemble
build b = do
  u ← some (validate b)
  encoded ← length_of b.props
  assemble
      (record { reason_code_buf = b.reason_code_buf; property_length = encoded; props = b.props })
