-- ===== src/V3_1_1/Connack.antt =====
-- packet/v3_1_1/connack.rs.
use mqtt_protocol_core.Common.{ℕ, ◌≡◌, Bool, List, [], ◌∷◌, ◌++◌, Option, none, some, arith}
use mqtt_protocol_core.ResultCode.{Result, ok, err, malformed_packet, ConnectReturnCode}
use mqtt_protocol_core.ResultCode.Codes.{
  connect_return_as_u8, connect_return_from_u8, connect_return_from_u8-connect_return_as_u8,
}
use mqtt_protocol_core.Vbi.Encoding.{bytes}
use mqtt_protocol_core.Codec.{◌>>=◌, pass, fail, vbi, vbi-bytes, total_size, has_bit, bool_u8}

pub record Connack : Type 0 where
  pub fixed_header : ℕ
  pub remaining_length : List ℕ
  pub ack_flags : ℕ
  pub return_code_buf : ℕ

pub record ConnackBuilder : Type 0 where
  pub ack_flags : Option ℕ
  pub return_code_buf : Option ℕ

-- `none` is the panic of `unwrap`.
pub return_code : Connack → Option ConnectReturnCode
return_code p = connect_return_from_u8 p.return_code_buf

abbrev pub session_present : Connack → Bool
session_present p = has_bit p.ack_flags 0

abbrev pub size : Connack → ℕ
size p = total_size p.remaining_length

-- What follows the remaining length.
abbrev pub body : Connack → List ℕ
body p = p.ack_flags ∷ p.return_code_buf ∷ []

unfoldable pub to_continuous_buffer : Connack → List ℕ
to_continuous_buffer p = p.fixed_header ∷ (p.remaining_length ++ body p)

-- The builder's `session_present` and `return_code`.
pub with_session_present : Bool → ConnackBuilder → ConnackBuilder
with_session_present v b = record b { ack_flags = some (bool_u8 v) }

pub with_return_code : ConnectReturnCode → ConnackBuilder → ConnackBuilder
with_return_code rc b = record b { return_code_buf = some (connect_return_as_u8 rc) }

pub validate : Option ℕ → Option ℕ → Result (ℕ × ℕ)
validate none code = err malformed_packet
validate (some ack) none = err malformed_packet
validate (some ack) (some code) = ok (ack, code)

pub build : ConnackBuilder → Option (Result Connack)
unfolding validate
build b = do
  parts ← some (validate b.ack_flags b.return_code_buf)
  remaining_length ← vbi 2
  pass (record {
    fixed_header = 0x20;
    remaining_length = remaining_length;
    ack_flags = parts.0;
    return_code_buf = parts.1;
  })

pub parse : List ℕ → Option (Result (Connack × ℕ))
unfolding with_session_present with_return_code build
parse [] = fail malformed_packet
parse (x ∷ []) = fail malformed_packet
parse (acknowledge ∷ code ∷ rest) = elim (connect_return_from_u8 code) [
  | none ↦ fail malformed_packet
  | some rc ↦ do
    p ← build (
        with_session_present (has_bit acknowledge 0)
          (with_return_code rc (record { ack_flags = none; return_code_buf = none })))
    pass (p, 2)
]

pub record IsValid (p : Connack) : Type 0 where
  pub header_lem : p.fixed_header ≡ 0x20
  pub framed : p.remaining_length ≡ bytes 2
  pub flag : p.ack_flags ≡ bool_u8 (has_bit p.ack_flags 0)
  pub code : (rc : ConnectReturnCode) × (p.return_code_buf ≡ connect_return_as_u8 rc)

pub parse-body : (p : Connack) → IsValid p → parse (body p) ≡ some (ok (p, 2))
unfolding parse
parse-body p v =
    let (rc, e) = v.code in
    ground (arith, vbi-bytes 2 (omega arith), connect_return_from_u8-connect_return_as_u8 rc)
