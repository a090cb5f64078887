-- ===== src/V5_0/Auth/Laws.antt =====
-- packet/v5_0/auth.rs: valid packets, and the round trip.
use mqtt_protocol_core.Common.{◌≤◌, ◌≡◌, refl, some, length, arith}
use mqtt_protocol_core.ResultCode.{ok}
use mqtt_protocol_core.ResultCode.Codes.{auth_reason_from_u8}
use mqtt_protocol_core.Vbi.{max_value}
use mqtt_protocol_core.Vbi.Encoding.{bytes}
use mqtt_protocol_core.Codec.{vbi-bytes}
use mqtt_protocol_core.V5_0.Tail.Laws.{IsTail, read_tail-tail_bytes, tail_size-tail_bytes}
use mqtt_protocol_core.V5_0.Auth.{
  Auth, body, code_of, unchecked, validate_auth_packet, assemble, parse,
}

pub record IsValid (p : Auth) : Type 0 where
  pub header_lem : p.fixed_header ≡ 0xF0
  pub framed : p.remaining_length ≡ bytes (length (body p))
  pub tail_lem : IsTail auth_reason_from_u8 unchecked p.tail
  pub checked : validate_auth_packet (code_of p.tail.reason_code_buf) p.tail.props ≡ ok tt

assemble-valid :
    (p : Auth) → IsValid p → length (body p) ≤ max_value → assemble p.tail ≡ some (ok p)
unfolding assemble
assemble-valid p v h =
    rw
      (
        tail_size-tail_bytes auth_reason_from_u8 unchecked p.tail v.tail_lem,
        vbi-bytes (length (body p)) h,
      )
      (ground (arith, v.header_lem, v.framed))

-- A valid AUTH whose bytes behind the remaining length have a length that a variable byte integer can hold
-- is what `parse` returns for these bytes, with their number as the length consumed.
pub parse-body :
    (p : Auth)
    → IsValid p
    → length (body p) ≤ max_value
    → parse (body p) ≡ some (ok (p, length (body p)))
unfolding parse
parse-body p v h =
    rw
      (
        read_tail-tail_bytes auth_reason_from_u8 unchecked p.tail v.tail_lem,
        v.checked,
        assemble-valid p v h,
      )
      refl
