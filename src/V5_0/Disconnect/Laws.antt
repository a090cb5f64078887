-- ===== src/V5_0/Disconnect/Laws.antt =====
-- packet/v5_0/disconnect.rs: valid packets, and the round trip.
use mqtt_protocol_core.Common.{◌≤◌, ◌≡◌, refl, some, length, arith}
use mqtt_protocol_core.ResultCode.{ok}
use mqtt_protocol_core.ResultCode.Codes.{disconnect_reason_from_u8}
use mqtt_protocol_core.Vbi.{max_value}
use mqtt_protocol_core.Vbi.Encoding.{bytes}
use mqtt_protocol_core.Codec.{vbi-bytes}
use mqtt_protocol_core.V5_0.Tail.Laws.{IsTail, read_tail-tail_bytes, tail_size-tail_bytes}
use mqtt_protocol_core.V5_0.Disconnect.{
  Disconnect, body, validate_disconnect_properties, assemble, parse,
}

pub record IsValid (p : Disconnect) : Type 0 where
  pub header_lem : p.fixed_header ≡ 0xE0
  pub framed : p.remaining_length ≡ bytes (length (body p))
  pub tail_lem : IsTail disconnect_reason_from_u8 validate_disconnect_properties p.tail

assemble-valid :
    (p : Disconnect) → IsValid p → length (body p) ≤ max_value → assemble p.tail ≡ some (ok p)
unfolding assemble
assemble-valid p v h =
    rw
      (
        tail_size-tail_bytes disconnect_reason_from_u8 validate_disconnect_properties p.tail
            v.tail_lem,
        vbi-bytes (length (body p)) h,
      )
      (ground (arith, v.header_lem, v.framed))

pub parse-body :
    (p : Disconnect)
    → IsValid p
    → length (body p) ≤ max_value
    → parse (body p) ≡ some (ok (p, length (body p)))
unfolding parse
parse-body p v h =
    rw
      (
        read_tail-tail_bytes disconnect_reason_from_u8 validate_disconnect_properties p.tail
            v.tail_lem,
        assemble-valid p v h,
      )
      refl
