-- ===== src/V5_0/Ack/Laws.antt =====
-- packet/v5_0: valid acknowledgements, and the round trip.
use mqtt_protocol_core.Common.{ℕ, ◌+◌, ◌≤◌, ◌≡◌, ap, false, Option, some, length, arith}
use mqtt_protocol_core.ResultCode.{Result, ok}
use mqtt_protocol_core.Vbi.{max_value}
use mqtt_protocol_core.Vbi.Encoding.{bytes}
use mqtt_protocol_core.Codec.{vbi-bytes, is_zero_id}
use mqtt_protocol_core.V5_0.Tail.{tail_size}
use mqtt_protocol_core.V5_0.Tail.Laws.{IsTail, read_tail-tail_bytes, tail_size-tail_bytes}
use mqtt_protocol_core.V5_0.Ack.{GenericAck, body, validate_properties, assemble, parse}

module _ {Code : Type 0} (header : ℕ) (from_u8 : ℕ → Option Code) where
  pub record IsValid (p : GenericAck) : Type 0 where
    pub header_lem : p.fixed_header ≡ header
    pub framed : p.remaining_length ≡ bytes (length (body p))
    pub non_zero : is_zero_id p.packet_id_buf ≡ false
    pub tail_lem : IsTail from_u8 validate_properties p.tail

  with_size : GenericAck → ℕ → Option (Result (GenericAck × ℕ))
  with_size p n = some (ok (p, n))

  assemble-valid :
      (p : GenericAck)
      → IsValid p
      → length (body p) ≤ max_value
      → assemble header p.packet_id_buf p.tail ≡ some (ok p)
  unfolding assemble
  assemble-valid p v h =
      let e : 2 + tail_size p.tail ≡ length (body p) =
        omega (arith, tail_size-tail_bytes from_u8 validate_properties p.tail v.tail_lem) in
      rw (e, vbi-bytes (length (body p)) h) (ground (arith, v.header_lem, v.framed))

-- A valid acknowledgement of version 5.0 whose bytes behind the remaining length have a length that a
-- variable byte integer can hold is what `parse` returns for these bytes, with their number as the length
-- consumed.
pub parse-body :
    {Code : Type 0} (header : ℕ) (from_u8 : ℕ → Option Code) (p : GenericAck)
    → IsValid header from_u8 p
    → length (body p) ≤ max_value
    → parse header from_u8 (body p) ≡ some (ok (p, length (body p)))
unfolding parse with_size
parse-body header from_u8 p v h =
    rw
      (
        v.non_zero,
        read_tail-tail_bytes from_u8 validate_properties p.tail v.tail_lem,
        assemble-valid header from_u8 p v h,
      )
      (ap (with_size header from_u8 p) (omega arith))
