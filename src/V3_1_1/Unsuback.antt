-- ===== src/V3_1_1/Unsuback.antt =====
-- packet/v3_1_1/unsuback.rs.
use mqtt_protocol_core.Common.{
  ℕ, ◌≡◌, List, [], ◌∷◌, ◌++◌, Option, none, some, arith, if◌then◌else◌,
}
use mqtt_protocol_core.ResultCode.{Result, ok, err, malformed_packet}
use mqtt_protocol_core.Vbi.Encoding.{bytes}
use mqtt_protocol_core.Wire.Binary.{be_u16}
use mqtt_protocol_core.Codec.{◌>>=◌, pass, fail, vbi, vbi-bytes, total_size, is_zero_id, id_bytes}

pub record GenericUnsuback : Type 0 where
  pub fixed_header : ℕ
  pub remaining_length : List ℕ
  pub packet_id_buf : ℕ × ℕ

pub packet_id : GenericUnsuback → ℕ
packet_id p = be_u16 p.packet_id_buf.0 p.packet_id_buf.1

abbrev pub size : GenericUnsuback → ℕ
size p = total_size p.remaining_length

-- What follows the remaining length.
abbrev pub body : GenericUnsuback → List ℕ
body p = id_bytes p.packet_id_buf

unfoldable pub to_continuous_buffer : GenericUnsuback → List ℕ
to_continuous_buffer p = p.fixed_header ∷ (p.remaining_length ++ body p)

pub validate : Option (ℕ × ℕ) → Result (ℕ × ℕ)
validate none = err malformed_packet
validate (some id) = if is_zero_id id then err malformed_packet else ok id

assemble : ℕ × ℕ → Option (Result GenericUnsuback)
assemble id = do
  remaining_length ← vbi 2
  pass (record { fixed_header = 0xB0; remaining_length = remaining_length; packet_id_buf = id })

-- The builder is its only field.
pub build : Option (ℕ × ℕ) → Option (Result GenericUnsuback)
unfolding validate assemble
build packet_id_buf = do id ← some (validate packet_id_buf); assemble id

pub parse : List ℕ → Option (Result (GenericUnsuback × ℕ))
unfolding assemble
parse [] = fail malformed_packet
parse (x ∷ []) = fail malformed_packet
parse (x ∷ y ∷ rest) = do p ← assemble (x, y); pass (p, 2)

pub record IsValid (p : GenericUnsuback) : Type 0 where
  pub header_lem : p.fixed_header ≡ 0xB0
  pub framed : p.remaining_length ≡ bytes 2

pub parse-body : (p : GenericUnsuback) → IsValid p → parse (body p) ≡ some (ok (p, 2))
unfolding parse
parse-body p v = ground (arith, vbi-bytes 2 (omega arith))

pub parse-IsValid :
    (bs : List ℕ) (p : GenericUnsuback) (n : ℕ) → parse bs ≡ some (ok (p, n)) → IsValid p
unfolding parse
parse-IsValid bs p n e = ground (arith, vbi-bytes 2 (omega arith))
