-- ===== src/V3_1_1/Suback.antt =====
-- packet/v3_1_1/suback.rs.
use mqtt_protocol_core.Common.{
  ℕ, ◌+◌, ◌≤◌, ◌≡◌, true, false, List, [], ◌∷◌, ◌++◌, Option, none, some, length, arith,
  if◌then◌else◌, map,
}
use mqtt_protocol_core.ResultCode.{Result, ok, err, malformed_packet, protocol_error}
use mqtt_protocol_core.ResultCode.Codes.{
  SubackReturnCode, suback_return_as_u8, suback_return_from_u8,
}
use mqtt_protocol_core.Vbi.{max_value}
use mqtt_protocol_core.Vbi.Encoding.{bytes}
use mqtt_protocol_core.Wire.Binary.{be_u16}
use mqtt_protocol_core.Codec.{
  ◌>>=◌, pass, fail, vbi, vbi-bytes, total_size, is_zero_id, id_bytes, read_codes, is_nil,
}
use mqtt_protocol_core.Codec.Laws.{all_codes, read_codes_all}
use mathlib.Core.Option

pub record GenericSuback : Type 0 where
  pub fixed_header : ℕ
  pub remaining_length : List ℕ
  pub packet_id_buf : ℕ × ℕ
  pub return_codes_buf : List ℕ

pub record GenericSubackBuilder : Type 0 where
  pub packet_id_buf : Option (ℕ × ℕ)
  pub return_codes_buf : Option (List ℕ)

pub packet_id : GenericSuback → ℕ
packet_id p = be_u16 p.packet_id_buf.0 p.packet_id_buf.1

pub return_codes : GenericSuback → List SubackReturnCode
return_codes p =
    map (λ byte. Option.get_or (suback_return_from_u8 byte) SubackReturnCode.failure)
      p.return_codes_buf

abbrev pub size : GenericSuback → ℕ
size p = total_size p.remaining_length

-- What follows the remaining length.
abbrev pub body : GenericSuback → List ℕ
body p = id_bytes p.packet_id_buf ++ p.return_codes_buf

unfoldable pub to_continuous_buffer : GenericSuback → List ℕ
to_continuous_buffer p = p.fixed_header ∷ (p.remaining_length ++ body p)

pub with_return_codes : List SubackReturnCode → GenericSubackBuilder → GenericSubackBuilder
with_return_codes codes b = record b { return_codes_buf = some (map suback_return_as_u8 codes) }

pub validate : Option (ℕ × ℕ) → List ℕ → Result (ℕ × ℕ)
validate none codes = err malformed_packet
validate (some id) codes =
    if is_zero_id id
    then err malformed_packet
    else if is_nil codes
    then err protocol_error
    else ok id

assemble : ℕ × ℕ → List ℕ → Option (Result GenericSuback)
assemble id codes = do
  remaining_length ← vbi (2 + length codes)
  pass (record {
    fixed_header = 0x90;
    remaining_length = remaining_length;
    packet_id_buf = id;
    return_codes_buf = codes;
  })

pub build : GenericSubackBuilder → Option (Result GenericSuback)
unfolding validate assemble
build b =
    let codes = Option.get_or b.return_codes_buf [] in
    do id ← some (validate b.packet_id_buf codes); assemble id codes

pub parse : List ℕ → Option (Result (GenericSuback × ℕ))
unfolding assemble
parse [] = fail malformed_packet
parse (x ∷ []) = fail malformed_packet
parse (x ∷ y ∷ rest) = do
  codes ← some (read_codes suback_return_from_u8 rest)
  if is_nil codes
      then fail protocol_error
      else do p ← assemble (x, y) codes; pass (p, 2 + length codes)

pub record IsValid (p : GenericSuback) : Type 0 where
  pub header_lem : p.fixed_header ≡ 0x90
  pub framed : p.remaining_length ≡ bytes (length (body p))
  pub codes : all_codes suback_return_from_u8 p.return_codes_buf ≡ true
  pub some_code : is_nil p.return_codes_buf ≡ false

pub parse-body :
    (p : GenericSuback)
    → IsValid p
    → length (body p) ≤ max_value
    → parse (body p) ≡ some (ok (p, length (body p)))
unfolding parse
parse-body p v h =
    ground (
      arith,
      vbi-bytes (length (body p)) h,
      read_codes_all suback_return_from_u8 p.return_codes_buf,
    )
