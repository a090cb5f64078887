-- ===== src/V3_1_1/Ack.antt =====
-- packet/v3_1_1/puback.rs, pubrec.rs, pubrel.rs and pubcomp.rs. The four files differ in the fixed
-- header and in the type of the reason code only, which are the parameters here.
pub mod Laws
use mathlib.Core.Option
use mqtt_protocol_core.Common.{
  ℕ, ◌+◌, Bool, true, false, List, [], ◌∷◌, ◌++◌, Option, none, some, if◌then◌else◌,
}
use mqtt_protocol_core.ResultCode.{Result, ok, err, malformed_packet}
use mqtt_protocol_core.Wire.Binary.{be_u16}
use mqtt_protocol_core.Codec.{◌>>=◌, pass, fail, vbi, is_zero_id, id_bytes, total_size}

pub record GenericAck : Type 0 where
  pub fixed_header : ℕ
  pub remaining_length : List ℕ
  pub packet_id_buf : ℕ × ℕ
  pub reason_code_buf : Option ℕ

pub record GenericAckBuilder : Type 0 where
  pub packet_id_buf : Option (ℕ × ℕ)
  pub reason_code_buf : Option (Option ℕ)

pub packet_id : GenericAck → ℕ
packet_id p = be_u16 p.packet_id_buf.0 p.packet_id_buf.1

abbrev pub size : GenericAck → ℕ
size p = total_size p.remaining_length

abbrev pub code_bytes : Option ℕ → List ℕ
code_bytes none = []
code_bytes (some rc) = rc ∷ []

abbrev pub code_size : Option ℕ → ℕ
code_size none = 0
code_size (some rc) = 1

-- What follows the remaining length.
abbrev pub body : GenericAck → List ℕ
body p = id_bytes p.packet_id_buf ++ code_bytes p.reason_code_buf

unfoldable pub to_continuous_buffer : GenericAck → List ℕ
to_continuous_buffer p = p.fixed_header ∷ (p.remaining_length ++ body p)

pub validate : GenericAckBuilder → Result (Unit {0})
validate b = elim b.packet_id_buf [
  | none ↦ err malformed_packet
  | some id ↦ if is_zero_id id then err malformed_packet else ok tt
]

pub reason_code : {Code : Type 0} → (ℕ → Option Code) → GenericAck → Option Code
reason_code from_u8 p = Option.bind p.reason_code_buf from_u8

-- The packet, once the identifier and the code are read.
pub assemble : ℕ → ℕ × ℕ → Option ℕ → Option (Result GenericAck)
assemble header id code = do
  remaining_length ← vbi (2 + code_size code)
  pass (record {
    fixed_header = header;
    remaining_length = remaining_length;
    packet_id_buf = id;
    reason_code_buf = code;
  })

pub parse_code : {Code : Type 0} → (ℕ → Option Code) → List ℕ → Result (Option ℕ)
parse_code from_u8 [] = ok none
parse_code from_u8 (rc ∷ rest) = elim (from_u8 rc) [
  | none ↦ err malformed_packet
  | some c ↦ ok (some rc)
]

pub parse : {Code : Type 0} → ℕ → (ℕ → Option Code) → List ℕ → Option (Result (GenericAck × ℕ))
unfolding assemble parse_code
parse header from_u8 [] = fail malformed_packet
parse header from_u8 (x ∷ []) = fail malformed_packet
parse header from_u8 (x ∷ y ∷ rest) = if is_zero_id (x, y) then fail malformed_packet else do
  code ← some (parse_code from_u8 rest)
  p ← assemble header (x, y) code
  pass (p, 2 + code_size code)

pub build : ℕ → GenericAckBuilder → Option (Result GenericAck)
unfolding validate assemble
build header b = do
  u ← some (validate b)
  elim b.packet_id_buf [
    | none ↦ none
    | some id ↦ assemble header id (Option.get_or b.reason_code_buf none)
  ]
