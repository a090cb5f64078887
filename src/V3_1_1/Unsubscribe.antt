-- ===== src/V3_1_1/Unsubscribe.antt =====
-- packet/v3_1_1/unsubscribe.rs.
use mathlib.Core.Option
use mqtt_protocol_core.Common.{
  ℕ, ◌+◌, ◌≤◌, ◌≡◌, refl, false, List, [], ◌∷◌, ◌++◌, Option, none, some, length, arith,
  if◌then◌else◌, All,
}
use mqtt_protocol_core.ResultCode.{Result, ok, err, malformed_packet, protocol_error}
use mqtt_protocol_core.Vbi.{max_value}
use mqtt_protocol_core.Vbi.Encoding.{bytes}
use mqtt_protocol_core.Wire.Binary.{be_u16}
use mqtt_protocol_core.Wire.Text.{MqttString, as_bytes}
use mqtt_protocol_core.Wire.Text
use mqtt_protocol_core.Wire.Text.Laws.{decode-append}
use mqtt_protocol_core.Wire.Binary.Laws.{prefixed-pos}
use mqtt_protocol_core.Wire.Property.Laws.{IsText}
use mqtt_protocol_core.Codec.{
  ◌>>=◌, pass, fail, vbi, vbi-bytes, total_size, is_zero_id, id_bytes, read_many, sum_of, concat_of,
  is_nil,
}
use mqtt_protocol_core.Codec.Laws.{read_many-concat_of, length-concat_of}

pub record GenericUnsubscribe : Type 0 where
  pub fixed_header : ℕ
  pub remaining_length : List ℕ
  pub packet_id_buf : ℕ × ℕ
  pub entry_bufs : List MqttString

pub record GenericUnsubscribeBuilder : Type 0 where
  pub packet_id_buf : Option (ℕ × ℕ)
  pub entry_bufs : Option (List MqttString)

pub packet_id : GenericUnsubscribe → ℕ
packet_id p = be_u16 p.packet_id_buf.0 p.packet_id_buf.1

abbrev pub size : GenericUnsubscribe → ℕ
size p = total_size p.remaining_length

-- What follows the remaining length.
abbrev pub body : GenericUnsubscribe → List ℕ
body p = id_bytes p.packet_id_buf ++ concat_of as_bytes p.entry_bufs

unfoldable pub to_continuous_buffer : GenericUnsubscribe → List ℕ
to_continuous_buffer p = p.fixed_header ∷ (p.remaining_length ++ body p)

pub validate : Option (ℕ × ℕ) → List MqttString → Result (ℕ × ℕ)
validate none entry_bufs = err malformed_packet
validate (some id) entry_bufs =
    if is_zero_id id
    then err malformed_packet
    else if is_nil entry_bufs
    then err protocol_error
    else ok id

assemble : ℕ × ℕ → List MqttString → Option (Result GenericUnsubscribe)
assemble id entry_bufs = do
  remaining_length ← vbi (2 + sum_of Text.size entry_bufs)
  pass (record {
    fixed_header = 0xA2;
    remaining_length = remaining_length;
    packet_id_buf = id;
    entry_bufs = entry_bufs;
  })

pub build : GenericUnsubscribeBuilder → Option (Result GenericUnsubscribe)
unfolding validate assemble
build b =
    let entry_bufs = Option.get_or b.entry_bufs [] in
    do id ← some (validate b.packet_id_buf entry_bufs); assemble id entry_bufs

-- The cursor ends behind the last byte.
pub parse : List ℕ → Option (Result (GenericUnsubscribe × ℕ))
unfolding assemble
parse [] = fail malformed_packet
parse (x ∷ []) = fail malformed_packet
parse (x ∷ y ∷ rest) = do
  entry_bufs ← read_many Text.decode (length rest) rest []
  if is_nil entry_bufs
      then fail protocol_error
      else do p ← assemble (x, y) entry_bufs; pass (p, 2 + length rest)

pub record IsValid (p : GenericUnsubscribe) : Type 0 where
  pub header_lem : p.fixed_header ≡ 0xA2
  pub framed : p.remaining_length ≡ bytes (length (body p))
  pub entries_lem : All IsText p.entry_bufs
  pub some_entry : is_nil p.entry_bufs ≡ false

decode-text :
    (s : MqttString) (rest : List ℕ)
    → IsText s
    → Text.decode (as_bytes s ++ rest) ≡ ok (s, length (as_bytes s))
unfolding IsText
decode-text s rest (p, u) = decode-append s.encoded rest p u

text-pos : (s : MqttString) → IsText s → 1 ≤ length (as_bytes s)
unfolding IsText
text-pos s (p, u) = prefixed-pos s.encoded p

pub parse-body :
    (p : GenericUnsubscribe)
    → IsValid p
    → length (body p) ≤ max_value
    → parse (body p) ≡ some (ok (p, length (body p)))
unfolding parse
parse-body p v h = ground (
  arith,
  vbi-bytes (length (body p)) h,
  read_many-concat_of Text.decode as_bytes IsText decode-text text-pos p.entry_bufs v.entries_lem,
  length-concat_of as_bytes Text.size p.entry_bufs (λ s. refl),
)
