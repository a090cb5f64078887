-- ===== src/V3_1_1/Subscribe.antt =====
-- packet/v3_1_1/subscribe.rs.
use mathlib.Core.Option
use mqtt_protocol_core.Common.{
  ℕ, ◌+◌, ◌≤◌, ◌≡◌, false, List, [], ◌∷◌, ◌++◌, Option, none, some, length, arith, if◌then◌else◌,
  All,
}
use mqtt_protocol_core.ResultCode.{Result, ok, err, malformed_packet, protocol_error}
use mqtt_protocol_core.Vbi.{max_value}
use mqtt_protocol_core.Vbi.Encoding.{bytes}
use mqtt_protocol_core.Wire.Binary.{be_u16}
use mqtt_protocol_core.Wire.Entry.{SubEntry}
use mqtt_protocol_core.Wire.Entry
use mqtt_protocol_core.Wire.Entry.Laws.{
  IsEntry, parse-append, size-pos, length-to_continuous_buffer,
}
use mqtt_protocol_core.Codec.{
  ◌>>=◌, pass, fail, vbi, vbi-bytes, total_size, is_zero_id, id_bytes, read_many, sum_of, concat_of,
  is_nil,
}
use mqtt_protocol_core.Codec.Laws.{read_many-concat_of, length-concat_of}

pub record GenericSubscribe : Type 0 where
  pub fixed_header : ℕ
  pub remaining_length : List ℕ
  pub packet_id_buf : ℕ × ℕ
  pub entries : List SubEntry

pub record GenericSubscribeBuilder : Type 0 where
  pub packet_id_buf : Option (ℕ × ℕ)
  pub entries : Option (List SubEntry)

pub packet_id : GenericSubscribe → ℕ
packet_id p = be_u16 p.packet_id_buf.0 p.packet_id_buf.1

abbrev pub size : GenericSubscribe → ℕ
size p = total_size p.remaining_length

-- What follows the remaining length.
abbrev pub body : GenericSubscribe → List ℕ
body p = id_bytes p.packet_id_buf ++ concat_of Entry.to_continuous_buffer p.entries

unfoldable pub to_continuous_buffer : GenericSubscribe → List ℕ
to_continuous_buffer p = p.fixed_header ∷ (p.remaining_length ++ body p)

pub validate : Option (ℕ × ℕ) → List SubEntry → Result (ℕ × ℕ)
validate none entries = err malformed_packet
validate (some id) entries =
    if is_zero_id id
    then err malformed_packet
    else if is_nil entries
    then err protocol_error
    else ok id

assemble : ℕ × ℕ → List SubEntry → Option (Result GenericSubscribe)
assemble id entries = do
  remaining_length ← vbi (2 + sum_of Entry.size entries)
  pass (record {
    fixed_header = 0x82;
    remaining_length = remaining_length;
    packet_id_buf = id;
    entries = entries;
  })

pub build : GenericSubscribeBuilder → Option (Result GenericSubscribe)
unfolding validate assemble
build b =
    let entries = Option.get_or b.entries [] in
    do id ← some (validate b.packet_id_buf entries); assemble id entries

-- The cursor ends behind the last byte.
pub parse : List ℕ → Option (Result (GenericSubscribe × ℕ))
unfolding assemble
parse [] = fail malformed_packet
parse (x ∷ []) = fail malformed_packet
parse (x ∷ y ∷ rest) = do
  entries ← read_many Entry.parse (length rest) rest []
  if is_nil entries
      then fail protocol_error
      else do p ← assemble (x, y) entries; pass (p, 2 + length rest)

pub record IsValid (p : GenericSubscribe) : Type 0 where
  pub header_lem : p.fixed_header ≡ 0x82
  pub framed : p.remaining_length ≡ bytes (length (body p))
  pub entries_lem : All IsEntry p.entries
  pub some_entry : is_nil p.entries ≡ false

pub parse-body :
    (p : GenericSubscribe)
    → IsValid p
    → length (body p) ≤ max_value
    → parse (body p) ≡ some (ok (p, length (body p)))
unfolding parse
parse-body p v h = ground (
  arith,
  vbi-bytes (length (body p)) h,
  read_many-concat_of Entry.parse Entry.to_continuous_buffer IsEntry parse-append
      (λ e i. size-pos e) p.entries v.entries_lem,
  length-concat_of Entry.to_continuous_buffer Entry.size p.entries length-to_continuous_buffer,
)
