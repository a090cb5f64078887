-- ===== src/V3_1_1/Publish.antt =====
-- packet/v3_1_1/publish.rs. The bits of the fixed header are read as arithmetic: 3 is DUP, 1 and 2
-- the QoS, 0 RETAIN. The payload, a view of the received data there, is the list of its bytes.
pub mod Laws
use mathlib.Core.Option
use mqtt_protocol_core.Common.{
  ℕ, ◌+◌, ◌*◌, ◌/◌, ◌%◌, ◌^◌, Bool, true, false, List, [], ◌∷◌, ◌++◌, Option, none, some, length,
  ◌==◌, ltb, ◌||◌, ◌&&◌, not, if◌then◌else◌,
}
use mqtt_protocol_core.ResultCode.{Result, ok, err, malformed_packet}
use mqtt_protocol_core.Wire.Binary.{be_u16}
use mqtt_protocol_core.Wire.Text.{MqttString, as_str}
use mqtt_protocol_core.Wire.Text
use mqtt_protocol_core.Packet.{Qos, at_most_once, at_least_once, exactly_once}
use mqtt_protocol_core.Packet.Topic.{has_wildcard}
use mqtt_protocol_core.Codec.{
  ◌>>=◌, pass, fail, vbi, total_size, has_bit, is_zero_id, id_bytes, read_id, read_text, is_nil,
}

pub record GenericPublish : Type 0 where
  pub fixed_header : ℕ
  pub remaining_length : List ℕ
  pub topic_name_buf : MqttString
  pub packet_id_buf : Option (ℕ × ℕ)
  pub payload_buf : List ℕ

pub record GenericPublishBuilder : Type 0 where
  pub fixed_header : Option ℕ
  pub topic_name_buf : Option MqttString
  pub packet_id_buf : Option (Option (ℕ × ℕ))
  pub payload_buf : Option (List ℕ)

abbrev pub qos_value : ℕ → ℕ
qos_value header = header / 2 % 4

-- `none` is `unreachable!`.
pub qos_of : ℕ → Option Qos
qos_of q =
    if q == 0
    then some at_most_once
    else if q == 1
    then some at_least_once
    else if q == 2
    then some exactly_once
    else none

abbrev pub qos_u8 : Qos → ℕ
qos_u8 at_most_once = 0
qos_u8 at_least_once = 1
qos_u8 exactly_once = 2

pub packet_id : GenericPublish → Option ℕ
packet_id p = Option.map (λ (id : ℕ × ℕ). be_u16 id.0 id.1) p.packet_id_buf

pub qos : GenericPublish → Option Qos
unfolding qos_of
qos p = qos_of (qos_value p.fixed_header)

abbrev pub dup : GenericPublish → Bool
dup p = has_bit p.fixed_header 3

abbrev pub retain : GenericPublish → Bool
retain p = has_bit p.fixed_header 0

-- Setting or clearing the bits of the fixed header.
abbrev pub put_dup : Bool → ℕ → ℕ
put_dup v header = header / 16 * 16 + (if v then 8 else 0) + header % 8

abbrev pub put_qos : Qos → ℕ → ℕ
put_qos q header = header / 8 * 8 + qos_u8 q * 2 + header % 2

abbrev pub put_retain : Bool → ℕ → ℕ
put_retain v header = header / 2 * 2 + (if v then 1 else 0)

pub set_dup : Bool → GenericPublish → GenericPublish
set_dup v p = record p { fixed_header = put_dup v p.fixed_header }

abbrev pub size : GenericPublish → ℕ
size p = total_size p.remaining_length

abbrev pub optional_id : Option (ℕ × ℕ) → List ℕ
optional_id none = []
optional_id (some id) = id_bytes id

abbrev pub id_size : Option (ℕ × ℕ) → ℕ
id_size none = 0
id_size (some id) = 2

-- What follows the remaining length.
abbrev pub body : GenericPublish → List ℕ
body p = p.topic_name_buf.encoded ++ (optional_id p.packet_id_buf ++ p.payload_buf)

unfoldable pub to_continuous_buffer : GenericPublish → List ℕ
to_continuous_buffer p = p.fixed_header ∷ (p.remaining_length ++ body p)

-- The identifier, if there is one, and the payload behind it.
pub split_id : ℕ → List ℕ → Result (Option (ℕ × ℕ) × List ℕ)
unfolding read_id
split_id q rest =
    if q == 0
    then ok (none, rest)
    else elim (read_id rest) [ err e ↦ err e | ok (id, payload) ↦ ok (some id, payload) ]

assemble : ℕ → MqttString → Option (ℕ × ℕ) → List ℕ → Option (Result GenericPublish)
assemble header topic id payload = do
  remaining_length ← vbi (Text.size topic + id_size id + length payload)
  pass (record {
    fixed_header = header;
    remaining_length = remaining_length;
    topic_name_buf = topic;
    packet_id_buf = id;
    payload_buf = payload;
  })

pub parse : ℕ → List ℕ → Option (Result (GenericPublish × ℕ))
unfolding split_id assemble
parse flags bs = if qos_value flags == 3 then fail malformed_packet else do
  topic ← some (read_text bs)
  parts ← some (split_id (qos_value flags) topic.1)
  p ← assemble (0x30 + flags % 16) topic.0 parts.0 parts.1
  pass (p, length bs)

-- The builder's `topic_name`, `qos`, `dup` and `retain`.
pub with_topic_name : List ℕ → GenericPublishBuilder → Result GenericPublishBuilder
with_topic_name topic b = elim (Text.new topic) [
  | err e ↦ err e
  | ok s ↦
      if has_wildcard (as_str s)
      then err malformed_packet
      else ok (record b { topic_name_buf = some s })
]

abbrev pub header_of : GenericPublishBuilder → ℕ
header_of b = Option.get_or b.fixed_header 0x30

pub with_qos : Qos → GenericPublishBuilder → GenericPublishBuilder
with_qos q b = record b { fixed_header = some (put_qos q (header_of b)) }

pub with_dup : Bool → GenericPublishBuilder → GenericPublishBuilder
with_dup v b = record b { fixed_header = some (put_dup v (header_of b)) }

pub with_retain : Bool → GenericPublishBuilder → GenericPublishBuilder
with_retain v b = record b { fixed_header = some (put_retain v (header_of b)) }

-- The identifier must be there exactly for QoS 1 and 2, and not be zero.
pub check_id : ℕ → Option (ℕ × ℕ) → Bool
check_id q none = q == 0
check_id q (some id) = not (q == 0) && not (is_zero_id id)

pub validate : GenericPublishBuilder → Result MqttString
unfolding check_id
validate b = elim b.topic_name_buf [
  | none ↦ err malformed_packet
  | some topic ↦
      if is_nil (as_str topic)
        || qos_value (header_of b) == 3
        || not (check_id (qos_value (header_of b)) (Option.get_or b.packet_id_buf none))
        || ltb 268435455 (length (Option.get_or b.payload_buf []))
      then err malformed_packet
      else ok topic
]

pub build : GenericPublishBuilder → Option (Result GenericPublish)
unfolding validate assemble
build b = do
  topic ← some (validate b)
  assemble (header_of b) topic (Option.get_or b.packet_id_buf none) (Option.get_or b.payload_buf [])
