-- ===== src/Wire/Property/Laws.antt =====
-- packet/property.rs: parsing reads back what was written.
use mqtt_protocol_core.Common.{
  ℕ, ◌+◌, ◌/◌, ◌%◌, ◌≤◌, ◌<◌, ◌≡◌, refl, ap, ◌∙◌, true, List, [], ◌∷◌, ◌++◌, some, length, drop,
  arith, length-append, drop-length,
}
use mathlib.Core.List.{append_assoc}
use mqtt_protocol_core.ResultCode.{Result, ok}
use mqtt_protocol_core.Vbi.{max_value}
use mqtt_protocol_core.Vbi.Encoding.{bytes, to_u32-bytes}
use mqtt_protocol_core.Vbi.Streaming.{decode_stream-bytes}
use mqtt_protocol_core.Wire.Binary.{be_u16}
use mqtt_protocol_core.Wire.Binary.Laws as BinaryLaws
use mqtt_protocol_core.Wire.Binary.Laws.{IsPrefixed}
use mqtt_protocol_core.Wire.Text.{MqttString}
use mqtt_protocol_core.Wire.Text
use mqtt_protocol_core.Wire.Text.Laws as TextLaws
use mqtt_protocol_core.Wire.Utf8.{is_utf8}
use mqtt_protocol_core.Wire.Property.{
  PropertyId, Property, as_u8, property_id_from_u8, property_id, u16_bytes, u32_bytes, value_bytes,
  to_continuous_buffer, size, no_validator, at_most_one, non_zero, validated, parse_u8, parse_u16,
  be_u32, parse_u32, parse_variable_integer, finish, with_value, parse_string_pair, parse_value,
  parse,
}

-- A stored text: its length in front, and UTF-8.
unfoldable pub IsText : MqttString → Type 0
IsText s = IsPrefixed s.encoded × (is_utf8 (drop 2 s.encoded) ≡ true)

-- The values that the constructors of the properties let through.
unfoldable pub IsValid : Property → Type 0
unfolding IsText
IsValid (Property.payload_format_indicator v) = v ≤ 1
IsValid (Property.message_expiry_interval v) = v < 4294967296
IsValid (Property.content_type v) = IsText v
IsValid (Property.response_topic v) = IsText v
IsValid (Property.correlation_data v) = IsPrefixed v.encoded
IsValid (Property.subscription_identifier v) = (n : ℕ) × (v ≡ bytes n) × (1 ≤ n) × (n ≤ max_value)
IsValid (Property.session_expiry_interval v) = v < 4294967296
IsValid (Property.assigned_client_identifier v) = IsText v
IsValid (Property.server_keep_alive v) = v < 65536
IsValid (Property.authentication_method v) = IsText v
IsValid (Property.authentication_data v) = IsPrefixed v.encoded
IsValid (Property.request_problem_information v) = v ≤ 1
IsValid (Property.will_delay_interval v) = v < 4294967296
IsValid (Property.request_response_information v) = v ≤ 1
IsValid (Property.response_information v) = IsText v
IsValid (Property.server_reference v) = IsText v
IsValid (Property.reason_string v) = IsText v
IsValid (Property.receive_maximum v) = (1 ≤ v) × (v < 65536)
IsValid (Property.topic_alias_maximum v) = v < 65536
IsValid (Property.topic_alias v) = (1 ≤ v) × (v < 65536)
IsValid (Property.maximum_qos v) = v ≤ 1
IsValid (Property.retain_available v) = v ≤ 1
IsValid (Property.user_property k v) = IsText k × IsText v
IsValid (Property.maximum_packet_size v) = (1 ≤ v) × (v < 4294967296)
IsValid (Property.wildcard_subscription_available v) = v ≤ 1
IsValid (Property.subscription_identifier_available v) = v ≤ 1
IsValid (Property.shared_subscription_available v) = v ≤ 1

module _ (validator : ℕ → Result (Unit {0})) (v : ℕ) (passes : validator v ≡ ok tt)
    (rest : List ℕ) where
  parse_u8-bytes : parse_u8 validator ((v ∷ []) ++ rest) ≡ ok (v, 1)
  unfolding parse_u8
  parse_u8-bytes = rw (passes, validated)

  parse_u16-bytes : v < 65536 → parse_u16 validator (u16_bytes v ++ rest) ≡ ok (v, 2)
  unfolding parse_u16
  parse_u16-bytes h =
      let e : be_u16 (v / 256) (v % 256) ≡ v = omega arith in rw (e, passes, validated)

  parse_u32-bytes : v < 4294967296 → parse_u32 validator (u32_bytes v ++ rest) ≡ ok (v, 4)
  unfolding parse_u32
  parse_u32-bytes h =
      let e : be_u32 (v / 16777216) (v / 65536 % 256) (v / 256 % 256) (v % 256) ≡ v = omega arith in
      rw (e, passes, validated)

  parse_variable_integer-bytes :
      v ≤ max_value
      → parse_variable_integer validator (bytes v ++ rest) ≡ ok (bytes v, length (bytes v))
  unfolding parse_variable_integer
  parse_variable_integer-bytes h =
      rw (decode_stream-bytes v rest h, parse_variable_integer)
        (rw (to_u32-bytes v h, passes, validated) refl)

text-append :
    (s : MqttString) (rest : List ℕ)
    → IsText s
    → Text.decode (s.encoded ++ rest) ≡ ok (s, Text.size s)
unfolding IsText
text-append s rest h = TextLaws.decode-append s.encoded rest h.0 h.1

string_pair-append :
    (k v : MqttString) (rest : List ℕ)
    → IsText k
    → IsText v
    → parse_string_pair ((k.encoded ++ v.encoded) ++ rest) ≡ ok ((k, v), Text.size k + Text.size v)
unfolding parse_string_pair
string_pair-append k v rest hk hv =
    let d : drop (Text.size k) ((k.encoded ++ v.encoded) ++ rest) ≡ v.encoded ++ rest =
      rw (append_assoc k.encoded v.encoded rest) (drop-length k.encoded (v.encoded ++ rest)) in
    let e : Text.decode ((k.encoded ++ v.encoded) ++ rest) ≡ ok (k, Text.size k) =
      rw (append_assoc k.encoded v.encoded rest) (text-append k (v.encoded ++ rest) hk) in
    rw (e, parse_string_pair, d, text-append v rest hv, with_value)

-- The value part of a valid property, with anything behind it, is parsed to the property.
parse_value-append :
    (p : Property) (rest : List ℕ)
    → IsValid p
    → parse_value (property_id p) (value_bytes p ++ rest) ≡ ok (p, size p)
unfolding parse_value property_id size IsValid
parse_value-append (Property.payload_format_indicator v) rest h =
    ap (finish Property.payload_format_indicator) (parse_u8-bytes at_most_one v (ground arith) rest)
parse_value-append (Property.message_expiry_interval v) rest h =
    ap (finish Property.message_expiry_interval) (parse_u32-bytes no_validator v refl rest h)
parse_value-append (Property.content_type v) rest h =
    ap (finish Property.content_type) (text-append v rest h)
    ∙ ap (λ (l : ℕ). ok (Property.content_type v, l)) (omega arith)
parse_value-append (Property.response_topic v) rest h =
    ap (finish Property.response_topic) (text-append v rest h)
    ∙ ap (λ (l : ℕ). ok (Property.response_topic v, l)) (omega arith)
parse_value-append (Property.correlation_data v) rest h =
    ap (finish Property.correlation_data) (BinaryLaws.decode-append v.encoded rest h)
    ∙ ap (λ (l : ℕ). ok (Property.correlation_data v, l)) (omega arith)
parse_value-append (Property.subscription_identifier v) rest h =
    let (n, e, lo, hi) = h in
    rw e (
      ap (finish Property.subscription_identifier)
        (parse_variable_integer-bytes non_zero n (ground arith) rest hi)
      ∙ ap (λ (l : ℕ). ok (Property.subscription_identifier (bytes n), l)) (omega arith))
parse_value-append (Property.session_expiry_interval v) rest h =
    ap (finish Property.session_expiry_interval) (parse_u32-bytes no_validator v refl rest h)
parse_value-append (Property.assigned_client_identifier v) rest h =
    ap (finish Property.assigned_client_identifier) (text-append v rest h)
    ∙ ap (λ (l : ℕ). ok (Property.assigned_client_identifier v, l)) (omega arith)
parse_value-append (Property.server_keep_alive v) rest h =
    ap (finish Property.server_keep_alive) (parse_u16-bytes no_validator v refl rest h)
parse_value-append (Property.authentication_method v) rest h =
    ap (finish Property.authentication_method) (text-append v rest h)
    ∙ ap (λ (l : ℕ). ok (Property.authentication_method v, l)) (omega arith)
parse_value-append (Property.authentication_data v) rest h =
    ap (finish Property.authentication_data) (BinaryLaws.decode-append v.encoded rest h)
    ∙ ap (λ (l : ℕ). ok (Property.authentication_data v, l)) (omega arith)
parse_value-append (Property.request_problem_information v) rest h =
    ap (finish Property.request_problem_information)
      (parse_u8-bytes at_most_one v (ground arith) rest)
parse_value-append (Property.will_delay_interval v) rest h =
    ap (finish Property.will_delay_interval) (parse_u32-bytes no_validator v refl rest h)
parse_value-append (Property.request_response_information v) rest h =
    ap (finish Property.request_response_information)
      (parse_u8-bytes at_most_one v (ground arith) rest)
parse_value-append (Property.response_information v) rest h =
    ap (finish Property.response_information) (text-append v rest h)
    ∙ ap (λ (l : ℕ). ok (Property.response_information v, l)) (omega arith)
parse_value-append (Property.server_reference v) rest h =
    ap (finish Property.server_reference) (text-append v rest h)
    ∙ ap (λ (l : ℕ). ok (Property.server_reference v, l)) (omega arith)
parse_value-append (Property.reason_string v) rest h =
    ap (finish Property.reason_string) (text-append v rest h)
    ∙ ap (λ (l : ℕ). ok (Property.reason_string v, l)) (omega arith)
parse_value-append (Property.receive_maximum v) rest h =
    ap (finish Property.receive_maximum) (parse_u16-bytes non_zero v (ground arith) rest h.1)
parse_value-append (Property.topic_alias_maximum v) rest h =
    ap (finish Property.topic_alias_maximum) (parse_u16-bytes no_validator v refl rest h)
parse_value-append (Property.topic_alias v) rest h =
    ap (finish Property.topic_alias) (parse_u16-bytes non_zero v (ground arith) rest h.1)
parse_value-append (Property.maximum_qos v) rest h =
    ap (finish Property.maximum_qos) (parse_u8-bytes at_most_one v (ground arith) rest)
parse_value-append (Property.retain_available v) rest h =
    ap (finish Property.retain_available) (parse_u8-bytes at_most_one v (ground arith) rest)
parse_value-append (Property.user_property k v) rest h =
    ap (finish (λ (p : MqttString × MqttString). Property.user_property p.0 p.1))
      (string_pair-append k v rest h.0 h.1)
    ∙ ap (λ (l : ℕ). ok (Property.user_property k v, l)) (omega arith)
parse_value-append (Property.maximum_packet_size v) rest h =
    ap (finish Property.maximum_packet_size) (parse_u32-bytes non_zero v (ground arith) rest h.1)
parse_value-append (Property.wildcard_subscription_available v) rest h =
    ap (finish Property.wildcard_subscription_available)
      (parse_u8-bytes at_most_one v (ground arith) rest)
parse_value-append (Property.subscription_identifier_available v) rest h =
    ap (finish Property.subscription_identifier_available)
      (parse_u8-bytes at_most_one v (ground arith) rest)
parse_value-append (Property.shared_subscription_available v) rest h =
    ap (finish Property.shared_subscription_available)
      (parse_u8-bytes at_most_one v (ground arith) rest)

property_id_from_u8-as_u8 : (i : PropertyId) → property_id_from_u8 (as_u8 i) ≡ some i
unfolding property_id_from_u8 as_u8
property_id_from_u8-as_u8 PropertyId.payload_format_indicator = refl
property_id_from_u8-as_u8 PropertyId.message_expiry_interval = refl
property_id_from_u8-as_u8 PropertyId.content_type = refl
property_id_from_u8-as_u8 PropertyId.response_topic = refl
property_id_from_u8-as_u8 PropertyId.correlation_data = refl
property_id_from_u8-as_u8 PropertyId.subscription_identifier = refl
property_id_from_u8-as_u8 PropertyId.session_expiry_interval = refl
property_id_from_u8-as_u8 PropertyId.assigned_client_identifier = refl
property_id_from_u8-as_u8 PropertyId.server_keep_alive = refl
property_id_from_u8-as_u8 PropertyId.authentication_method = refl
property_id_from_u8-as_u8 PropertyId.authentication_data = refl
property_id_from_u8-as_u8 PropertyId.request_problem_information = refl
property_id_from_u8-as_u8 PropertyId.will_delay_interval = refl
property_id_from_u8-as_u8 PropertyId.request_response_information = refl
property_id_from_u8-as_u8 PropertyId.response_information = refl
property_id_from_u8-as_u8 PropertyId.server_reference = refl
property_id_from_u8-as_u8 PropertyId.reason_string = refl
property_id_from_u8-as_u8 PropertyId.receive_maximum = refl
property_id_from_u8-as_u8 PropertyId.topic_alias_maximum = refl
property_id_from_u8-as_u8 PropertyId.topic_alias = refl
property_id_from_u8-as_u8 PropertyId.maximum_qos = refl
property_id_from_u8-as_u8 PropertyId.retain_available = refl
property_id_from_u8-as_u8 PropertyId.user_property = refl
property_id_from_u8-as_u8 PropertyId.maximum_packet_size = refl
property_id_from_u8-as_u8 PropertyId.wildcard_subscription_available = refl
property_id_from_u8-as_u8 PropertyId.subscription_identifier_available = refl
property_id_from_u8-as_u8 PropertyId.shared_subscription_available = refl

-- A property that the constructors let through is parsed back from its encoding, with anything behind
-- it, and exactly its size is consumed.
pub parse-to_continuous_buffer :
    (p : Property) (rest : List ℕ)
    → IsValid p
    → parse (to_continuous_buffer p ++ rest) ≡ ok (p, size p)
unfolding parse to_continuous_buffer
parse-to_continuous_buffer p rest h =
    rw (property_id_from_u8-as_u8 (property_id p), parse) (parse_value-append p rest h)

-- `size` is the number of bytes that are written.
pub length-to_continuous_buffer : (p : Property) → length (to_continuous_buffer p) ≡ size p
unfolding to_continuous_buffer size as_u8 property_id
length-to_continuous_buffer (Property.payload_format_indicator v) = omega arith
length-to_continuous_buffer (Property.message_expiry_interval v) = omega arith
length-to_continuous_buffer (Property.content_type v) = omega arith
length-to_continuous_buffer (Property.response_topic v) = omega arith
length-to_continuous_buffer (Property.correlation_data v) = omega arith
length-to_continuous_buffer (Property.subscription_identifier v) = omega arith
length-to_continuous_buffer (Property.session_expiry_interval v) = omega arith
length-to_continuous_buffer (Property.assigned_client_identifier v) = omega arith
length-to_continuous_buffer (Property.server_keep_alive v) = omega arith
length-to_continuous_buffer (Property.authentication_method v) = omega arith
length-to_continuous_buffer (Property.authentication_data v) = omega arith
length-to_continuous_buffer (Property.request_problem_information v) = omega arith
length-to_continuous_buffer (Property.will_delay_interval v) = omega arith
length-to_continuous_buffer (Property.request_response_information v) = omega arith
length-to_continuous_buffer (Property.response_information v) = omega arith
length-to_continuous_buffer (Property.server_reference v) = omega arith
length-to_continuous_buffer (Property.reason_string v) = omega arith
length-to_continuous_buffer (Property.receive_maximum v) = omega arith
length-to_continuous_buffer (Property.topic_alias_maximum v) = omega arith
length-to_continuous_buffer (Property.topic_alias v) = omega arith
length-to_continuous_buffer (Property.maximum_qos v) = omega arith
length-to_continuous_buffer (Property.retain_available v) = omega arith
length-to_continuous_buffer (Property.user_property k v) =
    omega (arith, length-append k.encoded v.encoded)
length-to_continuous_buffer (Property.maximum_packet_size v) = omega arith
length-to_continuous_buffer (Property.wildcard_subscription_available v) = omega arith
length-to_continuous_buffer (Property.subscription_identifier_available v) = omega arith
length-to_continuous_buffer (Property.shared_subscription_available v) = omega arith
