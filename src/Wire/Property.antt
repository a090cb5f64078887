-- ===== src/Wire/Property.antt =====
-- packet/property.rs: the properties of version 5.0, their encoding, size and parsing. A number of
-- fixed width is kept as its value, the source keeps its big-endian bytes; a variable byte integer is
-- kept as its bytes. The macros' `validator` is an argument of the parsers.
pub mod Laws
pub mod Sequence
use mqtt_protocol_core.Common.{
  ℕ, ◌+◌, ◌*◌, ◌/◌, ◌%◌, Bool, true, false, List, [], ◌∷◌, ◌++◌, Option, none, some, ltb, ◌==◌,
  length, drop, if◌then◌else◌,
}
use mqtt_protocol_core.ResultCode.{
  MqttError, Result, ok, err, malformed_packet, protocol_error, insufficient_bytes,
}
use mqtt_protocol_core.Vbi.{decode_stream, to_u32}
use mqtt_protocol_core.Vbi
use mqtt_protocol_core.Wire.Binary.{MqttBinary, be_u16}
use mqtt_protocol_core.Wire.Binary
use mqtt_protocol_core.Wire.Text.{MqttString}
use mqtt_protocol_core.Wire.Text

pub data PropertyId : Type 0 where
  payload_format_indicator : PropertyId
  message_expiry_interval : PropertyId
  content_type : PropertyId
  response_topic : PropertyId
  correlation_data : PropertyId
  subscription_identifier : PropertyId
  session_expiry_interval : PropertyId
  assigned_client_identifier : PropertyId
  server_keep_alive : PropertyId
  authentication_method : PropertyId
  authentication_data : PropertyId
  request_problem_information : PropertyId
  will_delay_interval : PropertyId
  request_response_information : PropertyId
  response_information : PropertyId
  server_reference : PropertyId
  reason_string : PropertyId
  receive_maximum : PropertyId
  topic_alias_maximum : PropertyId
  topic_alias : PropertyId
  maximum_qos : PropertyId
  retain_available : PropertyId
  user_property : PropertyId
  maximum_packet_size : PropertyId
  wildcard_subscription_available : PropertyId
  subscription_identifier_available : PropertyId
  shared_subscription_available : PropertyId

pub data Property : Type 0 where
  payload_format_indicator : ℕ → Property
  message_expiry_interval : ℕ → Property
  content_type : MqttString → Property
  response_topic : MqttString → Property
  correlation_data : MqttBinary → Property
  subscription_identifier : List ℕ → Property
  session_expiry_interval : ℕ → Property
  assigned_client_identifier : MqttString → Property
  server_keep_alive : ℕ → Property
  authentication_method : MqttString → Property
  authentication_data : MqttBinary → Property
  request_problem_information : ℕ → Property
  will_delay_interval : ℕ → Property
  request_response_information : ℕ → Property
  response_information : MqttString → Property
  server_reference : MqttString → Property
  reason_string : MqttString → Property
  receive_maximum : ℕ → Property
  topic_alias_maximum : ℕ → Property
  topic_alias : ℕ → Property
  maximum_qos : ℕ → Property
  retain_available : ℕ → Property
  user_property : MqttString → MqttString → Property
  maximum_packet_size : ℕ → Property
  wildcard_subscription_available : ℕ → Property
  subscription_identifier_available : ℕ → Property
  shared_subscription_available : ℕ → Property

-- The enum's discriminants.
pub as_u8 : PropertyId → ℕ
as_u8 PropertyId.payload_format_indicator = 1
as_u8 PropertyId.message_expiry_interval = 2
as_u8 PropertyId.content_type = 3
as_u8 PropertyId.response_topic = 8
as_u8 PropertyId.correlation_data = 9
as_u8 PropertyId.subscription_identifier = 11
as_u8 PropertyId.session_expiry_interval = 17
as_u8 PropertyId.assigned_client_identifier = 18
as_u8 PropertyId.server_keep_alive = 19
as_u8 PropertyId.authentication_method = 21
as_u8 PropertyId.authentication_data = 22
as_u8 PropertyId.request_problem_information = 23
as_u8 PropertyId.will_delay_interval = 24
as_u8 PropertyId.request_response_information = 25
as_u8 PropertyId.response_information = 26
as_u8 PropertyId.server_reference = 28
as_u8 PropertyId.reason_string = 31
as_u8 PropertyId.receive_maximum = 33
as_u8 PropertyId.topic_alias_maximum = 34
as_u8 PropertyId.topic_alias = 35
as_u8 PropertyId.maximum_qos = 36
as_u8 PropertyId.retain_available = 37
as_u8 PropertyId.user_property = 38
as_u8 PropertyId.maximum_packet_size = 39
as_u8 PropertyId.wildcard_subscription_available = 40
as_u8 PropertyId.subscription_identifier_available = 41
as_u8 PropertyId.shared_subscription_available = 42

-- `TryFromPrimitive`.
pub property_id_from_u8 : ℕ → Option PropertyId
property_id_from_u8 n =
    if n == 1
    then some PropertyId.payload_format_indicator
    else if n == 2
    then some PropertyId.message_expiry_interval
    else if n == 3
    then some PropertyId.content_type
    else if n == 8
    then some PropertyId.response_topic
    else if n == 9
    then some PropertyId.correlation_data
    else if n == 11
    then some PropertyId.subscription_identifier
    else if n == 17
    then some PropertyId.session_expiry_interval
    else if n == 18
    then some PropertyId.assigned_client_identifier
    else if n == 19
    then some PropertyId.server_keep_alive
    else if n == 21
    then some PropertyId.authentication_method
    else if n == 22
    then some PropertyId.authentication_data
    else if n == 23
    then some PropertyId.request_problem_information
    else if n == 24
    then some PropertyId.will_delay_interval
    else if n == 25
    then some PropertyId.request_response_information
    else if n == 26
    then some PropertyId.response_information
    else if n == 28
    then some PropertyId.server_reference
    else if n == 31
    then some PropertyId.reason_string
    else if n == 33
    then some PropertyId.receive_maximum
    else if n == 34
    then some PropertyId.topic_alias_maximum
    else if n == 35
    then some PropertyId.topic_alias
    else if n == 36
    then some PropertyId.maximum_qos
    else if n == 37
    then some PropertyId.retain_available
    else if n == 38
    then some PropertyId.user_property
    else if n == 39
    then some PropertyId.maximum_packet_size
    else if n == 40
    then some PropertyId.wildcard_subscription_available
    else if n == 41
    then some PropertyId.subscription_identifier_available
    else if n == 42
    then some PropertyId.shared_subscription_available
    else none

pub property_id : Property → PropertyId
property_id (Property.payload_format_indicator v) = PropertyId.payload_format_indicator
property_id (Property.message_expiry_interval v) = PropertyId.message_expiry_interval
property_id (Property.content_type v) = PropertyId.content_type
property_id (Property.response_topic v) = PropertyId.response_topic
property_id (Property.correlation_data v) = PropertyId.correlation_data
property_id (Property.subscription_identifier v) = PropertyId.subscription_identifier
property_id (Property.session_expiry_interval v) = PropertyId.session_expiry_interval
property_id (Property.assigned_client_identifier v) = PropertyId.assigned_client_identifier
property_id (Property.server_keep_alive v) = PropertyId.server_keep_alive
property_id (Property.authentication_method v) = PropertyId.authentication_method
property_id (Property.authentication_data v) = PropertyId.authentication_data
property_id (Property.request_problem_information v) = PropertyId.request_problem_information
property_id (Property.will_delay_interval v) = PropertyId.will_delay_interval
property_id (Property.request_response_information v) = PropertyId.request_response_information
property_id (Property.response_information v) = PropertyId.response_information
property_id (Property.server_reference v) = PropertyId.server_reference
property_id (Property.reason_string v) = PropertyId.reason_string
property_id (Property.receive_maximum v) = PropertyId.receive_maximum
property_id (Property.topic_alias_maximum v) = PropertyId.topic_alias_maximum
property_id (Property.topic_alias v) = PropertyId.topic_alias
property_id (Property.maximum_qos v) = PropertyId.maximum_qos
property_id (Property.retain_available v) = PropertyId.retain_available
property_id (Property.user_property k v) = PropertyId.user_property
property_id (Property.maximum_packet_size v) = PropertyId.maximum_packet_size
property_id (Property.wildcard_subscription_available v) =
    PropertyId.wildcard_subscription_available
property_id (Property.subscription_identifier_available v) =
    PropertyId.subscription_identifier_available
property_id (Property.shared_subscription_available v) = PropertyId.shared_subscription_available

-- `to_be_bytes`.
abbrev pub u16_bytes : ℕ → List ℕ
u16_bytes v = (v / 256) ∷ (v % 256) ∷ []

abbrev pub u32_bytes : ℕ → List ℕ
u32_bytes v = (v / 16777216) ∷ (v / 65536 % 256) ∷ (v / 256 % 256) ∷ (v % 256) ∷ []

-- What follows the identifier.
abbrev pub value_bytes : Property → List ℕ
value_bytes (Property.payload_format_indicator v) = v ∷ []
value_bytes (Property.message_expiry_interval v) = u32_bytes v
value_bytes (Property.content_type v) = Text.to_continuous_buffer v
value_bytes (Property.response_topic v) = Text.to_continuous_buffer v
value_bytes (Property.correlation_data v) = Binary.to_continuous_buffer v
value_bytes (Property.subscription_identifier v) = v
value_bytes (Property.session_expiry_interval v) = u32_bytes v
value_bytes (Property.assigned_client_identifier v) = Text.to_continuous_buffer v
value_bytes (Property.server_keep_alive v) = u16_bytes v
value_bytes (Property.authentication_method v) = Text.to_continuous_buffer v
value_bytes (Property.authentication_data v) = Binary.to_continuous_buffer v
value_bytes (Property.request_problem_information v) = v ∷ []
value_bytes (Property.will_delay_interval v) = u32_bytes v
value_bytes (Property.request_response_information v) = v ∷ []
value_bytes (Property.response_information v) = Text.to_continuous_buffer v
value_bytes (Property.server_reference v) = Text.to_continuous_buffer v
value_bytes (Property.reason_string v) = Text.to_continuous_buffer v
value_bytes (Property.receive_maximum v) = u16_bytes v
value_bytes (Property.topic_alias_maximum v) = u16_bytes v
value_bytes (Property.topic_alias v) = u16_bytes v
value_bytes (Property.maximum_qos v) = v ∷ []
value_bytes (Property.retain_available v) = v ∷ []
value_bytes (Property.user_property k v) =
    Text.to_continuous_buffer k ++ Text.to_continuous_buffer v
value_bytes (Property.maximum_packet_size v) = u32_bytes v
value_bytes (Property.wildcard_subscription_available v) = v ∷ []
value_bytes (Property.subscription_identifier_available v) = v ∷ []
value_bytes (Property.shared_subscription_available v) = v ∷ []

unfoldable pub to_continuous_buffer : Property → List ℕ
unfolding as_u8 property_id
to_continuous_buffer p = as_u8 (property_id p) ∷ value_bytes p

unfoldable pub size : Property → ℕ
size (Property.payload_format_indicator v) = 1 + 1
size (Property.message_expiry_interval v) = 1 + 4
size (Property.content_type v) = 1 + Text.size v
size (Property.response_topic v) = 1 + Text.size v
size (Property.correlation_data v) = 1 + Binary.size v
size (Property.subscription_identifier v) = 1 + length v
size (Property.session_expiry_interval v) = 1 + 4
size (Property.assigned_client_identifier v) = 1 + Text.size v
size (Property.server_keep_alive v) = 1 + 2
size (Property.authentication_method v) = 1 + Text.size v
size (Property.authentication_data v) = 1 + Binary.size v
size (Property.request_problem_information v) = 1 + 1
size (Property.will_delay_interval v) = 1 + 4
size (Property.request_response_information v) = 1 + 1
size (Property.response_information v) = 1 + Text.size v
size (Property.server_reference v) = 1 + Text.size v
size (Property.reason_string v) = 1 + Text.size v
size (Property.receive_maximum v) = 1 + 2
size (Property.topic_alias_maximum v) = 1 + 2
size (Property.topic_alias v) = 1 + 2
size (Property.maximum_qos v) = 1 + 1
size (Property.retain_available v) = 1 + 1
size (Property.user_property k v) = 1 + Text.size k + Text.size v
size (Property.maximum_packet_size v) = 1 + 4
size (Property.wildcard_subscription_available v) = 1 + 1
size (Property.subscription_identifier_available v) = 1 + 1
size (Property.shared_subscription_available v) = 1 + 1

abbrev pub no_validator : ℕ → Result (Unit {0})
no_validator v = ok tt

abbrev pub at_most_one : ℕ → Result (Unit {0})
at_most_one v = if ltb 1 v then err protocol_error else ok tt

abbrev pub non_zero : ℕ → Result (Unit {0})
non_zero v = if v == 0 then err protocol_error else ok tt

-- `validator(v)?`, then the value and what was consumed.
abbrev pub validated {ℓ} : {A : Type ℓ} → Result (Unit {0}) → A → ℕ → Result (A × ℕ)
validated (ok u) a consumed = ok (a, consumed)
validated (err e) a consumed = err e

pub parse_u8 : (ℕ → Result (Unit {0})) → List ℕ → Result (ℕ × ℕ)
parse_u8 validator [] = err malformed_packet
parse_u8 validator (b ∷ rest) = validated (validator b) b 1

pub parse_u16 : (ℕ → Result (Unit {0})) → List ℕ → Result (ℕ × ℕ)
parse_u16 validator [] = err malformed_packet
parse_u16 validator (x ∷ []) = err malformed_packet
parse_u16 validator (x ∷ y ∷ rest) = validated (validator (be_u16 x y)) (be_u16 x y) 2

abbrev pub be_u32 : ℕ → ℕ → ℕ → ℕ → ℕ
be_u32 a b c d = a * 16777216 + b * 65536 + c * 256 + d

pub parse_u32 : (ℕ → Result (Unit {0})) → List ℕ → Result (ℕ × ℕ)
parse_u32 validator (a ∷ b ∷ c ∷ d ∷ rest) =
    validated (validator (be_u32 a b c d)) (be_u32 a b c d) 4
parse_u32 validator _ = err malformed_packet

-- Both failures of `decode_stream` are reported as `InsufficientBytes`; its panic does not occur.
pub parse_variable_integer : (ℕ → Result (Unit {0})) → List ℕ → Result (List ℕ × ℕ)
parse_variable_integer validator bytes = elim (decode_stream bytes) [
  | Vbi.ok vbi consumed ↦ validated (validator (to_u32 vbi)) vbi consumed
  | Vbi.incomplete ↦ err insufficient_bytes
  | Vbi.err e ↦ err insufficient_bytes
  | Vbi.panicked ↦ err insufficient_bytes
]

-- `(Self::…(p), l + 1)` after `?`.
abbrev pub finish {ℓ} : {A : Type ℓ} → (A → Property) → Result (A × ℕ) → Result (Property × ℕ)
finish property (ok (p, l)) = ok (property p, l + 1)
finish property (err e) = err e

-- The key of a user property with its value.
abbrev pub with_value :
    MqttString → ℕ → Result (MqttString × ℕ) → Result ((MqttString × MqttString) × ℕ)
with_value key key_consumed (ok (val, val_consumed)) = ok ((key, val), key_consumed + val_consumed)
with_value key key_consumed (err e) = err e

-- The value of a user property; the second string begins where the first ended.
pub parse_string_pair : List ℕ → Result ((MqttString × MqttString) × ℕ)
parse_string_pair bytes = elim (Text.decode bytes) [
  | err e ↦ err e
  | ok (key, key_consumed) ↦ with_value key key_consumed (Text.decode (drop key_consumed bytes))
]

-- The `match` on the identifier.
pub parse_value : PropertyId → List ℕ → Result (Property × ℕ)
parse_value PropertyId.payload_format_indicator bytes =
    finish Property.payload_format_indicator (parse_u8 at_most_one bytes)
parse_value PropertyId.message_expiry_interval bytes =
    finish Property.message_expiry_interval (parse_u32 no_validator bytes)
parse_value PropertyId.content_type bytes = finish Property.content_type (Text.decode bytes)
parse_value PropertyId.response_topic bytes = finish Property.response_topic (Text.decode bytes)
parse_value PropertyId.correlation_data bytes =
    finish Property.correlation_data (Binary.decode bytes)
parse_value PropertyId.subscription_identifier bytes =
    finish Property.subscription_identifier (parse_variable_integer non_zero bytes)
parse_value PropertyId.session_expiry_interval bytes =
    finish Property.session_expiry_interval (parse_u32 no_validator bytes)
parse_value PropertyId.assigned_client_identifier bytes =
    finish Property.assigned_client_identifier (Text.decode bytes)
parse_value PropertyId.server_keep_alive bytes =
    finish Property.server_keep_alive (parse_u16 no_validator bytes)
parse_value PropertyId.authentication_method bytes =
    finish Property.authentication_method (Text.decode bytes)
parse_value PropertyId.authentication_data bytes =
    finish Property.authentication_data (Binary.decode bytes)
parse_value PropertyId.request_problem_information bytes =
    finish Property.request_problem_information (parse_u8 at_most_one bytes)
parse_value PropertyId.will_delay_interval bytes =
    finish Property.will_delay_interval (parse_u32 no_validator bytes)
parse_value PropertyId.request_response_information bytes =
    finish Property.request_response_information (parse_u8 at_most_one bytes)
parse_value PropertyId.response_information bytes =
    finish Property.response_information (Text.decode bytes)
parse_value PropertyId.server_reference bytes = finish Property.server_reference (Text.decode bytes)
parse_value PropertyId.reason_string bytes = finish Property.reason_string (Text.decode bytes)
parse_value PropertyId.receive_maximum bytes =
    finish Property.receive_maximum (parse_u16 non_zero bytes)
parse_value PropertyId.topic_alias_maximum bytes =
    finish Property.topic_alias_maximum (parse_u16 no_validator bytes)
parse_value PropertyId.topic_alias bytes = finish Property.topic_alias (parse_u16 non_zero bytes)
parse_value PropertyId.maximum_qos bytes = finish Property.maximum_qos (parse_u8 at_most_one bytes)
parse_value PropertyId.retain_available bytes =
    finish Property.retain_available (parse_u8 at_most_one bytes)
parse_value PropertyId.user_property bytes =
    finish (λ (p : MqttString × MqttString). Property.user_property p.0 p.1)
      (parse_string_pair bytes)
parse_value PropertyId.maximum_packet_size bytes =
    finish Property.maximum_packet_size (parse_u32 non_zero bytes)
parse_value PropertyId.wildcard_subscription_available bytes =
    finish Property.wildcard_subscription_available (parse_u8 at_most_one bytes)
parse_value PropertyId.subscription_identifier_available bytes =
    finish Property.subscription_identifier_available (parse_u8 at_most_one bytes)
parse_value PropertyId.shared_subscription_available bytes =
    finish Property.shared_subscription_available (parse_u8 at_most_one bytes)

pub parse : List ℕ → Result (Property × ℕ)
unfolding property_id_from_u8 parse_value
parse [] = err malformed_packet
parse (b ∷ bytes) = elim (property_id_from_u8 b) [
  | none ↦ err malformed_packet
  | some i ↦ parse_value i bytes
]
