-- ===== src/ResultCode.antt =====
-- result_code.rs: the error and reason codes, their numbers on the wire and the conversions.
pub mod Codes
mod Laws
mod Tests
use mathlib.Core.Option
use mqtt_protocol_core.Common.{ℕ, Bool, true, false, not, Option, none, some, ◌==◌, if◌then◌else◌}

pub data MqttError : Type 0 where
  unspecified_error malformed_packet protocol_error implementation_specific_error : MqttError
  unsupported_protocol_version client_identifier_not_valid : MqttError
  bad_user_name_or_password not_authorized server_unavailable server_busy banned : MqttError
  server_shutting_down bad_authentication_method keep_alive_timeout : MqttError
  session_taken_over topic_filter_invalid topic_name_invalid : MqttError
  receive_maximum_exceeded topic_alias_invalid packet_too_large : MqttError
  message_rate_too_high quota_exceeded administrative_action : MqttError
  payload_format_invalid retain_not_supported qos_not_supported : MqttError
  use_another_server server_moved shared_subscriptions_not_supported : MqttError
  connection_rate_exceeded maximum_connect_time : MqttError
  subscription_identifiers_not_supported wildcard_subscriptions_not_supported : MqttError
  partial_error_detected packet_enqueued all_error_detected : MqttError
  packet_identifier_fully_used packet_identifier_conflict : MqttError
  packet_identifier_invalid packet_not_allowed_to_send : MqttError
  packet_not_allowed_to_store packet_not_regulated insufficient_bytes : MqttError
  invalid_packet_for_role version_mismatch packet_conversion_failed : MqttError
  packet_process_failed value_out_of_range invalid_qos : MqttError

pub data ConnectReturnCode : Type 0 where
  accepted unacceptable_protocol_version identifier_rejected server_unavailable : ConnectReturnCode
  bad_user_name_or_password not_authorized : ConnectReturnCode

pub data ConnectReasonCode : Type 0 where
  success unspecified_error malformed_packet protocol_error : ConnectReasonCode
  implementation_specific_error unsupported_protocol_version : ConnectReasonCode
  client_identifier_not_valid bad_user_name_or_password not_authorized : ConnectReasonCode
  server_unavailable server_busy banned bad_authentication_method : ConnectReasonCode
  topic_name_invalid packet_too_large quota_exceeded payload_format_invalid : ConnectReasonCode
  retain_not_supported qos_not_supported use_another_server server_moved : ConnectReasonCode
  connection_rate_exceeded : ConnectReasonCode

pub data DisconnectReasonCode : Type 0 where
  normal_disconnection disconnect_with_will_message unspecified_error : DisconnectReasonCode
  malformed_packet protocol_error implementation_specific_error not_authorized :
      DisconnectReasonCode
  server_busy server_shutting_down keep_alive_timeout session_taken_over : DisconnectReasonCode
  topic_filter_invalid topic_name_invalid receive_maximum_exceeded : DisconnectReasonCode
  topic_alias_invalid packet_too_large message_rate_too_high quota_exceeded : DisconnectReasonCode
  administrative_action payload_format_invalid retain_not_supported : DisconnectReasonCode
  qos_not_supported use_another_server server_moved : DisconnectReasonCode
  shared_subscriptions_not_supported connection_rate_exceeded : DisconnectReasonCode
  maximum_connect_time subscription_identifiers_not_supported : DisconnectReasonCode
  wildcard_subscriptions_not_supported : DisconnectReasonCode

pub data PubackReasonCode : Type 0 where
  success no_matching_subscribers unspecified_error implementation_specific_error : PubackReasonCode
  not_authorized topic_name_invalid packet_identifier_in_use quota_exceeded : PubackReasonCode
  payload_format_invalid : PubackReasonCode

pub data PubrecReasonCode : Type 0 where
  success no_matching_subscribers unspecified_error implementation_specific_error : PubrecReasonCode
  not_authorized topic_name_invalid packet_identifier_in_use quota_exceeded : PubrecReasonCode
  payload_format_invalid : PubrecReasonCode

pub data PubcompReasonCode : Type 0 where
  success packet_identifier_not_found : PubcompReasonCode

-- `MqttError::try_from(u8)`; `none` is the error.
pub mqtt_error_from_u8 : ℕ → Option MqttError
mqtt_error_from_u8 code =
    if code == 0x80
    then some MqttError.unspecified_error
    else if code == 0x81
    then some MqttError.malformed_packet
    else if code == 0x82
    then some MqttError.protocol_error
    else if code == 0x83
    then some MqttError.implementation_specific_error
    else if code == 0x84
    then some MqttError.unsupported_protocol_version
    else if code == 0x85
    then some MqttError.client_identifier_not_valid
    else if code == 0x86
    then some MqttError.bad_user_name_or_password
    else if code == 0x87
    then some MqttError.not_authorized
    else if code == 0x88
    then some MqttError.server_unavailable
    else if code == 0x89
    then some MqttError.server_busy
    else if code == 0x8A
    then some MqttError.banned
    else if code == 0x8B
    then some MqttError.server_shutting_down
    else if code == 0x8C
    then some MqttError.bad_authentication_method
    else if code == 0x8D
    then some MqttError.keep_alive_timeout
    else if code == 0x8E
    then some MqttError.session_taken_over
    else if code == 0x8F
    then some MqttError.topic_filter_invalid
    else if code == 0x90
    then some MqttError.topic_name_invalid
    else if code == 0x93
    then some MqttError.receive_maximum_exceeded
    else if code == 0x94
    then some MqttError.topic_alias_invalid
    else if code == 0x95
    then some MqttError.packet_too_large
    else if code == 0x96
    then some MqttError.message_rate_too_high
    else if code == 0x97
    then some MqttError.quota_exceeded
    else if code == 0x98
    then some MqttError.administrative_action
    else if code == 0x99
    then some MqttError.payload_format_invalid
    else if code == 0x9A
    then some MqttError.retain_not_supported
    else if code == 0x9B
    then some MqttError.qos_not_supported
    else if code == 0x9C
    then some MqttError.use_another_server
    else if code == 0x9D
    then some MqttError.server_moved
    else if code == 0x9E
    then some MqttError.shared_subscriptions_not_supported
    else if code == 0x9F
    then some MqttError.connection_rate_exceeded
    else if code == 0xA0
    then some MqttError.maximum_connect_time
    else if code == 0xA1
    then some MqttError.subscription_identifiers_not_supported
    else if code == 0xA2
    then some MqttError.wildcard_subscriptions_not_supported
    else none

-- `code as u8`.
pub connect_code : ConnectReasonCode → ℕ
connect_code ConnectReasonCode.success = 0x00
connect_code ConnectReasonCode.unspecified_error = 0x80
connect_code ConnectReasonCode.malformed_packet = 0x81
connect_code ConnectReasonCode.protocol_error = 0x82
connect_code ConnectReasonCode.implementation_specific_error = 0x83
connect_code ConnectReasonCode.unsupported_protocol_version = 0x84
connect_code ConnectReasonCode.client_identifier_not_valid = 0x85
connect_code ConnectReasonCode.bad_user_name_or_password = 0x86
connect_code ConnectReasonCode.not_authorized = 0x87
connect_code ConnectReasonCode.server_unavailable = 0x88
connect_code ConnectReasonCode.server_busy = 0x89
connect_code ConnectReasonCode.banned = 0x8a
connect_code ConnectReasonCode.bad_authentication_method = 0x8c
connect_code ConnectReasonCode.topic_name_invalid = 0x90
connect_code ConnectReasonCode.packet_too_large = 0x95
connect_code ConnectReasonCode.quota_exceeded = 0x97
connect_code ConnectReasonCode.payload_format_invalid = 0x99
connect_code ConnectReasonCode.retain_not_supported = 0x9a
connect_code ConnectReasonCode.qos_not_supported = 0x9b
connect_code ConnectReasonCode.use_another_server = 0x9c
connect_code ConnectReasonCode.server_moved = 0x9d
connect_code ConnectReasonCode.connection_rate_exceeded = 0x9f

-- `code as u8`.
pub disconnect_code : DisconnectReasonCode → ℕ
disconnect_code DisconnectReasonCode.normal_disconnection = 0x00
disconnect_code DisconnectReasonCode.disconnect_with_will_message = 0x04
disconnect_code DisconnectReasonCode.unspecified_error = 0x80
disconnect_code DisconnectReasonCode.malformed_packet = 0x81
disconnect_code DisconnectReasonCode.protocol_error = 0x82
disconnect_code DisconnectReasonCode.implementation_specific_error = 0x83
disconnect_code DisconnectReasonCode.not_authorized = 0x87
disconnect_code DisconnectReasonCode.server_busy = 0x89
disconnect_code DisconnectReasonCode.server_shutting_down = 0x8b
disconnect_code DisconnectReasonCode.keep_alive_timeout = 0x8d
disconnect_code DisconnectReasonCode.session_taken_over = 0x8e
disconnect_code DisconnectReasonCode.topic_filter_invalid = 0x8f
disconnect_code DisconnectReasonCode.topic_name_invalid = 0x90
disconnect_code DisconnectReasonCode.receive_maximum_exceeded = 0x93
disconnect_code DisconnectReasonCode.topic_alias_invalid = 0x94
disconnect_code DisconnectReasonCode.packet_too_large = 0x95
disconnect_code DisconnectReasonCode.message_rate_too_high = 0x96
disconnect_code DisconnectReasonCode.quota_exceeded = 0x97
disconnect_code DisconnectReasonCode.administrative_action = 0x98
disconnect_code DisconnectReasonCode.payload_format_invalid = 0x99
disconnect_code DisconnectReasonCode.retain_not_supported = 0x9a
disconnect_code DisconnectReasonCode.qos_not_supported = 0x9b
disconnect_code DisconnectReasonCode.use_another_server = 0x9c
disconnect_code DisconnectReasonCode.server_moved = 0x9d
disconnect_code DisconnectReasonCode.shared_subscriptions_not_supported = 0x9e
disconnect_code DisconnectReasonCode.connection_rate_exceeded = 0x9f
disconnect_code DisconnectReasonCode.maximum_connect_time = 0xa0
disconnect_code DisconnectReasonCode.subscription_identifiers_not_supported = 0xa1
disconnect_code DisconnectReasonCode.wildcard_subscriptions_not_supported = 0xa2

-- `MqttError::from(ConnectReasonCode)`.
pub mqtt_error_from_connect : ConnectReasonCode → MqttError
unfolding mqtt_error_from_u8 connect_code
mqtt_error_from_connect code =
    Option.get_or (mqtt_error_from_u8 (connect_code code)) MqttError.protocol_error

-- `MqttError::from(DisconnectReasonCode)`.
pub mqtt_error_from_disconnect : DisconnectReasonCode → MqttError
unfolding mqtt_error_from_u8 disconnect_code
mqtt_error_from_disconnect code =
    Option.get_or (mqtt_error_from_u8 (disconnect_code code)) MqttError.protocol_error

-- `DisconnectReasonCode::from(MqttError)`.
pub disconnect_from_error : MqttError → DisconnectReasonCode
disconnect_from_error MqttError.unspecified_error = DisconnectReasonCode.unspecified_error
disconnect_from_error MqttError.malformed_packet = DisconnectReasonCode.malformed_packet
disconnect_from_error MqttError.protocol_error = DisconnectReasonCode.protocol_error
disconnect_from_error MqttError.implementation_specific_error =
    DisconnectReasonCode.implementation_specific_error
disconnect_from_error MqttError.not_authorized = DisconnectReasonCode.not_authorized
disconnect_from_error MqttError.server_busy = DisconnectReasonCode.server_busy
disconnect_from_error MqttError.server_shutting_down = DisconnectReasonCode.server_shutting_down
disconnect_from_error MqttError.keep_alive_timeout = DisconnectReasonCode.keep_alive_timeout
disconnect_from_error MqttError.session_taken_over = DisconnectReasonCode.session_taken_over
disconnect_from_error MqttError.topic_filter_invalid = DisconnectReasonCode.topic_filter_invalid
disconnect_from_error MqttError.topic_name_invalid = DisconnectReasonCode.topic_name_invalid
disconnect_from_error MqttError.receive_maximum_exceeded =
    DisconnectReasonCode.receive_maximum_exceeded
disconnect_from_error MqttError.topic_alias_invalid = DisconnectReasonCode.topic_alias_invalid
disconnect_from_error MqttError.packet_too_large = DisconnectReasonCode.packet_too_large
disconnect_from_error MqttError.message_rate_too_high = DisconnectReasonCode.message_rate_too_high
disconnect_from_error MqttError.quota_exceeded = DisconnectReasonCode.quota_exceeded
disconnect_from_error MqttError.administrative_action = DisconnectReasonCode.administrative_action
disconnect_from_error MqttError.payload_format_invalid = DisconnectReasonCode.payload_format_invalid
disconnect_from_error MqttError.retain_not_supported = DisconnectReasonCode.retain_not_supported
disconnect_from_error MqttError.qos_not_supported = DisconnectReasonCode.qos_not_supported
disconnect_from_error MqttError.use_another_server = DisconnectReasonCode.use_another_server
disconnect_from_error MqttError.server_moved = DisconnectReasonCode.server_moved
disconnect_from_error MqttError.shared_subscriptions_not_supported =
    DisconnectReasonCode.shared_subscriptions_not_supported
disconnect_from_error MqttError.connection_rate_exceeded =
    DisconnectReasonCode.connection_rate_exceeded
disconnect_from_error MqttError.maximum_connect_time = DisconnectReasonCode.maximum_connect_time
disconnect_from_error MqttError.subscription_identifiers_not_supported =
    DisconnectReasonCode.subscription_identifiers_not_supported
disconnect_from_error MqttError.wildcard_subscriptions_not_supported =
    DisconnectReasonCode.wildcard_subscriptions_not_supported
disconnect_from_error _ = DisconnectReasonCode.unspecified_error

-- `PubrecReasonCode::is_success` and `is_failure`.
pub pubrec_is_success : PubrecReasonCode → Bool
pubrec_is_success PubrecReasonCode.success = true
pubrec_is_success PubrecReasonCode.no_matching_subscribers = true
pubrec_is_success _ = false

pub pubrec_is_failure : PubrecReasonCode → Bool
unfolding pubrec_is_success
pubrec_is_failure code = not (pubrec_is_success code)

-- `Result<A, MqttError>`.
pub data Result {ℓ} (A : Type ℓ) : Type ℓ where
  ok : A → Result A
  err : MqttError → Result A
