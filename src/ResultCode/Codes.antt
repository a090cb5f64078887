-- ===== src/ResultCode/Codes.antt =====
-- result_code.rs: the codes in packets, as the bytes that stand for them. `from_u8` is `try_from`.
use mqtt_protocol_core.Common.{ℕ, ◌≡◌, refl, Option, none, some, List, [], ◌∷◌, ◌==◌, if◌then◌else◌}
use mqtt_protocol_core.ResultCode.{
  ConnectReturnCode, ConnectReasonCode, DisconnectReasonCode, PubackReasonCode, PubrecReasonCode,
  PubcompReasonCode,
}

-- The one of the codes that stands for the byte.
unfoldable pub find_code : {A : Type 0} → (A → ℕ) → List A → ℕ → Option A
find_code as_u8 [] code = none
find_code as_u8 (c ∷ cs) code = if as_u8 c == code then some c else find_code as_u8 cs code

pub data SubackReturnCode : Type 0 where
  success_maximum_qos0 success_maximum_qos1 success_maximum_qos2 failure : SubackReturnCode

pub data SubackReasonCode : Type 0 where
  granted_qos0 granted_qos1 granted_qos2 unspecified_error implementation_specific_error
        not_authorized topic_filter_invalid packet_identifier_in_use quota_exceeded
        shared_subscriptions_not_supported subscription_identifiers_not_supported
        wildcard_subscriptions_not_supported :
      SubackReasonCode

pub data UnsubackReasonCode : Type 0 where
  success no_subscription_existed unspecified_error implementation_specific_error not_authorized
        topic_filter_invalid packet_identifier_in_use :
      UnsubackReasonCode

pub data PubrelReasonCode : Type 0 where
  success packet_identifier_not_found : PubrelReasonCode

pub data AuthReasonCode : Type 0 where
  success continue_authentication re_authenticate : AuthReasonCode

unfoldable pub connect_return_as_u8 : ConnectReturnCode → ℕ
connect_return_as_u8 ConnectReturnCode.accepted = 0
connect_return_as_u8 ConnectReturnCode.unacceptable_protocol_version = 1
connect_return_as_u8 ConnectReturnCode.identifier_rejected = 2
connect_return_as_u8 ConnectReturnCode.server_unavailable = 3
connect_return_as_u8 ConnectReturnCode.bad_user_name_or_password = 4
connect_return_as_u8 ConnectReturnCode.not_authorized = 5

unfoldable pub connect_return_from_u8 : ℕ → Option ConnectReturnCode
unfolding connect_return_as_u8 find_code
connect_return_from_u8 = find_code connect_return_as_u8 (
    ConnectReturnCode.accepted ∷ ConnectReturnCode.unacceptable_protocol_version
    ∷ ConnectReturnCode.identifier_rejected ∷ ConnectReturnCode.server_unavailable
    ∷ ConnectReturnCode.bad_user_name_or_password ∷ ConnectReturnCode.not_authorized ∷ [])

pub connect_return_from_u8-connect_return_as_u8 :
    (c : ConnectReturnCode) → connect_return_from_u8 (connect_return_as_u8 c) ≡ some c
unfolding connect_return_from_u8 connect_return_as_u8
connect_return_from_u8-connect_return_as_u8 ConnectReturnCode.accepted = refl
connect_return_from_u8-connect_return_as_u8 ConnectReturnCode.unacceptable_protocol_version = refl
connect_return_from_u8-connect_return_as_u8 ConnectReturnCode.identifier_rejected = refl
connect_return_from_u8-connect_return_as_u8 ConnectReturnCode.server_unavailable = refl
connect_return_from_u8-connect_return_as_u8 ConnectReturnCode.bad_user_name_or_password = refl
connect_return_from_u8-connect_return_as_u8 ConnectReturnCode.not_authorized = refl

unfoldable pub connect_reason_as_u8 : ConnectReasonCode → ℕ
connect_reason_as_u8 ConnectReasonCode.success = 0x00
connect_reason_as_u8 ConnectReasonCode.unspecified_error = 0x80
connect_reason_as_u8 ConnectReasonCode.malformed_packet = 0x81
connect_reason_as_u8 ConnectReasonCode.protocol_error = 0x82
connect_reason_as_u8 ConnectReasonCode.implementation_specific_error = 0x83
connect_reason_as_u8 ConnectReasonCode.unsupported_protocol_version = 0x84
connect_reason_as_u8 ConnectReasonCode.client_identifier_not_valid = 0x85
connect_reason_as_u8 ConnectReasonCode.bad_user_name_or_password = 0x86
connect_reason_as_u8 ConnectReasonCode.not_authorized = 0x87
connect_reason_as_u8 ConnectReasonCode.server_unavailable = 0x88
connect_reason_as_u8 ConnectReasonCode.server_busy = 0x89
connect_reason_as_u8 ConnectReasonCode.banned = 0x8a
connect_reason_as_u8 ConnectReasonCode.bad_authentication_method = 0x8c
connect_reason_as_u8 ConnectReasonCode.topic_name_invalid = 0x90
connect_reason_as_u8 ConnectReasonCode.packet_too_large = 0x95
connect_reason_as_u8 ConnectReasonCode.quota_exceeded = 0x97
connect_reason_as_u8 ConnectReasonCode.payload_format_invalid = 0x99
connect_reason_as_u8 ConnectReasonCode.retain_not_supported = 0x9a
connect_reason_as_u8 ConnectReasonCode.qos_not_supported = 0x9b
connect_reason_as_u8 ConnectReasonCode.use_another_server = 0x9c
connect_reason_as_u8 ConnectReasonCode.server_moved = 0x9d
connect_reason_as_u8 ConnectReasonCode.connection_rate_exceeded = 0x9f

unfoldable pub connect_reason_from_u8 : ℕ → Option ConnectReasonCode
unfolding connect_reason_as_u8 find_code
connect_reason_from_u8 = find_code connect_reason_as_u8 (
    ConnectReasonCode.success ∷ ConnectReasonCode.unspecified_error
    ∷ ConnectReasonCode.malformed_packet ∷ ConnectReasonCode.protocol_error
    ∷ ConnectReasonCode.implementation_specific_error
    ∷ ConnectReasonCode.unsupported_protocol_version ∷ ConnectReasonCode.client_identifier_not_valid
    ∷ ConnectReasonCode.bad_user_name_or_password ∷ ConnectReasonCode.not_authorized
    ∷ ConnectReasonCode.server_unavailable ∷ ConnectReasonCode.server_busy
    ∷ ConnectReasonCode.banned ∷ ConnectReasonCode.bad_authentication_method
    ∷ ConnectReasonCode.topic_name_invalid ∷ ConnectReasonCode.packet_too_large
    ∷ ConnectReasonCode.quota_exceeded ∷ ConnectReasonCode.payload_format_invalid
    ∷ ConnectReasonCode.retain_not_supported ∷ ConnectReasonCode.qos_not_supported
    ∷ ConnectReasonCode.use_another_server ∷ ConnectReasonCode.server_moved
    ∷ ConnectReasonCode.connection_rate_exceeded ∷ [])

pub connect_reason_from_u8-connect_reason_as_u8 :
    (c : ConnectReasonCode) → connect_reason_from_u8 (connect_reason_as_u8 c) ≡ some c
unfolding connect_reason_from_u8 connect_reason_as_u8
connect_reason_from_u8-connect_reason_as_u8 ConnectReasonCode.success = refl
connect_reason_from_u8-connect_reason_as_u8 ConnectReasonCode.unspecified_error = refl
connect_reason_from_u8-connect_reason_as_u8 ConnectReasonCode.malformed_packet = refl
connect_reason_from_u8-connect_reason_as_u8 ConnectReasonCode.protocol_error = refl
connect_reason_from_u8-connect_reason_as_u8 ConnectReasonCode.implementation_specific_error = refl
connect_reason_from_u8-connect_reason_as_u8 ConnectReasonCode.unsupported_protocol_version = refl
connect_reason_from_u8-connect_reason_as_u8 ConnectReasonCode.client_identifier_not_valid = refl
connect_reason_from_u8-connect_reason_as_u8 ConnectReasonCode.bad_user_name_or_password = refl
connect_reason_from_u8-connect_reason_as_u8 ConnectReasonCode.not_authorized = refl
connect_reason_from_u8-connect_reason_as_u8 ConnectReasonCode.server_unavailable = refl
connect_reason_from_u8-connect_reason_as_u8 ConnectReasonCode.server_busy = refl
connect_reason_from_u8-connect_reason_as_u8 ConnectReasonCode.banned = refl
connect_reason_from_u8-connect_reason_as_u8 ConnectReasonCode.bad_authentication_method = refl
connect_reason_from_u8-connect_reason_as_u8 ConnectReasonCode.topic_name_invalid = refl
connect_reason_from_u8-connect_reason_as_u8 ConnectReasonCode.packet_too_large = refl
connect_reason_from_u8-connect_reason_as_u8 ConnectReasonCode.quota_exceeded = refl
connect_reason_from_u8-connect_reason_as_u8 ConnectReasonCode.payload_format_invalid = refl
connect_reason_from_u8-connect_reason_as_u8 ConnectReasonCode.retain_not_supported = refl
connect_reason_from_u8-connect_reason_as_u8 ConnectReasonCode.qos_not_supported = refl
connect_reason_from_u8-connect_reason_as_u8 ConnectReasonCode.use_another_server = refl
connect_reason_from_u8-connect_reason_as_u8 ConnectReasonCode.server_moved = refl
connect_reason_from_u8-connect_reason_as_u8 ConnectReasonCode.connection_rate_exceeded = refl

unfoldable pub disconnect_reason_as_u8 : DisconnectReasonCode → ℕ
disconnect_reason_as_u8 DisconnectReasonCode.normal_disconnection = 0x00
disconnect_reason_as_u8 DisconnectReasonCode.disconnect_with_will_message = 0x04
disconnect_reason_as_u8 DisconnectReasonCode.unspecified_error = 0x80
disconnect_reason_as_u8 DisconnectReasonCode.malformed_packet = 0x81
disconnect_reason_as_u8 DisconnectReasonCode.protocol_error = 0x82
disconnect_reason_as_u8 DisconnectReasonCode.implementation_specific_error = 0x83
disconnect_reason_as_u8 DisconnectReasonCode.not_authorized = 0x87
disconnect_reason_as_u8 DisconnectReasonCode.server_busy = 0x89
disconnect_reason_as_u8 DisconnectReasonCode.server_shutting_down = 0x8b
disconnect_reason_as_u8 DisconnectReasonCode.keep_alive_timeout = 0x8d
disconnect_reason_as_u8 DisconnectReasonCode.session_taken_over = 0x8e
disconnect_reason_as_u8 DisconnectReasonCode.topic_filter_invalid = 0x8f
disconnect_reason_as_u8 DisconnectReasonCode.topic_name_invalid = 0x90
disconnect_reason_as_u8 DisconnectReasonCode.receive_maximum_exceeded = 0x93
disconnect_reason_as_u8 DisconnectReasonCode.topic_alias_invalid = 0x94
disconnect_reason_as_u8 DisconnectReasonCode.packet_too_large = 0x95
disconnect_reason_as_u8 DisconnectReasonCode.message_rate_too_high = 0x96
disconnect_reason_as_u8 DisconnectReasonCode.quota_exceeded = 0x97
disconnect_reason_as_u8 DisconnectReasonCode.administrative_action = 0x98
disconnect_reason_as_u8 DisconnectReasonCode.payload_format_invalid = 0x99
disconnect_reason_as_u8 DisconnectReasonCode.retain_not_supported = 0x9a
disconnect_reason_as_u8 DisconnectReasonCode.qos_not_supported = 0x9b
disconnect_reason_as_u8 DisconnectReasonCode.use_another_server = 0x9c
disconnect_reason_as_u8 DisconnectReasonCode.server_moved = 0x9d
disconnect_reason_as_u8 DisconnectReasonCode.shared_subscriptions_not_supported = 0x9e
disconnect_reason_as_u8 DisconnectReasonCode.connection_rate_exceeded = 0x9f
disconnect_reason_as_u8 DisconnectReasonCode.maximum_connect_time = 0xa0
disconnect_reason_as_u8 DisconnectReasonCode.subscription_identifiers_not_supported = 0xa1
disconnect_reason_as_u8 DisconnectReasonCode.wildcard_subscriptions_not_supported = 0xa2

unfoldable pub disconnect_reason_from_u8 : ℕ → Option DisconnectReasonCode
unfolding disconnect_reason_as_u8 find_code
disconnect_reason_from_u8 = find_code disconnect_reason_as_u8 (
    DisconnectReasonCode.normal_disconnection ∷ DisconnectReasonCode.disconnect_with_will_message
    ∷ DisconnectReasonCode.unspecified_error ∷ DisconnectReasonCode.malformed_packet
    ∷ DisconnectReasonCode.protocol_error ∷ DisconnectReasonCode.implementation_specific_error
    ∷ DisconnectReasonCode.not_authorized ∷ DisconnectReasonCode.server_busy
    ∷ DisconnectReasonCode.server_shutting_down ∷ DisconnectReasonCode.keep_alive_timeout
    ∷ DisconnectReasonCode.session_taken_over ∷ DisconnectReasonCode.topic_filter_invalid
    ∷ DisconnectReasonCode.topic_name_invalid ∷ DisconnectReasonCode.receive_maximum_exceeded
    ∷ DisconnectReasonCode.topic_alias_invalid ∷ DisconnectReasonCode.packet_too_large
    ∷ DisconnectReasonCode.message_rate_too_high ∷ DisconnectReasonCode.quota_exceeded
    ∷ DisconnectReasonCode.administrative_action ∷ DisconnectReasonCode.payload_format_invalid
    ∷ DisconnectReasonCode.retain_not_supported ∷ DisconnectReasonCode.qos_not_supported
    ∷ DisconnectReasonCode.use_another_server ∷ DisconnectReasonCode.server_moved
    ∷ DisconnectReasonCode.shared_subscriptions_not_supported
    ∷ DisconnectReasonCode.connection_rate_exceeded ∷ DisconnectReasonCode.maximum_connect_time
    ∷ DisconnectReasonCode.subscription_identifiers_not_supported
    ∷ DisconnectReasonCode.wildcard_subscriptions_not_supported ∷ [])

pub disconnect_reason_from_u8-disconnect_reason_as_u8 :
    (c : DisconnectReasonCode) → disconnect_reason_from_u8 (disconnect_reason_as_u8 c) ≡ some c
unfolding disconnect_reason_from_u8 disconnect_reason_as_u8
disconnect_reason_from_u8-disconnect_reason_as_u8 DisconnectReasonCode.normal_disconnection = refl
disconnect_reason_from_u8-disconnect_reason_as_u8
      DisconnectReasonCode.disconnect_with_will_message =
    refl
disconnect_reason_from_u8-disconnect_reason_as_u8 DisconnectReasonCode.unspecified_error = refl
disconnect_reason_from_u8-disconnect_reason_as_u8 DisconnectReasonCode.malformed_packet = refl
disconnect_reason_from_u8-disconnect_reason_as_u8 DisconnectReasonCode.protocol_error = refl
disconnect_reason_from_u8-disconnect_reason_as_u8
      DisconnectReasonCode.implementation_specific_error =
    refl
disconnect_reason_from_u8-disconnect_reason_as_u8 DisconnectReasonCode.not_authorized = refl
disconnect_reason_from_u8-disconnect_reason_as_u8 DisconnectReasonCode.server_busy = refl
disconnect_reason_from_u8-disconnect_reason_as_u8 DisconnectReasonCode.server_shutting_down = refl
disconnect_reason_from_u8-disconnect_reason_as_u8 DisconnectReasonCode.keep_alive_timeout = refl
disconnect_reason_from_u8-disconnect_reason_as_u8 DisconnectReasonCode.session_taken_over = refl
disconnect_reason_from_u8-disconnect_reason_as_u8 DisconnectReasonCode.topic_filter_invalid = refl
disconnect_reason_from_u8-disconnect_reason_as_u8 DisconnectReasonCode.topic_name_invalid = refl
disconnect_reason_from_u8-disconnect_reason_as_u8 DisconnectReasonCode.receive_maximum_exceeded =
    refl
disconnect_reason_from_u8-disconnect_reason_as_u8 DisconnectReasonCode.topic_alias_invalid = refl
disconnect_reason_from_u8-disconnect_reason_as_u8 DisconnectReasonCode.packet_too_large = refl
disconnect_reason_from_u8-disconnect_reason_as_u8 DisconnectReasonCode.message_rate_too_high = refl
disconnect_reason_from_u8-disconnect_reason_as_u8 DisconnectReasonCode.quota_exceeded = refl
disconnect_reason_from_u8-disconnect_reason_as_u8 DisconnectReasonCode.administrative_action = refl
disconnect_reason_from_u8-disconnect_reason_as_u8 DisconnectReasonCode.payload_format_invalid = refl
disconnect_reason_from_u8-disconnect_reason_as_u8 DisconnectReasonCode.retain_not_supported = refl
disconnect_reason_from_u8-disconnect_reason_as_u8 DisconnectReasonCode.qos_not_supported = refl
disconnect_reason_from_u8-disconnect_reason_as_u8 DisconnectReasonCode.use_another_server = refl
disconnect_reason_from_u8-disconnect_reason_as_u8 DisconnectReasonCode.server_moved = refl
disconnect_reason_from_u8-disconnect_reason_as_u8
      DisconnectReasonCode.shared_subscriptions_not_supported =
    refl
disconnect_reason_from_u8-disconnect_reason_as_u8 DisconnectReasonCode.connection_rate_exceeded =
    refl
disconnect_reason_from_u8-disconnect_reason_as_u8 DisconnectReasonCode.maximum_connect_time = refl
disconnect_reason_from_u8-disconnect_reason_as_u8
      DisconnectReasonCode.subscription_identifiers_not_supported =
    refl
disconnect_reason_from_u8-disconnect_reason_as_u8
      DisconnectReasonCode.wildcard_subscriptions_not_supported =
    refl

unfoldable pub puback_reason_as_u8 : PubackReasonCode → ℕ
puback_reason_as_u8 PubackReasonCode.success = 0x00
puback_reason_as_u8 PubackReasonCode.no_matching_subscribers = 0x10
puback_reason_as_u8 PubackReasonCode.unspecified_error = 0x80
puback_reason_as_u8 PubackReasonCode.implementation_specific_error = 0x83
puback_reason_as_u8 PubackReasonCode.not_authorized = 0x87
puback_reason_as_u8 PubackReasonCode.topic_name_invalid = 0x90
puback_reason_as_u8 PubackReasonCode.packet_identifier_in_use = 0x91
puback_reason_as_u8 PubackReasonCode.quota_exceeded = 0x97
puback_reason_as_u8 PubackReasonCode.payload_format_invalid = 0x99

unfoldable pub puback_reason_from_u8 : ℕ → Option PubackReasonCode
unfolding puback_reason_as_u8 find_code
puback_reason_from_u8 = find_code puback_reason_as_u8 (
    PubackReasonCode.success ∷ PubackReasonCode.no_matching_subscribers
    ∷ PubackReasonCode.unspecified_error ∷ PubackReasonCode.implementation_specific_error
    ∷ PubackReasonCode.not_authorized ∷ PubackReasonCode.topic_name_invalid
    ∷ PubackReasonCode.packet_identifier_in_use ∷ PubackReasonCode.quota_exceeded
    ∷ PubackReasonCode.payload_format_invalid ∷ [])

pub puback_reason_from_u8-puback_reason_as_u8 :
    (c : PubackReasonCode) → puback_reason_from_u8 (puback_reason_as_u8 c) ≡ some c
unfolding puback_reason_from_u8 puback_reason_as_u8
puback_reason_from_u8-puback_reason_as_u8 PubackReasonCode.success = refl
puback_reason_from_u8-puback_reason_as_u8 PubackReasonCode.no_matching_subscribers = refl
puback_reason_from_u8-puback_reason_as_u8 PubackReasonCode.unspecified_error = refl
puback_reason_from_u8-puback_reason_as_u8 PubackReasonCode.implementation_specific_error = refl
puback_reason_from_u8-puback_reason_as_u8 PubackReasonCode.not_authorized = refl
puback_reason_from_u8-puback_reason_as_u8 PubackReasonCode.topic_name_invalid = refl
puback_reason_from_u8-puback_reason_as_u8 PubackReasonCode.packet_identifier_in_use = refl
puback_reason_from_u8-puback_reason_as_u8 PubackReasonCode.quota_exceeded = refl
puback_reason_from_u8-puback_reason_as_u8 PubackReasonCode.payload_format_invalid = refl

unfoldable pub pubrec_reason_as_u8 : PubrecReasonCode → ℕ
pubrec_reason_as_u8 PubrecReasonCode.success = 0x00
pubrec_reason_as_u8 PubrecReasonCode.no_matching_subscribers = 0x10
pubrec_reason_as_u8 PubrecReasonCode.unspecified_error = 0x80
pubrec_reason_as_u8 PubrecReasonCode.implementation_specific_error = 0x83
pubrec_reason_as_u8 PubrecReasonCode.not_authorized = 0x87
pubrec_reason_as_u8 PubrecReasonCode.topic_name_invalid = 0x90
pubrec_reason_as_u8 PubrecReasonCode.packet_identifier_in_use = 0x91
pubrec_reason_as_u8 PubrecReasonCode.quota_exceeded = 0x97
pubrec_reason_as_u8 PubrecReasonCode.payload_format_invalid = 0x99

unfoldable pub pubrec_reason_from_u8 : ℕ → Option PubrecReasonCode
unfolding pubrec_reason_as_u8 find_code
pubrec_reason_from_u8 = find_code pubrec_reason_as_u8 (
    PubrecReasonCode.success ∷ PubrecReasonCode.no_matching_subscribers
    ∷ PubrecReasonCode.unspecified_error ∷ PubrecReasonCode.implementation_specific_error
    ∷ PubrecReasonCode.not_authorized ∷ PubrecReasonCode.topic_name_invalid
    ∷ PubrecReasonCode.packet_identifier_in_use ∷ PubrecReasonCode.quota_exceeded
    ∷ PubrecReasonCode.payload_format_invalid ∷ [])

pub pubrec_reason_from_u8-pubrec_reason_as_u8 :
    (c : PubrecReasonCode) → pubrec_reason_from_u8 (pubrec_reason_as_u8 c) ≡ some c
unfolding pubrec_reason_from_u8 pubrec_reason_as_u8
pubrec_reason_from_u8-pubrec_reason_as_u8 PubrecReasonCode.success = refl
pubrec_reason_from_u8-pubrec_reason_as_u8 PubrecReasonCode.no_matching_subscribers = refl
pubrec_reason_from_u8-pubrec_reason_as_u8 PubrecReasonCode.unspecified_error = refl
pubrec_reason_from_u8-pubrec_reason_as_u8 PubrecReasonCode.implementation_specific_error = refl
pubrec_reason_from_u8-pubrec_reason_as_u8 PubrecReasonCode.not_authorized = refl
pubrec_reason_from_u8-pubrec_reason_as_u8 PubrecReasonCode.topic_name_invalid = refl
pubrec_reason_from_u8-pubrec_reason_as_u8 PubrecReasonCode.packet_identifier_in_use = refl
pubrec_reason_from_u8-pubrec_reason_as_u8 PubrecReasonCode.quota_exceeded = refl
pubrec_reason_from_u8-pubrec_reason_as_u8 PubrecReasonCode.payload_format_invalid = refl

unfoldable pub pubcomp_reason_as_u8 : PubcompReasonCode → ℕ
pubcomp_reason_as_u8 PubcompReasonCode.success = 0x00
pubcomp_reason_as_u8 PubcompReasonCode.packet_identifier_not_found = 0x92

unfoldable pub pubcomp_reason_from_u8 : ℕ → Option PubcompReasonCode
unfolding pubcomp_reason_as_u8 find_code
pubcomp_reason_from_u8 =
    find_code pubcomp_reason_as_u8
      (PubcompReasonCode.success ∷ PubcompReasonCode.packet_identifier_not_found ∷ [])

pub pubcomp_reason_from_u8-pubcomp_reason_as_u8 :
    (c : PubcompReasonCode) → pubcomp_reason_from_u8 (pubcomp_reason_as_u8 c) ≡ some c
unfolding pubcomp_reason_from_u8 pubcomp_reason_as_u8
pubcomp_reason_from_u8-pubcomp_reason_as_u8 PubcompReasonCode.success = refl
pubcomp_reason_from_u8-pubcomp_reason_as_u8 PubcompReasonCode.packet_identifier_not_found = refl

unfoldable pub suback_return_as_u8 : SubackReturnCode → ℕ
suback_return_as_u8 SubackReturnCode.success_maximum_qos0 = 0x00
suback_return_as_u8 SubackReturnCode.success_maximum_qos1 = 0x01
suback_return_as_u8 SubackReturnCode.success_maximum_qos2 = 0x02
suback_return_as_u8 SubackReturnCode.failure = 0x80

unfoldable pub suback_return_from_u8 : ℕ → Option SubackReturnCode
unfolding suback_return_as_u8 find_code
suback_return_from_u8 = find_code suback_return_as_u8 (
    SubackReturnCode.success_maximum_qos0 ∷ SubackReturnCode.success_maximum_qos1
    ∷ SubackReturnCode.success_maximum_qos2 ∷ SubackReturnCode.failure ∷ [])

pub suback_return_from_u8-suback_return_as_u8 :
    (c : SubackReturnCode) → suback_return_from_u8 (suback_return_as_u8 c) ≡ some c
unfolding suback_return_from_u8 suback_return_as_u8
suback_return_from_u8-suback_return_as_u8 SubackReturnCode.success_maximum_qos0 = refl
suback_return_from_u8-suback_return_as_u8 SubackReturnCode.success_maximum_qos1 = refl
suback_return_from_u8-suback_return_as_u8 SubackReturnCode.success_maximum_qos2 = refl
suback_return_from_u8-suback_return_as_u8 SubackReturnCode.failure = refl

unfoldable pub suback_reason_as_u8 : SubackReasonCode → ℕ
suback_reason_as_u8 SubackReasonCode.granted_qos0 = 0x00
suback_reason_as_u8 SubackReasonCode.granted_qos1 = 0x01
suback_reason_as_u8 SubackReasonCode.granted_qos2 = 0x02
suback_reason_as_u8 SubackReasonCode.unspecified_error = 0x80
suback_reason_as_u8 SubackReasonCode.implementation_specific_error = 0x83
suback_reason_as_u8 SubackReasonCode.not_authorized = 0x87
suback_reason_as_u8 SubackReasonCode.topic_filter_invalid = 0x8f
suback_reason_as_u8 SubackReasonCode.packet_identifier_in_use = 0x91
suback_reason_as_u8 SubackReasonCode.quota_exceeded = 0x97
suback_reason_as_u8 SubackReasonCode.shared_subscriptions_not_supported = 0x9e
suback_reason_as_u8 SubackReasonCode.subscription_identifiers_not_supported = 0xa1
suback_reason_as_u8 SubackReasonCode.wildcard_subscriptions_not_supported = 0xa2

unfoldable pub suback_reason_from_u8 : ℕ → Option SubackReasonCode
unfolding suback_reason_as_u8 find_code
suback_reason_from_u8 = find_code suback_reason_as_u8 (
    SubackReasonCode.granted_qos0 ∷ SubackReasonCode.granted_qos1 ∷ SubackReasonCode.granted_qos2
    ∷ SubackReasonCode.unspecified_error ∷ SubackReasonCode.implementation_specific_error
    ∷ SubackReasonCode.not_authorized ∷ SubackReasonCode.topic_filter_invalid
    ∷ SubackReasonCode.packet_identifier_in_use ∷ SubackReasonCode.quota_exceeded
    ∷ SubackReasonCode.shared_subscriptions_not_supported
    ∷ SubackReasonCode.subscription_identifiers_not_supported
    ∷ SubackReasonCode.wildcard_subscriptions_not_supported ∷ [])

pub suback_reason_from_u8-suback_reason_as_u8 :
    (c : SubackReasonCode) → suback_reason_from_u8 (suback_reason_as_u8 c) ≡ some c
unfolding suback_reason_from_u8 suback_reason_as_u8
suback_reason_from_u8-suback_reason_as_u8 SubackReasonCode.granted_qos0 = refl
suback_reason_from_u8-suback_reason_as_u8 SubackReasonCode.granted_qos1 = refl
suback_reason_from_u8-suback_reason_as_u8 SubackReasonCode.granted_qos2 = refl
suback_reason_from_u8-suback_reason_as_u8 SubackReasonCode.unspecified_error = refl
suback_reason_from_u8-suback_reason_as_u8 SubackReasonCode.implementation_specific_error = refl
suback_reason_from_u8-suback_reason_as_u8 SubackReasonCode.not_authorized = refl
suback_reason_from_u8-suback_reason_as_u8 SubackReasonCode.topic_filter_invalid = refl
suback_reason_from_u8-suback_reason_as_u8 SubackReasonCode.packet_identifier_in_use = refl
suback_reason_from_u8-suback_reason_as_u8 SubackReasonCode.quota_exceeded = refl
suback_reason_from_u8-suback_reason_as_u8 SubackReasonCode.shared_subscriptions_not_supported = refl
suback_reason_from_u8-suback_reason_as_u8 SubackReasonCode.subscription_identifiers_not_supported =
    refl
suback_reason_from_u8-suback_reason_as_u8 SubackReasonCode.wildcard_subscriptions_not_supported =
    refl

unfoldable pub unsuback_reason_as_u8 : UnsubackReasonCode → ℕ
unsuback_reason_as_u8 UnsubackReasonCode.success = 0x00
unsuback_reason_as_u8 UnsubackReasonCode.no_subscription_existed = 0x11
unsuback_reason_as_u8 UnsubackReasonCode.unspecified_error = 0x80
unsuback_reason_as_u8 UnsubackReasonCode.implementation_specific_error = 0x83
unsuback_reason_as_u8 UnsubackReasonCode.not_authorized = 0x87
unsuback_reason_as_u8 UnsubackReasonCode.topic_filter_invalid = 0x8f
unsuback_reason_as_u8 UnsubackReasonCode.packet_identifier_in_use = 0x91

unfoldable pub unsuback_reason_from_u8 : ℕ → Option UnsubackReasonCode
unfolding unsuback_reason_as_u8 find_code
unsuback_reason_from_u8 = find_code unsuback_reason_as_u8 (
    UnsubackReasonCode.success ∷ UnsubackReasonCode.no_subscription_existed
    ∷ UnsubackReasonCode.unspecified_error ∷ UnsubackReasonCode.implementation_specific_error
    ∷ UnsubackReasonCode.not_authorized ∷ UnsubackReasonCode.topic_filter_invalid
    ∷ UnsubackReasonCode.packet_identifier_in_use ∷ [])

pub unsuback_reason_from_u8-unsuback_reason_as_u8 :
    (c : UnsubackReasonCode) → unsuback_reason_from_u8 (unsuback_reason_as_u8 c) ≡ some c
unfolding unsuback_reason_from_u8 unsuback_reason_as_u8
unsuback_reason_from_u8-unsuback_reason_as_u8 UnsubackReasonCode.success = refl
unsuback_reason_from_u8-unsuback_reason_as_u8 UnsubackReasonCode.no_subscription_existed = refl
unsuback_reason_from_u8-unsuback_reason_as_u8 UnsubackReasonCode.unspecified_error = refl
unsuback_reason_from_u8-unsuback_reason_as_u8 UnsubackReasonCode.implementation_specific_error =
    refl
unsuback_reason_from_u8-unsuback_reason_as_u8 UnsubackReasonCode.not_authorized = refl
unsuback_reason_from_u8-unsuback_reason_as_u8 UnsubackReasonCode.topic_filter_invalid = refl
unsuback_reason_from_u8-unsuback_reason_as_u8 UnsubackReasonCode.packet_identifier_in_use = refl

unfoldable pub pubrel_reason_as_u8 : PubrelReasonCode → ℕ
pubrel_reason_as_u8 PubrelReasonCode.success = 0x00
pubrel_reason_as_u8 PubrelReasonCode.packet_identifier_not_found = 0x92

unfoldable pub pubrel_reason_from_u8 : ℕ → Option PubrelReasonCode
unfolding pubrel_reason_as_u8 find_code
pubrel_reason_from_u8 =
    find_code pubrel_reason_as_u8
      (PubrelReasonCode.success ∷ PubrelReasonCode.packet_identifier_not_found ∷ [])

pub pubrel_reason_from_u8-pubrel_reason_as_u8 :
    (c : PubrelReasonCode) → pubrel_reason_from_u8 (pubrel_reason_as_u8 c) ≡ some c
unfolding pubrel_reason_from_u8 pubrel_reason_as_u8
pubrel_reason_from_u8-pubrel_reason_as_u8 PubrelReasonCode.success = refl
pubrel_reason_from_u8-pubrel_reason_as_u8 PubrelReasonCode.packet_identifier_not_found = refl

unfoldable pub auth_reason_as_u8 : AuthReasonCode → ℕ
auth_reason_as_u8 AuthReasonCode.success = 0x00
auth_reason_as_u8 AuthReasonCode.continue_authentication = 0x18
auth_reason_as_u8 AuthReasonCode.re_authenticate = 0x19

unfoldable pub auth_reason_from_u8 : ℕ → Option AuthReasonCode
unfolding auth_reason_as_u8 find_code
auth_reason_from_u8 = find_code auth_reason_as_u8 (
    AuthReasonCode.success ∷ AuthReasonCode.continue_authentication ∷ AuthReasonCode.re_authenticate
    ∷ [])

pub auth_reason_from_u8-auth_reason_as_u8 :
    (c : AuthReasonCode) → auth_reason_from_u8 (auth_reason_as_u8 c) ≡ some c
unfolding auth_reason_from_u8 auth_reason_as_u8
auth_reason_from_u8-auth_reason_as_u8 AuthReasonCode.success = refl
auth_reason_from_u8-auth_reason_as_u8 AuthReasonCode.continue_authentication = refl
auth_reason_from_u8-auth_reason_as_u8 AuthReasonCode.re_authenticate = refl
