-- ===== src/Connection/Accept.antt =====
-- connection/core.rs: a CONNECT that the server receives. The CONNACK for a packet that cannot be
-- parsed has four bytes in version 3.1.1 and five in version 5.0.
pub mod Refusal
use mqtt_protocol_core.Common.{
  ℕ, ◌*◌, ◌/◌, Bool, true, false, List, [], ◌∷◌, Option, none, some, ltb, if◌then◌else◌,
}
use mqtt_protocol_core.Packet.{GenericPacket, Connect}
use mqtt_protocol_core.Wire.Property.{
  Property, topic_alias_maximum, receive_maximum, maximum_packet_size, session_expiry_interval,
}
use mqtt_protocol_core.ResultCode.{MqttError, ok, err, ConnectReturnCode, ConnectReasonCode}
use mqtt_protocol_core.TopicAlias.Send
use mqtt_protocol_core.Connection.{
  Connection, connecting, is_disconnected, emit, and_then, initialize, clear_store_related,
  refresh_pingreq_recv, notify_packet_received, notify_error,
}
use mqtt_protocol_core.Connection.Recv.{Parsed, handle_v3_1_1_error, handle_v5_0_error, accept}
use mqtt_protocol_core.Connection.Connack.{process_send_v3_1_1_connack, process_send_v5_0_connack}

-- What the handlers of both versions do first with a CONNECT that was parsed.
start_serving : Connect → Connection → Connection
unfolding initialize
start_serving packet c =
    let c₁ = initialize false c in
    if ltb 0 packet.keep_alive
    then record c₁ { pingreq_recv_timeout_ms = packet.keep_alive * 1000 * 3 / 2 }
    else c₁

return_code_of : MqttError → ConnectReturnCode
return_code_of MqttError.client_identifier_not_valid = ConnectReturnCode.identifier_rejected
return_code_of MqttError.bad_user_name_or_password = ConnectReturnCode.bad_user_name_or_password
return_code_of MqttError.unsupported_protocol_version =
    ConnectReturnCode.unacceptable_protocol_version
return_code_of e = ConnectReturnCode.not_authorized

reason_code_of : MqttError → ConnectReasonCode
reason_code_of MqttError.client_identifier_not_valid = ConnectReasonCode.client_identifier_not_valid
reason_code_of MqttError.bad_user_name_or_password = ConnectReasonCode.bad_user_name_or_password
reason_code_of MqttError.unsupported_protocol_version =
    ConnectReasonCode.unsupported_protocol_version
reason_code_of e = ConnectReasonCode.unspecified_error

-- The session that a CONNECT of version 3.1.1 asks for; `clean_session` is the field `clean_start`.
start_session : Bool → Connection → Connection
unfolding clear_store_related
start_session clean_session c =
    if clean_session then clear_store_related c else record c { need_store = true }

serve_v3_1_1 : Parsed Connect → Connection → Option Connection
unfolding start_serving start_session and_then return_code_of emit
serve_v3_1_1 (ok packet) c = some (
    accept (GenericPacket.v3_1_1_connect packet)
      (start_session packet.clean_start (start_serving packet c)))
serve_v3_1_1 (err e) c =
    and_then
      (process_send_v3_1_1_connack
        (record { return_code = return_code_of e; session_present = false; size = 4 }) c)
      (λ c₁. some (emit (notify_error e) c₁))

pub process_recv_v3_1_1_connect : Parsed Connect → Connection → Option Connection
unfolding is_disconnected serve_v3_1_1
process_recv_v3_1_1_connect parsed c =
    if is_disconnected c
    then serve_v3_1_1 parsed (record c { status = connecting })
    else some (handle_v3_1_1_error MqttError.protocol_error c)

-- One property of a CONNECT that the server receives; `none` is the panic on no aliases.
apply_received_connect_prop : Property → Connection → Option Connection
apply_received_connect_prop (topic_alias_maximum val) c = elim (Send.new val) [
  | none ↦ none
  | some t ↦ some (record c { topic_alias_send = some t })
]
apply_received_connect_prop (receive_maximum val) c =
    some (record c { publish_send_max = some val })
apply_received_connect_prop (maximum_packet_size val) c =
    some (record c { maximum_packet_size_send = val })
apply_received_connect_prop (session_expiry_interval val) c =
    some (if ltb 0 val then record c { need_store = true } else c)
apply_received_connect_prop p c = some c

pub apply_received_connect_props : List Property → Connection → Option Connection
unfolding and_then apply_received_connect_prop
apply_received_connect_props [] c = some c
apply_received_connect_props (p ∷ props) c =
    and_then (apply_received_connect_prop p c) (λ c₁. apply_received_connect_props props c₁)

serve_v5_0 : Parsed Connect → Connection → Option Connection
unfolding start_serving clear_store_related apply_received_connect_props and_then reason_code_of
    emit
serve_v5_0 (ok packet) c =
    let c₁ = start_serving packet c in
    let c₂ = if packet.clean_start then clear_store_related c₁ else c₁ in
    and_then (apply_received_connect_props packet.props c₂)
      (λ c₃. some (accept (GenericPacket.v5_0_connect packet) c₃))
serve_v5_0 (err e) c =
    and_then
      (process_send_v5_0_connack
        (record { reason_code = reason_code_of e; session_present = false; props = []; size = 5 })
        c)
      (λ c₁. some (emit (notify_error e) c₁))

pub process_recv_v5_0_connect : Parsed Connect → Connection → Option Connection
unfolding is_disconnected serve_v5_0
process_recv_v5_0_connect parsed c =
    if is_disconnected c
    then serve_v5_0 parsed (record c { status = connecting })
    else some (handle_v5_0_error MqttError.protocol_error c)
