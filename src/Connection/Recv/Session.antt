-- ===== src/Connection/Recv/Session.antt =====
-- connection/core.rs: the `process_recv_…` of SUBSCRIBE, UNSUBSCRIBE and their answers, of PINGREQ,
-- PINGRESP, DISCONNECT and AUTH. A handler takes what `parse` returned.
use mqtt_protocol_core.Common.{ℕ, Bool, true, false, Option, some, ◌&&◌, not, if◌then◌else◌}
use mqtt_protocol_core.Common.Maps.{set_remove, set_contains}
use mqtt_protocol_core.Packet.{GenericPacket, WithId, Plain, Disconnect5, Role}
use mqtt_protocol_core.ResultCode.{MqttError}
use mqtt_protocol_core.ResultCode.{ok, err}
use mqtt_protocol_core.Connection.{
  Connection, is_connected, emit, and_then, release_packet_id, notify_packet_received,
  cancel_timers, cancel_pingresp_recv,
}
use mqtt_protocol_core.Connection.Send.{process_send_v3_1_1_pingresp, process_send_v5_0_pingresp}
use mqtt_protocol_core.Connection.Recv.{Parsed, handle_v3_1_1_error, handle_v5_0_error, accept}

take_suback : ℕ → Connection → Connection
unfolding set_remove
take_suback packet_id c = record c { pid_suback = set_remove packet_id c.pid_suback }

take_unsuback : ℕ → Connection → Connection
unfolding set_remove
take_unsuback packet_id c = record c { pid_unsuback = set_remove packet_id c.pid_unsuback }

-- The identifier of a request that was answered is released, and the answer accepted.
finish_request : ℕ → GenericPacket → Connection → Option Connection
unfolding and_then release_packet_id accept
finish_request packet_id packet c =
    and_then (release_packet_id packet_id c) (λ c₁. some (accept packet c₁))

pub process_recv_v3_1_1_subscribe : Parsed WithId → Connection → Connection
unfolding handle_v3_1_1_error accept
process_recv_v3_1_1_subscribe (err e) c = handle_v3_1_1_error e c
process_recv_v3_1_1_subscribe (ok packet) c = accept (GenericPacket.v3_1_1_subscribe packet) c

pub process_recv_v3_1_1_unsubscribe : Parsed WithId → Connection → Connection
unfolding handle_v3_1_1_error accept
process_recv_v3_1_1_unsubscribe (err e) c = handle_v3_1_1_error e c
process_recv_v3_1_1_unsubscribe (ok packet) c = accept (GenericPacket.v3_1_1_unsubscribe packet) c

pub process_recv_v3_1_1_suback : Parsed WithId → Connection → Option Connection
unfolding set_contains handle_v3_1_1_error take_suback finish_request
process_recv_v3_1_1_suback (err e) c = some (handle_v3_1_1_error e c)
process_recv_v3_1_1_suback (ok packet) c =
    if set_contains packet.packet_id c.pid_suback
    then finish_request packet.packet_id (GenericPacket.v3_1_1_suback packet)
        (take_suback packet.packet_id c)
    else some (handle_v3_1_1_error MqttError.protocol_error c)

pub process_recv_v3_1_1_unsuback : Parsed WithId → Connection → Option Connection
unfolding set_contains handle_v3_1_1_error take_unsuback finish_request
process_recv_v3_1_1_unsuback (err e) c = some (handle_v3_1_1_error e c)
process_recv_v3_1_1_unsuback (ok packet) c =
    if set_contains packet.packet_id c.pid_unsuback
    then finish_request packet.packet_id (GenericPacket.v3_1_1_unsuback packet)
        (take_unsuback packet.packet_id c)
    else some (handle_v3_1_1_error MqttError.protocol_error c)

pub process_recv_v5_0_subscribe : Parsed WithId → Connection → Connection
unfolding handle_v5_0_error accept
process_recv_v5_0_subscribe (err e) c = handle_v5_0_error e c
process_recv_v5_0_subscribe (ok packet) c = accept (GenericPacket.v5_0_subscribe packet) c

pub process_recv_v5_0_unsubscribe : Parsed WithId → Connection → Connection
unfolding handle_v5_0_error accept
process_recv_v5_0_unsubscribe (err e) c = handle_v5_0_error e c
process_recv_v5_0_unsubscribe (ok packet) c = accept (GenericPacket.v5_0_unsubscribe packet) c

pub process_recv_v5_0_suback : Parsed WithId → Connection → Option Connection
unfolding set_contains handle_v5_0_error take_suback finish_request
process_recv_v5_0_suback (err e) c = some (handle_v5_0_error e c)
process_recv_v5_0_suback (ok packet) c =
    if set_contains packet.packet_id c.pid_suback
    then finish_request packet.packet_id (GenericPacket.v5_0_suback packet)
        (take_suback packet.packet_id c)
    else some (handle_v5_0_error MqttError.protocol_error c)

pub process_recv_v5_0_unsuback : Parsed WithId → Connection → Option Connection
unfolding set_contains handle_v5_0_error take_unsuback finish_request
process_recv_v5_0_unsuback (err e) c = some (handle_v5_0_error e c)
process_recv_v5_0_unsuback (ok packet) c =
    if set_contains packet.packet_id c.pid_unsuback
    then finish_request packet.packet_id (GenericPacket.v5_0_unsuback packet)
        (take_unsuback packet.packet_id c)
    else some (handle_v5_0_error MqttError.protocol_error c)

-- `Role::IS_SERVER || Role::IS_ANY`.
pub is_server_or_any : Role → Bool
is_server_or_any Role.client = false
is_server_or_any Role.server = true
is_server_or_any Role.any = true

-- Whether a PINGREQ is answered at once.
answers_ping : Role → Connection → Bool
unfolding is_connected is_server_or_any
answers_ping role c =
    is_server_or_any role && not c.is_client && c.auto_ping_response && is_connected c

pub process_recv_v3_1_1_pingreq : Role → Parsed Plain → Connection → Connection
unfolding handle_v3_1_1_error answers_ping accept
process_recv_v3_1_1_pingreq role (err e) c = handle_v3_1_1_error e c
process_recv_v3_1_1_pingreq role (ok packet) c =
    accept (GenericPacket.v3_1_1_pingreq packet)
      (if answers_ping role c then process_send_v3_1_1_pingresp (record { size = 2 }) c else c)

pub process_recv_v3_1_1_pingresp : Parsed Plain → Connection → Connection
unfolding handle_v3_1_1_error emit cancel_pingresp_recv
process_recv_v3_1_1_pingresp (err e) c = handle_v3_1_1_error e c
process_recv_v3_1_1_pingresp (ok packet) c =
    emit (notify_packet_received (GenericPacket.v3_1_1_pingresp packet)) (cancel_pingresp_recv c)

pub process_recv_v3_1_1_disconnect : Parsed Plain → Connection → Connection
unfolding handle_v3_1_1_error emit cancel_timers
process_recv_v3_1_1_disconnect (err e) c = handle_v3_1_1_error e c
process_recv_v3_1_1_disconnect (ok packet) c =
    emit (notify_packet_received (GenericPacket.v3_1_1_disconnect packet)) (cancel_timers c)

pub process_recv_v5_0_pingreq : Role → Parsed Plain → Connection → Connection
unfolding handle_v5_0_error answers_ping accept
process_recv_v5_0_pingreq role (err e) c = handle_v5_0_error e c
process_recv_v5_0_pingreq role (ok packet) c =
    accept (GenericPacket.v5_0_pingreq packet)
      (if answers_ping role c then process_send_v5_0_pingresp (record { size = 2 }) c else c)

pub process_recv_v5_0_pingresp : Parsed Plain → Connection → Connection
unfolding handle_v5_0_error emit cancel_pingresp_recv
process_recv_v5_0_pingresp (err e) c = handle_v5_0_error e c
process_recv_v5_0_pingresp (ok packet) c =
    emit (notify_packet_received (GenericPacket.v5_0_pingresp packet)) (cancel_pingresp_recv c)

pub process_recv_v5_0_disconnect : Parsed Disconnect5 → Connection → Connection
unfolding handle_v5_0_error emit cancel_timers
process_recv_v5_0_disconnect (err e) c = handle_v5_0_error e c
process_recv_v5_0_disconnect (ok packet) c =
    emit (notify_packet_received (GenericPacket.v5_0_disconnect packet)) (cancel_timers c)

pub process_recv_v5_0_auth : Parsed Plain → Connection → Connection
unfolding handle_v5_0_error accept
process_recv_v5_0_auth (err e) c = handle_v5_0_error e c
process_recv_v5_0_auth (ok packet) c = accept (GenericPacket.v5_0_auth packet) c
