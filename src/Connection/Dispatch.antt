-- ===== src/Connection/Dispatch.antt =====
-- connection/core.rs: `send`, which tests the version and the role before it hands the packet to its
-- handler.
use mqtt_protocol_core.Common.{Bool, true, false, Option, some, if◌then◌else◌}
use mqtt_protocol_core.Packet.{GenericPacket, Version, Role}
use mqtt_protocol_core.ResultCode.{packet_not_allowed_to_send, version_mismatch}
use mqtt_protocol_core.Connection.{Connection, refuse}
use mqtt_protocol_core.Connection.Send.{
  process_send_v3_1_1_puback, process_send_v5_0_puback, process_send_v3_1_1_pubrec,
  process_send_v5_0_pubrec, process_send_v3_1_1_pubcomp, process_send_v5_0_pubcomp,
  process_send_v3_1_1_suback, process_send_v5_0_suback, process_send_v3_1_1_unsuback,
  process_send_v5_0_unsuback, process_send_v3_1_1_pingresp, process_send_v5_0_pingresp,
}
use mqtt_protocol_core.Connection.Session.{
  process_send_v3_1_1_connect, process_send_v5_0_connect, process_send_v3_1_1_pubrel,
  process_send_v5_0_pubrel, process_send_v3_1_1_subscribe, process_send_v5_0_subscribe,
  process_send_v3_1_1_unsubscribe, process_send_v5_0_unsubscribe, process_send_v3_1_1_pingreq,
  process_send_v5_0_pingreq, process_send_v3_1_1_disconnect, process_send_v5_0_disconnect,
  process_send_v5_0_auth,
}
use mqtt_protocol_core.Connection.Connack.{process_send_v3_1_1_connack, process_send_v5_0_connack}
use mqtt_protocol_core.Connection.Publish.{process_send_v3_1_1_publish, process_send_v5_0_publish}
use mqtt_protocol_core.Connection.Recv.Session.{is_server_or_any}

-- GenericPacket::protocol_version.
pub packet_version : GenericPacket → Version
packet_version (GenericPacket.v3_1_1_connect p) = Version.v3_1_1
packet_version (GenericPacket.v3_1_1_connack p) = Version.v3_1_1
packet_version (GenericPacket.v3_1_1_publish p) = Version.v3_1_1
packet_version (GenericPacket.v3_1_1_puback p) = Version.v3_1_1
packet_version (GenericPacket.v3_1_1_pubrec p) = Version.v3_1_1
packet_version (GenericPacket.v3_1_1_pubrel p) = Version.v3_1_1
packet_version (GenericPacket.v3_1_1_pubcomp p) = Version.v3_1_1
packet_version (GenericPacket.v3_1_1_subscribe p) = Version.v3_1_1
packet_version (GenericPacket.v3_1_1_suback p) = Version.v3_1_1
packet_version (GenericPacket.v3_1_1_unsubscribe p) = Version.v3_1_1
packet_version (GenericPacket.v3_1_1_unsuback p) = Version.v3_1_1
packet_version (GenericPacket.v3_1_1_pingreq p) = Version.v3_1_1
packet_version (GenericPacket.v3_1_1_pingresp p) = Version.v3_1_1
packet_version (GenericPacket.v3_1_1_disconnect p) = Version.v3_1_1
packet_version (GenericPacket.v5_0_connect p) = Version.v5_0
packet_version (GenericPacket.v5_0_connack p) = Version.v5_0
packet_version (GenericPacket.v5_0_publish p) = Version.v5_0
packet_version (GenericPacket.v5_0_puback p) = Version.v5_0
packet_version (GenericPacket.v5_0_pubrec p) = Version.v5_0
packet_version (GenericPacket.v5_0_pubrel p) = Version.v5_0
packet_version (GenericPacket.v5_0_pubcomp p) = Version.v5_0
packet_version (GenericPacket.v5_0_subscribe p) = Version.v5_0
packet_version (GenericPacket.v5_0_suback p) = Version.v5_0
packet_version (GenericPacket.v5_0_unsubscribe p) = Version.v5_0
packet_version (GenericPacket.v5_0_unsuback p) = Version.v5_0
packet_version (GenericPacket.v5_0_pingreq p) = Version.v5_0
packet_version (GenericPacket.v5_0_pingresp p) = Version.v5_0
packet_version (GenericPacket.v5_0_disconnect p) = Version.v5_0
packet_version (GenericPacket.v5_0_auth p) = Version.v5_0

unfoldable pub version_eq : Version → Version → Bool
version_eq Version.undetermined Version.undetermined = true
version_eq Version.v3_1_1 Version.v3_1_1 = true
version_eq Version.v5_0 Version.v5_0 = true
version_eq v w = false

pub is_client_or_any : Role → Bool
is_client_or_any Role.client = true
is_client_or_any Role.server = false
is_client_or_any Role.any = true

-- A packet that only some roles send.
send_as : Bool → Connection → Option Connection → Option Connection
unfolding refuse
send_as allowed c sent = if allowed then sent else some (refuse packet_not_allowed_to_send c)

-- The `match` on the packet.
pub send_packet : Role → GenericPacket → Connection → Option Connection
unfolding send_as is_client_or_any
send_packet role (GenericPacket.v3_1_1_connect p) c =
    send_as (is_client_or_any role) c (some (process_send_v3_1_1_connect p c))
send_packet role (GenericPacket.v3_1_1_connack p) c =
    send_as (is_server_or_any role) c (process_send_v3_1_1_connack p c)
send_packet role (GenericPacket.v3_1_1_publish p) c = process_send_v3_1_1_publish p c
send_packet role (GenericPacket.v3_1_1_puback p) c = some (process_send_v3_1_1_puback p c)
send_packet role (GenericPacket.v3_1_1_pubrec p) c = some (process_send_v3_1_1_pubrec p c)
send_packet role (GenericPacket.v3_1_1_pubrel p) c = process_send_v3_1_1_pubrel p c
send_packet role (GenericPacket.v3_1_1_pubcomp p) c = some (process_send_v3_1_1_pubcomp p c)
send_packet role (GenericPacket.v3_1_1_subscribe p) c =
    send_as (is_client_or_any role) c (process_send_v3_1_1_subscribe p c)
send_packet role (GenericPacket.v3_1_1_suback p) c =
    send_as (is_server_or_any role) c (some (process_send_v3_1_1_suback p c))
send_packet role (GenericPacket.v3_1_1_unsubscribe p) c =
    send_as (is_client_or_any role) c (process_send_v3_1_1_unsubscribe p c)
send_packet role (GenericPacket.v3_1_1_unsuback p) c =
    send_as (is_server_or_any role) c (some (process_send_v3_1_1_unsuback p c))
send_packet role (GenericPacket.v3_1_1_pingreq p) c =
    send_as (is_client_or_any role) c (some (process_send_v3_1_1_pingreq p c))
send_packet role (GenericPacket.v3_1_1_pingresp p) c =
    send_as (is_server_or_any role) c (some (process_send_v3_1_1_pingresp p c))
send_packet role (GenericPacket.v3_1_1_disconnect p) c =
    send_as (is_client_or_any role) c (some (process_send_v3_1_1_disconnect p c))
send_packet role (GenericPacket.v5_0_connect p) c =
    send_as (is_client_or_any role) c (some (process_send_v5_0_connect p c))
send_packet role (GenericPacket.v5_0_connack p) c =
    send_as (is_server_or_any role) c (process_send_v5_0_connack p c)
send_packet role (GenericPacket.v5_0_publish p) c = process_send_v5_0_publish p c
send_packet role (GenericPacket.v5_0_puback p) c = some (process_send_v5_0_puback p c)
send_packet role (GenericPacket.v5_0_pubrec p) c = some (process_send_v5_0_pubrec p c)
send_packet role (GenericPacket.v5_0_pubrel p) c = process_send_v5_0_pubrel p c
send_packet role (GenericPacket.v5_0_pubcomp p) c = some (process_send_v5_0_pubcomp p c)
send_packet role (GenericPacket.v5_0_subscribe p) c =
    send_as (is_client_or_any role) c (process_send_v5_0_subscribe p c)
send_packet role (GenericPacket.v5_0_suback p) c =
    send_as (is_server_or_any role) c (some (process_send_v5_0_suback p c))
send_packet role (GenericPacket.v5_0_unsubscribe p) c =
    send_as (is_client_or_any role) c (process_send_v5_0_unsubscribe p c)
send_packet role (GenericPacket.v5_0_unsuback p) c =
    send_as (is_server_or_any role) c (some (process_send_v5_0_unsuback p c))
send_packet role (GenericPacket.v5_0_pingreq p) c =
    send_as (is_client_or_any role) c (some (process_send_v5_0_pingreq p c))
send_packet role (GenericPacket.v5_0_pingresp p) c =
    send_as (is_server_or_any role) c (some (process_send_v5_0_pingresp p c))
send_packet role (GenericPacket.v5_0_disconnect p) c = some (process_send_v5_0_disconnect p c)
send_packet role (GenericPacket.v5_0_auth p) c = some (process_send_v5_0_auth p c)

pub send : Role → GenericPacket → Connection → Option Connection
unfolding packet_version version_eq refuse send_packet
send role packet c =
    if version_eq c.protocol_version (packet_version packet)
    then send_packet role packet c
    else some (refuse version_mismatch c)
