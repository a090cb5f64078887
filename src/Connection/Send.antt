-- ===== src/Connection/Send.antt =====
-- connection/core.rs: the `process_send_…` of acknowledgements and of PINGRESP.
use mqtt_protocol_core.Common.{ℕ, Option, none, some, if◌then◌else◌}
use mqtt_protocol_core.Common.Maps.{set_remove}
use mqtt_protocol_core.Packet.{GenericPacket, WithId, Pubrec5, Pubcomp5, Plain}
use mqtt_protocol_core.ResultCode.{PubrecReasonCode, pubrec_is_failure}
use mqtt_protocol_core.Connection.{
  Connection, request_send, send_post_process, when_connected, when_size_allowed,
}

-- A PUBREC with a failure ends the delivery.
forget_failed : ℕ → Option PubrecReasonCode → Connection → Connection
unfolding set_remove
forget_failed packet_id none c = c
forget_failed packet_id (some rc) c =
    if pubrec_is_failure rc
    then record c {
      publish_recv = set_remove packet_id c.publish_recv;
      qos2_publish_handled = set_remove packet_id c.qos2_publish_handled;
    }
    else c

pub process_send_v3_1_1_puback : WithId → Connection → Connection
unfolding when_connected send_post_process request_send
process_send_v3_1_1_puback packet c =
    when_connected c (send_post_process (request_send (GenericPacket.v3_1_1_puback packet) c))

pub process_send_v5_0_puback : WithId → Connection → Connection
unfolding when_connected send_post_process request_send when_size_allowed
process_send_v5_0_puback packet c = when_size_allowed packet.size c (
    when_connected c (
      send_post_process (
        request_send (GenericPacket.v5_0_puback packet)
          (record c { publish_recv = set_remove packet.packet_id c.publish_recv }))))

unfoldable pub process_send_v3_1_1_pubrec : WithId → Connection → Connection
unfolding when_connected send_post_process request_send
process_send_v3_1_1_pubrec packet c =
    when_connected c (send_post_process (request_send (GenericPacket.v3_1_1_pubrec packet) c))

pub process_send_v5_0_pubrec : Pubrec5 → Connection → Connection
unfolding when_connected send_post_process request_send when_size_allowed forget_failed
process_send_v5_0_pubrec packet c = when_size_allowed packet.size c (
    when_connected c (
      send_post_process (
        request_send (GenericPacket.v5_0_pubrec packet)
          (forget_failed packet.packet_id packet.reason_code c))))

pub process_send_v3_1_1_pubcomp : WithId → Connection → Connection
unfolding when_connected send_post_process request_send
process_send_v3_1_1_pubcomp packet c =
    when_connected c (send_post_process (request_send (GenericPacket.v3_1_1_pubcomp packet) c))

pub process_send_v5_0_pubcomp : Pubcomp5 → Connection → Connection
unfolding when_connected send_post_process request_send when_size_allowed
process_send_v5_0_pubcomp packet c = when_size_allowed packet.size c (
    when_connected c (
      send_post_process (
        request_send (GenericPacket.v5_0_pubcomp packet)
          (record c { publish_recv = set_remove packet.packet_id c.publish_recv }))))

pub process_send_v3_1_1_suback : WithId → Connection → Connection
unfolding when_connected send_post_process request_send
process_send_v3_1_1_suback packet c =
    when_connected c (send_post_process (request_send (GenericPacket.v3_1_1_suback packet) c))

pub process_send_v5_0_suback : WithId → Connection → Connection
unfolding when_connected send_post_process request_send when_size_allowed
process_send_v5_0_suback packet c =
    when_size_allowed packet.size c
      (when_connected c (send_post_process (request_send (GenericPacket.v5_0_suback packet) c)))

pub process_send_v3_1_1_unsuback : WithId → Connection → Connection
unfolding when_connected send_post_process request_send
process_send_v3_1_1_unsuback packet c =
    when_connected c (send_post_process (request_send (GenericPacket.v3_1_1_unsuback packet) c))

pub process_send_v5_0_unsuback : WithId → Connection → Connection
unfolding when_connected send_post_process request_send when_size_allowed
process_send_v5_0_unsuback packet c =
    when_size_allowed packet.size c
      (when_connected c (send_post_process (request_send (GenericPacket.v5_0_unsuback packet) c)))

pub process_send_v3_1_1_pingresp : Plain → Connection → Connection
unfolding when_connected send_post_process request_send
process_send_v3_1_1_pingresp packet c =
    when_connected c (send_post_process (request_send (GenericPacket.v3_1_1_pingresp packet) c))

pub process_send_v5_0_pingresp : Plain → Connection → Connection
unfolding when_connected send_post_process request_send when_size_allowed
process_send_v5_0_pingresp packet c =
    when_size_allowed packet.size c
      (when_connected c (send_post_process (request_send (GenericPacket.v5_0_pingresp packet) c)))
