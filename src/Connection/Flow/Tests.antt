-- ===== src/Connection/Flow/Tests.antt =====
-- Two PUBLISH packets of QoS 1 under the identifiers 3 and 4, sent by a client that may have two packets on
-- their way and has one, which is acknowledged between them.
use mqtt_protocol_core.Common.{◌≡◌, refl, true, false, List, [], ◌∷◌, none, some}
use mqtt_protocol_core.PacketId
use mqtt_protocol_core.Allocator.{any_contains}
use mqtt_protocol_core.Allocator
use mqtt_protocol_core.Common.Maps.{set_contains, set_remove}
use mqtt_protocol_core.Builder
use mqtt_protocol_core.Packet.{Publish, WithId, at_least_once, Version, GenericPacket}
use mqtt_protocol_core.Connection.{
  Connection, connected, mqtt_packet_size_no_limit, request_send_packet, notify_error,
  notify_packet_received,
}
use mqtt_protocol_core.ResultCode.{ok, packet_identifier_invalid}
use mqtt_protocol_core.Connection.Recv.{process_recv_v5_0_puback}
use mqtt_protocol_core.Connection.Flow.{Step, send_publish, recv_puback}
use mqtt_protocol_core.Store

abbrev sender : Connection
sender = record {
  protocol_version = Version.v5_0;
  pid_man = record {
    allocator = record { pool = record { low = 5; high = 9 } ∷ []; lowest = 1; highest = 9 };
  };
  pid_suback = [];
  pid_unsuback = [];
  pid_puback = 7 ∷ [];
  pid_pubrec = [];
  pid_pubcomp = [];
  need_store = false;
  store = record { entries = [] };
  offline_publish = false;
  auto_pub_response = true;
  auto_ping_response = true;
  auto_map_topic_alias_send = false;
  auto_replace_topic_alias_send = false;
  topic_alias_recv = none;
  topic_alias_send = none;
  publish_send_max = some 2;
  publish_recv_max = none;
  publish_send_count = 1;
  publish_recv = [];
  maximum_packet_size_send = mqtt_packet_size_no_limit;
  maximum_packet_size_recv = mqtt_packet_size_no_limit;
  status = connected;
  pingreq_user_send_interval_ms = none;
  pingreq_keep_alive_ms = 0;
  pingreq_server_keep_alive_ms = none;
  pingreq_recv_timeout_ms = 0;
  pingresp_recv_timeout_ms = 5000;
  qos2_publish_handled = [];
  pingreq_send_set = false;
  pingreq_recv_set = false;
  pingresp_recv_set = false;
  packet_builder = Builder.new;
  is_client = true;
  events = [];
}

abbrev packet : Publish
packet = record {
  packet_id = some 3;
  qos = at_least_once;
  dup = false;
  topic_name = 97 ∷ [];
  props = [];
  payload_len = 4;
  size = 12;
}

abbrev second : Publish
second = record packet { packet_id = some 4 }

-- Its identifier was not acquired.
abbrev unknown : Publish
unknown = record packet { packet_id = some 5 }

abbrev acknowledged : WithId
acknowledged = record { packet_id = 7; size = 4 }

abbrev steps : List Step
steps =
    send_publish packet
    ∷ send_publish unknown
    ∷ recv_puback (ok acknowledged)
    ∷ send_publish second
    ∷ []

abbrev full : Connection
full = record sender {
  pid_puback = 3 ∷ 4 ∷ [];
  publish_send_count = 2;
  events =
      request_send_packet (GenericPacket.v5_0_publish packet) (some 3)
      ∷ notify_error packet_identifier_invalid
      ∷ notify_packet_received (GenericPacket.v5_0_puback acknowledged)
      ∷ request_send_packet (GenericPacket.v5_0_publish second) (some 4)
      ∷ [];
}

-- The acknowledgement of a packet that was sent again from the store, and not counted: a build with
-- overflow checks panics, and one without them wraps.
abbrev resumed : Connection
resumed = record sender { publish_send_count = 0 }

recv_puback-resumed : process_recv_v5_0_puback true (ok acknowledged) resumed ≡ none
unfolding process_recv_v5_0_puback PacketId.is_used_id Allocator.is_used any_contains set_contains
    set_remove Store.erase
recv_puback-resumed = refl

recv_puback-wrapped :
    process_recv_v5_0_puback false (ok acknowledged) resumed
    ≡ some (record sender {
      pid_puback = [];
      publish_send_count = 65535;
      events = notify_packet_received (GenericPacket.v5_0_puback acknowledged) ∷ [];
    })
unfolding process_recv_v5_0_puback PacketId.is_used_id Allocator.is_used any_contains set_contains
    set_remove Store.erase
recv_puback-wrapped = refl
