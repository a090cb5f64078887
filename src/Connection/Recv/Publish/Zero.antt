-- ===== src/Connection/Recv/Publish/Zero.antt =====
-- connection/core.rs: when receiving a PUBLISH of version 3.1.1 panics.
use mqtt_protocol_core.Common.{ℕ, ◌≡◌, ◌↔◌, Bool, true, false, some, none, ◌&&◌, ◌||◌, arith}
use mqtt_protocol_core.Common.Maps.{set_contains}
use mqtt_protocol_core.Packet.{Publish, at_most_once, at_least_once, exactly_once}
use mqtt_protocol_core.ResultCode.{ok}
use mqtt_protocol_core.Connection.{Connection, is_connected}
use mqtt_protocol_core.Connection.Recv.Publish.{process_recv_v3_1_1_publish}

-- Whether a PUBLISH is answered by the connection itself.
pub is_answered : Publish → ℕ → Connection → Bool
is_answered packet id c = elim packet.qos [
  | at_most_once ↦ false
  | at_least_once ↦ is_connected c && c.auto_pub_response
  | exactly_once ↦ is_connected c && (c.auto_pub_response || set_contains id c.qos2_publish_handled)
]

-- A PUBLISH of version 3.1.1 makes the handler panic exactly if its identifier is 0 and the connection
-- answers it by itself: at QoS 1 when it is connected with automatic answers, at QoS 2 also without them
-- if the identifier was handled before.
pub process_recv_v3_1_1_publish-none :
    (packet : Publish) (c : Connection) (id : ℕ)
    → packet.packet_id ≡ some id
    → (process_recv_v3_1_1_publish (ok packet) c ≡ none)
      ↔ ((id ≡ 0) × (is_answered packet id c ≡ true))
unfolding process_recv_v3_1_1_publish is_answered
process_recv_v3_1_1_publish-none packet c id i = (ground arith, ground arith)
