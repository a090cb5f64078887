-- ===== src/Connection/Session.antt =====
-- connection/core.rs: the `process_send_…` of PUBREL, SUBSCRIBE, UNSUBSCRIBE, PINGREQ, DISCONNECT
-- and AUTH, and of CONNECT.
pub mod Timers
pub mod Quota
use mqtt_protocol_core.Common.{
  ℕ, ◌*◌, Bool, true, false, List, [], ◌∷◌, Option, none, some, ltb, ◌==◌, ◌||◌, if◌then◌else◌,
}
use mqtt_protocol_core.Common.Maps.{set_insert}
use mqtt_protocol_core.Wire.Property.{
  Property, topic_alias_maximum, receive_maximum, maximum_packet_size, session_expiry_interval,
}
use mqtt_protocol_core.Packet.{
  GenericPacket, GenericStorePacket, WithId, Plain, Disconnect5, Connect,
}
use mqtt_protocol_core.ResultCode.{
  packet_not_allowed_to_send, packet_identifier_invalid, packet_too_large,
}
use mqtt_protocol_core.PacketId
use mqtt_protocol_core.Store
use mqtt_protocol_core.TopicAlias.Recv
use mqtt_protocol_core.Connection.{
  Connection, is_connected, is_disconnected, refuse, request_send,
  validate_maximum_packet_size_send, send_post_process, emit, and_then, release_packet_id,
  request_send_packet, request_timer_reset, pingresp_recv, cancel_timers, request_close, initialize,
  clear_store_related, connecting, disconnected, when_connected, when_size_allowed,
}

-- `store.add(packet).unwrap()`, where it is needed: `none` is the panic.
store_pubrel : GenericStorePacket → Connection → Option Connection
store_pubrel packet c =
    if c.need_store
    then elim (Store.add c.store packet) [
      | some (Store.added, s) ↦ some (record c { store = s })
      | _ ↦ none
    ]
    else some c

-- Sending a PUBREL that is stored.
deliver_pubrel : ℕ → GenericPacket → Connection → Connection
unfolding is_connected request_send send_post_process set_insert
deliver_pubrel packet_id packet c = send_post_process (
    if is_connected c
    then request_send packet (record c { pid_pubcomp = set_insert packet_id c.pid_pubcomp })
    else c)

-- What the handlers of PUBREL of both versions do.
send_pubrel : ℕ → GenericPacket → GenericStorePacket → Connection → Option Connection
unfolding is_connected refuse store_pubrel deliver_pubrel and_then
send_pubrel packet_id packet stored c =
    if is_connected c || c.need_store
    then if PacketId.is_used_id c.pid_man packet_id
      then and_then (store_pubrel stored c) (λ c₁. some (deliver_pubrel packet_id packet c₁))
      else some (refuse packet_identifier_invalid c)
    else some (refuse packet_not_allowed_to_send c)

pub process_send_v3_1_1_pubrel : WithId → Connection → Option Connection
unfolding send_pubrel
process_send_v3_1_1_pubrel packet c =
    send_pubrel packet.packet_id (GenericPacket.v3_1_1_pubrel packet)
      (GenericStorePacket.v3_1_1_pubrel packet) c

pub process_send_v5_0_pubrel : WithId → Connection → Option Connection
unfolding send_pubrel validate_maximum_packet_size_send refuse
process_send_v5_0_pubrel packet c =
    if validate_maximum_packet_size_send c packet.size
    then send_pubrel packet.packet_id (GenericPacket.v5_0_pubrel packet)
        (GenericStorePacket.v5_0_pubrel packet) c
    else some (refuse packet_too_large c)

-- What the handlers of SUBSCRIBE and UNSUBSCRIBE share; the argument records the pending identifier.
send_request : ℕ → GenericPacket → (Connection → Connection) → Connection → Option Connection
unfolding is_connected refuse emit send_post_process release_packet_id
send_request packet_id packet record_pending c =
    if is_connected c
    then if PacketId.is_used_id c.pid_man packet_id
      then some (
          send_post_process (emit (request_send_packet packet (some packet_id)) (record_pending c)))
      else some (refuse packet_identifier_invalid c)
    else release_packet_id packet_id (refuse packet_not_allowed_to_send c)

await_suback : ℕ → Connection → Connection
unfolding set_insert
await_suback packet_id c = record c { pid_suback = set_insert packet_id c.pid_suback }

await_unsuback : ℕ → Connection → Connection
unfolding set_insert
await_unsuback packet_id c = record c { pid_unsuback = set_insert packet_id c.pid_unsuback }

pub process_send_v3_1_1_subscribe : WithId → Connection → Option Connection
unfolding send_request await_suback
process_send_v3_1_1_subscribe packet c =
    send_request packet.packet_id (GenericPacket.v3_1_1_subscribe packet)
      (await_suback packet.packet_id) c

pub process_send_v5_0_subscribe : WithId → Connection → Option Connection
unfolding send_request await_suback validate_maximum_packet_size_send refuse
process_send_v5_0_subscribe packet c =
    if validate_maximum_packet_size_send c packet.size
    then send_request packet.packet_id (GenericPacket.v5_0_subscribe packet)
        (await_suback packet.packet_id) c
    else some (refuse packet_too_large c)

pub process_send_v3_1_1_unsubscribe : WithId → Connection → Option Connection
unfolding send_request await_unsuback
process_send_v3_1_1_unsubscribe packet c =
    send_request packet.packet_id (GenericPacket.v3_1_1_unsubscribe packet)
      (await_unsuback packet.packet_id) c

pub process_send_v5_0_unsubscribe : WithId → Connection → Option Connection
unfolding send_request await_unsuback validate_maximum_packet_size_send refuse
process_send_v5_0_unsubscribe packet c =
    if validate_maximum_packet_size_send c packet.size
    then send_request packet.packet_id (GenericPacket.v5_0_unsubscribe packet)
        (await_unsuback packet.packet_id) c
    else some (refuse packet_too_large c)

-- The timer that waits for a PINGRESP.
start_pingresp_recv : Connection → Connection
unfolding emit
start_pingresp_recv c =
    if ltb 0 c.pingresp_recv_timeout_ms
    then emit (request_timer_reset pingresp_recv c.pingresp_recv_timeout_ms)
        (record c { pingresp_recv_set = true })
    else c

pub process_send_v3_1_1_pingreq : Plain → Connection → Connection
unfolding when_connected request_send send_post_process start_pingresp_recv
process_send_v3_1_1_pingreq packet c =
    when_connected c (
      send_post_process
        (start_pingresp_recv (request_send (GenericPacket.v3_1_1_pingreq packet) c)))

pub process_send_v5_0_pingreq : Plain → Connection → Connection
unfolding when_connected when_size_allowed request_send send_post_process start_pingresp_recv
process_send_v5_0_pingreq packet c = when_size_allowed packet.size c (
    when_connected c (
      send_post_process (start_pingresp_recv (request_send (GenericPacket.v5_0_pingreq packet) c))))

-- Leaving: the status changes, the timers are cancelled, the packet is sent and the transport closed.
leave : GenericPacket → Connection → Connection
unfolding cancel_timers request_send emit
leave packet c =
    emit request_close (request_send packet (cancel_timers (record c { status = disconnected })))

pub process_send_v3_1_1_disconnect : Plain → Connection → Connection
unfolding when_connected leave
process_send_v3_1_1_disconnect packet c =
    when_connected c (leave (GenericPacket.v3_1_1_disconnect packet) c)

unfoldable pub process_send_v5_0_disconnect : Disconnect5 → Connection → Connection
unfolding when_connected when_size_allowed leave
process_send_v5_0_disconnect packet c =
    when_size_allowed packet.size c
      (when_connected c (leave (GenericPacket.v5_0_disconnect packet) c))

pub process_send_v5_0_auth : Plain → Connection → Connection
unfolding when_size_allowed is_disconnected refuse request_send send_post_process
process_send_v5_0_auth packet c = when_size_allowed packet.size c (
    if is_disconnected c
    then refuse packet_not_allowed_to_send c
    else send_post_process (request_send (GenericPacket.v5_0_auth packet) c))

-- The beginning of both handlers of CONNECT.
start_connecting : Connect → Connection → Connection
unfolding initialize
start_connecting packet c = record (initialize true c) {
  status = connecting;
  pingreq_keep_alive_ms = packet.keep_alive * 1000;
}

pub process_send_v3_1_1_connect : Connect → Connection → Connection
unfolding is_disconnected refuse start_connecting clear_store_related request_send send_post_process
process_send_v3_1_1_connect packet c =
    if is_disconnected c
    then (let c₁ = start_connecting packet c in
        let c₂ : Connection =
          if packet.clean_start then clear_store_related c₁ else record c₁ { need_store = true } in
        let c₃ : Connection = record c₂ { topic_alias_send = none } in
        send_post_process (request_send (GenericPacket.v3_1_1_connect packet) c₃))
    else refuse packet_not_allowed_to_send c

-- The properties of a CONNECT that the client sends, in their order.
apply_connect_props : List Property → Connection → Connection
apply_connect_props [] c = c
apply_connect_props (topic_alias_maximum val ∷ props) c =
    apply_connect_props props
      (if ltb 0 val then record c { topic_alias_recv = some (Recv.new val) } else c)
apply_connect_props (receive_maximum val ∷ props) c =
    apply_connect_props props (record c { publish_recv_max = some val })
apply_connect_props (maximum_packet_size val ∷ props) c =
    apply_connect_props props (record c { maximum_packet_size_recv = val })
apply_connect_props (session_expiry_interval val ∷ props) c =
    apply_connect_props props (if ltb 0 val then record c { need_store = true } else c)
apply_connect_props (p ∷ props) c = apply_connect_props props c

pub process_send_v5_0_connect : Connect → Connection → Connection
unfolding when_size_allowed is_disconnected refuse start_connecting clear_store_related request_send
    send_post_process apply_connect_props
process_send_v5_0_connect packet c = when_size_allowed packet.size c (
    if is_disconnected c
    then (let c₁ = start_connecting packet c in
        let c₂ = if packet.clean_start then clear_store_related c₁ else c₁ in
        send_post_process
          (request_send (GenericPacket.v5_0_connect packet) (apply_connect_props packet.props c₂)))
    else refuse packet_not_allowed_to_send c)
