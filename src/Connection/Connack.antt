-- ===== src/Connection/Connack.antt =====
-- connection/core.rs: the CONNACK, and resending the store when a session goes on. The `debug_assert!`s
-- are not part of the model; a failed `assert!` is `none`.
use mqtt_protocol_core.Common.{
  ℕ, ◌*◌, ◌/◌, Bool, true, false, List, [], ◌∷◌, Option, none, some, ltb, leb, ◌==◌, if◌then◌else◌,
}
use mqtt_protocol_core.Packet.{
  GenericPacket, GenericStorePacket, Connack311, Connack5, store_packet_id, store_packet_size,
  packet_from_store,
}
use mqtt_protocol_core.Wire.Property.{
  Property, topic_alias_maximum, receive_maximum, maximum_packet_size, server_keep_alive,
}
use mqtt_protocol_core.ResultCode.{
  ok, err, packet_not_allowed_to_send, packet_too_large, ConnectReturnCode, ConnectReasonCode,
}
use mqtt_protocol_core.PacketId
use mqtt_protocol_core.Store
use mqtt_protocol_core.TopicAlias.Recv
use mqtt_protocol_core.TopicAlias.Send
use mqtt_protocol_core.Connection.{
  Connection, connecting, connected, disconnected, is_connected, emit, and_then, refuse,
  request_send, request_close, request_timer_reset, pingreq_recv, pingreq_send, cancel_timers,
  cancel_pingreq_recv, cancel_pingreq_send, send_post_process, clear_store_related,
  notify_packet_id_released, notify_packet_received, notify_error,
}
use mqtt_protocol_core.Connection.Recv.{Parsed, handle_v3_1_1_error, handle_v5_0_error}

-- The closure of `send_stored`: a packet that is too large for the peer is dropped, and its identifier
-- released; the others are sent.
send_stored_packet : GenericStorePacket → Connection → Option (Bool × Connection)
unfolding emit request_send
send_stored_packet packet c =
    if ltb c.maximum_packet_size_send (store_packet_size packet)
    then elim (store_packet_id packet) [
      | none ↦ none
      | some packet_id ↦ elim (PacketId.release_id c.pid_man packet_id) [
        | none ↦ none
        | some m ↦
            some (false, emit (notify_packet_id_released packet_id) (record c { pid_man = m }))
      ]
    ]
    else some (true, request_send (packet_from_store packet) c)

pub send_stored : Connection → Option Connection
unfolding send_stored_packet
send_stored c = elim (Store.for_each send_stored_packet c.store c) [
  | none ↦ none
  | some (store, c') ↦ some (record c' { store = store })
]

is_connecting : Connection → Bool
is_connecting c = elim c.status [ connecting ↦ true | _ ↦ false ]

is_accepted : ConnectReturnCode → Bool
is_accepted ConnectReturnCode.accepted = true
is_accepted code = false

is_success : ConnectReasonCode → Bool
is_success ConnectReasonCode.success = true
is_success code = false

-- The end of both handlers that send a CONNACK which refuses.
refuse_connection : Connection → Connection
unfolding cancel_timers emit
refuse_connection c = emit request_close (cancel_timers (record c { status = disconnected }))

-- The end of both handlers that send a CONNACK which accepts.
accept_connection : Connection → Option Connection
unfolding and_then send_stored send_post_process
accept_connection c =
    and_then (send_stored (record c { status = connected })) (λ c₁. some (send_post_process c₁))

pub process_send_v3_1_1_connack : Connack311 → Connection → Option Connection
unfolding is_connecting is_accepted refuse request_send refuse_connection accept_connection
process_send_v3_1_1_connack packet c =
    if is_connecting c
    then (let c₁ = request_send (GenericPacket.v3_1_1_connack packet) c in
        if is_accepted packet.return_code
        then accept_connection c₁
        else some (refuse_connection c₁))
    else some (refuse packet_not_allowed_to_send c)

-- The keep alive that the server imposes on the client.
apply_server_keep_alive : ℕ → Connection → Connection
unfolding cancel_pingreq_recv emit
apply_server_keep_alive val c =
    if val == 0
    then record (cancel_pingreq_recv c) { pingreq_recv_timeout_ms = 0 }
    else (let ms = val * 1000 * 3 / 2 in
        emit (request_timer_reset pingreq_recv ms)
          (record c { pingreq_recv_timeout_ms = ms; pingreq_recv_set = true }))

-- The properties of a CONNACK that the server sends, in their order.
apply_sent_connack_props : List Property → Connection → Connection
unfolding apply_server_keep_alive
apply_sent_connack_props [] c = c
apply_sent_connack_props (topic_alias_maximum val ∷ props) c =
    apply_sent_connack_props props
      (if ltb 0 val then record c { topic_alias_recv = some (Recv.new val) } else c)
apply_sent_connack_props (receive_maximum val ∷ props) c =
    apply_sent_connack_props props (record c { publish_recv_max = some val })
apply_sent_connack_props (maximum_packet_size val ∷ props) c =
    apply_sent_connack_props props (record c { maximum_packet_size_recv = val })
apply_sent_connack_props (server_keep_alive val ∷ props) c =
    apply_sent_connack_props props (apply_server_keep_alive val c)
apply_sent_connack_props (p ∷ props) c = apply_sent_connack_props props c

pub process_send_v5_0_connack : Connack5 → Connection → Option Connection
unfolding is_connecting is_success refuse request_send refuse_connection accept_connection
    apply_sent_connack_props
process_send_v5_0_connack packet c =
    if leb packet.size c.maximum_packet_size_send
    then if is_connecting c
      then if is_success packet.reason_code
        then accept_connection (
            request_send (GenericPacket.v5_0_connack packet)
              (apply_sent_connack_props packet.props c))
        else some (refuse_connection (request_send (GenericPacket.v5_0_connack packet) c))
      else some (refuse packet_not_allowed_to_send c)
    else some (refuse packet_too_large c)

-- The session on the client: what is stored is sent again, or forgotten.
resume_session : Bool → Connection → Option Connection
unfolding send_stored clear_store_related
resume_session session_present c =
    if session_present then send_stored c else some (clear_store_related c)

pub process_recv_v3_1_1_connack : Parsed Connack311 → Connection → Option Connection
unfolding is_accepted and_then resume_session emit
process_recv_v3_1_1_connack (err e) c = some (handle_v3_1_1_error e c)
process_recv_v3_1_1_connack (ok packet) c =
    and_then
      (if is_accepted packet.return_code
        then resume_session packet.session_present (record c { status = connected })
        else some c)
      (λ c₁. some (emit (notify_packet_received (GenericPacket.v3_1_1_connack packet)) c₁))

-- ServerKeepAlive on the client: the timer of PINGREQ, unless the user has set an interval.
take_server_keep_alive : ℕ → Connection → Connection
unfolding cancel_pingreq_send emit
take_server_keep_alive val c =
    let ms = val * 1000 in
    let c₁ : Connection = record c { pingreq_server_keep_alive_ms = some ms } in
    elim c.pingreq_user_send_interval_ms [
      | some interval ↦ c₁
      | none ↦
          if ms == 0
          then cancel_pingreq_send c₁
          else emit (request_timer_reset pingreq_send ms) (record c₁ { pingreq_send_set = true })
    ]

-- One property of a CONNACK that the client receives.
apply_received_connack_prop : Property → Connection → Option Connection
unfolding take_server_keep_alive
apply_received_connack_prop (topic_alias_maximum val) c =
    if ltb 0 val
    then elim (Send.new val) [
      | none ↦ none
      | some t ↦ some (record c { topic_alias_send = some t })
    ]
    else some c
apply_received_connack_prop (receive_maximum val) c =
    if val == 0 then none else some (record c { publish_send_max = some val })
apply_received_connack_prop (maximum_packet_size val) c =
    if val == 0 then none else some (record c { maximum_packet_size_send = val })
apply_received_connack_prop (server_keep_alive val) c = some (take_server_keep_alive val c)
apply_received_connack_prop p c = some c

apply_received_connack_props : List Property → Connection → Option Connection
unfolding and_then apply_received_connack_prop
apply_received_connack_props [] c = some c
apply_received_connack_props (p ∷ props) c =
    and_then (apply_received_connack_prop p c) (λ c₁. apply_received_connack_props props c₁)

pub process_recv_v5_0_connack : Parsed Connack5 → Connection → Option Connection
unfolding is_connected emit is_success and_then apply_received_connack_props resume_session
process_recv_v5_0_connack (err e) c =
    some (if is_connected c then handle_v5_0_error e c else emit (notify_error e) c)
process_recv_v5_0_connack (ok packet) c =
    and_then
      (if is_success packet.reason_code
        then and_then (apply_received_connack_props packet.props (record c { status = connected }))
            (λ c₁. resume_session packet.session_present c₁)
        else some c)
      (λ c₂. some (emit (notify_packet_received (GenericPacket.v5_0_connack packet)) c₂))
