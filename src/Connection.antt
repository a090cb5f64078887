-- ===== src/Connection.antt =====
-- connection/core.rs and connection/event.rs: the connection's state, the events it asks its user to
-- handle, and the steps the handlers share. `events` is the vector that a call returns, so that an
-- `events.push` of the code is `emit`. A handler that can panic returns an Option.
mod Sizes
pub mod Quota
pub mod Notify
pub mod Send
pub mod Session
pub mod Recv
pub mod Connack
pub mod Accept
pub mod Publish
pub mod Restore
pub mod Dispatch
pub mod Receive
pub mod Timers
pub mod Flow
mod Tests
use mqtt_protocol_core.Common.{
  ℕ, ◌+◌, Bool, true, false, List, [], ◌∷◌, ◌++◌, Option, none, some, leb, ltb, ◌==◌, not,
  if◌then◌else◌,
}
use mqtt_protocol_core.Wire.Property.{Property, topic_alias}
use mqtt_protocol_core.Packet.{GenericPacket, Version, Role, GenericStorePacket}
use mqtt_protocol_core.Packet
use mqtt_protocol_core.ResultCode.{MqttError, packet_not_allowed_to_send, packet_too_large}
use mqtt_protocol_core.PacketId.{PacketIdManager}
use mqtt_protocol_core.PacketId
use mqtt_protocol_core.Store.{Store}
use mqtt_protocol_core.Store
use mqtt_protocol_core.Builder.{PacketBuilder}
use mqtt_protocol_core.Builder
use mqtt_protocol_core.TopicAlias.Recv.{TopicAliasRecv}
use mqtt_protocol_core.TopicAlias.Send.{TopicAliasSend}

pub data TimerKind : Type 0 where
  pingreq_send pingreq_recv pingresp_recv : TimerKind

pub data GenericEvent : Type 0 where
  notify_packet_received : GenericPacket → GenericEvent
  request_send_packet :
      (packet : GenericPacket) (release_packet_id_if_send_error : Option ℕ) → GenericEvent
  notify_packet_id_released : ℕ → GenericEvent
  request_timer_reset : (kind : TimerKind) (duration_ms : ℕ) → GenericEvent
  request_timer_cancel : TimerKind → GenericEvent
  notify_error : MqttError → GenericEvent
  request_close : GenericEvent

pub data ConnectionStatus : Type 0 where
  disconnected connecting connected : ConnectionStatus

-- 1 + 4 + 128 * 128 * 128 * 128.
abbrev pub mqtt_packet_size_no_limit : ℕ
mqtt_packet_size_no_limit = 268435461

unfoldable pub remaining_length_to_total_size : ℕ → ℕ
remaining_length_to_total_size n =
    1 + (if ltb n 128 then 1 else if ltb n 16384 then 2 else if ltb n 2097152 then 3 else 4) + n

pub record Connection : Type 0 where
  pub protocol_version : Version
  pub pid_man : PacketIdManager
  pub pid_suback : List ℕ
  pub pid_unsuback : List ℕ
  pub pid_puback : List ℕ
  pub pid_pubrec : List ℕ
  pub pid_pubcomp : List ℕ
  pub need_store : Bool
  pub store : Store
  pub offline_publish : Bool
  pub auto_pub_response : Bool
  pub auto_ping_response : Bool
  pub auto_map_topic_alias_send : Bool
  pub auto_replace_topic_alias_send : Bool
  pub topic_alias_recv : Option TopicAliasRecv
  pub topic_alias_send : Option TopicAliasSend
  pub publish_send_max : Option ℕ
  pub publish_recv_max : Option ℕ
  pub publish_send_count : ℕ
  pub publish_recv : List ℕ
  pub maximum_packet_size_send : ℕ
  pub maximum_packet_size_recv : ℕ
  pub status : ConnectionStatus
  pub pingreq_user_send_interval_ms : Option ℕ
  pub pingreq_keep_alive_ms : ℕ
  pub pingreq_server_keep_alive_ms : Option ℕ
  pub pingreq_recv_timeout_ms : ℕ
  pub pingresp_recv_timeout_ms : ℕ
  pub qos2_publish_handled : List ℕ
  pub pingreq_send_set : Bool
  pub pingreq_recv_set : Bool
  pub pingresp_recv_set : Bool
  pub packet_builder : PacketBuilder
  pub is_client : Bool
  pub events : List GenericEvent

-- The first argument is the packet identifier type's maximum; `none` is a panic of the allocator.
pub new : ℕ → Version → Option Connection
new max_value version = elim (PacketId.new max_value) [
  | none ↦ none
  | some pid_man ↦ some (record {
    protocol_version = version;
    pid_man = pid_man;
    pid_suback = [];
    pid_unsuback = [];
    pid_puback = [];
    pid_pubrec = [];
    pid_pubcomp = [];
    need_store = false;
    store = Store.new;
    offline_publish = false;
    auto_pub_response = false;
    auto_ping_response = false;
    auto_map_topic_alias_send = false;
    auto_replace_topic_alias_send = false;
    topic_alias_recv = none;
    topic_alias_send = none;
    publish_send_max = none;
    publish_recv_max = none;
    publish_send_count = 0;
    publish_recv = [];
    maximum_packet_size_send = mqtt_packet_size_no_limit;
    maximum_packet_size_recv = mqtt_packet_size_no_limit;
    status = disconnected;
    pingreq_user_send_interval_ms = none;
    pingreq_keep_alive_ms = 0;
    pingreq_server_keep_alive_ms = none;
    pingreq_recv_timeout_ms = 0;
    pingresp_recv_timeout_ms = 0;
    qos2_publish_handled = [];
    pingreq_send_set = false;
    pingreq_recv_set = false;
    pingresp_recv_set = false;
    packet_builder = Builder.new;
    is_client = false;
    events = [];
  })
]

-- `?` on a step that can panic.
pub and_then : Option Connection → (Connection → Option Connection) → Option Connection
and_then none k = none
and_then (some c) k = k c

pub emit : GenericEvent → Connection → Connection
emit e c = record c { events = c.events ++ e ∷ [] }

pub is_connected : Connection → Bool
is_connected c = elim c.status [ connected ↦ true | _ ↦ false ]

pub is_disconnected : Connection → Bool
is_disconnected c = elim c.status [ disconnected ↦ true | _ ↦ false ]

-- `process_send_…` on a packet that may not be sent now.
pub refuse : MqttError → Connection → Connection
unfolding emit
refuse e c = emit (notify_error e) c

-- The event of sending with nothing to release on an error.
pub request_send : GenericPacket → Connection → Connection
unfolding emit
request_send packet c = emit (request_send_packet packet none) c

pub validate_maximum_packet_size_send : Connection → ℕ → Bool
validate_maximum_packet_size_send c size = leb size c.maximum_packet_size_send

-- The interval of PINGREQ: the user's, else the server's, else CONNECT's.
pub send_interval : Connection → ℕ
send_interval c = elim c.pingreq_user_send_interval_ms [
  | some timeout_ms ↦ timeout_ms
  | none ↦ elim c.pingreq_server_keep_alive_ms [
    | some timeout_ms ↦ timeout_ms
    | none ↦ c.pingreq_keep_alive_ms
  ]
]

pub send_post_process : Connection → Connection
unfolding emit send_interval
send_post_process c =
    if c.is_client
    then if ltb 0 (send_interval c)
      then emit (request_timer_reset pingreq_send (send_interval c))
          (record c { pingreq_send_set = true })
      else c
    else c

pub refresh_pingreq_recv : Connection → Connection
unfolding emit
refresh_pingreq_recv c =
    if ltb 0 c.pingreq_recv_timeout_ms
    then emit (request_timer_reset pingreq_recv c.pingreq_recv_timeout_ms)
        (record c { pingreq_recv_set = true })
    else c

pub cancel_pingreq_send : Connection → Connection
unfolding emit
cancel_pingreq_send c =
    if c.pingreq_send_set
    then emit (request_timer_cancel pingreq_send) (record c { pingreq_send_set = false })
    else c

pub cancel_pingreq_recv : Connection → Connection
unfolding emit
cancel_pingreq_recv c =
    if c.pingreq_recv_set
    then emit (request_timer_cancel pingreq_recv) (record c { pingreq_recv_set = false })
    else c

pub cancel_pingresp_recv : Connection → Connection
unfolding emit
cancel_pingresp_recv c =
    if c.pingresp_recv_set
    then emit (request_timer_cancel pingresp_recv) (record c { pingresp_recv_set = false })
    else c

pub cancel_timers : Connection → Connection
unfolding cancel_pingreq_send cancel_pingreq_recv cancel_pingresp_recv
cancel_timers c = cancel_pingresp_recv (cancel_pingreq_recv (cancel_pingreq_send c))

-- An identifier in use is released, and the user hears of it.
pub release_packet_id : ℕ → Connection → Option Connection
unfolding emit
release_packet_id packet_id c =
    if PacketId.is_used_id c.pid_man packet_id
    then elim (PacketId.release_id c.pid_man packet_id) [
      | none ↦ none
      | some m ↦ some (emit (notify_packet_id_released packet_id) (record c { pid_man = m }))
    ]
    else some c

-- `for packet_id in set.drain()`.
pub release_all : List ℕ → Connection → Option Connection
unfolding and_then release_packet_id
release_all [] c = some c
release_all (packet_id ∷ ids) c =
    and_then (release_packet_id packet_id c) (λ c₁. release_all ids c₁)

pub initialize : Bool → Connection → Connection
initialize is_client c = record c {
  publish_send_max = none;
  publish_recv_max = none;
  publish_send_count = 0;
  topic_alias_send = none;
  topic_alias_recv = none;
  publish_recv = [];
  need_store = false;
  pid_suback = [];
  pid_unsuback = [];
  is_client = is_client;
  pingreq_keep_alive_ms = 0;
  pingreq_server_keep_alive_ms = none;
}

pub clear_store_related : Connection → Connection
clear_store_related c = record c {
  pid_man = PacketId.clear c.pid_man;
  pid_puback = [];
  pid_pubrec = [];
  pid_pubcomp = [];
  store = Store.clear c.store;
}

pub get_topic_alias_from_props : List Property → Option ℕ
get_topic_alias_from_props [] = none
get_topic_alias_from_props (topic_alias val ∷ props) = some val
get_topic_alias_from_props (p ∷ props) = get_topic_alias_from_props props

-- The early return of a handler outside the status Connected.
pub when_connected : Connection → Connection → Connection
unfolding is_connected refuse
when_connected c sent = if is_connected c then sent else refuse packet_not_allowed_to_send c

-- The early return of a handler of version 5.0 on a packet that is too large for the peer.
pub when_size_allowed : ℕ → Connection → Connection → Connection
unfolding validate_maximum_packet_size_send refuse
when_size_allowed size c sent =
    if validate_maximum_packet_size_send c size then sent else refuse packet_too_large c
