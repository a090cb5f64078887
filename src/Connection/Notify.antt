-- ===== src/Connection/Notify.antt =====
-- connection/core.rs: the user's settings, the timers that fire, and the end of a connection.
-- `unreachable!` is `none`.
pub mod Closing
use mqtt_protocol_core.Common.{
  ℕ, ◌-◌, Bool, true, false, List, Option, none, some, ltb, [], if◌then◌else◌,
}
use mqtt_protocol_core.Packet.{Plain, Version}
use mqtt_protocol_core.Packet
use mqtt_protocol_core.ResultCode.{DisconnectReasonCode, Result}
use mqtt_protocol_core.PacketId.{acquire_unique_id, register_id}
use mqtt_protocol_core.Connection.{
  Connection, TimerKind, is_connected, emit, and_then, request_timer_reset, request_close,
  disconnected, cancel_timers, cancel_pingreq_send, release_all, mqtt_packet_size_no_limit,
  pingreq_send,
}
use mqtt_protocol_core.Connection.Session.{
  process_send_v3_1_1_pingreq, process_send_v5_0_pingreq, process_send_v5_0_disconnect,
}
use mqtt_protocol_core.Connection.Recv.{disconnect_with}

-- A PINGREQ has two bytes.
fire_pingreq_send : Connection → Option Connection
unfolding is_connected
fire_pingreq_send c =
    if is_connected c
    then elim c.protocol_version [
      | Version.v3_1_1 ↦ some (process_send_v3_1_1_pingreq (record { size = 2 }) c)
      | Version.v5_0 ↦ some (process_send_v5_0_pingreq (record { size = 2 }) c)
      | Version.undetermined ↦ none
    ]
    else some c

-- The peer has been silent too long, or has not answered.
keep_alive_timeout : Connection → Option Connection
unfolding emit is_connected process_send_v5_0_disconnect
keep_alive_timeout c = elim c.protocol_version [
  | Version.v3_1_1 ↦ some (emit request_close c)
  | Version.v5_0 ↦ some (
      if is_connected c
      then process_send_v5_0_disconnect (disconnect_with DisconnectReasonCode.keep_alive_timeout) c
      else c)
  | Version.undetermined ↦ none
]

pub notify_timer_fired : TimerKind → Connection → Option Connection
unfolding fire_pingreq_send keep_alive_timeout
notify_timer_fired TimerKind.pingreq_send c =
    fire_pingreq_send (record c { pingreq_send_set = false })
notify_timer_fired TimerKind.pingreq_recv c =
    keep_alive_timeout (record c { pingreq_recv_set = false })
notify_timer_fired TimerKind.pingresp_recv c =
    keep_alive_timeout (record c { pingresp_recv_set = false })

-- The resets at the beginning of `notify_closed`.
reset_connection : Connection → Connection
reset_connection c = record c {
  maximum_packet_size_send = mqtt_packet_size_no_limit;
  maximum_packet_size_recv = mqtt_packet_size_no_limit;
  status = disconnected;
  topic_alias_send = none;
  topic_alias_recv = none;
}

-- The identifiers that a connection without a session gives back.
release_publish_ids : Connection → Option Connection
unfolding and_then release_all
release_publish_ids c =
    and_then (release_all c.pid_puback (record c { qos2_publish_handled = []; pid_puback = [] }))
      (λ c₁.
        and_then (release_all c₁.pid_pubrec (record c₁ { pid_pubrec = [] }))
          (λ c₂. release_all c₂.pid_pubcomp (record c₂ { pid_pubcomp = [] })))

pub notify_closed : Connection → Option Connection
unfolding reset_connection and_then release_all release_publish_ids cancel_timers
notify_closed c =
    let c₀ = reset_connection c in
    and_then (release_all c₀.pid_suback (record c₀ { pid_suback = [] })) (λ c₁.
      and_then (release_all c₁.pid_unsuback (record c₁ { pid_unsuback = [] })) (λ c₂.
        and_then (if c₂.need_store then some c₂ else release_publish_ids c₂)
          (λ c₃. some (cancel_timers c₃))))

pub set_pingreq_send_interval : Option ℕ → Connection → Connection
unfolding cancel_pingreq_send is_connected emit
set_pingreq_send_interval none c = record c { pingreq_user_send_interval_ms = none }
set_pingreq_send_interval (some ms) c =
    let c₁ : Connection = record c { pingreq_user_send_interval_ms = some ms } in
    if ltb 0 ms
    then if is_connected c₁
      then emit (request_timer_reset pingreq_send ms) (record c₁ { pingreq_send_set = true })
      else c₁
    else cancel_pingreq_send c₁

-- `max.saturating_sub(count)`.
pub get_receive_maximum_vacancy_for_send : Connection → Option ℕ
get_receive_maximum_vacancy_for_send c = elim c.publish_send_max [
  | none ↦ none
  | some max ↦ some (max - c.publish_send_count)
]

pub set_offline_publish : Bool → Connection → Connection
set_offline_publish enable c =
    if enable
    then record c { offline_publish = true; need_store = true }
    else record c { offline_publish = false }

pub acquire_packet_id : Connection → Result ℕ × Connection
acquire_packet_id c =
    let (result, m) = acquire_unique_id c.pid_man in
    let c₁ : Connection = record c { pid_man = m } in (result, c₁)

pub register_packet_id : ℕ → Connection → Result (Unit {0}) × Connection
register_packet_id packet_id c =
    let (result, m) = register_id c.pid_man packet_id in
    let c₁ : Connection = record c { pid_man = m } in (result, c₁)

pub set_auto_pub_response : Bool → Connection → Connection
set_auto_pub_response enable c = record c { auto_pub_response = enable }

pub set_auto_ping_response : Bool → Connection → Connection
set_auto_ping_response enable c = record c { auto_ping_response = enable }

pub set_auto_map_topic_alias_send : Bool → Connection → Connection
set_auto_map_topic_alias_send enable c = record c { auto_map_topic_alias_send = enable }

pub set_auto_replace_topic_alias_send : Bool → Connection → Connection
set_auto_replace_topic_alias_send enable c = record c { auto_replace_topic_alias_send = enable }

pub set_pingresp_recv_timeout : ℕ → Connection → Connection
set_pingresp_recv_timeout timeout_ms c = record c { pingresp_recv_timeout_ms = timeout_ms }

pub get_qos2_publish_handled : Connection → List ℕ
get_qos2_publish_handled c = c.qos2_publish_handled

pub restore_qos2_publish_handled : List ℕ → Connection → Connection
restore_qos2_publish_handled pids c = record c { qos2_publish_handled = pids }

pub get_protocol_version : Connection → Version
get_protocol_version c = c.protocol_version
