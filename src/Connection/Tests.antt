-- ===== src/Connection/Tests.antt =====
-- The theorems on connection/core.rs at a client that is connected, waits for the SUBACK of 2 and the
-- PUBACK of 3, and has the timer for PINGREQ set.
use mqtt_protocol_core.Common.{
  ◌≡◌, ◌↔◌, refl, Bool, true, false, [], ◌∷◌, none, some, if◌then◌else◌, arith,
}
use mqtt_protocol_core.Common.{◌==◌, ℕ, List, ◌+◌, length}
use mqtt_protocol_core.Vbi.{from_u32}
use mqtt_protocol_core.Connection.Sizes.{remaining_length_to_total_size-from_u32}
use mqtt_protocol_core.Connection.{remaining_length_to_total_size}
use mqtt_protocol_core.Packet.{Version}
use mqtt_protocol_core.Builder
use mqtt_protocol_core.Allocator.Laws.{IsValid}
use mqtt_protocol_core.Connection.{
  Connection, TimerKind, connected, disconnected, mqtt_packet_size_no_limit, request_timer_reset,
  pingreq_send,
}
use mqtt_protocol_core.Connection.Timers.{Tracks, flag, runs, obey, same_kind}
use mqtt_protocol_core.Connection.Session.{process_send_v5_0_pingreq, process_send_v5_0_disconnect}
use mqtt_protocol_core.Connection.Session.Timers.{
  process_send_v5_0_pingreq-Tracks, process_send_v5_0_disconnect-Tracks,
}
use mqtt_protocol_core.Connection.Notify.{notify_closed}
use mqtt_protocol_core.Connection.Notify.Closing.{notify_closed-total}
use mqtt_protocol_core.Common.Maps.{set_contains}
use mqtt_protocol_core.Packet.{Publish, Connect, exactly_once}
use mqtt_protocol_core.ResultCode.{ok}
use mqtt_protocol_core.Wire.Property.{topic_alias_maximum}
use mqtt_protocol_core.Connection.{is_disconnected}
use mqtt_protocol_core.Connection.Recv.Publish.Zero.{is_answered, process_recv_v3_1_1_publish-none}
use mqtt_protocol_core.Connection.Recv.Publish.{process_recv_v3_1_1_publish}
use mqtt_protocol_core.Connection.Recv.Publish.Once.{
  received, receive_all, publish-received, receive_all-received,
}
use mqtt_protocol_core.Connection.Accept.{process_recv_v5_0_connect}
use mqtt_protocol_core.Connection.Accept.Refusal.{connect-zero}

abbrev online : Connection
online = record {
  protocol_version = Version.v5_0;
  pid_man = record {
    allocator = record { pool = record { low = 5; high = 9 } ∷ []; lowest = 1; highest = 9 };
  };
  pid_suback = 2 ∷ [];
  pid_unsuback = [];
  pid_puback = 3 ∷ [];
  pid_pubrec = [];
  pid_pubcomp = [];
  need_store = false;
  store = record { entries = [] };
  offline_publish = false;
  auto_pub_response = true;
  auto_ping_response = true;
  auto_map_topic_alias_send = false;
  auto_replace_topic_alias_send = false;
  topic_alias_recv = none;
  topic_alias_send = none;
  publish_send_max = none;
  publish_recv_max = none;
  publish_send_count = 0;
  publish_recv = [];
  maximum_packet_size_send = mqtt_packet_size_no_limit;
  maximum_packet_size_recv = mqtt_packet_size_no_limit;
  status = connected;
  pingreq_user_send_interval_ms = none;
  pingreq_keep_alive_ms = 10000;
  pingreq_server_keep_alive_ms = none;
  pingreq_recv_timeout_ms = 0;
  pingresp_recv_timeout_ms = 5000;
  qos2_publish_handled = [];
  pingreq_send_set = true;
  pingreq_recv_set = false;
  pingresp_recv_set = false;
  packet_builder = Builder.new;
  is_client = true;
  events = request_timer_reset pingreq_send 10000 ∷ [];
}

abbrev off : TimerKind → Bool
off k = false

online-Tracks : Tracks off online
unfolding Tracks flag runs obey same_kind
online-Tracks TimerKind.pingreq_send = refl
online-Tracks TimerKind.pingreq_recv = refl
online-Tracks TimerKind.pingresp_recv = refl

process_send_v5_0_pingreq-Tracks_example :
    Tracks off (process_send_v5_0_pingreq (record { size = 2 }) online)
process_send_v5_0_pingreq-Tracks_example =
    process_send_v5_0_pingreq-Tracks off online (record { size = 2 }) online-Tracks

process_send_v5_0_disconnect-Tracks_example :
    Tracks off (process_send_v5_0_disconnect (record { reason_code = none; size = 2 }) online)
process_send_v5_0_disconnect-Tracks_example =
    process_send_v5_0_disconnect-Tracks off online (record { reason_code = none; size = 2 })
      online-Tracks

online-IsValid : IsValid online.pid_man.allocator
online-IsValid = record { ordered = omega arith; separated = omega arith }

notify_closed-total_example :
    (c' : Connection) × (notify_closed online ≡ some c')
    × (c'.status ≡ disconnected)
    × (flag pingreq_send c' ≡ false)
    × (c'.pid_suback ≡ [])
    × (c'.pid_unsuback ≡ [])
    × (c'.store ≡ online.store)
    × (c'.pid_puback ≡ (if false then 3 ∷ [] else []))
    × IsValid c'.pid_man.allocator
notify_closed-total_example =
    notify_closed-total online 9 pingreq_send online-IsValid refl refl
      ((omega arith, omega arith), tt) tt ((omega arith, omega arith), tt) tt tt

remaining_length_to_total_size-from_u32_example :
    (encoded : List ℕ) × (from_u32 300 ≡ some (some encoded))
    × (remaining_length_to_total_size 300 ≡ 1 + length encoded + 300)
remaining_length_to_total_size-from_u32_example =
    remaining_length_to_total_size-from_u32 300 (omega arith)

abbrev released : Publish
released = record {
  packet_id = some 7;
  qos = exactly_once;
  dup = false;
  topic_name = 97 ∷ [];
  props = [];
  payload_len = 4;
  size = 11;
}

publish-received_example :
    (c' : Connection) × (process_recv_v3_1_1_publish (ok released) online ≡ some c')
    × (received c'.events
        ≡ received online.events + (if set_contains 7 online.qos2_publish_handled then 0 else 1))
    × (set_contains 8 c'.qos2_publish_handled
        ≡ (if 7 == 8 then true else set_contains 8 online.qos2_publish_handled))
publish-received_example = publish-received online released 7 8 refl refl (omega arith)

none_handled : set_contains 7 online.qos2_publish_handled ≡ false
unfolding set_contains
none_handled = refl

receive_all-received_example :
    (c' : Connection) × (receive_all (released ∷ released ∷ released ∷ []) online ≡ some c')
    × (received c'.events ≡ received online.events + 1)
receive_all-received_example =
    receive_all-received released (released ∷ released ∷ []) online 7 (refl, refl)
      ((refl, refl), ((refl, refl), tt)) none_handled (omega arith)

abbrev released_zero : Publish
released_zero = record released { packet_id = some 0 }

process_recv_v3_1_1_publish-none_example :
    (process_recv_v3_1_1_publish (ok released_zero) online ≡ none)
    ↔ (◌≡◌ {A = ℕ} 0 0 × (is_answered released_zero 0 online ≡ true))
process_recv_v3_1_1_publish-none_example =
    process_recv_v3_1_1_publish-none released_zero online 0 refl

abbrev zero_aliases : Connect
zero_aliases = record {
  keep_alive = 10;
  clean_start = true;
  props = topic_alias_maximum 0 ∷ [];
  size = 20;
}

abbrev offline : Connection
offline = record online { status = disconnected; is_client = false }

offline-disconnected : is_disconnected offline ≡ true
unfolding is_disconnected
offline-disconnected = refl

connect-zero_example : process_recv_v5_0_connect (ok zero_aliases) offline ≡ none
connect-zero_example = connect-zero offline zero_aliases [] [] offline-disconnected refl
