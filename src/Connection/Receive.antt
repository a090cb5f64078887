-- ===== src/Connection/Receive.antt =====
-- connection/core.rs: `recv`, from the bytes to the handler of the packet. The `parse` functions of the
-- packets are a parameter.
use mqtt_protocol_core.Common.{
  ℕ, ◌/◌, ◌%◌, Bool, true, false, not, List, Option, none, some, ltb, ◌==◌, ◌&&◌, ◌||◌, length,
  drop, first, if◌then◌else◌,
}
use mqtt_protocol_core.Packet.{
  Version, Role, Connect, Connack311, Connack5, Publish, WithId, Plain, Pubrec5, Pubcomp5,
  Disconnect5,
}
use mqtt_protocol_core.Builder.{normal, publish, RawPacket, complete, incomplete, error, feed}
use mqtt_protocol_core.ResultCode.{
  MqttError, DisconnectReasonCode, packet_too_large, protocol_error, malformed_packet,
  unsupported_protocol_version,
}
use mqtt_protocol_core.Connection.{
  Connection, emit, notify_error, request_close, cancel_timers, remaining_length_to_total_size,
}
use mqtt_protocol_core.Connection.Session.{process_send_v5_0_disconnect}
use mqtt_protocol_core.Connection.Accept.{process_recv_v3_1_1_connect, process_recv_v5_0_connect}
use mqtt_protocol_core.Connection.Connack.{process_recv_v3_1_1_connack, process_recv_v5_0_connack}
use mqtt_protocol_core.Connection.Dispatch.{version_eq}
use mqtt_protocol_core.Connection.Recv.Publish.{
  process_recv_v3_1_1_publish, process_recv_v5_0_publish,
}
use mqtt_protocol_core.Connection.Recv.{
  Parsed, disconnect_with, process_recv_v3_1_1_puback, process_recv_v5_0_puback,
  process_recv_v3_1_1_pubrec, process_recv_v5_0_pubrec, process_recv_v3_1_1_pubrel,
  process_recv_v5_0_pubrel, process_recv_v3_1_1_pubcomp, process_recv_v5_0_pubcomp,
}
use mqtt_protocol_core.Connection.Recv.Session.{
  process_recv_v3_1_1_subscribe, process_recv_v5_0_subscribe, process_recv_v3_1_1_suback,
  process_recv_v5_0_suback, process_recv_v3_1_1_unsubscribe, process_recv_v5_0_unsubscribe,
  process_recv_v3_1_1_unsuback, process_recv_v5_0_unsuback, process_recv_v3_1_1_pingreq,
  process_recv_v5_0_pingreq, process_recv_v3_1_1_pingresp, process_recv_v5_0_pingresp,
  process_recv_v3_1_1_disconnect, process_recv_v5_0_disconnect, process_recv_v5_0_auth,
}

-- The `parse` functions. That of PUBLISH takes the flags of the fixed header too.
pub record Parsers : Type 0 where
  pub v3_1_1_connect : List ℕ → Parsed Connect
  pub v3_1_1_connack : List ℕ → Parsed Connack311
  pub v3_1_1_publish : ℕ → List ℕ → Parsed Publish
  pub v3_1_1_puback : List ℕ → Parsed WithId
  pub v3_1_1_pubrec : List ℕ → Parsed WithId
  pub v3_1_1_pubrel : List ℕ → Parsed WithId
  pub v3_1_1_pubcomp : List ℕ → Parsed WithId
  pub v3_1_1_subscribe : List ℕ → Parsed WithId
  pub v3_1_1_suback : List ℕ → Parsed WithId
  pub v3_1_1_unsubscribe : List ℕ → Parsed WithId
  pub v3_1_1_unsuback : List ℕ → Parsed WithId
  pub v3_1_1_pingreq : List ℕ → Parsed Plain
  pub v3_1_1_pingresp : List ℕ → Parsed Plain
  pub v3_1_1_disconnect : List ℕ → Parsed Plain
  pub v5_0_connect : List ℕ → Parsed Connect
  pub v5_0_connack : List ℕ → Parsed Connack5
  pub v5_0_publish : ℕ → List ℕ → Parsed Publish
  pub v5_0_puback : List ℕ → Parsed WithId
  pub v5_0_pubrec : List ℕ → Parsed Pubrec5
  pub v5_0_pubrel : List ℕ → Parsed WithId
  pub v5_0_pubcomp : List ℕ → Parsed Pubcomp5
  pub v5_0_subscribe : List ℕ → Parsed WithId
  pub v5_0_suback : List ℕ → Parsed WithId
  pub v5_0_unsubscribe : List ℕ → Parsed WithId
  pub v5_0_unsuback : List ℕ → Parsed WithId
  pub v5_0_pingreq : List ℕ → Parsed Plain
  pub v5_0_pingresp : List ℕ → Parsed Plain
  pub v5_0_disconnect : List ℕ → Parsed Disconnect5
  pub v5_0_auth : List ℕ → Parsed Plain

unfoldable pub data_as_slice : RawPacket → List ℕ
data_as_slice r = elim r.data_bytes [ normal d ↦ d | publish d ↦ d ]

pub packet_type : RawPacket → ℕ
packet_type r = r.fixed_header / 16

pub flags : RawPacket → ℕ
flags r = r.fixed_header % 16

pub remaining_length : RawPacket → ℕ
unfolding data_as_slice
remaining_length r = length (data_as_slice r)

pub is_client_role : Role → Bool
is_client_role Role.client = true
is_client_role role = false

pub is_server_role : Role → Bool
is_server_role Role.server = true
is_server_role role = false

pub can_receive : Role → Version → ℕ → Bool
unfolding is_client_role is_server_role version_eq
can_receive role version t = not (
    (is_client_role role
      && (t == 1
          || t == 8
          || t == 10
          || t == 12
          || (t == 14 && version_eq version Version.v3_1_1)
          || (t == 15 && version_eq version Version.v3_1_1)))
    || (is_server_role role
        && (t == 2
            || t == 9
            || t == 11
            || t == 13
            || (t == 15 && version_eq version Version.v3_1_1))))

-- The data of a PUBLISH; `none` is `unreachable!`.
publish_data : RawPacket → Option (List ℕ)
publish_data r = elim r.data_bytes [ normal d ↦ none | publish d ↦ some d ]

report : MqttError → Connection → Option Connection
unfolding emit
report e c = some (emit (notify_error e) c)

-- `overflow_checks` says how the program is built: it decides over an arithmetic overflow.
module _ (parse : Parsers) (role : Role) (overflow_checks : Bool) where
  -- The `match` on the packet type in version 3.1.1.
  pub process_v3_1_1_packet : RawPacket → Connection → Option Connection
  unfolding packet_type data_as_slice flags publish_data report
  process_v3_1_1_packet r c =
      let t = packet_type r in
      let bytes = data_as_slice r in
      if t == 1
      then process_recv_v3_1_1_connect (parse.v3_1_1_connect bytes) c
      else if t == 2
      then process_recv_v3_1_1_connack (parse.v3_1_1_connack bytes) c
      else if t == 3
      then (elim (publish_data r) [
        | none ↦ none
        | some d ↦ process_recv_v3_1_1_publish (parse.v3_1_1_publish (flags r) d) c
      ])
      else if t == 4
      then process_recv_v3_1_1_puback (parse.v3_1_1_puback bytes) c
      else if t == 5
      then process_recv_v3_1_1_pubrec (parse.v3_1_1_pubrec bytes) c
      else if t == 6
      then some (process_recv_v3_1_1_pubrel (parse.v3_1_1_pubrel bytes) c)
      else if t == 7
      then process_recv_v3_1_1_pubcomp (parse.v3_1_1_pubcomp bytes) c
      else if t == 8
      then some (process_recv_v3_1_1_subscribe (parse.v3_1_1_subscribe bytes) c)
      else if t == 9
      then process_recv_v3_1_1_suback (parse.v3_1_1_suback bytes) c
      else if t == 10
      then some (process_recv_v3_1_1_unsubscribe (parse.v3_1_1_unsubscribe bytes) c)
      else if t == 11
      then process_recv_v3_1_1_unsuback (parse.v3_1_1_unsuback bytes) c
      else if t == 12
      then some (process_recv_v3_1_1_pingreq role (parse.v3_1_1_pingreq bytes) c)
      else if t == 13
      then some (process_recv_v3_1_1_pingresp (parse.v3_1_1_pingresp bytes) c)
      else if t == 14
      then some (process_recv_v3_1_1_disconnect (parse.v3_1_1_disconnect bytes) c)
      else report malformed_packet c

  -- The `match` on the packet type in version 5.0.
  pub process_v5_0_packet : RawPacket → Connection → Option Connection
  unfolding packet_type data_as_slice flags publish_data report
  process_v5_0_packet r c =
      let t = packet_type r in
      let bytes = data_as_slice r in
      if t == 1
      then process_recv_v5_0_connect (parse.v5_0_connect bytes) c
      else if t == 2
      then process_recv_v5_0_connack (parse.v5_0_connack bytes) c
      else if t == 3
      then (elim (publish_data r) [
        | none ↦ none
        | some d ↦ process_recv_v5_0_publish (parse.v5_0_publish (flags r) d) c
      ])
      else if t == 4
      then process_recv_v5_0_puback overflow_checks (parse.v5_0_puback bytes) c
      else if t == 5
      then process_recv_v5_0_pubrec overflow_checks (parse.v5_0_pubrec bytes) c
      else if t == 6
      then some (process_recv_v5_0_pubrel (parse.v5_0_pubrel bytes) c)
      else if t == 7
      then process_recv_v5_0_pubcomp overflow_checks (parse.v5_0_pubcomp bytes) c
      else if t == 8
      then some (process_recv_v5_0_subscribe (parse.v5_0_subscribe bytes) c)
      else if t == 9
      then process_recv_v5_0_suback (parse.v5_0_suback bytes) c
      else if t == 10
      then some (process_recv_v5_0_unsubscribe (parse.v5_0_unsubscribe bytes) c)
      else if t == 11
      then process_recv_v5_0_unsuback (parse.v5_0_unsuback bytes) c
      else if t == 12
      then some (process_recv_v5_0_pingreq role (parse.v5_0_pingreq bytes) c)
      else if t == 13
      then some (process_recv_v5_0_pingresp (parse.v5_0_pingresp bytes) c)
      else if t == 14
      then some (process_recv_v5_0_disconnect (parse.v5_0_disconnect bytes) c)
      else if t == 15
      then some (process_recv_v5_0_auth (parse.v5_0_auth bytes) c)
      else report malformed_packet c

  -- A first packet: the version is in the byte behind the protocol name.
  detect_version : RawPacket → Connection → Option Connection
  unfolding packet_type remaining_length data_as_slice report
  detect_version r c =
      if packet_type r == 1
      then if ltb (remaining_length r) 7
        then report malformed_packet c
        else elim (first (drop 6 (data_as_slice r))) [
          | none ↦ none
          | some level ↦
              if level == 4
              then process_recv_v3_1_1_connect (parse.v3_1_1_connect (data_as_slice r))
                  (record c { protocol_version = Version.v3_1_1 })
              else if level == 5
              then process_recv_v5_0_connect (parse.v5_0_connect (data_as_slice r))
                  (record c { protocol_version = Version.v5_0 })
              else report unsupported_protocol_version c
        ]
      else report malformed_packet c

  pub process_recv_packet : RawPacket → Connection → Option Connection
  unfolding remaining_length packet_type emit report can_receive process_v3_1_1_packet
      process_v5_0_packet detect_version
  process_recv_packet r c =
      if ltb c.maximum_packet_size_recv (remaining_length_to_total_size (remaining_length r))
      then some (
          emit (notify_error packet_too_large) (
            process_send_v5_0_disconnect (disconnect_with DisconnectReasonCode.packet_too_large) c))
      else if can_receive role c.protocol_version (packet_type r)
      then elim c.protocol_version [
        | Version.v3_1_1 ↦ process_v3_1_1_packet r c
        | Version.v5_0 ↦ process_v5_0_packet r c
        | Version.undetermined ↦ detect_version r c
      ]
      else report protocol_error c

  -- The connection, and the bytes that are left in the cursor; `none` is a panic.
  pub recv : List ℕ → Connection → Option (Connection × List ℕ)
  unfolding process_recv_packet cancel_timers emit
  recv bytes c = elim (feed c.packet_builder bytes) [
    | none ↦ none
    | some (built, b, left) ↦
        (let c₁ : Connection = record c { packet_builder = b } in
          elim built [
            | incomplete ↦ some (c₁, left)
            | error e ↦ some (emit (notify_error e) (emit request_close (cancel_timers c₁)), left)
            | complete raw_packet ↦ elim (process_recv_packet raw_packet c₁) [
              | none ↦ none
              | some c₂ ↦ some (c₂, left)
            ]
          ])
  ]
