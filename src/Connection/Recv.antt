-- ===== src/Connection/Recv.antt =====
-- connection/core.rs: the `process_recv_…` of acknowledgements, requests and pings. Parsing is not
-- part of this file: a handler takes what `parse` returned, a packet or an error.
pub mod Session
pub mod Quota
pub mod Publish
use mqtt_protocol_core.Common.{
  ℕ, Bool, true, false, Option, none, some, ltb, ◌&&◌, ◌||◌, ◌-◌, not, if◌then◌else◌,
}
use mqtt_protocol_core.Common.Maps.{set_remove, set_contains}
use mqtt_protocol_core.Packet.{
  GenericPacket, ResponsePacket, WithId, Plain, Pubrec5, Pubcomp5, Disconnect5, Role, Connect,
}
use mqtt_protocol_core.Packet
use mqtt_protocol_core.ResultCode.{
  MqttError, PubrecReasonCode, PubcompReasonCode, DisconnectReasonCode, disconnect_from_error,
  mqtt_error_from_disconnect, protocol_error,
}
use mqtt_protocol_core.ResultCode.{Result, ok, err}
use mqtt_protocol_core.Store
use mqtt_protocol_core.Connection.{
  Connection, is_connected, emit, and_then, release_packet_id, notify_packet_received, notify_error,
  request_close, request_timer_cancel, refresh_pingreq_recv, cancel_timers, cancel_pingresp_recv,
  pingresp_recv,
}
use mqtt_protocol_core.Connection.Send.{
  process_send_v3_1_1_pubcomp, process_send_v5_0_pubcomp, process_send_v3_1_1_pingresp,
  process_send_v5_0_pingresp,
}
use mqtt_protocol_core.Connection.Session.{
  process_send_v3_1_1_pubrel, process_send_v5_0_pubrel, process_send_v5_0_disconnect,
}

-- The result of `parse`.
abbrev pub Parsed : Type 0 → Type 0
Parsed A = Result A

pub handle_v3_1_1_error : MqttError → Connection → Connection
unfolding emit
handle_v3_1_1_error e c = emit (notify_error e) (emit request_close c)

-- A DISCONNECT that carries a reason code alone has three bytes.
abbrev pub disconnect_with : DisconnectReasonCode → Disconnect5
disconnect_with code = record { reason_code = some code; size = 3 }

pub handle_v5_0_error : MqttError → Connection → Connection
unfolding emit process_send_v5_0_disconnect
handle_v5_0_error e c =
    emit (notify_error e)
      (process_send_v5_0_disconnect (disconnect_with (disconnect_from_error e)) c)

-- The end of a handler that accepts the packet.
unfoldable pub accept : GenericPacket → Connection → Connection
unfolding emit refresh_pingreq_recv
accept packet c = emit (notify_packet_received packet) (refresh_pingreq_recv c)

-- `store.erase`; `none` is its panic.
erase_stored : ResponsePacket → ℕ → Connection → Option Connection
erase_stored response packet_id c = elim (Store.erase c.store response packet_id) [
  | none ↦ none
  | some (erased, s) ↦ some (record c { store = s })
]

-- `publish_send_count -= 1` where a maximum is set. At zero a build with overflow checks panics, and one
-- without them goes on with the largest number of 16 bits.
pub count_down : Bool → Connection → Option Connection
count_down overflow_checks c = elim c.publish_send_max [
  | none ↦ some c
  | some max ↦
      if ltb 0 c.publish_send_count
      then some (record c { publish_send_count = c.publish_send_count - 1 })
      else if overflow_checks
      then none
      else some (record c { publish_send_count = 65535 })
]

take_puback : ℕ → Connection → Connection
unfolding set_remove
take_puback packet_id c = record c { pid_puback = set_remove packet_id c.pid_puback }

take_pubrec : ℕ → Connection → Connection
unfolding set_remove
take_pubrec packet_id c = record c { pid_pubrec = set_remove packet_id c.pid_pubrec }

take_pubcomp : ℕ → Connection → Connection
unfolding set_remove
take_pubcomp packet_id c = record c { pid_pubcomp = set_remove packet_id c.pid_pubcomp }

pub process_recv_v3_1_1_puback : Parsed WithId → Connection → Option Connection
unfolding set_contains handle_v3_1_1_error erase_stored take_puback and_then release_packet_id
    accept
process_recv_v3_1_1_puback (err e) c = some (handle_v3_1_1_error e c)
process_recv_v3_1_1_puback (ok packet) c =
    if set_contains packet.packet_id c.pid_puback
    then and_then
        (erase_stored ResponsePacket.v3_1_1_puback packet.packet_id
          (take_puback packet.packet_id c))
        (λ c₁.
          and_then (release_packet_id packet.packet_id c₁)
            (λ c₂. some (accept (GenericPacket.v3_1_1_puback packet) c₂)))
    else some (handle_v3_1_1_error MqttError.protocol_error c)

unfoldable pub process_recv_v5_0_puback : Bool → Parsed WithId → Connection → Option Connection
unfolding set_contains handle_v5_0_error erase_stored take_puback and_then release_packet_id
    count_down accept
process_recv_v5_0_puback overflow_checks (err e) c = some (handle_v5_0_error e c)
process_recv_v5_0_puback overflow_checks (ok packet) c =
    if set_contains packet.packet_id c.pid_puback
    then and_then
        (erase_stored ResponsePacket.v5_0_puback packet.packet_id (take_puback packet.packet_id c))
        (λ c₁. and_then (release_packet_id packet.packet_id c₁) (λ c₂.
          and_then (count_down overflow_checks c₂)
            (λ c₃. some (accept (GenericPacket.v5_0_puback packet) c₃))))
    else some (handle_v5_0_error MqttError.protocol_error c)

-- The automatic PUBREL; with an identifier alone it has four bytes.
auto_pubrel : (WithId → Connection → Option Connection) → ℕ → Connection → Option Connection
unfolding is_connected
auto_pubrel send packet_id c =
    if c.auto_pub_response && is_connected c
    then send (record { packet_id = packet_id; size = 4 }) c
    else some c

pub process_recv_v3_1_1_pubrec : Parsed WithId → Connection → Option Connection
unfolding set_contains handle_v3_1_1_error erase_stored take_pubrec and_then auto_pubrel accept
process_recv_v3_1_1_pubrec (err e) c = some (handle_v3_1_1_error e c)
process_recv_v3_1_1_pubrec (ok packet) c =
    if set_contains packet.packet_id c.pid_pubrec
    then and_then
        (erase_stored ResponsePacket.v3_1_1_pubrec packet.packet_id
          (take_pubrec packet.packet_id c))
        (λ c₁.
          and_then (auto_pubrel process_send_v3_1_1_pubrel packet.packet_id c₁)
            (λ c₂. some (accept (GenericPacket.v3_1_1_pubrec packet) c₂)))
    else some (handle_v3_1_1_error MqttError.protocol_error c)

-- No reason code, or success: the delivery goes on; else it ends here.
pub is_pubrec_success : Option PubrecReasonCode → Bool
is_pubrec_success none = true
is_pubrec_success (some PubrecReasonCode.success) = true
is_pubrec_success (some code) = false

answer_pubrec : Bool → Pubrec5 → Connection → Option Connection
unfolding is_pubrec_success auto_pubrel and_then release_packet_id count_down
answer_pubrec overflow_checks packet c =
    if is_pubrec_success packet.reason_code
    then auto_pubrel process_send_v5_0_pubrel packet.packet_id c
    else and_then (release_packet_id packet.packet_id c) (λ c₁. count_down overflow_checks c₁)

pub process_recv_v5_0_pubrec : Bool → Parsed Pubrec5 → Connection → Option Connection
unfolding set_contains handle_v5_0_error erase_stored take_pubrec and_then answer_pubrec accept
process_recv_v5_0_pubrec overflow_checks (err e) c = some (handle_v5_0_error e c)
process_recv_v5_0_pubrec overflow_checks (ok packet) c =
    if set_contains packet.packet_id c.pid_pubrec
    then and_then
        (erase_stored ResponsePacket.v5_0_pubrec packet.packet_id (take_pubrec packet.packet_id c))
        (λ c₁.
          and_then (answer_pubrec overflow_checks packet c₁)
            (λ c₂. some (accept (GenericPacket.v5_0_pubrec packet) c₂)))
    else some (handle_v5_0_error (mqtt_error_from_disconnect DisconnectReasonCode.protocol_error) c)

handled : ℕ → Connection → Connection
unfolding set_remove
handled packet_id c = record c {
  qos2_publish_handled = set_remove packet_id c.qos2_publish_handled;
}

pub process_recv_v3_1_1_pubrel : Parsed WithId → Connection → Connection
unfolding handle_v3_1_1_error handled is_connected accept
process_recv_v3_1_1_pubrel (err e) c = handle_v3_1_1_error e c
process_recv_v3_1_1_pubrel (ok packet) c =
    let c₁ = handled packet.packet_id c in
    accept (GenericPacket.v3_1_1_pubrel packet) (
      if c₁.auto_pub_response && is_connected c₁
      then process_send_v3_1_1_pubcomp (record { packet_id = packet.packet_id; size = 4 }) c₁
      else c₁)

-- The automatic PUBCOMP: four bytes, or five with a reason code.
auto_pubcomp : ℕ → Bool → Pubcomp5
auto_pubcomp packet_id true = record { packet_id = packet_id; reason_code = none; size = 4 }
auto_pubcomp packet_id false = record {
  packet_id = packet_id;
  reason_code = some PubcompReasonCode.packet_identifier_not_found;
  size = 5;
}

pub process_recv_v5_0_pubrel : Parsed WithId → Connection → Connection
unfolding handle_v5_0_error handled set_contains is_connected auto_pubcomp accept
process_recv_v5_0_pubrel (err e) c = handle_v5_0_error e c
process_recv_v5_0_pubrel (ok packet) c =
    let removed = set_contains packet.packet_id c.qos2_publish_handled in
    let c₁ = handled packet.packet_id c in
    accept (GenericPacket.v5_0_pubrel packet) (
      if c₁.auto_pub_response && is_connected c₁
      then process_send_v5_0_pubcomp (auto_pubcomp packet.packet_id removed) c₁
      else c₁)

pub process_recv_v3_1_1_pubcomp : Parsed WithId → Connection → Option Connection
unfolding set_contains handle_v3_1_1_error erase_stored take_pubcomp and_then release_packet_id
    accept
process_recv_v3_1_1_pubcomp (err e) c = some (handle_v3_1_1_error e c)
process_recv_v3_1_1_pubcomp (ok packet) c =
    if set_contains packet.packet_id c.pid_pubcomp
    then and_then
        (erase_stored ResponsePacket.v3_1_1_pubcomp packet.packet_id
          (take_pubcomp packet.packet_id c))
        (λ c₁.
          and_then (release_packet_id packet.packet_id c₁)
            (λ c₂. some (accept (GenericPacket.v3_1_1_pubcomp packet) c₂)))
    else some (handle_v3_1_1_error MqttError.protocol_error c)

pub process_recv_v5_0_pubcomp : Bool → Parsed Pubcomp5 → Connection → Option Connection
unfolding set_contains handle_v5_0_error erase_stored take_pubcomp and_then release_packet_id
    count_down accept
process_recv_v5_0_pubcomp overflow_checks (err e) c = some (handle_v5_0_error e c)
process_recv_v5_0_pubcomp overflow_checks (ok packet) c =
    if set_contains packet.packet_id c.pid_pubcomp
    then and_then
        (erase_stored ResponsePacket.v5_0_pubcomp packet.packet_id
          (take_pubcomp packet.packet_id c))
        (λ c₁. and_then (release_packet_id packet.packet_id c₁) (λ c₂.
          and_then (count_down overflow_checks c₂)
            (λ c₃. some (accept (GenericPacket.v5_0_pubcomp packet) c₃))))
    else some (handle_v5_0_error MqttError.protocol_error c)
