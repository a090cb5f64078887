-- ===== src/Connection/Session/Quota.antt =====
-- connection/core.rs: sending a PUBREL or a DISCONNECT does not touch the count of packets on their way.
use mqtt_protocol_core.Common.{ℕ, ◌≡◌, refl, none, some, arith, Option-cases, inl, inr}
use mqtt_protocol_core.Common.{if◌then◌else◌}
use mqtt_protocol_core.Common.Maps.{set_insert}
use mqtt_protocol_core.Packet.{GenericPacket, GenericStorePacket, WithId, Disconnect5}
use mqtt_protocol_core.ResultCode.{
  packet_not_allowed_to_send, packet_identifier_invalid, packet_too_large,
}
use mqtt_protocol_core.Connection.{
  Connection, pingreq_send, pingreq_recv, pingresp_recv, send_post_process, request_timer_cancel,
  request_send_packet, request_close, emit, refuse, and_then, cancel_pingreq_send,
  cancel_pingreq_recv, cancel_pingresp_recv, cancel_timers, is_connected,
  validate_maximum_packet_size_send, disconnected,
}
use mqtt_protocol_core.Connection.Quota.{
  one_sent, one_answered, sent, answered, tally-append, SameQuota, trans-SameQuota, if-SameQuota,
  emit-SameQuota, refuse-SameQuota, send_post_process-SameQuota,
}
use mqtt_protocol_core.Connection.Session.{
  process_send_v5_0_disconnect, process_send_v5_0_pubrel, store_pubrel, deliver_pubrel, send_pubrel,
}

cancel_pingreq_send-SameQuota : (c : Connection) → SameQuota c (cancel_pingreq_send c)
unfolding cancel_pingreq_send sent answered
cancel_pingreq_send-SameQuota c =
    ground (arith, tally-append c.events (request_timer_cancel pingreq_send))

cancel_pingreq_recv-SameQuota : (c : Connection) → SameQuota c (cancel_pingreq_recv c)
unfolding cancel_pingreq_recv sent answered
cancel_pingreq_recv-SameQuota c =
    ground (arith, tally-append c.events (request_timer_cancel pingreq_recv))

cancel_pingresp_recv-SameQuota : (c : Connection) → SameQuota c (cancel_pingresp_recv c)
unfolding cancel_pingresp_recv sent answered
cancel_pingresp_recv-SameQuota c =
    ground (arith, tally-append c.events (request_timer_cancel pingresp_recv))

cancel_timers-SameQuota : (c : Connection) → SameQuota c (cancel_timers c)
unfolding cancel_timers
cancel_timers-SameQuota c =
    let c₁ = cancel_pingreq_send c in
    let c₂ = cancel_pingreq_recv c₁ in
    trans-SameQuota c c₁ (cancel_pingresp_recv c₂) (cancel_pingreq_send-SameQuota c) (
      trans-SameQuota c₁ c₂ (cancel_pingresp_recv c₂) (cancel_pingreq_recv-SameQuota c₁)
        (cancel_pingresp_recv-SameQuota c₂))

pub process_send_v5_0_disconnect-SameQuota :
    (p : Disconnect5) (c : Connection) → SameQuota c (process_send_v5_0_disconnect p c)
unfolding process_send_v5_0_disconnect one_sent one_answered
process_send_v5_0_disconnect-SameQuota p c =
    let sending = request_send_packet (GenericPacket.v5_0_disconnect p) none in
    let c₁ : Connection = cancel_timers (record c { status = disconnected }) in
    let refused = refuse packet_not_allowed_to_send c in
    let left = emit request_close (emit sending c₁) in
    if-SameQuota (validate_maximum_packet_size_send c p.size) c
      (if is_connected c then left else refused) (refuse packet_too_large c)
      (if-SameQuota (is_connected c) c left refused
        (emit-SameQuota request_close c (emit sending c₁) refl refl (
          emit-SameQuota sending c c₁ refl refl
            (cancel_timers-SameQuota (record c { status = disconnected }))))
        (refuse-SameQuota packet_not_allowed_to_send c))
      (refuse-SameQuota packet_too_large c)

store_pubrel-SameQuota :
    (p : GenericStorePacket) (c d : Connection) → store_pubrel p c ≡ some d → SameQuota c d
unfolding store_pubrel
store_pubrel-SameQuota p c d e = ground arith

deliver_pubrel-SameQuota :
    (id : ℕ) (p : WithId) (c : Connection)
    → SameQuota c (deliver_pubrel id (GenericPacket.v5_0_pubrel p) c)
unfolding deliver_pubrel one_sent one_answered
deliver_pubrel-SameQuota id p c =
    let sending = request_send_packet (GenericPacket.v5_0_pubrel p) none in
    let c₁ : Connection = record c { pid_pubcomp = set_insert id c.pid_pubcomp } in
    let c₂ = if is_connected c then emit sending c₁ else c in
    trans-SameQuota c c₂ (send_post_process c₂)
      (if-SameQuota (is_connected c) c (emit sending c₁) c
        (emit-SameQuota sending c c₁ refl refl (refl, refl, refl, refl)) (refl, refl, refl, refl))
      (send_post_process-SameQuota c₂)

pub process_send_v5_0_pubrel-SameQuota :
    (p : WithId) (c d : Connection) → process_send_v5_0_pubrel p c ≡ some d → SameQuota c d
unfolding process_send_v5_0_pubrel send_pubrel and_then
process_send_v5_0_pubrel-SameQuota p c d e =
    elim (Option-cases (store_pubrel (GenericStorePacket.v5_0_pubrel p) c)) [
      | inl n ↦ ground (
        arith,
        refuse-SameQuota packet_identifier_invalid c,
        refuse-SameQuota packet_not_allowed_to_send c,
        refuse-SameQuota packet_too_large c,
      )
      | inr (c₁, n) ↦ ground (
        arith,
        refuse-SameQuota packet_identifier_invalid c,
        refuse-SameQuota packet_not_allowed_to_send c,
        refuse-SameQuota packet_too_large c,
        store_pubrel-SameQuota (GenericStorePacket.v5_0_pubrel p) c c₁,
        deliver_pubrel-SameQuota p.packet_id p c₁,
      )
    ]
