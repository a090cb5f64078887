-- ===== src/Connection/Session/Timers.antt =====
-- connection/core.rs: the timers while PINGREQ and DISCONNECT are sent.
use mqtt_protocol_core.Common.{ℕ, refl, Bool, true, ltb}
use mqtt_protocol_core.Packet.{GenericPacket, Plain, Disconnect5}
use mqtt_protocol_core.ResultCode.{packet_not_allowed_to_send, packet_too_large}
use mqtt_protocol_core.Connection.{
  Connection, TimerKind, GenericEvent, request_timer_reset, emit, refuse, pingresp_recv,
  disconnected, is_connected, validate_maximum_packet_size_send, when_connected, when_size_allowed,
}
use mqtt_protocol_core.Connection.Session.{
  start_pingresp_recv, leave, process_send_v5_0_pingreq, process_send_v5_0_disconnect,
}
use mqtt_protocol_core.Connection.Timers.{
  Tracks, flag, obey, if-Tracks, emit-Tracks, refuse-Tracks, request_send-Tracks,
  request_close-Tracks, cancel_timers-Tracks, send_post_process-Tracks,
}

module _ (start : TimerKind → Bool) (c : Connection) (t : Tracks start c) where
  start_pingresp_recv-Tracks : Tracks start (start_pingresp_recv c)
  unfolding start_pingresp_recv obey flag
  start_pingresp_recv-Tracks =
      if-Tracks start (ltb 0 c.pingresp_recv_timeout_ms) (emit e d) c
        (emit-Tracks start c d e t refl refl refl refl) t
    where
      e : GenericEvent
      e = request_timer_reset pingresp_recv c.pingresp_recv_timeout_ms

      d : Connection
      d = record c { pingresp_recv_set = true }

  leave-Tracks : (p : GenericPacket) → Tracks start (leave p c)
  unfolding leave Tracks flag
  leave-Tracks p = request_close-Tracks start _ (
      request_send-Tracks start _
        (cancel_timers-Tracks start (record c { status = disconnected }) d) p)
    where
      d : Tracks start (record c { status = disconnected })
      d TimerKind.pingreq_send = t TimerKind.pingreq_send
      d TimerKind.pingreq_recv = t TimerKind.pingreq_recv
      d TimerKind.pingresp_recv = t TimerKind.pingresp_recv

  when_connected-Tracks :
      (sent : Connection) → Tracks start sent → Tracks start (when_connected c sent)
  unfolding when_connected
  when_connected-Tracks sent u =
      if-Tracks start (is_connected c) sent (refuse packet_not_allowed_to_send c) u
        (refuse-Tracks start c t packet_not_allowed_to_send)

  when_size_allowed-Tracks :
      (size : ℕ) (sent : Connection)
      → Tracks start sent
      → Tracks start (when_size_allowed size c sent)
  unfolding when_size_allowed
  when_size_allowed-Tracks size sent u =
      if-Tracks start (validate_maximum_packet_size_send c size) sent (refuse packet_too_large c) u
        (refuse-Tracks start c t packet_too_large)

-- On every branch of sending a PINGREQ, its refusals included, the timer flags that were what a user
-- computes from the timer events so far stay what the user computes from the events after it.
pub process_send_v5_0_pingreq-Tracks :
    (start : TimerKind → Bool) (c : Connection) (p : Plain)
    → Tracks start c
    → Tracks start (process_send_v5_0_pingreq p c)
unfolding process_send_v5_0_pingreq
process_send_v5_0_pingreq-Tracks start c p t = when_size_allowed-Tracks start c t p.size _ (
    when_connected-Tracks start c t _ (
      send_post_process-Tracks start _ (
        start_pingresp_recv-Tracks start _
          (request_send-Tracks start c t (GenericPacket.v5_0_pingreq p)))))

-- On every branch of sending a DISCONNECT, its refusals included, the timer flags that were what a
-- user computes from the timer events so far stay what the user computes from the events after it.
pub process_send_v5_0_disconnect-Tracks :
    (start : TimerKind → Bool) (c : Connection) (p : Disconnect5)
    → Tracks start c
    → Tracks start (process_send_v5_0_disconnect p c)
unfolding process_send_v5_0_disconnect
process_send_v5_0_disconnect-Tracks start c p t =
    when_size_allowed-Tracks start c t p.size _
      (when_connected-Tracks start c t _ (leave-Tracks start c t (GenericPacket.v5_0_disconnect p)))
