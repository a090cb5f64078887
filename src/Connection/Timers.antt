-- ===== src/Connection/Timers.antt =====
-- connection/core.rs: the timer flags are what a user computes who obeys the timer events.
use mqtt_protocol_core.Common.{
  ◌≡◌, refl, Bool, true, false, List, [], ◌∷◌, ◌++◌, none, if◌then◌else◌, arith, ltb,
}
use mqtt_protocol_core.Packet.{GenericPacket}
use mqtt_protocol_core.ResultCode.{MqttError}
use mqtt_protocol_core.Connection.{
  pingreq_send, pingreq_recv, pingresp_recv, Connection, TimerKind, GenericEvent,
  request_timer_reset, request_timer_cancel, emit, cancel_timers, cancel_pingreq_send,
  cancel_pingreq_recv, cancel_pingresp_recv, send_post_process, send_interval, refresh_pingreq_recv,
  request_send_packet, notify_error, request_close, refuse, request_send,
}

unfoldable pub flag : TimerKind → Connection → Bool
flag TimerKind.pingreq_send c = c.pingreq_send_set
flag TimerKind.pingreq_recv c = c.pingreq_recv_set
flag TimerKind.pingresp_recv c = c.pingresp_recv_set

unfoldable pub same_kind : TimerKind → TimerKind → Bool
same_kind TimerKind.pingreq_send TimerKind.pingreq_send = true
same_kind TimerKind.pingreq_recv TimerKind.pingreq_recv = true
same_kind TimerKind.pingresp_recv TimerKind.pingresp_recv = true
same_kind j k = false

-- Whether the user's timer runs after an event, from whether it ran before.
unfoldable pub obey : TimerKind → Bool → GenericEvent → Bool
unfolding same_kind
obey k running (request_timer_reset j ms) = if same_kind j k then true else running
obey k running (request_timer_cancel j) = if same_kind j k then false else running
obey k running e = running

unfoldable pub runs : TimerKind → Bool → List GenericEvent → Bool
unfolding obey
runs k running [] = running
runs k running (e ∷ es) = runs k (obey k running e) es

runs-append :
    (k : TimerKind) (b : Bool) (es : List GenericEvent) (e : GenericEvent)
    → runs k b (es ++ e ∷ []) ≡ obey k (runs k b es) e
unfolding runs
runs-append k b [] e = refl
runs-append k b (x ∷ es) e = runs-append k (obey k b x) es e

-- The user's timers, which started as told, run as the flags say.
unfoldable pub Tracks : (TimerKind → Bool) → Connection → Type 0
unfolding runs flag
Tracks start c = (k : TimerKind) → runs k (start k) c.events ≡ flag k c

-- An event keeps the flags right if the flags change as the event says.
pub emit-Tracks :
    (start : TimerKind → Bool) (c d : Connection) (e : GenericEvent)
    → Tracks start c
    → d.events ≡ c.events
    → obey pingreq_send (flag pingreq_send c) e ≡ flag pingreq_send d
    → obey pingreq_recv (flag pingreq_recv c) e ≡ flag pingreq_recv d
    → obey pingresp_recv (flag pingresp_recv c) e ≡ flag pingresp_recv d
    → Tracks start (emit e d)
unfolding emit Tracks flag
emit-Tracks start c d e t same fs fr fp TimerKind.pingreq_send =
    rw (same, runs-append pingreq_send (start pingreq_send) c.events e, t pingreq_send) fs
emit-Tracks start c d e t same fs fr fp TimerKind.pingreq_recv =
    rw (same, runs-append pingreq_recv (start pingreq_recv) c.events e, t pingreq_recv) fr
emit-Tracks start c d e t same fs fr fp TimerKind.pingresp_recv =
    rw (same, runs-append pingresp_recv (start pingresp_recv) c.events e, t pingresp_recv) fp

pub if-Tracks :
    (start : TimerKind → Bool) (b : Bool) (c d : Connection)
    → Tracks start c
    → Tracks start d
    → Tracks start (if b then c else d)
if-Tracks start true c d t u = t
if-Tracks start false c d t u = u

module _ (start : TimerKind → Bool) (c : Connection) (t : Tracks start c) where
  pub refuse-Tracks : (e : MqttError) → Tracks start (refuse e c)
  unfolding refuse obey flag
  refuse-Tracks e = emit-Tracks start c c (notify_error e) t refl refl refl refl

  pub request_send-Tracks : (p : GenericPacket) → Tracks start (request_send p c)
  unfolding request_send obey flag
  request_send-Tracks p = emit-Tracks start c c (request_send_packet p none) t refl refl refl refl

  pub request_close-Tracks : Tracks start (emit request_close c)
  unfolding obey flag
  request_close-Tracks = emit-Tracks start c c request_close t refl refl refl refl

  pub cancel_pingreq_send-Tracks : Tracks start (cancel_pingreq_send c)
  unfolding cancel_pingreq_send obey flag
  cancel_pingreq_send-Tracks =
      if-Tracks start c.pingreq_send_set (emit (request_timer_cancel pingreq_send) d) c
        (emit-Tracks start c d (request_timer_cancel pingreq_send) t refl refl refl refl) t
    where
      d : Connection
      d = record c { pingreq_send_set = false }

  pub cancel_pingreq_recv-Tracks : Tracks start (cancel_pingreq_recv c)
  unfolding cancel_pingreq_recv obey flag
  cancel_pingreq_recv-Tracks =
      if-Tracks start c.pingreq_recv_set (emit (request_timer_cancel pingreq_recv) d) c
        (emit-Tracks start c d (request_timer_cancel pingreq_recv) t refl refl refl refl) t
    where
      d : Connection
      d = record c { pingreq_recv_set = false }

  pub cancel_pingresp_recv-Tracks : Tracks start (cancel_pingresp_recv c)
  unfolding cancel_pingresp_recv obey flag
  cancel_pingresp_recv-Tracks =
      if-Tracks start c.pingresp_recv_set (emit (request_timer_cancel pingresp_recv) d) c
        (emit-Tracks start c d (request_timer_cancel pingresp_recv) t refl refl refl refl) t
    where
      d : Connection
      d = record c { pingresp_recv_set = false }

  pub send_post_process-Tracks : Tracks start (send_post_process c)
  unfolding send_post_process obey flag
  send_post_process-Tracks =
      if-Tracks start c.is_client (if ltb 0 (send_interval c) then emit e d else c) c
        (if-Tracks start (ltb 0 (send_interval c)) (emit e d) c
          (emit-Tracks start c d e t refl refl refl refl) t)
        t
    where
      e : GenericEvent
      e = request_timer_reset pingreq_send (send_interval c)

      d : Connection
      d = record c { pingreq_send_set = true }

  pub refresh_pingreq_recv-Tracks : Tracks start (refresh_pingreq_recv c)
  unfolding refresh_pingreq_recv obey flag
  refresh_pingreq_recv-Tracks =
      if-Tracks start (ltb 0 c.pingreq_recv_timeout_ms) (emit e d) c
        (emit-Tracks start c d e t refl refl refl refl) t
    where
      e : GenericEvent
      e = request_timer_reset pingreq_recv c.pingreq_recv_timeout_ms

      d : Connection
      d = record c { pingreq_recv_set = true }

-- Cancelling keeps the user's timers as the flags say, and leaves none running.
pub cancel_timers-Tracks :
    (start : TimerKind → Bool) (c : Connection) → Tracks start c → Tracks start (cancel_timers c)
unfolding cancel_timers
cancel_timers-Tracks start c t =
    cancel_pingresp_recv-Tracks start _
      (cancel_pingreq_recv-Tracks start _ (cancel_pingreq_send-Tracks start c t))

pub cancel_timers-flag : (c : Connection) (k : TimerKind) → flag k (cancel_timers c) ≡ false
unfolding cancel_timers cancel_pingreq_send cancel_pingreq_recv cancel_pingresp_recv emit flag
cancel_timers-flag c TimerKind.pingreq_send = ground arith
cancel_timers-flag c TimerKind.pingreq_recv = ground arith
cancel_timers-flag c TimerKind.pingresp_recv = ground arith
