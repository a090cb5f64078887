-- ===== src/Connection/Quota.antt =====
-- connection/core.rs: the PUBLISH packets of version 5.0 that are on their way, as the user sees them in the
-- events, beside `publish_send_count`.
use mqtt_protocol_core.Common.{
  ℕ, ◌+◌, ◌≡◌, ◌≤◌, refl, Bool, true, false, List, [], ◌∷◌, ◌++◌, Option, none, some, arith, ◌∙◌,
  if◌then◌else◌,
}
use mqtt_protocol_core.Packet.{GenericPacket, at_most_once}
use mqtt_protocol_core.ResultCode.{MqttError, PubrecReasonCode}
use mqtt_protocol_core.Connection.{
  Connection, GenericEvent, request_send_packet, notify_packet_received, notify_error,
  notify_packet_id_released, request_timer_reset, pingreq_send, pingreq_recv, send_interval, emit,
  refuse, release_packet_id, send_post_process, refresh_pingreq_recv,
}

-- Whether an event asks the user to send a PUBLISH of version 5.0 that is answered.
unfoldable pub one_sent : GenericEvent → ℕ
one_sent (request_send_packet (GenericPacket.v5_0_publish p) release) = elim p.qos [
  | at_most_once ↦ 0
  | _ ↦ 1
]
one_sent e = 0

-- Whether a PUBREC ends the delivery: it carries a reason code other than success.
unfoldable pub is_failure : Option PubrecReasonCode → ℕ
is_failure none = 0
is_failure (some PubrecReasonCode.success) = 0
is_failure (some code) = 1

-- Whether an event hands the user the answer that ends the delivery of a PUBLISH of version 5.0.
unfoldable pub one_answered : GenericEvent → ℕ
unfolding is_failure
one_answered (notify_packet_received (GenericPacket.v5_0_puback p)) = 1
one_answered (notify_packet_received (GenericPacket.v5_0_pubcomp p)) = 1
one_answered (notify_packet_received (GenericPacket.v5_0_pubrec p)) = is_failure p.reason_code
one_answered e = 0

-- How many of these PUBLISH packets the user was asked to send.
unfoldable pub sent : List GenericEvent → ℕ
unfolding one_sent
sent [] = 0
sent (e ∷ es) = one_sent e + sent es

-- How many of these answers the user was handed.
unfoldable pub answered : List GenericEvent → ℕ
unfolding one_answered
answered [] = 0
answered (e ∷ es) = one_answered e + answered es

pub tally-append :
    (es : List GenericEvent) (e : GenericEvent)
    → (sent (es ++ e ∷ []) ≡ sent es + one_sent e)
      × (answered (es ++ e ∷ []) ≡ answered es + one_answered e)
unfolding sent answered
tally-append [] e = omega arith
tally-append (x ∷ es) e = omega (arith, tally-append es e)

-- An event changes neither the count nor the maximum.
pub emit-tally :
    (e : GenericEvent) (c : Connection)
    → (sent (emit e c).events ≡ sent c.events + one_sent e)
      × (answered (emit e c).events ≡ answered c.events + one_answered e)
      × ((emit e c).publish_send_max ≡ c.publish_send_max)
      × ((emit e c).publish_send_count ≡ c.publish_send_count)
unfolding emit
emit-tally e c = ((tally-append c.events e).0, (tally-append c.events e).1, refl, refl)

-- A step that counts, sends and answers no PUBLISH.
abbrev pub SameQuota : Connection → Connection → Type 0
SameQuota c d =
    (d.publish_send_max ≡ c.publish_send_max)
    × (d.publish_send_count ≡ c.publish_send_count)
    × (sent d.events ≡ sent c.events)
    × (answered d.events ≡ answered c.events)

pub trans-SameQuota : (c d e : Connection) → SameQuota c d → SameQuota d e → SameQuota c e
trans-SameQuota c d e (m, n, k, l) (m', n', k', l') = (m' ∙ m, n' ∙ n, k' ∙ k, l' ∙ l)

pub if-SameQuota :
    (b : Bool) (c d e : Connection)
    → SameQuota c d
    → SameQuota c e
    → SameQuota c (if b then d else e)
if-SameQuota true c d e h k = h
if-SameQuota false c d e h k = k

-- An event that is neither a PUBLISH nor an answer.
pub emit-SameQuota :
    (e : GenericEvent) (c d : Connection)
    → one_sent e ≡ 0
    → one_answered e ≡ 0
    → SameQuota c d
    → SameQuota c (emit e d)
emit-SameQuota e c d s a h = ground (arith, emit-tally e d)

pub send_post_process-SameQuota : (c : Connection) → SameQuota c (send_post_process c)
unfolding send_post_process emit sent answered
send_post_process-SameQuota c =
    ground (arith, tally-append c.events (request_timer_reset pingreq_send (send_interval c)))

pub refresh_pingreq_recv-SameQuota : (c : Connection) → SameQuota c (refresh_pingreq_recv c)
unfolding refresh_pingreq_recv emit sent answered
refresh_pingreq_recv-SameQuota c =
    ground
      (arith, tally-append c.events (request_timer_reset pingreq_recv c.pingreq_recv_timeout_ms))

pub refuse-SameQuota : (error : MqttError) (c : Connection) → SameQuota c (refuse error c)
unfolding refuse one_sent one_answered
refuse-SameQuota error c =
    emit-SameQuota (notify_error error) c c refl refl (refl, refl, refl, refl)

pub release_packet_id-SameQuota :
    (id : ℕ) (c d : Connection) → release_packet_id id c ≡ some d → SameQuota c d
unfolding release_packet_id emit sent answered
release_packet_id-SameQuota id c d e =
    ground (arith, tally-append c.events (notify_packet_id_released id))

-- From the first connection to the second no more PUBLISH packets are sent than were answered and than
-- the count goes up by, and the count is within the peer's Receive Maximum.
abbrev pub Covered : ℕ → Connection → Connection → Type 0
Covered max c d =
    (d.publish_send_max ≡ some max)
    × (d.publish_send_count ≤ max)
    × (sent d.events + answered c.events + c.publish_send_count
        ≤ sent c.events + answered d.events + d.publish_send_count)

pub start-Covered :
    (c : Connection) (max : ℕ)
    → c.publish_send_max ≡ some max
    → c.publish_send_count ≤ max
    → Covered max c c
start-Covered c max m h = (m, h, omega arith)

pub stay : (max : ℕ) (c d e : Connection) → Covered max c d → SameQuota d e → Covered max c e
stay max c d e (m, h, k) (n, l, o, a) = (n ∙ m, rw l h, omega (arith, k, l, o, a))

pub trans-Covered :
    (max : ℕ) (c d e : Connection) → Covered max c d → Covered max d e → Covered max c e
trans-Covered max c d e (m, h, k) (m', h', k') = (m', h', omega (arith, k, k'))

-- A split on a test of a handler that can panic.
pub if-Covered :
    (max : ℕ) (c : Connection) (b : Bool) (x y : Option Connection) (d : Connection)
    → (x ≡ some d → Covered max c d)
    → (y ≡ some d → Covered max c d)
    → (if b then x else y) ≡ some d
    → Covered max c d
if-Covered max c true x y d f g e = f e
if-Covered max c false x y d f g e = g e
