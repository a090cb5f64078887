-- ===== src/Connection/Recv/Publish/Once.antt =====
-- connection/core.rs: a PUBLISH of QoS 2 is handed to the user once.
use mqtt_protocol_core.Common.{
  ℕ, ◌+◌, ◌<◌, ◌≡◌, refl, Bool, true, false, List, [], ◌∷◌, ◌++◌, Option, none, some, if◌then◌else◌,
  ◌==◌, arith, All, ap, ◌∙◌, ltb, ◌&&◌, ◌||◌,
}
use mqtt_protocol_core.Common.Maps.{set_contains, set_contains-insert}
use mqtt_protocol_core.Packet.{GenericPacket, Publish, exactly_once, WithId}
use mqtt_protocol_core.ResultCode.{ok, packet_not_allowed_to_send}
use mqtt_protocol_core.Connection.{
  Connection, GenericEvent, notify_packet_received, emit, and_then, refresh_pingreq_recv,
  send_post_process, request_send, when_connected, refuse, is_connected, request_timer_reset,
  request_send_packet, notify_error, pingreq_recv, pingreq_send, send_interval,
}
use mqtt_protocol_core.Connection.Send.{process_send_v3_1_1_pubrec}
use mqtt_protocol_core.Connection.Recv.{accept}
use mqtt_protocol_core.Connection.Recv.Publish.{
  process_recv_v3_1_1_publish, receive_v3_1_1, answer_with_pubrec, mark_handled, accept_once,
}

-- How many packets the user was handed.
pub received : List GenericEvent → ℕ
received [] = 0
received (notify_packet_received p ∷ es) = received es + 1
received (e ∷ es) = received es

one_more : GenericEvent → ℕ
one_more (notify_packet_received p) = 1
one_more e = 0

received-append :
    (es : List GenericEvent) (e : GenericEvent) → received (es ++ e ∷ []) ≡ received es + one_more e
unfolding received one_more
received-append [] (notify_packet_received p) = refl
received-append [] e = refl
received-append (notify_packet_received p ∷ es) e = omega (arith, received-append es e)
received-append (x ∷ es) e = received-append es e

-- A step that hands the user so many packets and leaves the identifiers alone.
Hands : ℕ → Connection → Connection → Type 0
Hands n c d =
    (received d.events ≡ received c.events + n) × (d.qos2_publish_handled ≡ c.qos2_publish_handled)

emit-Hands :
    (c d : Connection) (e : GenericEvent)
    → d.events ≡ c.events
    → d.qos2_publish_handled ≡ c.qos2_publish_handled
    → Hands (one_more e) c (emit e d)
unfolding Hands emit
emit-Hands c d e same keep = (rw same (received-append c.events e), keep)

none-Hands : (c : Connection) → Hands 0 c c
unfolding Hands
none-Hands c = (omega arith, refl)

trans-Hands : (m n : ℕ) (c d e : Connection) → Hands m c d → Hands n d e → Hands (m + n) c e
unfolding Hands
trans-Hands m n c d e h k = (omega (arith, h.0, k.0), k.1 ∙ h.1)

if-Hands :
    (n : ℕ) (b : Bool) (c d e : Connection)
    → Hands n c d
    → Hands n c e
    → Hands n c (if b then d else e)
if-Hands n true c d e h k = h
if-Hands n false c d e h k = k

refresh_pingreq_recv-Hands : (c : Connection) → Hands 0 c (refresh_pingreq_recv c)
unfolding refresh_pingreq_recv one_more
refresh_pingreq_recv-Hands c =
    if-Hands 0 (ltb 0 c.pingreq_recv_timeout_ms) c (emit e d) c (emit-Hands c d e refl refl)
      (none-Hands c)
  where
    e : GenericEvent
    e = request_timer_reset pingreq_recv c.pingreq_recv_timeout_ms

    d : Connection
    d = record c { pingreq_recv_set = true }

send_post_process-Hands : (c : Connection) → Hands 0 c (send_post_process c)
unfolding send_post_process one_more
send_post_process-Hands c =
    if-Hands 0 c.is_client c (if ltb 0 (send_interval c) then emit e d else c) c
      (if-Hands 0 (ltb 0 (send_interval c)) c (emit e d) c (emit-Hands c d e refl refl)
        (none-Hands c))
      (none-Hands c)
  where
    e : GenericEvent
    e = request_timer_reset pingreq_send (send_interval c)

    d : Connection
    d = record c { pingreq_send_set = true }

pubrec-Hands : (p : WithId) (c : Connection) → Hands 0 c (process_send_v3_1_1_pubrec p c)
unfolding process_send_v3_1_1_pubrec when_connected request_send refuse one_more
pubrec-Hands p c =
    if-Hands 0 (is_connected c) c (send_post_process (request_send q c))
      (refuse packet_not_allowed_to_send c)
      (trans-Hands 0 0 c (request_send q c) (send_post_process (request_send q c))
        (emit-Hands c c (request_send_packet q none) refl refl)
        (send_post_process-Hands (request_send q c)))
      (emit-Hands c c (notify_error packet_not_allowed_to_send) refl refl)
  where
    q : GenericPacket
    q = GenericPacket.v3_1_1_pubrec p

-- The answer that is sent under an identifier other than 0.
answered : ℕ → Bool → Connection → Connection
answered id b c =
    if is_connected c && (c.auto_pub_response || b)
    then process_send_v3_1_1_pubrec (record { packet_id = id; size = 4 }) c
    else c

answer_with_pubrec-answered :
    (id : ℕ) (b : Bool) (c : Connection)
    → 0 < id
    → answer_with_pubrec id b c ≡ some (answered id b c)
unfolding answer_with_pubrec answered
answer_with_pubrec-answered id b c pos = ground arith

answered-Hands : (id : ℕ) (b : Bool) (c : Connection) → Hands 0 c (answered id b c)
unfolding answered
answered-Hands id b c =
    if-Hands 0 (is_connected c && (c.auto_pub_response || b)) c
      (process_send_v3_1_1_pubrec (record { packet_id = id; size = 4 }) c) c
      (pubrec-Hands (record { packet_id = id; size = 4 }) c) (none-Hands c)

accept-Hands : (p : GenericPacket) (c : Connection) → Hands 1 c (accept p c)
unfolding accept one_more
accept-Hands p c =
    trans-Hands 0 1 c (refresh_pingreq_recv c) (accept p c) (refresh_pingreq_recv-Hands c) (
      emit-Hands (refresh_pingreq_recv c) (refresh_pingreq_recv c) (notify_packet_received p) refl
        refl)

accept_once-Hands :
    (b : Bool) (p : GenericPacket) (c : Connection)
    → Hands (if b then 0 else 1) c (accept_once b p c)
unfolding accept_once
accept_once-Hands true p c = refresh_pingreq_recv-Hands c
accept_once-Hands false p c = accept-Hands p c

receive-answered :
    (id : ℕ) (packet : Publish) (c : Connection)
    → 0 < id
    → receive_v3_1_1 exactly_once (some id) packet c
      ≡ some (
          accept_once
            (set_contains id c.qos2_publish_handled)
            (GenericPacket.v3_1_1_publish packet)
            (answered id (set_contains id c.qos2_publish_handled) (mark_handled id c)))
unfolding receive_v3_1_1
receive-answered id packet c pos =
    let b = set_contains id c.qos2_publish_handled in
    ap (λ o. and_then o (λ c₁. some (accept_once b (GenericPacket.v3_1_1_publish packet) c₁)))
      (answer_with_pubrec-answered id b (mark_handled id c) pos)

-- A PUBLISH of QoS 2 in version 3.1.1 under an identifier other than 0 is received without a panic. It
-- is handed to the user exactly if its identifier is not among those handled already; it is among them
-- afterwards, and no other identifier changes.
pub publish-received :
    (c : Connection) (packet : Publish) (id j : ℕ)
    → packet.qos ≡ exactly_once
    → packet.packet_id ≡ some id
    → 0 < id
    → (c' : Connection) × (process_recv_v3_1_1_publish (ok packet) c ≡ some c')
      × (received c'.events
          ≡ received c.events + (if set_contains id c.qos2_publish_handled then 0 else 1))
      × (set_contains j c'.qos2_publish_handled
          ≡ (if id == j then true else set_contains j c.qos2_publish_handled))
unfolding process_recv_v3_1_1_publish mark_handled Hands
publish-received c packet id j q i pos =
    let b = set_contains id c.qos2_publish_handled in
    let p = GenericPacket.v3_1_1_publish packet in
    let d = answered id b (mark_handled id c) in
    let h = answered-Hands id b (mark_handled id c) in
    let k = accept_once-Hands b p d in
    (
      accept_once b p d,
      ap (λ x. receive_v3_1_1 x packet.packet_id packet c) q
          ∙ ap (λ x. receive_v3_1_1 exactly_once x packet c) i
          ∙ receive-answered id packet c pos,
      omega (arith, h.0, k.0),
      ap (set_contains j) (k.1 ∙ h.1) ∙ set_contains-insert id j c.qos2_publish_handled,
    )

-- Receiving several packets one after the other.
pub receive_all : List Publish → Connection → Option Connection
unfolding and_then
receive_all [] c = some c
receive_all (packet ∷ packets) c =
    and_then (process_recv_v3_1_1_publish (ok packet) c) (λ c₁. receive_all packets c₁)

abbrev pub IsRepeat : ℕ → Publish → Type 0
IsRepeat id packet = (packet.qos ≡ exactly_once) × (packet.packet_id ≡ some id)

repeats-received :
    (packets : List Publish) (c : Connection) (id : ℕ)
    → All (IsRepeat id) packets
    → set_contains id c.qos2_publish_handled ≡ true
    → 0 < id
    → (c' : Connection) × (receive_all packets c ≡ some c')
      × (received c'.events ≡ received c.events)
unfolding receive_all and_then
repeats-received [] c id all h pos = (c, refl, refl)
repeats-received (packet ∷ packets) c id ((q, i), all) h pos =
    let (d, e, n, s) = publish-received c packet id id q i pos in
    let t : set_contains id d.qos2_publish_handled ≡ true = rw s (ground arith) in
    let (c', e', n') = repeats-received packets d id all t pos in
    (c', rw e e', n' ∙ n ∙ rw h (omega arith))

-- However often a PUBLISH of QoS 2 in version 3.1.1 is repeated under an identifier other than 0 that
-- was not handled before, nothing panics and the user is handed one packet, if the PUBREL has not come
-- in between.
pub receive_all-received :
    (packet : Publish) (packets : List Publish) (c : Connection) (id : ℕ)
    → IsRepeat id packet
    → All (IsRepeat id) packets
    → set_contains id c.qos2_publish_handled ≡ false
    → 0 < id
    → (c' : Connection) × (receive_all (packet ∷ packets) c ≡ some c')
      × (received c'.events ≡ received c.events + 1)
unfolding receive_all and_then
receive_all-received packet packets c id (q, i) all h pos =
    let (d, e, n, s) = publish-received c packet id id q i pos in
    let t : set_contains id d.qos2_publish_handled ≡ true = rw s (ground arith) in
    let (c', e', n') = repeats-received packets d id all t pos in (c', rw e e', n' ∙ n ∙ rw h refl)
