-- ===== src/Connection/Recv/Quota.antt =====
-- connection/core.rs: the answers to PUBLISH packets of version 5.0 against the count of packets on their
-- way, in a build with overflow checks.
use mqtt_protocol_core.Common.{
  ℕ, ◌+◌, ◌≡◌, ◌≤◌, refl, true, false, Option, none, some, arith, inl, inr, subst, ◌⊎◌, ◌∙◌,
}
use mathlib.Core.Option.{some-injective}
use mqtt_protocol_core.Common.Maps.{set_contains}
use mqtt_protocol_core.Packet.{WithId, Pubrec5, Pubcomp5, GenericPacket, ResponsePacket}
use mqtt_protocol_core.ResultCode.{
  MqttError, DisconnectReasonCode, PubrecReasonCode, disconnect_from_error,
  mqtt_error_from_disconnect, ok, err,
}
use mqtt_protocol_core.Connection.{
  Connection, notify_packet_received, notify_error, and_then, release_packet_id,
  refresh_pingreq_recv,
}
use mqtt_protocol_core.Connection.Quota.{
  one_sent, one_answered, is_failure, sent, answered, tally-append, SameQuota, Covered,
  emit-SameQuota, if-Covered, stay, refresh_pingreq_recv-SameQuota, release_packet_id-SameQuota,
}
use mqtt_protocol_core.Connection.Session.{process_send_v5_0_pubrel, process_send_v5_0_disconnect}
use mqtt_protocol_core.Connection.Session.Quota.{
  process_send_v5_0_disconnect-SameQuota, process_send_v5_0_pubrel-SameQuota,
}
use mqtt_protocol_core.Connection.Recv.{
  Parsed, disconnect_with, handle_v5_0_error, accept, erase_stored, count_down, take_puback,
  take_pubrec, take_pubcomp, process_recv_v5_0_puback, process_recv_v5_0_pubrec,
  process_recv_v5_0_pubcomp, auto_pubrel, is_pubrec_success, answer_pubrec,
}

handle_v5_0_error-SameQuota : (e : MqttError) (c : Connection) → SameQuota c (handle_v5_0_error e c)
unfolding handle_v5_0_error one_sent one_answered
handle_v5_0_error-SameQuota e c =
    emit-SameQuota (notify_error e) c
      (process_send_v5_0_disconnect (disconnect_with (disconnect_from_error e)) c) refl refl
      (process_send_v5_0_disconnect-SameQuota (disconnect_with (disconnect_from_error e)) c)

erase_stored-SameQuota :
    (response : ResponsePacket) (id : ℕ) (c d : Connection)
    → erase_stored response id c ≡ some d
    → SameQuota c d
unfolding erase_stored
erase_stored-SameQuota response id c d e = ground arith

-- A step that hands the user so many answers and takes so many packets off the count.
Answers : ℕ → ℕ → Connection → Connection → Type 0
Answers n k c d =
    (d.publish_send_max ≡ c.publish_send_max)
    × (d.publish_send_count + k ≡ c.publish_send_count)
    × (sent d.events ≡ sent c.events)
    × (answered d.events ≡ answered c.events + n)

accept-Answers :
    (p : GenericPacket) (c : Connection)
    → Answers (one_answered (notify_packet_received p)) 0 c (accept p c)
unfolding Answers accept sent answered
accept-Answers p c = ground (
  arith,
  tally-append (refresh_pingreq_recv c).events (notify_packet_received p),
  refresh_pingreq_recv-SameQuota c,
)

count_down-Answers :
    (c d : Connection) (max : ℕ)
    → c.publish_send_max ≡ some max
    → count_down true c ≡ some d
    → Answers 0 1 c d
unfolding Answers count_down
count_down-Answers c d max m e = ground arith

same-Answers : (c d : Connection) → SameQuota c d → Answers 0 0 c d
unfolding Answers
same-Answers c d (m, n, k, l) = (m, omega (arith, n), k, omega (arith, l))

trans-Answers :
    (n n' k k' : ℕ) (c d e : Connection)
    → Answers n k c d
    → Answers n' k' d e
    → Answers (n + n') (k + k') c e
unfolding Answers
trans-Answers n n' k k' c d e h g = ground (arith, h, g)

Answers-Covered :
    (n max : ℕ) (c d : Connection)
    → c.publish_send_max ≡ some max
    → c.publish_send_count ≤ max
    → Answers n n c d
    → Covered max c d
unfolding Answers
Answers-Covered n max c d m h a = ground (arith, a)

and_then-some :
    (o : Option Connection) (k : Connection → Option Connection) (d : Connection)
    → and_then o k ≡ some d
    → (c : Connection) × (o ≡ some c) × (k c ≡ some d)
unfolding and_then
and_then-some none k d e = ground arith
and_then-some (some c) k d e = (c, refl, e)

-- The end of the handlers of PUBACK and PUBCOMP.
finish-Answers :
    (p : GenericPacket) (id : ℕ) (c d : Connection) (max : ℕ)
    → one_answered (notify_packet_received p) ≡ 1
    → c.publish_send_max ≡ some max
    → and_then
        (release_packet_id id c)
        (λ c₂. and_then (count_down true c₂) (λ c₃. some (accept p c₃)))
      ≡ some d
    → Answers 1 1 c d
unfolding Answers
finish-Answers p id c d max one m e =
    let (c₂, e₂, f) =
      and_then-some (release_packet_id id c)
        (λ c₂. and_then (count_down true c₂) (λ c₃. some (accept p c₃))) d e in
    let (c₃, e₃, g) = and_then-some (count_down true c₂) (λ c₃. some (accept p c₃)) d f in
    let h = release_packet_id-SameQuota id c c₂ e₂ in
    let k = count_down-Answers c₂ c₃ max (h.0 ∙ m) e₃ in
    subst (Answers 1 1 c) (some-injective _ _ g) (ground (arith, h, k, accept-Answers p c₃, one))

-- A handler that removes the identifier, erases the packet and then goes on.
erase-Answers :
    (n k : ℕ) (response : ResponsePacket) (id : ℕ) (go_on : Connection → Option Connection)
    (c d : Connection)
    → ((c₁ : Connection) → SameQuota c c₁ → go_on c₁ ≡ some d → Answers n k c₁ d)
    → and_then (erase_stored response id c) go_on ≡ some d
    → Answers n k c d
unfolding Answers
erase-Answers n k response id go_on c d h e =
    let (c₁, e₁, f) = and_then-some (erase_stored response id c) go_on d e in
    let s = erase_stored-SameQuota response id c c₁ e₁ in ground (arith, s, h c₁ s f)

error-Covered :
    (max : ℕ) (error : MqttError) (c d : Connection)
    → Covered max c c
    → some (handle_v5_0_error error c) ≡ some d
    → Covered max c d
error-Covered max error c d w e =
    subst (Covered max c) (some-injective _ _ e)
      (stay max c c (handle_v5_0_error error c) w (handle_v5_0_error-SameQuota error c))

-- A PUBACK, whatever it is.
pub process_recv_v5_0_puback-Covered :
    (parsed : Parsed WithId) (c d : Connection) (max : ℕ)
    → Covered max c c
    → process_recv_v5_0_puback true parsed c ≡ some d
    → Covered max c d
unfolding process_recv_v5_0_puback take_puback one_answered
process_recv_v5_0_puback-Covered (err error) c d max w e = error-Covered max error c d w e
process_recv_v5_0_puback-Covered (ok packet) c d max w e =
    let p = GenericPacket.v5_0_puback packet in
    let id = packet.packet_id in
    let taken = take_puback id c in
    let go_on : Connection → Option Connection = λ c₁.
      and_then (release_packet_id id c₁)
        (λ c₂. and_then (count_down true c₂) (λ c₃. some (accept p c₃))) in
    if-Covered max c (set_contains id c.pid_puback)
      (and_then (erase_stored ResponsePacket.v5_0_puback id taken) go_on)
      (some (handle_v5_0_error MqttError.protocol_error c)) d
      (λ e₁. Answers-Covered 1 max taken d w.0 w.1 (
        erase-Answers 1 1 ResponsePacket.v5_0_puback id go_on taken d
          (λ c₁ s e₂. finish-Answers p id c₁ d max refl (s.0 ∙ w.0) e₂) e₁))
      (λ e₁. error-Covered max MqttError.protocol_error c d w e₁) e

-- A PUBCOMP, whatever it is.
pub process_recv_v5_0_pubcomp-Covered :
    (parsed : Parsed Pubcomp5) (c d : Connection) (max : ℕ)
    → Covered max c c
    → process_recv_v5_0_pubcomp true parsed c ≡ some d
    → Covered max c d
unfolding process_recv_v5_0_pubcomp take_pubcomp one_answered
process_recv_v5_0_pubcomp-Covered (err error) c d max w e = error-Covered max error c d w e
process_recv_v5_0_pubcomp-Covered (ok packet) c d max w e =
    let p = GenericPacket.v5_0_pubcomp packet in
    let id = packet.packet_id in
    let taken = take_pubcomp id c in
    let go_on : Connection → Option Connection = λ c₁.
      and_then (release_packet_id id c₁)
        (λ c₂. and_then (count_down true c₂) (λ c₃. some (accept p c₃))) in
    if-Covered max c (set_contains id c.pid_pubcomp)
      (and_then (erase_stored ResponsePacket.v5_0_pubcomp id taken) go_on)
      (some (handle_v5_0_error MqttError.protocol_error c)) d
      (λ e₁. Answers-Covered 1 max taken d w.0 w.1 (
        erase-Answers 1 1 ResponsePacket.v5_0_pubcomp id go_on taken d
          (λ c₁ s e₂. finish-Answers p id c₁ d max refl (s.0 ∙ w.0) e₂) e₁))
      (λ e₁. error-Covered max MqttError.protocol_error c d w e₁) e

-- A PUBREC ends the delivery exactly if its code is not success.
success-failure :
    (code : Option PubrecReasonCode)
    → ((is_pubrec_success code ≡ true) × (is_failure code ≡ 0))
      ⊎ ((is_pubrec_success code ≡ false) × (is_failure code ≡ 1))
unfolding is_pubrec_success is_failure
success-failure none = inl (refl, refl)
success-failure (some PubrecReasonCode.success) = inl (refl, refl)
success-failure (some code) = inr (refl, refl)

auto_pubrel-SameQuota :
    (id : ℕ) (c d : Connection) → auto_pubrel process_send_v5_0_pubrel id c ≡ some d → SameQuota c d
unfolding auto_pubrel
auto_pubrel-SameQuota id c d e =
    ground (arith, process_send_v5_0_pubrel-SameQuota (record { packet_id = id; size = 4 }) c d)

answer_pubrec-Answers :
    (packet : Pubrec5) (c d : Connection) (max : ℕ)
    → c.publish_send_max ≡ some max
    → answer_pubrec true packet c ≡ some d
    → Answers 0 (is_failure packet.reason_code) c d
unfolding answer_pubrec
answer_pubrec-Answers packet c d max m e = elim (success-failure packet.reason_code) [
  | inl (s, f) ↦ rw f (same-Answers c d (auto_pubrel-SameQuota packet.packet_id c d (rw s at e)))
  | inr (s, f) ↦
      let (c₁, e₁, e₂) =
        and_then-some (release_packet_id packet.packet_id c) (λ c₁. count_down true c₁) d
          (rw s at e) in
      let h = release_packet_id-SameQuota packet.packet_id c c₁ e₁ in
      rw f (
        trans-Answers 0 0 0 1 c c₁ d (same-Answers c c₁ h)
          (count_down-Answers c₁ d max (h.0 ∙ m) e₂))
]

pubrec_end :
    (packet : Pubrec5) (c d : Connection) (max : ℕ)
    → c.publish_send_max ≡ some max
    → and_then
        (answer_pubrec true packet c)
        (λ c₂. some (accept (GenericPacket.v5_0_pubrec packet) c₂))
      ≡ some d
    → Answers (is_failure packet.reason_code) (is_failure packet.reason_code) c d
unfolding Answers one_answered
pubrec_end packet c d max m e =
    let p = GenericPacket.v5_0_pubrec packet in
    let n = is_failure packet.reason_code in
    let (c₂, e₂, g) = and_then-some (answer_pubrec true packet c) (λ c₂. some (accept p c₂)) d e in
    subst (Answers n n c) (some-injective _ _ g)
      (ground (arith, answer_pubrec-Answers packet c c₂ max m e₂, accept-Answers p c₂))

-- A PUBREC, whatever it is.
pub process_recv_v5_0_pubrec-Covered :
    (parsed : Parsed Pubrec5) (c d : Connection) (max : ℕ)
    → Covered max c c
    → process_recv_v5_0_pubrec true parsed c ≡ some d
    → Covered max c d
unfolding process_recv_v5_0_pubrec take_pubrec one_answered
process_recv_v5_0_pubrec-Covered (err error) c d max w e = error-Covered max error c d w e
process_recv_v5_0_pubrec-Covered (ok packet) c d max w e =
    let p = GenericPacket.v5_0_pubrec packet in
    let id = packet.packet_id in
    let n = is_failure packet.reason_code in
    let taken = take_pubrec id c in
    let error = mqtt_error_from_disconnect DisconnectReasonCode.protocol_error in
    let go_on : Connection → Option Connection =
      λ c₁. and_then (answer_pubrec true packet c₁) (λ c₂. some (accept p c₂)) in
    if-Covered max c (set_contains id c.pid_pubrec)
      (and_then (erase_stored ResponsePacket.v5_0_pubrec id taken) go_on)
      (some (handle_v5_0_error error c)) d
      (λ e₁. Answers-Covered n max taken d w.0 w.1 (
        erase-Answers n n ResponsePacket.v5_0_pubrec id go_on taken d
          (λ c₁ s e₂. pubrec_end packet c₁ d max (s.0 ∙ w.0) e₂) e₁))
      (λ e₁. error-Covered max error c d w e₁) e
