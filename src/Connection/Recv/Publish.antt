-- ===== src/Connection/Recv/Publish.antt =====
-- connection/core.rs: a PUBLISH that is received. `unwrap` of a missing identifier is `none`, and so is
-- that of an answer that its builder refuses.
pub mod Once
pub mod Zero
use mqtt_protocol_core.Common.{
  ℕ, Bool, true, false, not, List, [], ◌∷◌, Option, none, some, ltb, leb, ◌==◌, ◌&&◌, ◌||◌, length,
  if◌then◌else◌,
}
use mqtt_protocol_core.Common.Maps.{set_insert, set_contains}
use mqtt_protocol_core.Packet.{
  GenericPacket, Publish, Qos, at_most_once, at_least_once, exactly_once, WithId,
}
use mqtt_protocol_core.Packet.Topic.{add_extracted_topic_name}
use mqtt_protocol_core.ResultCode.{MqttError, ok, err}
use mqtt_protocol_core.TopicAlias.Recv.{TopicAliasRecv, get, insert_or_update}
use mqtt_protocol_core.Connection.{
  Connection, is_connected, emit, and_then, refresh_pingreq_recv, notify_packet_received,
  notify_error, get_topic_alias_from_props,
}
use mqtt_protocol_core.Connection.Send.{
  process_send_v3_1_1_puback, process_send_v3_1_1_pubrec, process_send_v5_0_puback,
  process_send_v5_0_pubrec,
}
use mqtt_protocol_core.Connection.Recv.{Parsed, handle_v3_1_1_error, handle_v5_0_error, accept}

-- `qos2_publish_handled.insert`.
mark_handled : ℕ → Connection → Connection
unfolding set_insert
mark_handled packet_id c = record c {
  qos2_publish_handled = set_insert packet_id c.qos2_publish_handled;
}

-- `builder().packet_id(packet_id).build()` of an answer: its builder refuses the identifier 0. With an
-- identifier alone it has four bytes.
build_answer : ℕ → Option WithId
build_answer packet_id =
    if packet_id == 0 then none else some (record { packet_id = packet_id; size = 4 })

-- The answer that `build` returned is sent; `none` is the panic of `unwrap`.
send_built : (WithId → Connection → Connection) → ℕ → Connection → Option Connection
unfolding build_answer
send_built send packet_id c = elim (build_answer packet_id) [
  | none ↦ none
  | some answer ↦ some (send answer c)
]

answer_with_puback : ℕ → Connection → Option Connection
unfolding is_connected send_built
answer_with_puback packet_id c =
    if is_connected c && c.auto_pub_response
    then send_built process_send_v3_1_1_puback packet_id c
    else some c

answer_with_pubrec : ℕ → Bool → Connection → Option Connection
unfolding is_connected send_built
answer_with_pubrec packet_id already_handled c =
    if is_connected c && (c.auto_pub_response || already_handled)
    then send_built process_send_v3_1_1_pubrec packet_id c
    else some c

-- A packet that was handled before is answered again, and not handed to the user.
accept_once : Bool → GenericPacket → Connection → Connection
unfolding accept refresh_pingreq_recv
accept_once already_handled packet c =
    if already_handled then refresh_pingreq_recv c else accept packet c

-- By QoS and identifier; `none` is a missing identifier or the identifier 0 in an answer.
receive_v3_1_1 : Qos → Option ℕ → Publish → Connection → Option Connection
unfolding accept and_then answer_with_puback set_contains mark_handled answer_with_pubrec
    accept_once
receive_v3_1_1 at_most_once id packet c = some (accept (GenericPacket.v3_1_1_publish packet) c)
receive_v3_1_1 at_least_once none packet c = none
receive_v3_1_1 at_least_once (some packet_id) packet c =
    and_then (answer_with_puback packet_id c)
      (λ c₁. some (accept (GenericPacket.v3_1_1_publish packet) c₁))
receive_v3_1_1 exactly_once none packet c = none
receive_v3_1_1 exactly_once (some packet_id) packet c =
    let already_handled = set_contains packet_id c.qos2_publish_handled in
    and_then (answer_with_pubrec packet_id already_handled (mark_handled packet_id c))
      (λ c₁. some (accept_once already_handled (GenericPacket.v3_1_1_publish packet) c₁))

pub process_recv_v3_1_1_publish : Parsed Publish → Connection → Option Connection
unfolding handle_v3_1_1_error receive_v3_1_1
process_recv_v3_1_1_publish (err e) c = some (handle_v3_1_1_error e c)
process_recv_v3_1_1_publish (ok packet) c = receive_v3_1_1 packet.qos packet.packet_id packet c

-- What is decided about the answer before the topic alias is looked at.
pub record Answers : Type 0 where
  pub already_handled : Bool
  pub puback_send : Bool
  pub pubrec_send : Bool

pub data Stage : Type 0 where
  returned : Connection → Stage
  going : Publish → Answers → Connection → Stage

-- `check_receive_maximum`.
within_receive_maximum : Connection → Bool
within_receive_maximum c = elim c.publish_recv_max [
  | none ↦ true
  | some max ↦ not (leb max (length c.publish_recv))
]

-- The packet counts for the flow control until it is answered.
note_received : ℕ → Connection → Connection
unfolding set_insert
note_received packet_id c = record c { publish_recv = set_insert packet_id c.publish_recv }

-- The stage by QoS.
receive_by_qos : Publish → Connection → Option Stage
unfolding is_connected within_receive_maximum note_received set_contains mark_handled
receive_by_qos packet c = elim packet.qos [
  | at_most_once ↦ some (
      going packet (record { already_handled = false; puback_send = false; pubrec_send = false }) c)
  | at_least_once ↦ elim packet.packet_id [
    | none ↦ none
    | some packet_id ↦
        if within_receive_maximum c
        then some (
            going packet
              (record {
                already_handled = false;
                puback_send = c.auto_pub_response && is_connected c;
                pubrec_send = false;
              })
              (note_received packet_id c))
        else some (returned (handle_v5_0_error MqttError.receive_maximum_exceeded c))
  ]
  | exactly_once ↦ elim packet.packet_id [
    | none ↦ none
    | some packet_id ↦
        if within_receive_maximum c
        then (let already_handled = set_contains packet_id c.qos2_publish_handled in
            some (
              going packet
                (record {
                  already_handled = already_handled;
                  puback_send = false;
                  pubrec_send = is_connected c && (c.auto_pub_response || already_handled);
                })
                (mark_handled packet_id (note_received packet_id c))))
        else some (returned (handle_v5_0_error MqttError.receive_maximum_exceeded c))
  ]
]

refuse_alias : Connection → Stage
refuse_alias c = returned (handle_v5_0_error MqttError.topic_alias_invalid c)

-- `ta == 0 || topic_alias_recv.is_none() || ta > topic_alias_recv.max()`.
is_alias_invalid : ℕ → TopicAliasRecv → Bool
is_alias_invalid alias t = alias == 0 || ltb t.max_alias alias

-- A PUBLISH without a topic takes that of its alias.
extract_topic : Publish → Answers → ℕ → TopicAliasRecv → Connection → Option Stage
unfolding refuse_alias
extract_topic packet answers alias t c = elim (get t alias) [
  | none ↦ some (refuse_alias c)
  | some topic ↦ elim (add_extracted_topic_name topic packet) [
    | none ↦ none
    | some (err e) ↦ some (refuse_alias c)
    | some (ok extracted) ↦ some (going extracted answers c)
  ]
]

-- A PUBLISH with a topic sets its alias; `none` is a failed `assert!`.
keep_topic : Publish → Answers → ℕ → TopicAliasRecv → Connection → Option Stage
keep_topic packet answers alias t c = elim (insert_or_update t packet.topic_name alias) [
  | none ↦ none
  | some t' ↦ some (going packet answers (record c { topic_alias_recv = some t' }))
]

-- A PUBLISH with an alias, which must be in the range that was allowed.
with_alias : Publish → Answers → ℕ → Connection → Option Stage
unfolding is_alias_invalid refuse_alias extract_topic keep_topic
with_alias packet answers alias c = elim c.topic_alias_recv [
  | none ↦ some (refuse_alias c)
  | some t ↦ if is_alias_invalid alias t then some (refuse_alias c) else elim packet.topic_name [
    | [] ↦ extract_topic packet answers alias t c
    | x ∷ xs ↦ keep_topic packet answers alias t c
  ]
]

-- The stage of the topic alias.
receive_alias : Publish → Answers → Connection → Option Stage
unfolding refuse_alias with_alias
receive_alias packet answers c = elim (get_topic_alias_from_props packet.props) [
  | some alias ↦ with_alias packet answers alias c
  | none ↦ elim packet.topic_name [
    | [] ↦ some (refuse_alias c)
    | x ∷ xs ↦ some (going packet answers c)
  ]
]

-- The automatic answers; `none` is a missing identifier or a panic of `send`.
send_answer : Bool → (ℕ → Connection → Option Connection) → Publish → Connection → Option Connection
send_answer false send packet c = some c
send_answer true send packet c = elim packet.packet_id [
  | none ↦ none
  | some packet_id ↦ send packet_id c
]

send_puback : ℕ → Connection → Option Connection
unfolding send_built
send_puback packet_id c = send_built process_send_v5_0_puback packet_id c

send_pubrec : ℕ → Connection → Option Connection
unfolding send_built
send_pubrec packet_id c =
    send_built
      (λ answer.
        process_send_v5_0_pubrec
          (record { packet_id = answer.packet_id; reason_code = none; size = answer.size }))
      packet_id c

-- The last stage: the answers, and the packet for the user.
answer_publish : Publish → Answers → Connection → Option Connection
unfolding send_answer send_puback send_pubrec accept_once
answer_publish packet answers c = elim (send_answer answers.puback_send send_puback packet c) [
  | none ↦ none
  | some c₁ ↦ elim (send_answer answers.pubrec_send send_pubrec packet c₁) [
    | none ↦ none
    | some c₂ ↦ some (accept_once answers.already_handled (GenericPacket.v5_0_publish packet) c₂)
  ]
]

finish_publish : Option Stage → Option Connection
unfolding answer_publish
finish_publish none = none
finish_publish (some (returned c)) = some c
finish_publish (some (going packet answers c)) = answer_publish packet answers c

then_alias : Option Stage → Option Stage
unfolding receive_alias
then_alias none = none
then_alias (some (returned c)) = some (returned c)
then_alias (some (going packet answers c)) = receive_alias packet answers c

pub process_recv_v5_0_publish : Parsed Publish → Connection → Option Connection
unfolding is_connected emit receive_by_qos then_alias finish_publish
process_recv_v5_0_publish (err e) c =
    some (if is_connected c then handle_v5_0_error e c else emit (notify_error e) c)
process_recv_v5_0_publish (ok packet) c = finish_publish (then_alias (receive_by_qos packet c))
