-- ===== src/Connection/Publish.antt =====
-- connection/core.rs: sending a PUBLISH, by the stages of the handlers. `none` is a panic of `unwrap`.
pub mod Quota
use mqtt_protocol_core.Common.{
  ℕ, ◌+◌, Bool, true, false, not, List, [], ◌∷◌, Option, none, some, ltb, ◌==◌, ◌&&◌, ◌||◌,
  if◌then◌else◌,
}
use mqtt_protocol_core.Common.Maps.{set_insert}
use mqtt_protocol_core.Packet.{
  GenericPacket, GenericStorePacket, Publish, Qos, at_most_once, set_dup, store_v3_1_1_publish,
  store_v5_0_publish,
}
use mqtt_protocol_core.Packet.Topic.{
  remove_topic_alias, remove_topic_alias_add_topic, remove_topic_add_topic_alias,
}
use mqtt_protocol_core.ResultCode.{
  Result, ok, err, packet_not_allowed_to_send, packet_identifier_invalid, packet_too_large,
  packet_not_regulated, receive_maximum_exceeded,
}
use mqtt_protocol_core.PacketId
use mqtt_protocol_core.Store
use mqtt_protocol_core.TopicAlias.Send
use mqtt_protocol_core.TopicAlias.Send.{TopicAliasSend}
use mqtt_protocol_core.Connection.{
  Connection, is_connected, is_disconnected, emit, refuse, request_send_packet, send_post_process,
  release_packet_id, validate_maximum_packet_size_send, get_topic_alias_from_props,
}

-- A stage of the handler: it has returned, or goes on with a packet.
pub data Stage : Type 0 where
  returned : Connection → Stage
  going : Publish → Connection → Stage

pub then_stage : Option Stage → (Publish → Connection → Option Stage) → Option Stage
then_stage none k = none
then_stage (some (returned c)) k = some (returned c)
then_stage (some (going packet c)) k = k packet c

-- `return events`, where the connection may have panicked before.
pub return_now : Option Connection → Option Stage
return_now none = none
return_now (some c) = some (returned c)

-- The identifier of a packet that has one is given back.
pub give_back : Option ℕ → Connection → Option Connection
unfolding release_packet_id
give_back none c = some c
give_back (some packet_id) c = release_packet_id packet_id c

-- `PacketNotAllowedToSend`, with the identifier given back.
refuse_publish : Option ℕ → Connection → Option Stage
unfolding refuse give_back return_now
refuse_publish packet_id c = return_now (give_back packet_id (refuse packet_not_allowed_to_send c))

-- `store.add(packet.try_into().unwrap()).unwrap()`.
pub store_publish : Option GenericStorePacket → Connection → Option Connection
store_publish none c = none
store_publish (some packet) c = elim (Store.add c.store packet) [
  | some (Store.added, s) ↦ some (record c { store = s })
  | _ ↦ none
]

-- Whether a PUBLISH that waits for an answer is stored.
pub stores_publish : Connection → Bool
unfolding is_disconnected
stores_publish c = c.need_store && (not (is_disconnected c) || c.offline_publish)

-- Whether a PUBLISH that waits for an answer is taken.
takes_publish : Connection → Bool
unfolding is_connected
takes_publish c = is_connected c || c.need_store || c.offline_publish

-- The answer that is awaited: PUBREC or PUBACK.
pub await_answer : Qos → ℕ → Connection → Connection
unfolding set_insert
await_answer Qos.exactly_once packet_id c = record c {
  pid_pubrec = set_insert packet_id c.pid_pubrec;
}
await_answer qos packet_id c = record c { pid_puback = set_insert packet_id c.pid_puback }

-- `release_packet_id_if_send_error`: the identifier of a packet that is not stored.
release_on_error : Publish → Connection → Option ℕ
unfolding stores_publish
release_on_error packet c = elim packet.qos [
  | at_most_once ↦ none
  | _ ↦ if stores_publish c then none else packet.packet_id
]

-- The end of both handlers.
deliver_publish : GenericPacket → Option ℕ → Connection → Connection
unfolding is_connected emit send_post_process
deliver_publish packet release c =
    if is_connected c then send_post_process (emit (request_send_packet packet release) c) else c

-- The checks of both handlers on a PUBLISH with an answer, and what they do once it passes them.
admit_publish : ℕ → Publish → (Connection → Option Stage) → Connection → Option Stage
unfolding takes_publish refuse_publish refuse
admit_publish packet_id packet go_on c =
    if takes_publish c
    then if PacketId.is_used_id c.pid_man packet_id
      then go_on c
      else some (returned (refuse packet_identifier_invalid c))
    else refuse_publish (some packet_id) c

-- The first half of both handlers; `none` as identifier is the panic of `unwrap`.
check_publish : Publish → (ℕ → Connection → Option Stage) → Connection → Option Stage
unfolding is_connected refuse admit_publish
check_publish packet record_publish c = elim packet.qos [
  | at_most_once ↦
      if is_connected c
      then some (going packet c)
      else some (returned (refuse packet_not_allowed_to_send c))
  | _ ↦ elim packet.packet_id [
    | none ↦ none
    | some packet_id ↦ admit_publish packet_id packet (record_publish packet_id) c
  ]
]

keep_going : Publish → ℕ → Option Connection → Option Stage
unfolding await_answer
keep_going packet packet_id none = none
keep_going packet packet_id (some c) = some (going packet (await_answer packet.qos packet_id c))

-- Storing a PUBLISH of version 3.1.1.
record_v3_1_1 : Publish → ℕ → Connection → Option Stage
unfolding stores_publish store_publish keep_going
record_v3_1_1 packet packet_id c =
    keep_going packet packet_id
      (if stores_publish c then store_publish (store_v3_1_1_publish (set_dup packet)) c else some c)

-- The last stage in version 3.1.1.
finish_v3_1_1 : Option ℕ → Option Stage → Option Connection
unfolding deliver_publish
finish_v3_1_1 release none = none
finish_v3_1_1 release (some (returned c)) = some c
finish_v3_1_1 release (some (going packet c)) =
    some (deliver_publish (GenericPacket.v3_1_1_publish packet) release c)

pub process_send_v3_1_1_publish : Publish → Connection → Option Connection
unfolding release_on_error check_publish record_v3_1_1 finish_v3_1_1
process_send_v3_1_1_publish packet c =
    finish_v3_1_1 (release_on_error packet c) (check_publish packet (record_v3_1_1 packet) c)

pub validate_topic_alias_range : ℕ → Connection → Bool
validate_topic_alias_range alias c = elim c.topic_alias_send [
  | none ↦ false
  | some t ↦ not (alias == 0 || ltb t.max_alias alias)
]

-- The topic of an alias, which becomes the one used last.
pub validate_topic_alias : Option ℕ → Connection → Option (List ℕ) × Connection
unfolding validate_topic_alias_range
validate_topic_alias none c = (none, c)
validate_topic_alias (some alias) c =
    if validate_topic_alias_range alias c
    then elim c.topic_alias_send [
      | none ↦ (none, c)
      | some t ↦
          (let (topic, t') = Send.get t alias in (topic, record c { topic_alias_send = some t' }))
    ]
    else (none, c)

is_empty : List ℕ → Bool
is_empty [] = true
is_empty (x ∷ xs) = false

-- Storing a PUBLISH of version 5.0 whose topic is given by an alias.
store_by_alias : Publish → ℕ → Option (List ℕ) → Connection → Option Stage
unfolding refuse_publish keep_going store_publish
store_by_alias packet packet_id none c = refuse_publish (some packet_id) c
store_by_alias packet packet_id (some topic) c = elim (remove_topic_alias_add_topic topic packet) [
  | some (ok p) ↦ keep_going packet packet_id (store_publish (store_v5_0_publish (set_dup p)) c)
  | _ ↦ none
]

-- Storing a PUBLISH of version 5.0: with its topic, and without an alias.
record_v5_0 : Publish → ℕ → Connection → Option Stage
unfolding stores_publish validate_topic_alias is_empty store_by_alias keep_going store_publish
record_v5_0 packet packet_id c =
    if stores_publish c
    then if is_empty packet.topic_name
      then (let (topic_opt, c₁) =
            validate_topic_alias (get_topic_alias_from_props packet.props) c in
          store_by_alias packet packet_id topic_opt c₁)
      else elim (remove_topic_alias packet) [
        | none ↦ none
        | some p ↦ keep_going packet packet_id (store_publish (store_v5_0_publish (set_dup p)) c)
      ]
    else keep_going packet packet_id (some c)

-- A PUBLISH without a topic: its alias must have one.
use_alias : Bool → Publish → Connection → Option Stage
unfolding validate_topic_alias refuse_publish
use_alias validated packet c =
    if validated
    then some (going packet c)
    else (let (topic_opt, c₁) = validate_topic_alias (get_topic_alias_from_props packet.props) c in
        elim topic_opt [
          | none ↦ refuse_publish packet.packet_id c₁
          | some topic ↦ some (going packet c₁)
        ])

-- `topic_alias_send.insert_or_update`; `none` is its failed `assert!`.
set_alias : List ℕ → ℕ → TopicAliasSend → Connection → Option Connection
set_alias topic alias t c = elim (Send.insert_or_update t topic alias) [
  | none ↦ none
  | some t' ↦ some (record c { topic_alias_send = some t' })
]

-- A PUBLISH with a topic and an alias sets the alias.
register_alias : ℕ → Publish → Connection → Option Stage
unfolding validate_topic_alias_range set_alias refuse_publish
register_alias alias packet c =
    if validate_topic_alias_range alias c
    then elim c.topic_alias_send [
      | none ↦ some (going packet c)
      | some t ↦ elim (set_alias packet.topic_name alias t c) [
        | none ↦ none
        | some c₁ ↦ some (going packet c₁)
      ]
    ]
    else refuse_publish packet.packet_id c

going_with : Option Publish → Connection → Option Stage
going_with none c = none
going_with (some packet) c = some (going packet c)

-- `auto_map_topic_alias_send`: the topic's alias, or one that is free or was used longest ago.
map_alias : TopicAliasSend → Publish → Connection → Option Stage
unfolding set_alias going_with
map_alias t packet c = elim (Send.find_by_topic t packet.topic_name) [
  | some found ↦ going_with (remove_topic_add_topic_alias found packet) c
  | none ↦ elim (Send.get_lru_alias t) [
    | none ↦ none
    | some lru ↦ elim (set_alias packet.topic_name lru t c) [
      | none ↦ none
      | some c₁ ↦ going_with (remove_topic_add_topic_alias lru packet) c₁
    ]
  ]
]

-- `auto_replace_topic_alias_send`: the topic's alias, if it has one.
replace_alias : TopicAliasSend → Publish → Connection → Option Stage
unfolding going_with
replace_alias t packet c = elim (Send.find_by_topic t packet.topic_name) [
  | some found ↦ going_with (remove_topic_add_topic_alias found packet) c
  | none ↦ some (going packet c)
]

-- A PUBLISH with a topic and no alias.
choose_alias : Publish → Connection → Option Stage
unfolding is_connected map_alias replace_alias
choose_alias packet c =
    if is_connected c
    then elim c.topic_alias_send [
      | none ↦ some (going packet c)
      | some t ↦
          if c.auto_map_topic_alias_send
          then map_alias t packet c
          else if c.auto_replace_topic_alias_send
          then replace_alias t packet c
          else some (going packet c)
    ]
    else some (going packet c)

-- The stage of topic aliases; the first argument is `topic_alias_validated`.
resolve_alias : Bool → Publish → Connection → Option Stage
unfolding is_empty use_alias register_alias choose_alias
resolve_alias validated packet c =
    if is_empty packet.topic_name
    then use_alias validated packet c
    else elim (get_topic_alias_from_props packet.props) [
      | some alias ↦ register_alias alias packet c
      | none ↦ choose_alias packet c
    ]

-- The stage of the peer's Receive Maximum.
pub count_publish : Publish → Connection → Option Stage
unfolding return_now give_back refuse
count_publish packet c = elim packet.qos [
  | at_most_once ↦ some (going packet c)
  | _ ↦ elim c.publish_send_max [
    | none ↦ some (going packet c)
    | some max ↦
        if c.publish_send_count == max
        then return_now (give_back packet.packet_id (refuse receive_maximum_exceeded c))
        else some (going packet (record c { publish_send_count = c.publish_send_count + 1 }))
  ]
]

finish_v5_0 : Option ℕ → Option Stage → Option Connection
unfolding deliver_publish
finish_v5_0 release none = none
finish_v5_0 release (some (returned c)) = some c
finish_v5_0 release (some (going packet c)) =
    some (deliver_publish (GenericPacket.v5_0_publish packet) release c)

-- Whether the topic of a PUBLISH without one was looked up when it was stored.
alias_validated : Publish → Connection → Bool
unfolding stores_publish is_empty
alias_validated packet c = elim packet.qos [
  | at_most_once ↦ false
  | _ ↦ stores_publish c && is_empty packet.topic_name
]

unfoldable pub process_send_v5_0_publish : Publish → Connection → Option Connection
unfolding validate_maximum_packet_size_send refuse then_stage check_publish record_v5_0
    resolve_alias count_publish finish_v5_0 release_on_error alias_validated
process_send_v5_0_publish packet c =
    if validate_maximum_packet_size_send c packet.size
    then finish_v5_0 (release_on_error packet c) (
        then_stage
          (then_stage (check_publish packet (record_v5_0 packet) c)
            (λ p c₁. resolve_alias (alias_validated packet c) p c₁))
          (λ p c₁. count_publish p c₁))
    else some (refuse packet_too_large c)

-- `regulate_for_store`: the packet as it would be stored.
pub regulate_for_store : Connection → Publish → Option (Result Publish)
unfolding is_empty
regulate_for_store c packet =
    if is_empty packet.topic_name
    then elim (get_topic_alias_from_props packet.props) [
      | none ↦ some (err packet_not_regulated)
      | some alias ↦ elim c.topic_alias_send [
        | none ↦ some (err packet_not_regulated)
        | some t ↦ elim (Send.peek t alias) [
          | none ↦ some (err packet_not_regulated)
          | some topic ↦ remove_topic_alias_add_topic topic packet
        ]
      ]
    ]
    else elim (remove_topic_alias packet) [ none ↦ none | some p ↦ some (ok p) ]
