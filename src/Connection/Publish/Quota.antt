-- ===== src/Connection/Publish/Quota.antt =====
-- connection/core.rs: the count of the PUBLISH packets on their way, and the peer's Receive Maximum.
use mqtt_protocol_core.Common.{
  ℕ, ◌+◌, ◌≡◌, ◌≤◌, refl, subst, Bool, List, Option, none, some, arith, Option-cases, inl, inr,
}
use mathlib.Core.Option.{some-injective}
use mqtt_protocol_core.Packet.{Publish, Qos, GenericPacket, GenericStorePacket}
use mqtt_protocol_core.ResultCode.{
  MqttError, packet_too_large, packet_not_allowed_to_send, packet_identifier_invalid,
  receive_maximum_exceeded,
}
use mqtt_protocol_core.Connection.Quota.{
  one_sent, sent, answered, emit-tally, SameQuota, Covered, if-Covered, stay, refuse-SameQuota,
  send_post_process-SameQuota, release_packet_id-SameQuota,
}
use mqtt_protocol_core.Connection.{
  Connection, request_send_packet, emit, refuse, validate_maximum_packet_size_send,
  get_topic_alias_from_props,
}
use mqtt_protocol_core.Connection.Publish.{
  Stage, returned, going, then_stage, return_now, give_back, refuse_publish, store_publish,
  await_answer, deliver_publish, admit_publish, check_publish, keep_going, record_v5_0,
  store_by_alias, use_alias, set_alias, register_alias, going_with, map_alias, replace_alias,
  choose_alias, resolve_alias, count_publish, finish_v5_0, release_on_error, alias_validated,
  validate_topic_alias, process_send_v5_0_publish,
}

state : Stage → Connection
state (returned c) = c
state (going p c) = c

give_back-SameQuota : (id : Option ℕ) (c d : Connection) → give_back id c ≡ some d → SameQuota c d
unfolding give_back
give_back-SameQuota none c d e = ground arith
give_back-SameQuota (some id) c d e = release_packet_id-SameQuota id c d e

return_give_back-SameQuota :
    (error : MqttError) (id : Option ℕ) (c : Connection) (s : Stage)
    → return_now (give_back id (refuse error c)) ≡ some s
    → SameQuota c (state s)
unfolding return_now state
return_give_back-SameQuota error id c s e = elim (Option-cases (give_back id (refuse error c))) [
  | inl n ↦ ground arith
  | inr (d, n) ↦
      ground (arith, refuse-SameQuota error c, give_back-SameQuota id (refuse error c) d n)
]

refuse_publish-SameQuota :
    (id : Option ℕ) (c : Connection) (s : Stage)
    → refuse_publish id c ≡ some s
    → SameQuota c (state s)
unfolding refuse_publish
refuse_publish-SameQuota id c s e = return_give_back-SameQuota packet_not_allowed_to_send id c s e

validate-SameQuota : (a : Option ℕ) (c : Connection) → SameQuota c (validate_topic_alias a c).1
unfolding validate_topic_alias
validate-SameQuota a c = ground arith

await_answer-SameQuota : (q : Qos) (id : ℕ) (c : Connection) → SameQuota c (await_answer q id c)
unfolding await_answer
await_answer-SameQuota q id c = ground arith

keep_store-SameQuota :
    (p : Publish) (id : ℕ) (o : Option GenericStorePacket) (c : Connection) (s : Stage)
    → keep_going p id (store_publish o c) ≡ some s
    → SameQuota c (state s)
unfolding keep_going store_publish await_answer state
keep_store-SameQuota p id o c s e = ground arith

keep_all-SameQuota :
    (p : Publish) (id : ℕ) (c : Connection) (s : Stage)
    → keep_going p id (some c) ≡ some s
    → SameQuota c (state s)
unfolding keep_going await_answer state
keep_all-SameQuota p id c s e = ground arith

store_by_alias-SameQuota :
    (p : Publish) (id : ℕ) (o : Option (List ℕ)) (c : Connection) (s : Stage)
    → store_by_alias p id o c ≡ some s
    → SameQuota c (state s)
unfolding store_by_alias keep_going store_publish await_answer state
store_by_alias-SameQuota p id none c s e = refuse_publish-SameQuota (some id) c s e
store_by_alias-SameQuota p id (some topic) c s e = ground arith

record_v5_0-SameQuota :
    (p : Publish) (id : ℕ) (c : Connection) (s : Stage)
    → record_v5_0 p id c ≡ some s
    → SameQuota c (state s)
unfolding record_v5_0 keep_going store_publish await_answer state
record_v5_0-SameQuota p id c s e =
    let a = get_topic_alias_from_props p.props in
    let (topic, c₁) = validate_topic_alias a c in
    ground (arith, validate-SameQuota a c, store_by_alias-SameQuota p id topic c₁ s)

check_publish-SameQuota :
    (p : Publish) (c : Connection) (s : Stage)
    → check_publish p (record_v5_0 p) c ≡ some s
    → SameQuota c (state s)
unfolding check_publish admit_publish state
check_publish-SameQuota p c s e = elim (Option-cases p.packet_id) [
  | inl n ↦ ground (arith, refuse-SameQuota packet_not_allowed_to_send c)
  | inr (id, n) ↦ ground (
    arith,
    refuse-SameQuota packet_not_allowed_to_send c,
    refuse-SameQuota packet_identifier_invalid c,
    refuse_publish-SameQuota (some id) c s,
    record_v5_0-SameQuota p id c s,
  )
]

resolve_alias-SameQuota :
    (b : Bool) (p : Publish) (c : Connection) (s : Stage)
    → resolve_alias b p c ≡ some s
    → SameQuota c (state s)
unfolding resolve_alias use_alias register_alias choose_alias map_alias replace_alias set_alias
    going_with state
resolve_alias-SameQuota b p c s e =
    let a = get_topic_alias_from_props p.props in
    let (topic, c₁) = validate_topic_alias a c in
    ground (
      arith,
      validate-SameQuota a c,
      refuse_publish-SameQuota p.packet_id c₁ s,
      refuse_publish-SameQuota p.packet_id c s,
    )

-- A stage that goes on has counted its packet before it is sent.
Counted : ℕ → Connection → Stage → Type 0
unfolding one_sent
Counted max c (returned d) = Covered max c d
Counted max c (going p d) =
    (d.publish_send_max ≡ some max)
    × (d.publish_send_count ≤ max)
    × (sent d.events
          + one_sent (request_send_packet (GenericPacket.v5_0_publish p) none)
          + answered c.events
          + c.publish_send_count
        ≤ sent c.events + answered d.events + d.publish_send_count)

count_publish-Counted :
    (p : Publish) (c d : Connection) (s : Stage) (max : ℕ)
    → Covered max c d
    → count_publish p d ≡ some s
    → Counted max c s
unfolding count_publish Counted one_sent state
count_publish-Counted p c d (returned d') max h e =
    let same = return_give_back-SameQuota receive_maximum_exceeded p.packet_id d (returned d') in
    stay max c d d' h (same (ground arith))
count_publish-Counted p c d (going p' d') max h e = ground arith

then_stage-keeps :
    (P Q : Stage → Type 0) (o : Option Stage) (k : Publish → Connection → Option Stage)
    → ((c : Connection) → P (returned c) → Q (returned c))
    → ((s : Stage) → o ≡ some s → P s)
    → ((p : Publish) (c : Connection) (s : Stage) → P (going p c) → k p c ≡ some s → Q s)
    → (s : Stage) → then_stage o k ≡ some s
    → Q s
unfolding then_stage
then_stage-keeps P Q none k r h g s e = ground arith
then_stage-keeps P Q (some (returned c)) k r h g s e =
    subst Q (some-injective _ _ e) (r c (h (returned c) refl))
then_stage-keeps P Q (some (going p c)) k r h g s e = g p c s (h (going p c) refl) e

deliver_publish-Covered :
    (max : ℕ) (c d : Connection) (p : Publish) (release : Option ℕ)
    → Counted max c (going p d)
    → Covered max c (deliver_publish (GenericPacket.v5_0_publish p) release d)
unfolding deliver_publish Counted one_sent
deliver_publish-Covered max c d p release h =
    let event = request_send_packet (GenericPacket.v5_0_publish p) release in
    ground (arith, emit-tally event d, send_post_process-SameQuota (emit event d))

finish_v5_0-Covered :
    (max : ℕ) (release : Option ℕ) (o : Option Stage) (c d : Connection)
    → ((s : Stage) → o ≡ some s → Counted max c s)
    → finish_v5_0 release o ≡ some d
    → Covered max c d
unfolding finish_v5_0 Counted
finish_v5_0-Covered max release none c d h e = ground arith
finish_v5_0-Covered max release (some (returned d')) c d h e =
    subst (Covered max c) (some-injective _ _ e) (h (returned d') refl)
finish_v5_0-Covered max release (some (going p d')) c d h e =
    subst (Covered max c) (some-injective _ _ e)
      (deliver_publish-Covered max c d' p release (h (going p d') refl))

-- Sending a PUBLISH of version 5.0, accepted or refused.
pub process_send_v5_0_publish-Covered :
    (p : Publish) (c d : Connection) (max : ℕ)
    → Covered max c c
    → process_send_v5_0_publish p c ≡ some d
    → Covered max c d
unfolding process_send_v5_0_publish Counted state
process_send_v5_0_publish-Covered p c d max h e =
    let P : Stage → Type 0 = λ s. Covered max c (state s) in
    if-Covered max c (validate_maximum_packet_size_send c p.size) _ _ d
      (finish_v5_0-Covered max (release_on_error p c) _ c d (
        then_stage-keeps P (Counted max c) _ (λ p₁ c₁. count_publish p₁ c₁) (λ c₁ w. w)
          (then_stage-keeps P P _ (λ p₁ c₁. resolve_alias (alias_validated p c) p₁ c₁) (λ c₁ w. w)
            (λ s e₁. stay max c c (state s) h (check_publish-SameQuota p c s e₁))
            (λ p₁ c₁ s w e₁.
              stay max c c₁ (state s) w (resolve_alias-SameQuota (alias_validated p c) p₁ c₁ s e₁)))
          (λ p₁ c₁ s w e₁. count_publish-Counted p₁ c c₁ s max w e₁)))
      (λ e₁.
        subst (Covered max c) (some-injective _ _ e₁)
          (stay max c c (refuse packet_too_large c) h (refuse-SameQuota packet_too_large c)))
      e
