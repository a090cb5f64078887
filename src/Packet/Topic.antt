-- ===== src/Packet/Topic.antt =====
-- packet/v5_0/publish.rs: how the connection changes the topic name and the topic alias of a PUBLISH.
-- `none` is a panic of `unwrap`.
use mqtt_protocol_core.Common.{
  ℕ, ◌+◌, Bool, false, List, [], ◌∷◌, ◌++◌, Option, none, some, ◌==◌, ◌||◌, length, if◌then◌else◌,
}
use mqtt_protocol_core.ResultCode.{Result, ok, err, topic_name_invalid, malformed_packet}
use mqtt_protocol_core.Vbi.{from_u32}
use mqtt_protocol_core.Packet.{Publish, at_most_once}
use mqtt_protocol_core.Wire.Property.{Property, topic_alias}
use mqtt_protocol_core.Wire.Property.Sequence
use mqtt_protocol_core.Wire.Text

-- `VariableByteInteger::from_u32(n).unwrap().size()`.
vbi_size : ℕ → Option ℕ
vbi_size n = elim (from_u32 n) [ some (some bytes) ↦ some (length bytes) | _ ↦ none ]

-- The identifier type is `u16`.
packet_id_size : Publish → ℕ
packet_id_size p = elim p.qos [ at_most_once ↦ 0 | _ ↦ elim p.packet_id [ none ↦ 0 | some id ↦ 2 ] ]

-- `recalculate_lengths`, and `size()` of the result.
pub recalculate_lengths : Publish → Option Publish
unfolding vbi_size packet_id_size
recalculate_lengths p =
    let props_size = Sequence.size p.props in
    elim (vbi_size props_size) [
      | none ↦ none
      | some property_length_size ↦
          let remaining_size =
            2
            + length p.topic_name
            + packet_id_size p
            + property_length_size
            + props_size
            + p.payload_len in
          elim (vbi_size remaining_size) [
            | none ↦ none
            | some n ↦ some (record p { size = 1 + n + remaining_size })
          ]
    ]

-- `retain(|prop| !matches!(prop, TopicAlias(_)))`.
pub without_topic_alias : List Property → List Property
without_topic_alias [] = []
without_topic_alias (topic_alias v ∷ ps) = without_topic_alias ps
without_topic_alias (p ∷ ps) = p ∷ without_topic_alias ps

-- `#` or `+`.
pub has_wildcard : List ℕ → Bool
has_wildcard [] = false
has_wildcard (b ∷ bs) = (b == 0x23 || b == 0x2B) || has_wildcard bs

-- The checks on a topic that takes the place of an empty one.
check_topic : List ℕ → List ℕ → Result (Unit {0})
unfolding has_wildcard
check_topic (x ∷ xs) topic = err topic_name_invalid
check_topic [] topic =
    if has_wildcard topic
    then err malformed_packet
    else elim (Text.new topic) [ ok t ↦ ok tt | err e ↦ err e ]

with_lengths : Option Publish → Option (Result Publish)
with_lengths none = none
with_lengths (some p) = some (ok p)

pub remove_topic_alias_add_topic : List ℕ → Publish → Option (Result Publish)
unfolding check_topic without_topic_alias with_lengths recalculate_lengths
remove_topic_alias_add_topic topic p = elim (check_topic p.topic_name topic) [
  | err e ↦ some (err e)
  | ok u ↦
      with_lengths
        (recalculate_lengths (record p { topic_name = topic; props = without_topic_alias p.props }))
]

pub remove_topic_alias : Publish → Option Publish
unfolding without_topic_alias recalculate_lengths
remove_topic_alias p = recalculate_lengths (record p { props = without_topic_alias p.props })

pub add_extracted_topic_name : List ℕ → Publish → Option (Result Publish)
unfolding check_topic with_lengths recalculate_lengths
add_extracted_topic_name topic p = elim (check_topic p.topic_name topic) [
  | err e ↦ some (err e)
  | ok u ↦ with_lengths (recalculate_lengths (record p { topic_name = topic }))
]

-- The alias zero is refused by `TopicAlias::new`, whose result is unwrapped.
pub remove_topic_add_topic_alias : ℕ → Publish → Option Publish
unfolding without_topic_alias recalculate_lengths
remove_topic_add_topic_alias alias p =
    if alias == 0
    then none
    else recalculate_lengths (record p {
      topic_name = [];
      props = without_topic_alias p.props ++ topic_alias alias ∷ [];
    })
