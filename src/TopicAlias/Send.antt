-- ===== src/TopicAlias/Send.antt =====
-- packet/topic_alias_send.rs: the aliases in use for sending, with the least recently used one first.
-- `none` is a failed `assert!`.
pub mod Laws
use mqtt_protocol_core.Common.{
  ℕ, List, [], ◌∷◌, ◌++◌, Option, none, some, leb, ltb, ◌==◌, ◌&&◌, if◌then◌else◌,
}
use mqtt_protocol_core.Common.Maps.{nat_key, bytes_key, lookup, insert, remove}
use mqtt_protocol_core.Allocator.{ValueAllocator}
use mqtt_protocol_core.Allocator
use mqtt_protocol_core.TopicAlias.Recv.{min_alias, is_acceptable}

pub record TopicAliasSend : Type 0 where
  pub max_alias : ℕ
  pub alias_to_topic : List (ℕ × List ℕ)
  pub topic_to_aliases : List (List ℕ × List ℕ)
  pub value_allocator : ValueAllocator

pub new : ℕ → Option TopicAliasSend
new max_alias = elim (Allocator.new min_alias max_alias) [
  | none ↦ none
  | some a ↦ some (record {
    max_alias = max_alias;
    alias_to_topic = [];
    topic_to_aliases = [];
    value_allocator = a;
  })
]

-- `aliases.retain(|&a| a != alias)`.
retain_other : ℕ → List ℕ → List ℕ
retain_other alias [] = []
retain_other alias (a ∷ xs) =
    if a == alias then retain_other alias xs else a ∷ retain_other alias xs

-- Taking the alias out of the old topic's list, and the list out when it is empty.
unlink : ℕ → List ℕ → List (List ℕ × List ℕ) → List (List ℕ × List ℕ)
unfolding lookup insert remove retain_other
unlink alias old_topic m = elim (lookup old_topic m) [
  | none ↦ m
  | some aliases ↦ elim (retain_other alias aliases) [
    | [] ↦ remove old_topic m
    | a ∷ rest ↦ insert old_topic (a ∷ rest) m
  ]
]

-- The old mapping of an alias that is in use is removed.
release_alias : TopicAliasSend → ℕ → TopicAliasSend
unfolding lookup remove unlink
release_alias t alias = elim (lookup alias t.alias_to_topic) [
  | none ↦ t
  | some old_topic ↦ record t {
    alias_to_topic = remove alias t.alias_to_topic;
    topic_to_aliases = unlink alias old_topic t.topic_to_aliases;
  }
]

-- `entry(topic).or_insert_with(Vec::new).push(alias)`.
push_alias : List ℕ → ℕ → List (List ℕ × List ℕ) → List (List ℕ × List ℕ)
unfolding lookup insert
push_alias topic alias m = elim (lookup topic m) [
  | none ↦ insert topic (alias ∷ []) m
  | some aliases ↦ insert topic (aliases ++ alias ∷ []) m
]

pub insert_or_update : TopicAliasSend → List ℕ → ℕ → Option TopicAliasSend
unfolding insert release_alias push_alias
insert_or_update t topic alias =
    let (is_new_alias, a) = Allocator.use_value t.value_allocator alias in
    let t₁ : TopicAliasSend = record t { value_allocator = a } in
    let t₂ = if is_new_alias then t₁ else release_alias t₁ alias in
    if is_acceptable topic alias t.max_alias
    then some (record t₂ {
      alias_to_topic = insert alias topic t₂.alias_to_topic;
      topic_to_aliases = push_alias topic alias t₂.topic_to_aliases;
    })
    else none

-- The topic found, and the map with the alias moved to the end.
pub get : TopicAliasSend → ℕ → Option (List ℕ) × TopicAliasSend
unfolding lookup insert remove
get t alias =
    if leb min_alias alias && leb alias t.max_alias
    then elim (lookup alias t.alias_to_topic) [
      | none ↦ (none, t)
      | some topic ↦ (
        some topic,
        record t { alias_to_topic = insert alias topic (remove alias t.alias_to_topic) },
      )
    ]
    else (none, t)

unfoldable pub peek : TopicAliasSend → ℕ → Option (List ℕ)
unfolding lookup
peek t alias =
    if leb min_alias alias && leb alias t.max_alias then lookup alias t.alias_to_topic else none

pub find_by_topic : TopicAliasSend → List ℕ → Option ℕ
unfolding lookup
find_by_topic t topic = elim (lookup topic t.topic_to_aliases) [
  | none ↦ none
  | some [] ↦ none
  | some (a ∷ rest) ↦ some a
]

pub clear : TopicAliasSend → TopicAliasSend
clear t = record t {
  alias_to_topic = [];
  topic_to_aliases = [];
  value_allocator = Allocator.clear t.value_allocator;
}

pub get_lru_alias : TopicAliasSend → Option ℕ
get_lru_alias t =
    if ltb 0 t.max_alias
    then elim (Allocator.first_vacant t.value_allocator) [
      | some alias ↦ some alias
      | none ↦ elim t.alias_to_topic [ [] ↦ some min_alias | (alias, topic) ∷ rest ↦ some alias ]
    ]
    else none
