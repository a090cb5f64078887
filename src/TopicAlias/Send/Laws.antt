-- ===== src/TopicAlias/Send/Laws.antt =====
-- packet/topic_alias_send.rs: what an alias stands for after it was set.
use mqtt_protocol_core.Common.{
  ℕ, ◌≤◌, ◌≡◌, refl, ◌∙◌, Bool, true, false, List, ◌∷◌, none, some, ◌==◌, if◌then◌else◌, arith,
  Bool-cases, inl, inr, Option-cases,
}
use mqtt_protocol_core.Common.Maps.{nat_key, lookup, insert, lookup-insert, lookup-remove}
use mqtt_protocol_core.Allocator
use mqtt_protocol_core.TopicAlias.Send.{
  TopicAliasSend, new, insert_or_update, release_alias, push_alias, peek,
}

-- Releasing an alias leaves the others, and the range.
release_alias-lookup :
    (t : TopicAliasSend) (alias j : ℕ)
    → (alias == j) ≡ false
    → lookup j (release_alias t alias).alias_to_topic ≡ lookup j t.alias_to_topic
unfolding release_alias
release_alias-lookup t alias j h = elim (Option-cases (lookup alias t.alias_to_topic)) [
  | inl e ↦ rw (e, release_alias) refl
  | inr (topic, e) ↦ rw (e, release_alias) (lookup-remove alias j t.alias_to_topic h)
]

release_alias-max :
    (t : TopicAliasSend) (alias : ℕ) → (release_alias t alias).max_alias ≡ t.max_alias
unfolding release_alias
release_alias-max t alias = elim (Option-cases (lookup alias t.alias_to_topic)) [
  | inl e ↦ rw (e, release_alias) refl
  | inr (topic, e) ↦ rw (e, release_alias) refl
]

-- What the allocator's answer leads to.
freed : Bool → TopicAliasSend → ℕ → TopicAliasSend
freed is_new t alias = if is_new then t else release_alias t alias

freed-lookup :
    (is_new : Bool) (t : TopicAliasSend) (alias j : ℕ)
    → (alias == j) ≡ false
    → lookup j (freed is_new t alias).alias_to_topic ≡ lookup j t.alias_to_topic
unfolding freed
freed-lookup true t alias j h = refl
freed-lookup false t alias j h = release_alias-lookup t alias j h

freed-max :
    (is_new : Bool) (t : TopicAliasSend) (alias : ℕ)
    → (freed is_new t alias).max_alias ≡ t.max_alias
unfolding freed
freed-max true t alias = refl
freed-max false t alias = release_alias-max t alias

inserted-lookup :
    (is_new : Bool) (t : TopicAliasSend) (topic : List ℕ) (alias j : ℕ)
    → lookup j (insert alias topic (freed is_new t alias).alias_to_topic)
      ≡ (if alias == j then some topic else lookup j t.alias_to_topic)
inserted-lookup is_new t topic alias j = elim (Bool-cases (alias == j)) [
  | inl e ↦ lookup-insert alias j topic (freed is_new t alias).alias_to_topic ∙ rw (e) refl
  | inr e ↦
      lookup-insert alias j topic (freed is_new t alias).alias_to_topic
      ∙ rw e (freed-lookup is_new t alias j e)
]

-- Setting an alias of the range to a topic cannot panic; the alias then stands for the topic, the
-- others for what they stood for, and the range stays.
pub peek-insert_or_update :
    (t : TopicAliasSend) (x : ℕ) (topic : List ℕ) (alias j : ℕ)
    → 1 ≤ alias
    → alias ≤ t.max_alias
    → (t' : TopicAliasSend) × (insert_or_update t (x ∷ topic) alias ≡ some t')
      × (peek t' j ≡ (if alias == j then some (x ∷ topic) else peek t j))
      × (t'.max_alias ≡ t.max_alias)
unfolding insert_or_update peek freed
peek-insert_or_update t x topic alias j lo hi =
    let used = Allocator.use_value t.value_allocator alias in
    let t₁ : TopicAliasSend = record t { value_allocator = used.1 } in
    let t₂ = freed used.0 t₁ alias in
    (
      record t₂ {
        alias_to_topic = insert alias (x ∷ topic) t₂.alias_to_topic;
        topic_to_aliases = push_alias (x ∷ topic) alias t₂.topic_to_aliases;
      },
      ground arith,
      rw (freed-max used.0 t₁ alias, inserted-lookup used.0 t₁ (x ∷ topic) alias j) (ground arith),
      freed-max used.0 t₁ alias,
    )

-- No aliases at all are refused by the allocator's assertion.
pub new-zero : new 0 ≡ none
unfolding new Allocator.new
new-zero = refl
