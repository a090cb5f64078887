-- ===== src/TopicAlias/Recv.antt =====
-- packet/topic_alias_recv.rs: the aliases that the peer has set. `none` is a failed `assert!`.
use mqtt_protocol_core.Common.{
  ℕ, ◌≤◌, ◌≡◌, Bool, false, List, [], ◌∷◌, Option, none, some, leb, ◌==◌, ◌&&◌, if◌then◌else◌,
  arith, refl,
}
use mqtt_protocol_core.Common.Maps.{nat_key, lookup, insert, lookup-insert}

pub record TopicAliasRecv : Type 0 where
  pub max_alias : ℕ
  pub aliases : List (ℕ × List ℕ)

abbrev pub min_alias : ℕ
min_alias = 1

pub new : ℕ → TopicAliasRecv
new max_alias = record { max_alias = max_alias; aliases = [] }

-- `!topic.is_empty() && alias >= MIN_ALIAS && alias <= self.max_alias`.
abbrev pub is_acceptable : List ℕ → ℕ → ℕ → Bool
is_acceptable [] alias max_alias = false
is_acceptable (x ∷ xs) alias max_alias = leb min_alias alias && leb alias max_alias

pub insert_or_update : TopicAliasRecv → List ℕ → ℕ → Option TopicAliasRecv
unfolding insert
insert_or_update t topic alias =
    if is_acceptable topic alias t.max_alias
    then some (record t { aliases = insert alias topic t.aliases })
    else none

unfoldable pub get : TopicAliasRecv → ℕ → Option (List ℕ)
unfolding lookup
get t alias = if leb min_alias alias && leb alias t.max_alias then lookup alias t.aliases else none

pub peek : TopicAliasRecv → ℕ → Option (List ℕ)
unfolding get
peek t alias = get t alias

pub clear : TopicAliasRecv → TopicAliasRecv
clear t = record t { aliases = [] }

-- A topic that is set under an alias of the range is what `get` finds there; the other aliases keep
-- their topics.
pub get-insert_or_update :
    (t : TopicAliasRecv) (x : ℕ) (topic : List ℕ) (alias other : ℕ)
    → 1 ≤ alias
    → alias ≤ t.max_alias
    → (t' : TopicAliasRecv) × (insert_or_update t (x ∷ topic) alias ≡ some t')
      × (get t' other ≡ (if alias == other then some (x ∷ topic) else get t other))
      × (t'.max_alias ≡ t.max_alias)
unfolding insert_or_update get
get-insert_or_update t x topic alias other lo hi = (
  record t { aliases = insert alias (x ∷ topic) t.aliases },
  ground arith,
  ground (arith, lookup-insert alias other (x ∷ topic) t.aliases),
  refl,
)
