-- ===== src/TopicAlias/Tests.antt =====
-- The theorems on packet/topic_alias_recv.rs at concrete inputs.
use mqtt_protocol_core.Common.{refl, ◌≡◌, [], ◌∷◌, some, if◌then◌else◌, ◌==◌, arith}
use mqtt_protocol_core.Common.Maps.{lookup}
use mqtt_protocol_core.TopicAlias.Agreement.{Agree, insert_or_update-Agree}
use mqtt_protocol_core.TopicAlias.Send
use mqtt_protocol_core.TopicAlias.Send.{TopicAliasSend}
use mqtt_protocol_core.TopicAlias.Send.Laws.{peek-insert_or_update}
use mqtt_protocol_core.TopicAlias.Recv.{TopicAliasRecv, insert_or_update, get, get-insert_or_update}

abbrev nine : TopicAliasRecv
nine = record { max_alias = 9; aliases = [] }

get-insert_or_update_example :
    (t' : TopicAliasRecv) × (insert_or_update nine (97 ∷ []) 4 ≡ some t')
    × (get t' 5 ≡ (if 4 == 5 then some (97 ∷ []) else get nine 5))
    × (t'.max_alias ≡ nine.max_alias)
get-insert_or_update_example = get-insert_or_update nine 97 [] 4 5 (omega arith) (omega arith)

abbrev sender : TopicAliasSend
sender = record {
  max_alias = 9;
  alias_to_topic = [];
  topic_to_aliases = [];
  value_allocator = record { pool = record { low = 1; high = 9 } ∷ []; lowest = 1; highest = 9 };
}

peek-insert_or_update_example :
    (t' : TopicAliasSend) × (Send.insert_or_update sender (97 ∷ []) 4 ≡ some t')
    × (Send.peek t' 5 ≡ (if 4 == 5 then some (97 ∷ []) else Send.peek sender 5))
    × (t'.max_alias ≡ 9)
peek-insert_or_update_example = peek-insert_or_update sender 97 [] 4 5 (omega arith) (omega arith)

empty-Agree : Agree sender nine
unfolding Agree Send.peek get lookup
empty-Agree = (refl, λ alias. ground arith)

insert_or_update-Agree_example :
    (s' : TopicAliasSend) × (r' : TopicAliasRecv) × (Send.insert_or_update sender (97 ∷ []) 4
      ≡ some s')
    × (insert_or_update nine (97 ∷ []) 4 ≡ some r')
    × Agree s' r'
insert_or_update-Agree_example =
    insert_or_update-Agree sender nine 97 [] 4 empty-Agree (omega arith) (omega arith)
