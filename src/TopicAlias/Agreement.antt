-- ===== src/TopicAlias/Agreement.antt =====
-- packet/topic_alias_send.rs and packet/topic_alias_recv.rs: the two ends of a connection agree on
-- what an alias stands for.
use mqtt_protocol_core.Common.{ℕ, ◌≤◌, ◌≡◌, sym, ◌∙◌, List, ◌∷◌, some, arith}
use mqtt_protocol_core.Common.Maps.{nat_key}
use mqtt_protocol_core.TopicAlias.Recv.{TopicAliasRecv}
use mqtt_protocol_core.TopicAlias.Recv
use mqtt_protocol_core.TopicAlias.Send.{TopicAliasSend}
use mqtt_protocol_core.TopicAlias.Send
use mqtt_protocol_core.TopicAlias.Send.Laws.{peek-insert_or_update}

-- The ends allow the same aliases, and each stands for the same topic on both.
unfoldable pub Agree : TopicAliasSend → TopicAliasRecv → Type 0
Agree s r = (s.max_alias ≡ r.max_alias) × ((alias : ℕ) → Send.peek s alias ≡ Recv.get r alias)

-- If the two ends agree, and a PUBLISH sets an alias of the range to a topic, both take it without a
-- panic and agree again.
pub insert_or_update-Agree :
    (s : TopicAliasSend) (r : TopicAliasRecv) (x : ℕ) (topic : List ℕ) (alias : ℕ)
    → Agree s r
    → 1 ≤ alias
    → alias ≤ s.max_alias
    → (s' : TopicAliasSend) × (r' : TopicAliasRecv) × (Send.insert_or_update s (x ∷ topic) alias
        ≡ some s')
      × (Recv.insert_or_update r (x ∷ topic) alias ≡ some r')
      × Agree s' r'
unfolding Agree
insert_or_update-Agree s r x topic alias (m, agree) lo hi =
    let (s', es, _, ms) = peek-insert_or_update s x topic alias alias lo hi in
    let (r', er, _, mr) = Recv.get-insert_or_update r x topic alias alias lo (omega arith) in
    (s', r', es, er, (ms ∙ m ∙ sym mr, same s' r' es er))
  where
    same :
        (s' : TopicAliasSend) (r' : TopicAliasRecv)
        → Send.insert_or_update s (x ∷ topic) alias ≡ some s'
        → Recv.insert_or_update r (x ∷ topic) alias ≡ some r'
        → (j : ℕ) → Send.peek s' j ≡ Recv.get r' j
    same s' r' es er j =
        let (sj, ej, pj, _) = peek-insert_or_update s x topic alias j lo hi in
        let (rj, fj, gj, _) = Recv.get-insert_or_update r x topic alias j lo (omega arith) in
        let ss : s' ≡ sj = cc in
        let rr : r' ≡ rj = cc in let a = agree j in rw (ss, rr) (pj ∙ rw a (sym gj))
