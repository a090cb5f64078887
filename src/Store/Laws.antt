-- ===== src/Store/Laws.antt =====
-- What connection/store.rs keeps: at most one packet for an identifier, found under its own.
use mqtt_protocol_core.Common.{
  ℕ, ◌≡◌, refl, List, [], ◌∷◌, ◌++◌, none, some, if◌then◌else◌, ◌==◌, arith, ◌⊎◌, inl, inr,
  Option-cases, map,
}
use mqtt_protocol_core.Common.Maps.{nat_key, lookup, insert, lookup-insert}
use mqtt_protocol_core.Packet.{GenericStorePacket, store_packet_id}
use mqtt_protocol_core.Store.{Store, added, conflict, add, get_stored}

-- An insertion under a new key goes to the end.
insert_new :
    (k : ℕ) (v : GenericStorePacket) (m : List (ℕ × GenericStorePacket))
    → lookup k m ≡ none
    → insert k v m ≡ m ++ (k, v) ∷ []
unfolding lookup insert
insert_new k v [] h = refl
insert_new k v ((j, w) ∷ m) h = ground (arith, insert_new k v m)

stored-append :
    (xs : List (ℕ × GenericStorePacket)) (k : ℕ) (v : GenericStorePacket)
    → map (λ e. e.1) (xs ++ (k, v) ∷ []) ≡ map (λ e. e.1) xs ++ v ∷ []
stored-append [] k v = refl
stored-append (x ∷ xs) k v = rw (stored-append xs k v)

-- A packet whose identifier is not in the store is added behind the others and is found under its
-- identifier, and the other identifiers keep theirs; under an identifier that is there the store
-- refuses it and stays as it was.
pub add-lookup :
    (s : Store) (packet : GenericStorePacket) (id j : ℕ)
    → store_packet_id packet ≡ some id
    → ((s' : Store) × (add s packet ≡ some (added, s'))
        × (lookup id s.entries ≡ none)
        × (get_stored s' ≡ get_stored s ++ packet ∷ [])
        × (lookup j s'.entries ≡ (if id == j then some packet else lookup j s.entries)))
      ⊎ ((old : GenericStorePacket) × (lookup id s.entries ≡ some old)
          × (add s packet ≡ some (conflict, s)))
unfolding add get_stored
add-lookup s packet id j e = elim (Option-cases (lookup id s.entries)) [
  | inl free ↦ inl (
    record { entries = insert id packet s.entries },
    rw (e, free, add),
    free,
    rw (insert_new id packet s.entries free) (stored-append s.entries id packet),
    lookup-insert id j packet s.entries,
  )
  | inr (old, there) ↦ inr (old, there, rw (e, there, add))
]
