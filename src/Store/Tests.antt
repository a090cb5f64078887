-- ===== src/Store/Tests.antt =====
-- The theorem on connection/store.rs at a concrete store.
use mqtt_protocol_core.Common.{◌≡◌, ◌⊎◌, refl, [], ◌∷◌, ◌++◌, none, some, if◌then◌else◌, ◌==◌}
use mqtt_protocol_core.Common.Maps.{nat_key, lookup}
use mqtt_protocol_core.Packet.{GenericStorePacket, store_packet_id}
use mqtt_protocol_core.Store.{Store, added, conflict, add, get_stored}
use mqtt_protocol_core.Store.Laws.{add-lookup}

abbrev pubrel_1 : GenericStorePacket
pubrel_1 = GenericStorePacket.v3_1_1_pubrel (record { packet_id = 1; size = 4 })

abbrev pubrel_2 : GenericStorePacket
pubrel_2 = GenericStorePacket.v3_1_1_pubrel (record { packet_id = 2; size = 4 })

abbrev holding : Store
holding = record { entries = (1, pubrel_1) ∷ [] }

pubrel_2_id : store_packet_id pubrel_2 ≡ some 2
unfolding store_packet_id
pubrel_2_id = refl

add-lookup_example :
    ((s' : Store) × (add holding pubrel_2 ≡ some (added, s'))
      × (lookup 2 holding.entries ≡ none)
      × (get_stored s' ≡ get_stored holding ++ pubrel_2 ∷ [])
      × (lookup 1 s'.entries ≡ (if 2 == 1 then some pubrel_2 else lookup 1 holding.entries)))
    ⊎ ((old : GenericStorePacket) × (lookup 2 holding.entries ≡ some old)
        × (add holding pubrel_2 ≡ some (conflict, holding)))
add-lookup_example = add-lookup holding pubrel_2 2 1 pubrel_2_id
