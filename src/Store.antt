-- ===== src/Store.antt =====
-- connection/store.rs: the packets to send again, by identifier, in insertion order.
pub mod Laws
mod Tests
use mqtt_protocol_core.Common.{
  ℕ, Bool, true, false, List, [], ◌∷◌, ◌++◌, Option, none, some, if◌then◌else◌, map,
}
use mqtt_protocol_core.Common.Maps.{nat_key, lookup, insert, remove}
use mqtt_protocol_core.Packet.{GenericStorePacket, ResponsePacket, store_packet_id, response_packet}

pub record Store : Type 0 where
  pub entries : List (ℕ × GenericStorePacket)

abbrev pub new : Store
new = record { entries = [] }

pub data AddResult : Type 0 where
  added conflict : AddResult

-- `none` is the panic of the packet's `packet_id`; `conflict` is PacketIdentifierConflict.
pub add : Store → GenericStorePacket → Option (AddResult × Store)
unfolding lookup insert
add s packet = elim (store_packet_id packet) [
  | none ↦ none
  | some id ↦ elim (lookup id s.entries) [
    | some _ ↦ some (conflict, s)
    | none ↦ some (added, record { entries = insert id packet s.entries })
  ]
]

response_eq : ResponsePacket → ResponsePacket → Bool
response_eq ResponsePacket.v3_1_1_puback ResponsePacket.v3_1_1_puback = true
response_eq ResponsePacket.v3_1_1_pubrec ResponsePacket.v3_1_1_pubrec = true
response_eq ResponsePacket.v3_1_1_pubcomp ResponsePacket.v3_1_1_pubcomp = true
response_eq ResponsePacket.v5_0_puback ResponsePacket.v5_0_puback = true
response_eq ResponsePacket.v5_0_pubrec ResponsePacket.v5_0_pubrec = true
response_eq ResponsePacket.v5_0_pubcomp ResponsePacket.v5_0_pubcomp = true
response_eq _ _ = false

-- Whether something was removed; `none` is the panic of `response_packet`.
unfoldable pub erase : Store → ResponsePacket → ℕ → Option (Bool × Store)
unfolding lookup remove response_eq
erase s response packet_id = elim (lookup packet_id s.entries) [
  | none ↦ some (false, s)
  | some pkt ↦ elim (response_packet pkt) [
    | none ↦ none
    | some r ↦
        if response_eq r response
        then some (true, record { entries = remove packet_id s.entries })
        else some (false, s)
  ]
]

is_publish_response : ResponsePacket → Bool
is_publish_response ResponsePacket.v3_1_1_puback = true
is_publish_response ResponsePacket.v3_1_1_pubrec = true
is_publish_response ResponsePacket.v5_0_puback = true
is_publish_response ResponsePacket.v5_0_pubrec = true
is_publish_response _ = false

pub erase_publish : Store → ℕ → Option (Bool × Store)
unfolding lookup remove is_publish_response
erase_publish s packet_id = elim (lookup packet_id s.entries) [
  | none ↦ some (false, s)
  | some pkt ↦ elim (response_packet pkt) [
    | none ↦ none
    | some r ↦
        if is_publish_response r
        then some (true, record { entries = remove packet_id s.entries })
        else some (false, s)
  ]
]

pub clear : Store → Store
clear s = record { entries = [] }

pub get_stored : Store → List GenericStorePacket
get_stored s = map (λ e. e.1) s.entries

-- The loop of `for_each` over a closure that changes a state and says whether to keep the packet: the
-- identifiers to remove. `none` is a panic of the closure.
pub for_each_loop {ℓ} :
    {S : Type ℓ}
    → (GenericStorePacket → S → Option (Bool × S))
    → List (ℕ × GenericStorePacket)
    → List ℕ
    → S
    → Option (List ℕ × S)
for_each_loop func [] to_remove state = some (to_remove, state)
for_each_loop func ((id, pkt) ∷ rest) to_remove state = elim (func pkt state) [
  | none ↦ none
  | some (keep, state') ↦
      for_each_loop func rest (if keep then to_remove else to_remove ++ id ∷ []) state'
]

pub remove_all : List ℕ → List (ℕ × GenericStorePacket) → List (ℕ × GenericStorePacket)
unfolding remove
remove_all [] m = m
remove_all (id ∷ ids) m = remove_all ids (remove id m)

pub for_each {ℓ} :
    {S : Type ℓ} → (GenericStorePacket → S → Option (Bool × S)) → Store → S → Option (Store × S)
unfolding for_each_loop remove_all
for_each func s state = elim (for_each_loop func s.entries [] state) [
  | none ↦ none
  | some (to_remove, state') ↦ some (record { entries = remove_all to_remove s.entries }, state')
]
