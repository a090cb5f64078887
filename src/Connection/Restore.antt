-- ===== src/Connection/Restore.antt =====
-- connection/core.rs: taking over the packets that a former connection has stored. An identifier that
-- is in use, and one that the store has, is skipped.
use mqtt_protocol_core.Common.{ℕ, List, [], ◌∷◌, Option, none, some}
use mqtt_protocol_core.Common.Maps.{set_insert}
use mqtt_protocol_core.Packet.{GenericStorePacket, Publish, at_most_once}
use mqtt_protocol_core.ResultCode.{ok, err}
use mqtt_protocol_core.PacketId
use mqtt_protocol_core.Store
use mqtt_protocol_core.Store.{Store}
use mqtt_protocol_core.Connection.{Connection, and_then}
use mqtt_protocol_core.Connection.Publish.{await_answer}

-- `pid_man.register_id(packet_id)`, and then `store.add(packet)`, whose refusal is only logged.
register_stored : GenericStorePacket → ℕ → Connection → Option Connection
register_stored packet packet_id c =
    let (result, m) = PacketId.register_id c.pid_man packet_id in
    let c₁ : Connection = record c { pid_man = m } in
    elim result [
      | err e ↦ some c₁
      | ok u ↦ elim (Store.add c.store packet) [
        | none ↦ none
        | some (outcome, s) ↦ some (record c₁ { store = s })
      ]
    ]

-- A PUBLISH of QoS 0 is skipped; `none` is the panic on a missing identifier.
restore_publish : GenericStorePacket → Publish → Connection → Option Connection
unfolding register_stored
restore_publish packet p c = elim p.qos [
  | at_most_once ↦ some c
  | _ ↦ elim p.packet_id [
    | none ↦ none
    | some packet_id ↦ register_stored packet packet_id (await_answer p.qos packet_id c)
  ]
]

restore_pubrel : GenericStorePacket → ℕ → Connection → Option Connection
unfolding set_insert register_stored
restore_pubrel packet packet_id c =
    register_stored packet packet_id (record c { pid_pubcomp = set_insert packet_id c.pid_pubcomp })

restore_packet : GenericStorePacket → Connection → Option Connection
unfolding restore_publish restore_pubrel
restore_packet (GenericStorePacket.v3_1_1_publish p) c =
    restore_publish (GenericStorePacket.v3_1_1_publish p) p c
restore_packet (GenericStorePacket.v5_0_publish p) c =
    restore_publish (GenericStorePacket.v5_0_publish p) p c
restore_packet (GenericStorePacket.v3_1_1_pubrel p) c =
    restore_pubrel (GenericStorePacket.v3_1_1_pubrel p) p.packet_id c
restore_packet (GenericStorePacket.v5_0_pubrel p) c =
    restore_pubrel (GenericStorePacket.v5_0_pubrel p) p.packet_id c

pub restore_packets : List GenericStorePacket → Connection → Option Connection
unfolding restore_packet and_then
restore_packets [] c = some c
restore_packets (packet ∷ packets) c =
    and_then (restore_packet packet c) (λ c₁. restore_packets packets c₁)

pub get_stored_packets : Connection → List GenericStorePacket
get_stored_packets c = Store.get_stored c.store
