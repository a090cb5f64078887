-- ===== src/PacketId.antt =====
-- connection/packet_id_manager.rs: packet identifiers, from one up to the type's maximum.
pub mod Unique
mod Tests
use mqtt_protocol_core.Common.{ℕ, Bool, true, false, Option, none, some}
use mqtt_protocol_core.Allocator.{ValueAllocator}
use mqtt_protocol_core.Allocator
use mqtt_protocol_core.ResultCode.{MqttError, Result, ok, err}

pub record PacketIdManager : Type 0 where
  pub allocator : ValueAllocator

-- The argument is `T::max_value()`; `none` is the allocator's panic.
pub new : ℕ → Option PacketIdManager
new max_value = elim (Allocator.new 1 max_value) [
  | none ↦ none
  | some a ↦ some (record { allocator = a })
]

pub acquire_unique_id : PacketIdManager → Result ℕ × PacketIdManager
acquire_unique_id m = elim (Allocator.allocate m.allocator) [
  | none ↦ (err MqttError.packet_identifier_fully_used, m)
  | some (value, a) ↦ (ok value, record { allocator = a })
]

pub register_id : PacketIdManager → ℕ → Result (Unit {0}) × PacketIdManager
register_id m packet_id =
    let (free, a) = Allocator.use_value m.allocator packet_id in
    let m' : PacketIdManager = record { allocator = a } in
    elim free [ true ↦ (ok tt, m') | false ↦ (err MqttError.packet_identifier_conflict, m') ]

unfoldable pub is_used_id : PacketIdManager → ℕ → Bool
is_used_id m packet_id = Allocator.is_used m.allocator packet_id

pub release_id : PacketIdManager → ℕ → Option PacketIdManager
release_id m packet_id = elim (Allocator.deallocate m.allocator packet_id) [
  | none ↦ none
  | some a ↦ some (record { allocator = a })
]

pub clear : PacketIdManager → PacketIdManager
clear m = record { allocator = Allocator.clear m.allocator }
