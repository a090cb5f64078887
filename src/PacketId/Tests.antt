-- ===== src/PacketId/Tests.antt =====
-- The theorems on connection/packet_id_manager.rs at concrete managers.
use mqtt_protocol_core.Common.{ℕ, ◌≡◌, ◌⊎◌, refl, true, false, [], ◌∷◌, if◌then◌else◌, ◌==◌, arith}
use mqtt_protocol_core.Allocator.Laws.{IsValid}
use mqtt_protocol_core.PacketId.{PacketIdManager, acquire_unique_id, is_used_id}
use mqtt_protocol_core.PacketId.Unique.{IsSound, acquire_unique_id-is_used_id}
use mqtt_protocol_core.ResultCode.{packet_identifier_fully_used, ok, err}

-- The identifiers 1 to 4 of 1 to 9 are in use.
abbrev pub manager : PacketIdManager
manager = record {
  allocator = record { pool = record { low = 5; high = 9 } ∷ []; lowest = 1; highest = 9 };
}

manager-IsSound : IsSound manager
manager-IsSound = record {
  valid = record { ordered = omega arith; separated = omega arith };
  from_one = refl;
}

acquire_unique_id-is_used_id_example :
    ((v : ℕ) × (m' : PacketIdManager) × (acquire_unique_id manager ≡ (ok v, m'))
      × (is_used_id manager v ≡ false)
      × (is_used_id m' 7 ≡ (if 7 == v then true else is_used_id manager 7))
      × IsValid m'.allocator)
    ⊎ ((acquire_unique_id manager ≡ (err packet_identifier_fully_used, manager))
        × (is_used_id manager 7 ≡ true))
acquire_unique_id-is_used_id_example = acquire_unique_id-is_used_id manager 7 manager-IsSound
