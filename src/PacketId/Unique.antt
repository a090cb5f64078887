-- ===== src/PacketId/Unique.antt =====
-- Packet identifiers in use are never handed out again: connection/packet_id_manager.rs.
use mqtt_protocol_core.Common.{
  ℕ, ◌≤◌, ◌≡◌, ◌⊎◌, inl, inr, refl, true, false, none, some, if◌then◌else◌, ◌==◌, Option-cases,
  Bool-cases,
}
use mqtt_protocol_core.Allocator
use mqtt_protocol_core.Allocator.Pool.{add}
use mqtt_protocol_core.Allocator.Laws.{
  IsValid, allocate-is_used, allocate-total, deallocate-add, add-is_used,
}
use mqtt_protocol_core.PacketId.{PacketIdManager, acquire_unique_id, is_used_id, release_id}
use mqtt_protocol_core.ResultCode.{packet_identifier_fully_used, ok, err}

-- The manager's allocator is valid, and identifiers begin with one.
pub record IsSound (m : PacketIdManager) : Type 0 where
  pub valid : IsValid m.allocator
  pub from_one : m.allocator.lowest ≡ 1

-- A fresh identifier was not in use, is in use afterwards, and no other identifier changes; the only
-- failure is that every identifier is in use.
pub acquire_unique_id-is_used_id :
    (m : PacketIdManager) (w : ℕ)
    → IsSound m
    → ((v : ℕ) × (m' : PacketIdManager) × (acquire_unique_id m ≡ (ok v, m'))
        × (is_used_id m v ≡ false)
        × (is_used_id m' w ≡ (if w == v then true else is_used_id m w))
        × IsValid m'.allocator)
      ⊎ ((acquire_unique_id m ≡ (err packet_identifier_fully_used, m)) × (is_used_id m w ≡ true))
unfolding acquire_unique_id is_used_id
acquire_unique_id-is_used_id m w s = elim (Option-cases (Allocator.allocate m.allocator)) [
  | inl e ↦ inr (rw (e, acquire_unique_id), full e)
  | inr ((v, a), e) ↦
      let (free, after, iv) = allocate-is_used m.allocator a v w s.valid e in
      inl (v, record { allocator = a }, rw (e, acquire_unique_id), free, after, iv)
]
  where
    full : Allocator.allocate m.allocator ≡ none → Allocator.is_used m.allocator w ≡ true
    full e = elim (Bool-cases (Allocator.is_used m.allocator w)) [
      | inl used ↦ used
      | inr free ↦ let (v, a, f, l) = allocate-total m.allocator w s.valid free in cc
    ]

-- Releasing an identifier in use takes it out of use and no other; it cannot fail, and the manager
-- stays valid with the same range.
pub release_id-is_used_id :
    (m : PacketIdManager) (v w : ℕ)
    → IsValid m.allocator
    → m.allocator.lowest ≤ v
    → v ≤ m.allocator.highest
    → is_used_id m v ≡ true
    → (m' : PacketIdManager) × (release_id m v ≡ some m')
      × (is_used_id m' w ≡ (if w == v then false else is_used_id m w))
      × IsValid m'.allocator
      × (m'.allocator.lowest ≡ m.allocator.lowest)
      × (m'.allocator.highest ≡ m.allocator.highest)
unfolding release_id is_used_id
release_id-is_used_id m v w iv lo hi used =
    let (same, valid) = add-is_used m.allocator v w iv lo hi used in
    (
      record { allocator = record m.allocator { pool = add v m.allocator.pool } },
      rw (deallocate-add m.allocator v iv lo hi used, release_id) refl,
      same,
      valid,
      refl,
      refl,
    )
