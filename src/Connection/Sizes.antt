-- ===== src/Connection/Sizes.antt =====
-- connection/core.rs: the total size of a packet and the encoding of its length.
use mqtt_protocol_core.Common.{ℕ, ◌≡◌, ◌≤◌, ◌+◌, List, some, length, refl}
use mqtt_protocol_core.Vbi.{max_value, from_u32}
use mqtt_protocol_core.Vbi.Encoding.{bytes, from_u32-bytes, length-bytes}
use mqtt_protocol_core.Connection.{remaining_length_to_total_size}

-- For a remaining length that can be encoded, the computed total size is the size of what is on the
-- wire: the byte of the fixed header, the encoding that `from_u32` gives, and the rest.
pub remaining_length_to_total_size-from_u32 :
    (v : ℕ)
    → v ≤ max_value
    → (encoded : List ℕ) × (from_u32 v ≡ some (some encoded))
      × (remaining_length_to_total_size v ≡ 1 + length encoded + v)
unfolding remaining_length_to_total_size
remaining_length_to_total_size-from_u32 v h =
    (bytes v, from_u32-bytes v h, rw (length-bytes v h) refl)
