-- ===== src/Vbi/Encoding.antt =====
-- `from_u32` and `to_u32` of packet/variable_byte_integer.rs in plain arithmetic, and their round trip.
use mqtt_protocol_core.Common.{
  ℕ, suc, ◌+◌, ◌/◌, ◌%◌, ◌≤◌, ◌<◌, ◌≡◌, List, [], ◌∷◌, ◌++◌, none, some, ltb, if◌then◌else◌, length,
  All, arith, ◌⊎◌, inl, inr,
}
use mqtt_protocol_core.Common.Bits.{low_bits, set_top_bit}
use mqtt_protocol_core.Vbi.{max_value, from_u32_loop, from_u32, to_u32_loop, to_u32}
use native.Mathlib.Decide.{dec_le, dec_lt}

-- The bytes of the encoding: seven bits each, the lowest first, all but the last plus 128.
unfoldable pub bytes : ℕ → List ℕ
bytes v =
    if ltb v 128
    then v ∷ []
    else if ltb v 16384
    then (v % 128 + 128) ∷ (v / 128) ∷ []
    else if ltb v 2097152
    then (v % 128 + 128) ∷ (v / 128 % 128 + 128) ∷ (v / 16384) ∷ []
    else (v % 128 + 128) ∷ (v / 128 % 128 + 128) ∷ (v / 16384 % 128 + 128) ∷ (v / 2097152) ∷ []

-- The encoding by its number of bytes.
pub data Shape (v : ℕ) (bs : List ℕ) : Type 0 where
  one : v < 128 → bs ≡ v ∷ [] → Shape v bs
  two : 128 ≤ v → v / 128 < 128 → bs ≡ (v % 128 + 128) ∷ (v / 128) ∷ [] → Shape v bs
  three :
      16384 ≤ v
      → v / 128 / 128 < 128
      → bs ≡ (v % 128 + 128) ∷ (v / 128 % 128 + 128) ∷ (v / 128 / 128) ∷ []
      → Shape v bs
  four :
      2097152 ≤ v
      → v / 128 / 128 / 128 < 128
      → bs
        ≡ (v % 128 + 128)
          ∷ (v / 128 % 128 + 128)
          ∷ (v / 128 / 128 % 128 + 128)
          ∷ (v / 128 / 128 / 128)
          ∷ []
      → Shape v bs

pub bytes_cases : (v : ℕ) → v ≤ max_value → Shape v (bytes v)
unfolding bytes
bytes_cases v h = elim (dec_lt v 128) [
  | yes a ↦ one a (ground arith)
  | no a ↦ elim (dec_lt v 16384) [
    | yes b ↦ two (omega arith) (omega arith) (ground arith)
    | no b ↦ elim (dec_lt v 2097152) [
      | yes c ↦ three (omega arith) (omega arith) (ground arith)
      | no c ↦ four (omega arith) (omega arith) (ground arith)
    ]
  ]
]

-- One round of the loop: the value's last byte, and a byte that others follow.
last_round :
    (room v : ℕ) (buf : List ℕ) → v < 128 → from_u32_loop (suc room) v buf ≡ some (buf ++ v ∷ [])
unfolding from_u32_loop
last_round room v buf h = ground arith

inner_round :
    (room v : ℕ) (buf : List ℕ)
    → 128 ≤ v
    → from_u32_loop (suc room) v buf ≡ from_u32_loop room (v / 128) (buf ++ (v % 128 + 128) ∷ [])
unfolding from_u32_loop
inner_round room v buf h = ground (arith, set_top_bit (v % 128))

loop-bytes : (v : ℕ) → v ≤ max_value → from_u32_loop 4 v [] ≡ some (bytes v)
unfolding bytes
loop-bytes v h =
    let v1 = v / 128 in
    let v2 = v1 / 128 in
    let v3 = v2 / 128 in
    let b0 : List ℕ = (v % 128 + 128) ∷ [] in
    let b1 : List ℕ = b0 ++ (v1 % 128 + 128) ∷ [] in
    let b2 : List ℕ = b1 ++ (v2 % 128 + 128) ∷ [] in
    ground (
      arith,
      last_round 3 v [],
      inner_round 3 v [],
      last_round 2 v1 b0,
      inner_round 2 v1 b0,
      last_round 1 v2 b1,
      inner_round 1 v2 b1,
      last_round 0 v3 b2,
    )

-- The loop neither overruns its four bytes nor fails on a value up to the maximum.
pub from_u32-bytes : (v : ℕ) → v ≤ max_value → from_u32 v ≡ some (some (bytes v))
unfolding from_u32
from_u32-bytes v h = ground (arith, loop-bytes v h)

pub from_u32_above : (v : ℕ) → max_value < v → from_u32 v ≡ some none
unfolding from_u32
from_u32_above v h = ground arith

pub to_u32-bytes : (v : ℕ) → v ≤ max_value → to_u32 (bytes v) ≡ v
unfolding to_u32 to_u32_loop bytes
to_u32-bytes v h = ground (
  arith,
  low_bits v,
  low_bits (v % 128 + 128),
  low_bits (v / 128),
  low_bits (v / 128 % 128 + 128),
  low_bits (v / 16384),
  low_bits (v / 16384 % 128 + 128),
  low_bits (v / 2097152),
)

pub bytes_shape :
    (v : ℕ)
    → v ≤ max_value
    → (1 ≤ length (bytes v)) × (length (bytes v) ≤ 4) × All (λ b. b < 256) (bytes v)
unfolding bytes
bytes_shape v h = ground arith

-- Up to the maximum `from_u32` returns one to four bytes, without a panic, and `to_u32` reads the
-- value back from them; above the maximum it returns none.
pub to_u32-from_u32 :
    (v : ℕ)
    → ((encoded : List ℕ) × (v ≤ max_value)
        × (from_u32 v ≡ some (some encoded))
        × (to_u32 encoded ≡ v)
        × (1 ≤ length encoded)
        × (length encoded ≤ 4)
        × All (λ b. b < 256) encoded)
      ⊎ ((max_value < v) × (from_u32 v ≡ some none))
to_u32-from_u32 v = elim (dec_le v max_value) [
  | yes h ↦
      let (lo, hi, small) = bytes_shape v h in
      inl (bytes v, h, from_u32-bytes v h, to_u32-bytes v h, lo, hi, small)
  | no h ↦ inr (omega arith, from_u32_above v (omega arith))
]

-- The number of bytes by the value's size.
pub length-bytes :
    (v : ℕ)
    → v ≤ max_value
    → length (bytes v)
      ≡ (if ltb v 128 then 1 else if ltb v 16384 then 2 else if ltb v 2097152 then 3 else 4)
unfolding bytes
length-bytes v h = ground arith

pub bytes-pos : (v : ℕ) → 1 ≤ length (bytes v)
unfolding bytes
bytes-pos v = ground arith
