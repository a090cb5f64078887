-- ===== src/Wire/Binary/Laws.antt =====
-- packet/mqtt_binary.rs: what is written is read back, whatever follows.
use mqtt_protocol_core.Common.{
  ℕ, ◌+◌, ◌/◌, ◌%◌, ◌≤◌, ◌≡◌, refl, List, [], ◌∷◌, ◌++◌, length, arith, length-append, take-length,
  sym,
}
use mqtt_protocol_core.ResultCode.{ok}
use mqtt_protocol_core.Wire.Binary.{MqttBinary, new, as_bytes, as_slice, size, decode, be_u16}

-- A length of two bytes and as many bytes behind it.
abbrev pub IsPrefixed : List ℕ → Type 0
IsPrefixed [] = ⊥
IsPrefixed (x ∷ []) = ⊥
IsPrefixed (x ∷ y ∷ rest) = length rest ≡ be_u16 x y

pub prefixed-pos : (bs : List ℕ) → IsPrefixed bs → 1 ≤ length bs
prefixed-pos [] h = absurd h
prefixed-pos (x ∷ bs) h = omega arith

pub decode-append :
    (bs rest : List ℕ)
    → IsPrefixed bs
    → decode (bs ++ rest) ≡ ok (record { encoded = bs }, length bs)
unfolding decode
decode-append [] rest h = absurd h
decode-append (x ∷ []) rest h = absurd h
decode-append (x ∷ y ∷ bs) rest h =
    ground (arith, take-length bs rest, length-append bs rest, sym h)

-- Up to 65,535 bytes can be stored: their slice is what was given, and decoding the encoding with
-- anything behind it gives the binary back and consumes exactly its size.
pub decode-new :
    (data_ref rest : List ℕ)
    → length data_ref ≤ 65535
    → (b : MqttBinary) × (new data_ref ≡ ok b)
      × (as_slice b ≡ data_ref)
      × (size b ≡ 2 + length data_ref)
      × (decode (as_bytes b ++ rest) ≡ ok (b, size b))
unfolding new
decode-new bytes rest h = (
  record { encoded = (length bytes / 256) ∷ (length bytes % 256) ∷ bytes },
  ground arith,
  refl,
  omega arith,
  decode-append ((length bytes / 256) ∷ (length bytes % 256) ∷ bytes) rest (omega arith),
)
