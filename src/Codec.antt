-- ===== src/Codec.antt =====
-- What the modules of the packets share: parsing that may fail or panic, the encoded length, and the
-- masks on a byte. In the result of a `parse` or `build`, `none` is a panic.
pub mod Laws
use mqtt_protocol_core.Common.{
  ℕ, zero, suc, drop, ◌+◌, ◌/◌, ◌%◌, ◌^◌, ◌≤◌, ◌≡◌, refl, Bool, true, false, List, [], ◌∷◌, ◌++◌,
  Option, none, some, length, ◌==◌, ◌&&◌, if◌then◌else◌, arith, ap, ◌∙◌,
}
use mqtt_protocol_core.ResultCode.{Result, ok, err, MqttError, malformed_packet}
use mqtt_protocol_core.Wire.Text.{MqttString}
use mqtt_protocol_core.Wire.Text
use mqtt_protocol_core.Wire.Binary.{MqttBinary}
use mqtt_protocol_core.Wire.Binary
use mqtt_protocol_core.Vbi.{from_u32, to_u32, max_value}
use mqtt_protocol_core.Vbi.Encoding.{bytes, from_u32-bytes, to_u32-bytes, length-bytes}

infixl 5 ◌>>=◌
abbrev pub ◌>>=◌ {ℓ κ} :
    {A : Type ℓ} {B : Type κ} → Option (Result A) → (A → Option (Result B)) → Option (Result B)
none >>= f = none
some (err e) >>= f = some (err e)
some (ok a) >>= f = f a

abbrev pub pass {ℓ} : {A : Type ℓ} → A → Option (Result A)
pass a = some (ok a)

abbrev pub fail {ℓ} : {A : Type ℓ} → MqttError → Option (Result A)
fail e = some (err e)

-- `map_err(|_| e)`.
abbrev pub map_err {ℓ} : {A : Type ℓ} → MqttError → Result A → Result A
map_err e (ok a) = ok a
map_err e (err d) = err e

-- `unwrap`.
pub unwrap {ℓ} : {A : Type ℓ} → Option (Option A) → Option (Result A)
unwrap (some (some a)) = pass a
unwrap o = none

-- `VariableByteInteger::from_u32(n as u32).unwrap()`.
pub vbi : ℕ → Option (Result (List ℕ))
unfolding unwrap
vbi n = unwrap (from_u32 (n % 2 ^ 32))

pub vbi-bytes : (n : ℕ) → n ≤ max_value → vbi n ≡ some (ok (bytes n))
unfolding vbi
vbi-bytes n h =
    let e : n % 2 ^ 32 ≡ n = omega arith in ap unwrap (ap from_u32 e ∙ from_u32-bytes n h)

-- Bit `k` of a byte, `(x & (1 << k)) != 0`.
abbrev pub has_bit : ℕ → ℕ → Bool
has_bit x k = (x / 2 ^ k) % 2 == 1

-- `v as u8`.
abbrev pub bool_u8 : Bool → ℕ
bool_u8 true = 1
bool_u8 false = 0

-- PacketIdType is `u16`, and its buffer the two bytes.
abbrev pub is_zero_id : ℕ × ℕ → Bool
is_zero_id id = id.0 == 0 && id.1 == 0

abbrev pub id_bytes : ℕ × ℕ → List ℕ
id_bytes id = id.0 ∷ id.1 ∷ []

-- `1 + self.remaining_length.size() + self.remaining_length.to_u32()`.
abbrev pub total_size : List ℕ → ℕ
total_size remaining_length = 1 + length remaining_length + to_u32 remaining_length

-- `to_buffer` and `from_buffer`.
abbrev pub id_of : ℕ → ℕ × ℕ
id_of id = (id / 256, id % 256)

-- The reads below give the value and the data behind the cursor.
unfoldable pub read_id : List ℕ → Result ((ℕ × ℕ) × List ℕ)
read_id (x ∷ y ∷ rest) = ok ((x, y), rest)
read_id short = err malformed_packet

-- What a `decode` consumed, as the data behind it.
pub advance : {A : Type 0} → Result (A × ℕ) → List ℕ → Result (A × List ℕ)
advance (ok (a, consumed)) bs = ok (a, drop consumed bs)
advance (err e) bs = err e

pub read_text : List ℕ → Result (MqttString × List ℕ)
unfolding advance
read_text bs = advance (Text.decode bs) bs

pub read_binary : List ℕ → Result (MqttBinary × List ℕ)
unfolding advance
read_binary bs = advance (Binary.decode bs) bs

-- `while cursor < data.len()` over codes of one byte; the bytes are kept.
pub read_codes : {Code : Type 0} → (ℕ → Option Code) → List ℕ → Result (List ℕ)
read_codes from_u8 [] = ok []
read_codes from_u8 (rc ∷ rest) = elim (from_u8 rc) [
  | none ↦ err malformed_packet
  | some c ↦ elim (read_codes from_u8 rest) [ ok codes ↦ ok (rc ∷ codes) | err e ↦ err e ]
]

-- `while cursor < data.len()` over entries. The first number is fuel: each round consumes a byte at
-- least, so the number of bytes suffices. `none` is that the fuel ran out.
pub read_many :
    {A : Type 0} → (List ℕ → Result (A × ℕ)) → ℕ → List ℕ → List A → Option (Result (List A))
read_many entry fuel [] entries = pass entries
read_many entry zero (b ∷ bs) entries = none
read_many entry (suc fuel) (b ∷ bs) entries = elim (entry (b ∷ bs)) [
  | err e ↦ fail e
  | ok (a, consumed) ↦ read_many entry fuel (drop consumed (b ∷ bs)) (entries ++ a ∷ [])
]

-- `entries.iter().map(|e| e.size()).sum()`.
abbrev pub sum_of : {A : Type 0} → (A → ℕ) → List A → ℕ
sum_of size [] = 0
sum_of size (a ∷ xs) = size a + sum_of size xs

-- The encodings one behind the other.
abbrev pub concat_of : {A : Type 0} → (A → List ℕ) → List A → List ℕ
concat_of bytes [] = []
concat_of bytes (a ∷ xs) = bytes a ++ concat_of bytes xs

-- `is_empty`.
abbrev pub is_nil : {A : Type 0} → List A → Bool
is_nil [] = true
is_nil (x ∷ xs) = false
