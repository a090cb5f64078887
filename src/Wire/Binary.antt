-- ===== src/Wire/Binary.antt =====
-- packet/mqtt_binary.rs, without the features for small buffers: bytes behind their length.
pub mod Laws
use mqtt_protocol_core.Common.{
  ℕ, ◌+◌, ◌-◌, ◌*◌, ◌/◌, ◌%◌, Bool, List, [], ◌∷◌, ltb, ◌==◌, length, take, drop, if◌then◌else◌,
}
use mqtt_protocol_core.ResultCode.{Result, ok, err, malformed_packet}

-- The variant `Large`.
pub record MqttBinary : Type 0 where
  pub encoded : List ℕ

pub new : List ℕ → Result MqttBinary
new bytes =
    if ltb 65535 (length bytes)
    then err malformed_packet
    else ok (record { encoded = (length bytes / 256) ∷ (length bytes % 256) ∷ bytes })

abbrev pub as_bytes : MqttBinary → List ℕ
as_bytes b = b.encoded

abbrev pub as_slice : MqttBinary → List ℕ
as_slice b = drop 2 b.encoded

abbrev pub len : MqttBinary → ℕ
len b = length b.encoded - 2

abbrev pub is_empty : MqttBinary → Bool
is_empty b = len b == 0

abbrev pub size : MqttBinary → ℕ
size b = length b.encoded

abbrev pub to_continuous_buffer : MqttBinary → List ℕ
to_continuous_buffer b = as_bytes b

-- `(x << 8) | y` on two bytes.
abbrev pub be_u16 : ℕ → ℕ → ℕ
be_u16 x y = x * 256 + y

pub decode : List ℕ → Result (MqttBinary × ℕ)
decode [] = err malformed_packet
decode (x ∷ []) = err malformed_packet
decode (x ∷ y ∷ rest) =
    let data_len = be_u16 x y in
    if ltb (2 + length rest) (2 + data_len)
    then err malformed_packet
    else ok (record { encoded = x ∷ y ∷ take data_len rest }, 2 + data_len)
