-- ===== src/Wire/Text.antt =====
-- packet/mqtt_string.rs, without the features for small buffers: UTF-8 behind its length. A `&str`
-- is the list of its bytes.
pub mod Laws
use mqtt_protocol_core.Common.{
  ℕ, ◌+◌, ◌-◌, ◌/◌, ◌%◌, Bool, List, [], ◌∷◌, ltb, ◌==◌, length, take, drop, if◌then◌else◌,
}
use mqtt_protocol_core.ResultCode.{Result, ok, err, malformed_packet}
use mqtt_protocol_core.Wire.Binary.{be_u16}
use mqtt_protocol_core.Wire.Utf8.{is_utf8}

-- The variant `Large`.
pub record MqttString : Type 0 where
  pub encoded : List ℕ

pub new : List ℕ → Result MqttString
new s =
    if ltb 65535 (length s)
    then err malformed_packet
    else ok (record { encoded = (length s / 256) ∷ (length s % 256) ∷ s })

abbrev pub as_bytes : MqttString → List ℕ
as_bytes s = s.encoded

abbrev pub as_str : MqttString → List ℕ
as_str s = drop 2 s.encoded

abbrev pub len : MqttString → ℕ
len s = length s.encoded - 2

abbrev pub is_empty : MqttString → Bool
is_empty s = len s == 0

abbrev pub size : MqttString → ℕ
size s = length s.encoded

abbrev pub to_continuous_buffer : MqttString → List ℕ
to_continuous_buffer s = as_bytes s

pub decode : List ℕ → Result (MqttString × ℕ)
decode [] = err malformed_packet
decode (x ∷ []) = err malformed_packet
decode (x ∷ y ∷ rest) =
    let string_len = be_u16 x y in
    if ltb (2 + length rest) (2 + string_len)
    then err malformed_packet
    else if is_utf8 (take string_len rest)
    then ok (record { encoded = x ∷ y ∷ take string_len rest }, 2 + string_len)
    else err malformed_packet
