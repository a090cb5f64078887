-- ===== src/Wire/Property/Sequence.antt =====
-- packet/property.rs: the sequence of properties in a packet, behind its length in bytes.
pub mod Laws
pub mod Total
use mqtt_protocol_core.Common.{
  ℕ, zero, suc, ◌+◌, ◌-◌, ◌≤◌, ◌≡◌, List, [], ◌∷◌, ◌++◌, Option, none, some, ltb, ◌==◌, length,
  take, drop, if◌then◌else◌,
}
use mqtt_protocol_core.ResultCode.{Result, ok, err, malformed_packet}
use mqtt_protocol_core.Vbi.{decode_stream, to_u32}
use mqtt_protocol_core.Vbi
use mqtt_protocol_core.Wire.Property.{Property}
use mqtt_protocol_core.Wire.Property

-- PropertiesToContinuousBuffer.
unfoldable pub to_continuous_buffer : List Property → List ℕ
to_continuous_buffer [] = []
to_continuous_buffer (p ∷ ps) = Property.to_continuous_buffer p ++ to_continuous_buffer ps

-- PropertiesSize.
unfoldable pub size : List Property → ℕ
size [] = 0
size (p ∷ ps) = Property.size p + size ps

-- The `while` loop; the bytes are `data[cursor..props_end]`, and the first number is fuel: each round
-- consumes a byte at least, so the number of bytes suffices. `none` is that the fuel ran out.
pub parse_loop : ℕ → List ℕ → List Property → ℕ → Option (Result (List Property × ℕ))
parse_loop fuel [] props cursor = some (ok (props, cursor))
parse_loop zero (b ∷ bytes) props cursor = none
parse_loop (suc fuel) (b ∷ bytes) props cursor = elim (Property.parse (b ∷ bytes)) [
  | err e ↦ some (err e)
  | ok (p, c) ↦ parse_loop fuel (drop c (b ∷ bytes)) (props ++ p ∷ []) (cursor + c)
]

-- PropertiesParse, once the length is read: its value, how many bytes it took, and the bytes.
pub parse_body : ℕ → ℕ → List ℕ → Option (Result (List Property × ℕ))
unfolding parse_loop
parse_body prop_len consumed bytes =
    if prop_len == 0
    then some (ok ([], consumed))
    else if ltb (length bytes) (consumed + prop_len)
    then some (err malformed_packet)
    else parse_loop prop_len (take prop_len (drop consumed bytes)) [] consumed

-- Every failure of `decode_stream`, and the empty input, is MalformedPacket.
pub parse : List ℕ → Option (Result (List Property × ℕ))
unfolding parse_body
parse [] = some (err malformed_packet)
parse (b ∷ bytes) = elim (decode_stream (b ∷ bytes)) [
  | Vbi.ok vbi consumed ↦ parse_body (to_u32 vbi) consumed (b ∷ bytes)
  | Vbi.incomplete ↦ some (err malformed_packet)
  | Vbi.err e ↦ some (err malformed_packet)
  | Vbi.panicked ↦ none
]
