-- ===== src/Vbi/Tests.antt =====
-- Runs of packet/variable_byte_integer.rs, and its theorems at concrete inputs.
use mqtt_protocol_core.Common.{
  ℕ, List, All, ◌≤◌, ◌<◌, ◌⊎◌, none, ◌≡◌, refl, [], ◌∷◌, ◌++◌, some, length, take, arith,
}
use mqtt_protocol_core.Vbi.{
  max_value, to_u32, from_u32_loop, from_u32, decode_loop, decode_stream, ok, incomplete, err,
  too_many_bytes,
}
use mqtt_protocol_core.Vbi.Encoding.{bytes, to_u32-from_u32}
use mqtt_protocol_core.Vbi.Streaming.{decode_stream-bytes, decode_stream_prefix}

from_u32_300 : from_u32 300 ≡ some (some (0xAC ∷ 0x02 ∷ []))
unfolding from_u32 from_u32_loop
from_u32_300 = refl

-- A padded form, which `from_u32` never writes, is accepted: two bytes are consumed for one.
decode_stream_padded : decode_stream (0x80 ∷ 0x00 ∷ 7 ∷ []) ≡ ok (0x00 ∷ []) 2
unfolding decode_stream decode_loop from_u32 from_u32_loop
decode_stream_padded = refl

decode_stream_five : decode_stream (0x80 ∷ 0x80 ∷ 0x80 ∷ 0x80 ∷ 0x01 ∷ []) ≡ err too_many_bytes
unfolding decode_stream decode_loop
decode_stream_five = refl

decode_stream-bytes_example :
    decode_stream (bytes 300 ++ 9 ∷ []) ≡ ok (bytes 300) (length (bytes 300))
decode_stream-bytes_example = decode_stream-bytes 300 (9 ∷ []) (omega arith)

decode_stream_prefix_example : decode_stream (take 1 (bytes 300)) ≡ incomplete
unfolding bytes
decode_stream_prefix_example = decode_stream_prefix 300 1 (omega arith) (omega arith)

to_u32-from_u32_example :
    ((encoded : List ℕ) × (300 ≤ max_value)
      × (from_u32 300 ≡ some (some encoded))
      × (to_u32 encoded ≡ 300)
      × (1 ≤ length encoded)
      × (length encoded ≤ 4)
      × All (λ b. b < 256) encoded)
    ⊎ ((max_value < 300) × (from_u32 300 ≡ some none))
to_u32-from_u32_example = to_u32-from_u32 300
