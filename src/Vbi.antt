-- ===== src/Vbi.antt =====
-- packet/variable_byte_integer.rs: variable byte integers of one to four bytes. A byte string is a
-- list of numbers; a `VariableByteInteger` is the list of its encoded bytes.
pub mod Encoding
pub mod Streaming
mod Tests
use mqtt_protocol_core.Common.{
  ℕ, zero, suc, ◌+◌, ◌-◌, ◌*◌, ◌/◌, ◌%◌, ◌^◌, Bool, List, [], ◌∷◌, ◌++◌, Option, none, some, ltb,
  ◌==◌, if◌then◌else◌, length, take, min,
}
use Prim.Native.Nat.{bit_and, bit_or}
use mathlib.Core.Option

-- VariableByteInteger::MAX.
abbrev pub max_value : ℕ
max_value = 0x0FFF_FFFF

-- The first argument is the room left in the `ArrayVec`, whose `push` panics when it is full: `none`.
from_u32_loop : ℕ → ℕ → List ℕ → Option (List ℕ)
from_u32_loop zero value buf = none
from_u32_loop (suc room) value buf =
    let low = value % 128 % 256 in
    let value' = value / 128 in
    let byte = if ltb 0 value' then bit_or low 0x80 else low in
    let rest = from_u32_loop room value' (buf ++ byte ∷ []) in
    if value' == 0 then some (buf ++ byte ∷ []) else rest

-- The outer `none` is a panic, the inner one the function's own.
pub from_u32 : ℕ → Option (Option (List ℕ))
from_u32 value =
    if ltb max_value value then some none else Option.map some (from_u32_loop 4 value [])

to_u32_loop : List ℕ → ℕ → ℕ → ℕ
to_u32_loop [] multiplier result = result
to_u32_loop (b ∷ bs) multiplier result =
    to_u32_loop bs (min (multiplier * 128) (2 ^ 32 - 1))
      ((result + bit_and b 0x7F * multiplier) % 2 ^ 32)

pub to_u32 : List ℕ → ℕ
to_u32 encoded = to_u32_loop encoded 1 0

pub data DecodeError : Type 0 where
  too_large encoding_failure too_many_bytes : DecodeError

pub data DecodeResult : Type 0 where
  ok : List ℕ → ℕ → DecodeResult
  incomplete : DecodeResult
  err : DecodeError → DecodeResult
  panicked : DecodeResult

-- `match Self::from_u32(value)`.
complete : Option (Option (List ℕ)) → ℕ → DecodeResult
complete none consumed = panicked
complete (some none) consumed = err encoding_failure
complete (some (some vbi)) consumed = ok vbi consumed

-- The loop over `buf.iter().take(4).enumerate()`; the list is what is left of it. The bytes that the
-- source keeps in `read` are not read again. The product stays below 2 ^ 28, so it does not wrap.
decode_loop : List ℕ → ℕ → ℕ → ℕ → ℕ → DecodeResult
unfolding complete
decode_loop [] total i multiplier value = if ltb total 4 then incomplete else err too_many_bytes
decode_loop (b ∷ bs) total i multiplier value =
    let value' = min (value + bit_and b 0x7F * multiplier % 2 ^ 32) (2 ^ 32 - 1) in
    let multiplier' = if ltb (2 ^ 32 - 1) (multiplier * 128) then 0 else multiplier * 128 in
    let more = decode_loop bs total (i + 1) multiplier' value' in
    if ltb max_value value'
    then err too_large
    else if bit_and b 0x80 == 0
    then complete (from_u32 value') (i + 1)
    else more

pub decode_stream : List ℕ → DecodeResult
decode_stream buf = decode_loop (take 4 buf) (length buf) 0 1 0
