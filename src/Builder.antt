-- ===== src/Builder.antt =====
-- connection/packet_builder.rs: cutting the byte stream into packets. A cursor is the list of the
-- bytes that it has not read; `none` is a panic. A remaining length and a multiplier stay below
-- 128 ^ 4, so that no sum or product wraps.
mod Payload
pub mod Chunks
pub mod Framing
mod Tests
use mqtt_protocol_core.Common.{
  ℕ, ◌+◌, ◌-◌, ◌*◌, Bool, true, false, List, [], ◌∷◌, ◌++◌, Option, none, some, ltb, ◌==◌,
  if◌then◌else◌, length, take, drop, replicate, first, min,
}
use mqtt_protocol_core.ResultCode.{MqttError}
use Prim.Native.Nat.{bit_and}
use mathlib.Core.Option

pub data PacketData : Type 0 where
  normal : List ℕ → PacketData
  publish : List ℕ → PacketData

pub record RawPacket : Type 0 where
  pub fixed_header : ℕ
  pub data_bytes : PacketData

pub data PacketBuildResult : Type 0 where
  complete : RawPacket → PacketBuildResult
  incomplete : PacketBuildResult
  error : MqttError → PacketBuildResult

pub data ReadState : Type 0 where
  fixed_header_state remaining_length_state payload_state : ReadState

pub record PacketBuilder : Type 0 where
  pub state : ReadState
  pub header_buf : List ℕ
  pub remaining_length : ℕ
  pub multiplier : ℕ
  pub raw_buf : Option (List ℕ)
  pub raw_buf_offset : ℕ

abbrev pub new : PacketBuilder
new = record {
  state = fixed_header_state;
  header_buf = [];
  remaining_length = 0;
  multiplier = 1;
  raw_buf = none;
  raw_buf_offset = 0;
}

abbrev pub reset : PacketBuilder → PacketBuilder
reset b = record b {
  state = fixed_header_state;
  header_buf = [];
  remaining_length = 0;
  multiplier = 1;
  raw_buf = none;
  raw_buf_offset = 0;
}

abbrev get_packet_type : PacketBuilder → ℕ
get_packet_type b = Option.get_or (first b.header_buf) 0

abbrev is_publish_packet : PacketBuilder → Bool
is_publish_packet b = bit_and (get_packet_type b) 0xF0 == 0x30

-- `self.header_buf[0]`, the data by the packet's type, and `reset`.
pub finish : PacketBuilder → List ℕ → List ℕ → Option (PacketBuildResult × PacketBuilder × List ℕ)
finish b bytes rest = elim (first b.header_buf) [
  | none ↦ none
  | some fixed_header ↦ some (
    complete (record {
      fixed_header = fixed_header;
      data_bytes = if is_publish_packet b then publish bytes else normal bytes;
    }),
    reset b,
    rest,
  )
]

-- One byte of the remaining length: the result, or the builder that reads on.
pub data LengthStep : Type 0 where
  done : Option (PacketBuildResult × PacketBuilder × List ℕ) → LengthStep
  more : PacketBuilder → LengthStep

-- The loop's `RemainingLength` arm; the list is what follows the byte.
pub length_step : PacketBuilder → ℕ → List ℕ → LengthStep
unfolding finish
length_step b byte rest =
    let b' : PacketBuilder = record b {
      header_buf = b.header_buf ++ byte ∷ [];
      remaining_length = b.remaining_length + bit_and byte 0x7F * b.multiplier;
      multiplier = b.multiplier * 128;
    } in
    if ltb (128 * 128 * 128) b'.multiplier
    then done (some (error MqttError.malformed_packet, reset b', rest))
    else if bit_and byte 0x80 == 0
    then (if b'.remaining_length == 0
        then done (finish b' [] rest)
        else more (record b' { raw_buf = some []; raw_buf_offset = 0; state = payload_state }))
    else more b'

-- `raw_buf.resize(n, 0)`.
abbrev resize : List ℕ → ℕ → List ℕ
resize buf n = take n (buf ++ replicate n 0)

-- The loop's `Payload` arm on the bytes at hand.
pub payload_step : PacketBuilder → List ℕ → Option (PacketBuildResult × PacketBuilder × List ℕ)
unfolding finish
payload_step b bytes = elim b.raw_buf [
  | none ↦ none
  | some raw_buf ↦
      let bytes_to_read = min b.remaining_length (length bytes) in
      let filled =
        take b.raw_buf_offset (resize raw_buf (b.raw_buf_offset + bytes_to_read))
        ++ take bytes_to_read bytes in
      let b' : PacketBuilder = record b {
        raw_buf = some filled;
        raw_buf_offset = b.raw_buf_offset + bytes_to_read;
        remaining_length = b.remaining_length - bytes_to_read;
      } in
      if bytes_to_read == 0
      then some (incomplete, b, bytes)
      else if b'.remaining_length == 0
      then finish (record b' { raw_buf = none }) filled (drop bytes_to_read bytes)
      else some (incomplete, b', drop bytes_to_read bytes)
]

-- The loop of `feed`: each round but the last consumes a byte.
pub feed_loop : PacketBuilder → List ℕ → Option (PacketBuildResult × PacketBuilder × List ℕ)
unfolding payload_step length_step
feed_loop b [] = elim b.state [
  | fixed_header_state ↦ some (incomplete, b, [])
  | remaining_length_state ↦ some (incomplete, b, [])
  | payload_state ↦ payload_step b []
]
feed_loop b (byte ∷ rest) = elim b.state [
  | fixed_header_state ↦
      feed_loop
        (record b { header_buf = b.header_buf ++ byte ∷ []; state = remaining_length_state }) rest
  | remaining_length_state ↦ elim (length_step b byte rest) [
    | done r ↦ r
    | more b' ↦ feed_loop b' rest
  ]
  | payload_state ↦ payload_step b (byte ∷ rest)
]

pub feed : PacketBuilder → List ℕ → Option (PacketBuildResult × PacketBuilder × List ℕ)
unfolding feed_loop
feed b [] = some (incomplete, b, [])
feed b (byte ∷ rest) = feed_loop b (byte ∷ rest)
