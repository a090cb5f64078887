-- ===== src/Builder/Framing.antt =====
-- connection/packet_builder.rs on the bytes of one packet: a fixed header, the remaining length as
-- packet/variable_byte_integer.rs encodes it, and the payload.
use mqtt_protocol_core.Common.{
  take-length, drop-length, ℕ, ◌+◌, ◌*◌, ◌/◌, ◌%◌, ◌≤◌, ◌<◌, ◌≡◌, refl, true, false, List, [], ◌∷◌,
  ◌++◌, some, ltb, ◌==◌, if◌then◌else◌, length, first, arith, ◌∙◌, none, length-append,
}
use mqtt_protocol_core.Common.Bits.{low_bits, top_bit}
use mqtt_protocol_core.Builder.{
  PacketBuilder, remaining_length_state, RawPacket, complete, error, new, normal, publish,
  length_step, feed_loop, feed,
}
use mqtt_protocol_core.Builder.Payload.{payload_at, payload_step_full, feed_loop-payload_at}
use mqtt_protocol_core.Builder.Chunks.{in_length_step, after_length, finish-first}
use mqtt_protocol_core.ResultCode.{malformed_packet}
use mqtt_protocol_core.Vbi.Encoding.{bytes, bytes_cases, Shape, one, two, three, four}
use Prim.Native.Nat.{bit_and}

-- A builder in the middle of the remaining length.
abbrev length_at : List ℕ → ℕ → ℕ → PacketBuilder
length_at header sum m = record {
  state = remaining_length_state;
  header_buf = header;
  remaining_length = sum;
  multiplier = m;
  raw_buf = none;
  raw_buf_offset = 0;
}

abbrev pub packet : ℕ → List ℕ → RawPacket
packet h payload = record {
  fixed_header = h;
  data_bytes = if bit_and h 0xF0 == 0x30 then publish payload else normal payload;
}

-- A byte that others follow.
inner_byte :
    (header tail : List ℕ) (sum g m : ℕ)
    → g < 128
    → m ≤ 16384
    → feed_loop (length_at header sum m) ((g + 128) ∷ tail)
      ≡ feed_loop (length_at (header ++ (g + 128) ∷ []) (sum + g * m) (m * 128)) tail
unfolding length_step after_length
inner_byte header tail sum g m hg hm =
    let low : bit_and (g + 128) 0x7F ≡ g = low_bits (g + 128) (omega arith) ∙ omega arith in
    let fits : ltb (128 * 128 * 128) (m * 128) ≡ false = ground arith in
    let goes_on : (bit_and (g + 128) 0x80 == 0) ≡ false = ground (arith, top_bit (g + 128)) in
    in_length_step (length_at header sum m) (g + 128) tail refl ∙ rw (fits, goes_on, low)

-- A fourth byte is one too many, whatever it is.
fourth_byte :
    (header tail : List ℕ) (sum byte : ℕ)
    → feed_loop (length_at header sum 2097152) (byte ∷ tail)
      ≡ some (error malformed_packet, new, tail)
unfolding length_step after_length
fourth_byte header tail sum byte = in_length_step (length_at header sum 2097152) byte tail refl

-- The last byte: the payload follows, or the packet is complete without one.
last_step :
    (header tail : List ℕ) (sum b m : ℕ)
    → b < 128
    → m ≤ 16384
    → 0 < sum + b * m
    → feed_loop (length_at header sum m) (b ∷ tail)
      ≡ feed_loop (payload_at (header ++ b ∷ []) (sum + b * m) (m * 128) []) tail
unfolding length_step after_length
last_step header tail sum b m hb hm pos =
    let low : bit_and b 0x7F ≡ b = low_bits b (omega arith) ∙ omega arith in
    let fits : ltb (128 * 128 * 128) (m * 128) ≡ false = ground arith in
    let ends : (bit_and b 0x80 == 0) ≡ true = ground (arith, top_bit b) in
    let left : (sum + b * m == 0) ≡ false = ground arith in
    in_length_step (length_at header sum m) b tail refl ∙ rw (fits, ends, low, left)

payload_packet :
    (header payload rest : List ℕ) (h m : ℕ)
    → first header ≡ some h
    → 0 < length payload
    → feed_loop (payload_at header (length payload) m []) (payload ++ rest)
      ≡ some (complete (packet h payload), new, rest)
payload_packet header payload rest h m e pos =
    feed_loop-payload_at header (length payload) m [] (payload ++ rest)
    ∙ payload_step_full header (length payload) m [] (payload ++ rest) pos
        (omega (arith, length-append payload rest))
    ∙ rw (take-length payload rest, drop-length payload rest) (finish-first _ h payload rest e)

-- The last byte of the remaining length, and the payload.
last_byte :
    (header payload rest : List ℕ) (h sum b m : ℕ)
    → first (header ++ b ∷ []) ≡ some h
    → b < 128
    → m ≤ 16384
    → sum + b * m ≡ length payload
    → 0 < length payload
    → feed_loop (length_at header sum m) (b ∷ (payload ++ rest))
      ≡ some (complete (packet h payload), new, rest)
last_byte header payload rest h sum b m hh hb hm e pos =
    last_step header (payload ++ rest) sum b m hb hm (omega arith)
    ∙ rw e (payload_packet (header ++ b ∷ []) payload rest h (m * 128) hh pos)

empty_packet :
    (h : ℕ) (rest : List ℕ)
    → feed_loop (length_at (h ∷ []) 0 1) (0 ∷ rest) ≡ some (complete (packet h []), new, rest)
unfolding length_step after_length
empty_packet h rest =
    in_length_step (length_at (h ∷ []) 0 1) 0 rest refl
    ∙ finish-first (length_at (h ∷ 0 ∷ []) 0 128) h [] rest refl

framed :
    (h : ℕ) (payload rest bs : List ℕ)
    → length payload < 2097152
    → 0 < length payload
    → Shape (length payload) bs
    → feed_loop (length_at (h ∷ []) 0 1) (bs ++ (payload ++ rest))
      ≡ some (complete (packet h payload), new, rest)
framed h payload rest bs small pos (one l e) =
    rw e (
      last_byte (h ∷ []) payload rest h 0 (length payload) 1 refl l (omega arith) (omega arith) pos)
framed h payload rest bs small pos (two lo l e) =
    let n = length payload in
    rw e (
      inner_byte (h ∷ []) _ 0 (n % 128) 1 (omega arith) (omega arith)
      ∙ last_byte _ payload rest h (0 + n % 128 * 1) (n / 128) 128 refl l (omega arith)
          (omega arith) pos)
framed h payload rest bs small pos (three lo l e) =
    let n = length payload in
    rw e (
      inner_byte (h ∷ []) _ 0 (n % 128) 1 (omega arith) (omega arith)
      ∙ inner_byte _ _ (0 + n % 128 * 1) (n / 128 % 128) 128 (omega arith) (omega arith)
      ∙ last_byte _ payload rest h (0 + n % 128 * 1 + n / 128 % 128 * 128) (n / 128 / 128) 16384
          refl l (omega arith) (omega arith) pos)
framed h payload rest bs small pos (four lo l e) = absurd (omega arith)

-- A builder between packets, fed a fixed header, the encoded length of the payload and the payload,
-- returns that packet, leaves what follows unread and is ready for the next one, for every payload
-- shorter than 128 ^ 3 bytes.
pub feed-packet :
    (h : ℕ) (payload rest : List ℕ)
    → length payload < 2097152
    → feed new (h ∷ (bytes (length payload) ++ (payload ++ rest)))
      ≡ some (complete (packet h payload), new, rest)
unfolding feed
feed-packet h [] rest small = unfold bytes in empty_packet h rest
feed-packet h (x ∷ xs) rest small =
    framed h (x ∷ xs) rest (bytes (length (x ∷ xs))) small (omega arith)
      (bytes_cases (length (x ∷ xs)) (omega arith))

overlong :
    (h n : ℕ) (bs rest : List ℕ)
    → 2097152 ≤ n
    → Shape n bs
    → feed_loop (length_at (h ∷ []) 0 1) (bs ++ rest) ≡ some (error malformed_packet, new, rest)
overlong h n bs rest big (one l e) = absurd (omega arith)
overlong h n bs rest big (two lo l e) = absurd (omega arith)
overlong h n bs rest big (three lo l e) = absurd (omega arith)
overlong h n bs rest big (four lo l e) = rw e (
    inner_byte (h ∷ []) _ 0 (n % 128) 1 (omega arith) (omega arith)
    ∙ inner_byte _ _ (0 + n % 128 * 1) (n / 128 % 128) 128 (omega arith) (omega arith)
    ∙ inner_byte _ _ (0 + n % 128 * 1 + n / 128 % 128 * 128) (n / 128 / 128 % 128) 16384
        (omega arith) (omega arith)
    ∙ fourth_byte _ rest _ (n / 128 / 128 / 128))

-- A payload of 128 ^ 3 bytes or more, which the encoding admits, is refused: the builder takes no
-- fourth byte of a remaining length.
pub feed_long :
    (h n : ℕ) (rest : List ℕ)
    → 2097152 ≤ n
    → n ≤ 0x0FFF_FFFF
    → feed new (h ∷ (bytes n ++ rest)) ≡ some (error malformed_packet, new, rest)
unfolding feed
feed_long h n rest lo hi = overlong h n (bytes n) rest lo (bytes_cases n hi)
