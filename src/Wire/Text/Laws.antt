-- ===== src/Wire/Text/Laws.antt =====
-- packet/mqtt_string.rs: what is written is read back, whatever follows.
use mqtt_protocol_core.Common.{
  ℕ, ◌+◌, ◌/◌, ◌%◌, ◌≤◌, ◌≡◌, refl, sym, true, List, [], ◌∷◌, ◌++◌, length, drop, arith,
  length-append, take-length,
}
use mqtt_protocol_core.ResultCode.{ok}
use mqtt_protocol_core.Wire.Binary.Laws.{IsPrefixed}
use mqtt_protocol_core.Wire.Text.{MqttString, new, as_bytes, as_str, size, decode}
use mqtt_protocol_core.Wire.Utf8.{is_utf8}

pub decode-append :
    (bs rest : List ℕ)
    → IsPrefixed bs
    → is_utf8 (drop 2 bs) ≡ true
    → decode (bs ++ rest) ≡ ok (record { encoded = bs }, length bs)
unfolding decode
decode-append [] rest h u = absurd h
decode-append (x ∷ []) rest h u = absurd h
decode-append (x ∷ y ∷ bs) rest h u =
    ground (arith, take-length bs rest, length-append bs rest, sym h)

-- Up to 65,535 bytes of UTF-8 can be stored: the text of the result is what was given, and decoding
-- the encoding with anything behind it gives the string back and consumes exactly its size.
pub decode-new_text :
    (s rest : List ℕ)
    → length s ≤ 65535
    → is_utf8 s ≡ true
    → (t : MqttString) × (new s ≡ ok t)
      × (as_str t ≡ s)
      × (size t ≡ 2 + length s)
      × (decode (as_bytes t ++ rest) ≡ ok (t, size t))
unfolding new
decode-new_text s rest h u = (
  record { encoded = (length s / 256) ∷ (length s % 256) ∷ s },
  ground arith,
  refl,
  omega arith,
  decode-append ((length s / 256) ∷ (length s % 256) ∷ s) rest (omega arith) u,
)
