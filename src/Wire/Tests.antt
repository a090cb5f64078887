-- ===== src/Wire/Tests.antt =====
-- The theorems on the parts of packets at one binary, one string and two properties.
use mqtt_protocol_core.Common.{ℕ, ◌≡◌, refl, List, [], ◌∷◌, ◌++◌, ◌+◌, length, some, arith}
use mqtt_protocol_core.ResultCode.{Result, ok}
use mqtt_protocol_core.Vbi.Encoding.{bytes}
use mqtt_protocol_core.Wire.Binary
use mqtt_protocol_core.Wire.Binary.{MqttBinary}
use mqtt_protocol_core.Wire.Binary.Laws.{decode-new}
use mqtt_protocol_core.Wire.Utf8.{is_utf8}
use mqtt_protocol_core.Wire.Text
use mqtt_protocol_core.Wire.Text.{MqttString}
use mqtt_protocol_core.Wire.Text.Laws.{decode-new_text}
use mqtt_protocol_core.Wire.Property.{
  Property, receive_maximum, content_type, to_continuous_buffer, size, parse,
}
use mqtt_protocol_core.Wire.Property.Laws.{
  IsText, IsValid, parse-to_continuous_buffer, length-to_continuous_buffer,
}
use mqtt_protocol_core.Wire.Property.Sequence
use mqtt_protocol_core.Wire.Property.Sequence.Laws.{parse-encoded}
use mqtt_protocol_core.Wire.Property.Sequence.Total.{parse-total}

abbrev data_ref : List ℕ
data_ref = 1 ∷ 2 ∷ 3 ∷ []

abbrev rest : List ℕ
rest = 9 ∷ []

decode-new_example :
    (b : MqttBinary) × (Binary.new data_ref ≡ ok b)
    × (Binary.as_slice b ≡ data_ref)
    × (Binary.size b ≡ 5)
    × (Binary.decode (Binary.as_bytes b ++ rest) ≡ ok (b, Binary.size b))
decode-new_example = decode-new data_ref rest (omega arith)

decode-new_text_example :
    (t : MqttString) × (Text.new (97 ∷ 98 ∷ []) ≡ ok t)
    × (Text.as_str t ≡ 97 ∷ 98 ∷ [])
    × (Text.size t ≡ 4)
    × (Text.decode (Text.as_bytes t ++ rest) ≡ ok (t, Text.size t))
unfolding is_utf8
decode-new_text_example = decode-new_text (97 ∷ 98 ∷ []) rest (omega arith) refl

abbrev text : Property
text = content_type (record { encoded = 0 ∷ 1 ∷ 97 ∷ [] })

text-IsValid : IsValid text
unfolding IsValid IsText is_utf8
text-IsValid = (refl, refl)

receive_maximum-IsValid : IsValid (receive_maximum 513)
unfolding IsValid
receive_maximum-IsValid = (omega arith, omega arith)

parse-to_continuous_buffer_example :
    parse (to_continuous_buffer text ++ rest) ≡ ok (text, size text)
parse-to_continuous_buffer_example = parse-to_continuous_buffer text rest text-IsValid

length-to_continuous_buffer_example : length (to_continuous_buffer text) ≡ size text
length-to_continuous_buffer_example = length-to_continuous_buffer text

abbrev two : List Property
two = text ∷ receive_maximum 513 ∷ []

parse-encoded_example :
    Sequence.parse (bytes (Sequence.size two) ++ (Sequence.to_continuous_buffer two ++ rest))
    ≡ some (ok (two, length (bytes (Sequence.size two)) + Sequence.size two))
unfolding Sequence.size size
parse-encoded_example =
    parse-encoded two rest (text-IsValid, (receive_maximum-IsValid, tt)) (omega arith)

parse-total_example :
    (r : Result (List Property × ℕ)) × (Sequence.parse (3 ∷ 33 ∷ 0 ∷ 0 ∷ []) ≡ some r)
parse-total_example = parse-total (3 ∷ 33 ∷ 0 ∷ 0 ∷ [])
