-- ===== src/V3_1_1/Tests.antt =====
-- A PUBLISH of QoS 1 with the topic `a`, the identifier 7 and two bytes, and the PINGREQ behind it.
use mqtt_protocol_core.Common.{ℕ, ◌≡◌, refl, List, [], ◌∷◌, ◌++◌, some, arith}
use mqtt_protocol_core.ResultCode.{ok}
use mqtt_protocol_core.Vbi.Encoding.{bytes}
use mqtt_protocol_core.Builder.{RawPacket, complete, feed, new}
use mqtt_protocol_core.Connection.Receive.{data_as_slice}
use mqtt_protocol_core.Wire.Utf8.{is_utf8}
use mqtt_protocol_core.Wire.Property.Laws.{IsText}
use mqtt_protocol_core.V3_1_1.Publish
use mqtt_protocol_core.V3_1_1.Publish.{GenericPublish}
use mqtt_protocol_core.V3_1_1.Publish.Laws.{parse-body}
use mqtt_protocol_core.V3_1_1.Packet.{publish, body, to_continuous_buffer, parse}
use mqtt_protocol_core.V3_1_1.Packet.Transport.{IsValid, feed-to_continuous_buffer}

abbrev sent : GenericPublish
sent = record {
  fixed_header = 0x32;
  remaining_length = 7 ∷ [];
  topic_name_buf = record { encoded = 0 ∷ 1 ∷ 97 ∷ [] };
  packet_id_buf = some (0, 7);
  payload_buf = 1 ∷ 2 ∷ [];
}

abbrev behind : List ℕ
behind = 0xC0 ∷ 0 ∷ []

sent-IsValid : IsValid (publish sent)
unfolding IsValid IsText is_utf8 bytes
sent-IsValid = record {
  header_lem = refl;
  qos_lem = refl;
  topic = (refl, refl);
  identified = refl;
  framed = refl;
}

feed-to_continuous_buffer_example :
    (r : RawPacket) × (feed new (to_continuous_buffer (publish sent) ++ behind)
      ≡ some (complete r, new, behind))
    × (parse r.fixed_header (data_as_slice r) ≡ some (ok (publish sent)))
unfolding body
feed-to_continuous_buffer_example =
    feed-to_continuous_buffer (publish sent) behind sent-IsValid (omega arith)

-- The parser takes a PUBLISH with the identifier 0.
abbrev zero : GenericPublish
zero = record sent { packet_id_buf = some (0, 0) }

zero-IsValid : Publish.Laws.IsValid zero
unfolding IsText is_utf8 bytes
zero-IsValid = record {
  header_lem = refl;
  qos_lem = refl;
  topic = (refl, refl);
  identified = refl;
  framed = refl;
}

zero_accepted : Publish.parse 2 (0 ∷ 1 ∷ 97 ∷ 0 ∷ 0 ∷ 1 ∷ 2 ∷ []) ≡ some (ok (zero, 7))
zero_accepted = parse-body zero zero-IsValid (omega arith)
