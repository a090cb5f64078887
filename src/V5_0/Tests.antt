-- ===== src/V5_0/Tests.antt =====
-- A PUBACK of version 5.0 with a reason code and a reason string.
use mqtt_protocol_core.Common.{◌≡◌, refl, [], ◌∷◌, some, length, arith}
use mqtt_protocol_core.ResultCode.{ok}
use mqtt_protocol_core.ResultCode.Codes.{puback_reason_from_u8}
use mqtt_protocol_core.Vbi.Encoding.{bytes}
use mqtt_protocol_core.Wire.Utf8.{is_utf8}
use mqtt_protocol_core.Wire.Property.{reason_string, size, to_continuous_buffer}
use mqtt_protocol_core.Wire.Property.Laws.{IsText}
use mqtt_protocol_core.Wire.Property.Laws as PropertyLaws
use mqtt_protocol_core.Wire.Property.Sequence
use mqtt_protocol_core.V5_0.Ack.{GenericAck, body, parse, validate_properties}
use mqtt_protocol_core.V5_0.Ack.Laws.{IsValid, parse-body}

abbrev explained : GenericAck
explained = record {
  fixed_header = 0x40;
  remaining_length = 8 ∷ [];
  packet_id_buf = (0, 7);
  tail = record {
    reason_code_buf = some 0x87;
    property_length = some (4 ∷ []);
    props = some (reason_string (record { encoded = 0 ∷ 1 ∷ 97 ∷ [] }) ∷ []);
  };
}

explained-IsValid : IsValid 0x40 puback_reason_from_u8 explained
unfolding puback_reason_from_u8 validate_properties PropertyLaws.IsValid IsText is_utf8
    Sequence.size size bytes Sequence.to_continuous_buffer to_continuous_buffer
explained-IsValid = record {
  header_lem = refl;
  framed = refl;
  non_zero = refl;
  tail_lem = record { known = refl; props_lem = (refl, ((refl, refl), tt), omega arith, refl) };
}

parse-body_example :
    parse 0x40 puback_reason_from_u8 (body explained)
    ≡ some (ok (explained, length (body explained)))
unfolding Sequence.to_continuous_buffer to_continuous_buffer
parse-body_example = parse-body 0x40 puback_reason_from_u8 explained explained-IsValid (omega arith)
