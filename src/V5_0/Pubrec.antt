-- ===== src/V5_0/Pubrec.antt =====
-- packet/v5_0/pubrec.rs, an instance of the shared acknowledgement.
use mqtt_protocol_core.Common.{ℕ, List, Option, some}
use mqtt_protocol_core.ResultCode.{Result, PubrecReasonCode}
use mqtt_protocol_core.ResultCode.Codes.{pubrec_reason_as_u8, pubrec_reason_from_u8}
use mqtt_protocol_core.Wire.Property.{Property}
use mqtt_protocol_core.Codec.{id_of}
use mqtt_protocol_core.V5_0.Ack.{GenericAck, GenericAckBuilder}
use mqtt_protocol_core.V5_0.Ack

abbrev pub GenericPubrec : Type 0
GenericPubrec = GenericAck

abbrev pub fixed_header : ℕ
fixed_header = 0x50

abbrev pub packet_id : GenericPubrec → ℕ
packet_id = Ack.packet_id

abbrev pub reason_code : GenericPubrec → Option PubrecReasonCode
reason_code = Ack.reason_code pubrec_reason_from_u8

abbrev pub size : GenericPubrec → ℕ
size = Ack.size

abbrev pub to_continuous_buffer : GenericPubrec → List ℕ
to_continuous_buffer = Ack.to_continuous_buffer

abbrev pub parse : List ℕ → Option (Result (GenericPubrec × ℕ))
parse = Ack.parse fixed_header pubrec_reason_from_u8

-- The builder's `packet_id` and `reason_code`.
abbrev pub with_packet_id : ℕ → GenericAckBuilder → GenericAckBuilder
with_packet_id id b = record b { packet_id_buf = some (id_of id) }

abbrev pub with_reason_code : PubrecReasonCode → GenericAckBuilder → GenericAckBuilder
with_reason_code rc b = record b { reason_code_buf = some (pubrec_reason_as_u8 rc) }

abbrev pub validate : GenericAckBuilder → Result (ℕ × ℕ)
validate = Ack.validate

abbrev pub build : GenericAckBuilder → Option (Result GenericPubrec)
build = Ack.build fixed_header

abbrev pub validate_pubrec_properties : List Property → Result (Unit {0})
validate_pubrec_properties = Ack.validate_properties
