-- ===== src/V5_0/Puback.antt =====
-- packet/v5_0/puback.rs, an instance of the shared acknowledgement.
use mqtt_protocol_core.Common.{ℕ, List, Option, some}
use mqtt_protocol_core.ResultCode.{Result, PubackReasonCode}
use mqtt_protocol_core.ResultCode.Codes.{puback_reason_as_u8, puback_reason_from_u8}
use mqtt_protocol_core.Wire.Property.{Property}
use mqtt_protocol_core.Codec.{id_of}
use mqtt_protocol_core.V5_0.Ack.{GenericAck, GenericAckBuilder}
use mqtt_protocol_core.V5_0.Ack

abbrev pub GenericPuback : Type 0
GenericPuback = GenericAck

abbrev pub fixed_header : ℕ
fixed_header = 0x40

abbrev pub packet_id : GenericPuback → ℕ
packet_id = Ack.packet_id

abbrev pub reason_code : GenericPuback → Option PubackReasonCode
reason_code = Ack.reason_code puback_reason_from_u8

abbrev pub size : GenericPuback → ℕ
size = Ack.size

abbrev pub to_continuous_buffer : GenericPuback → List ℕ
to_continuous_buffer = Ack.to_continuous_buffer

abbrev pub parse : List ℕ → Option (Result (GenericPuback × ℕ))
parse = Ack.parse fixed_header puback_reason_from_u8

-- The builder's `packet_id` and `reason_code`.
abbrev pub with_packet_id : ℕ → GenericAckBuilder → GenericAckBuilder
with_packet_id id b = record b { packet_id_buf = some (id_of id) }

abbrev pub with_reason_code : PubackReasonCode → GenericAckBuilder → GenericAckBuilder
with_reason_code rc b = record b { reason_code_buf = some (puback_reason_as_u8 rc) }

abbrev pub validate : GenericAckBuilder → Result (ℕ × ℕ)
validate = Ack.validate

abbrev pub build : GenericAckBuilder → Option (Result GenericPuback)
build = Ack.build fixed_header

abbrev pub validate_puback_properties : List Property → Result (Unit {0})
validate_puback_properties = Ack.validate_properties
