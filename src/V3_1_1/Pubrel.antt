-- ===== src/V3_1_1/Pubrel.antt =====
-- packet/v3_1_1/pubrel.rs, an instance of the shared acknowledgement.
use mqtt_protocol_core.Common.{ℕ, List, Option, some}
use mqtt_protocol_core.ResultCode.{Result}
use mqtt_protocol_core.ResultCode.Codes.{
  pubrel_reason_as_u8, pubrel_reason_from_u8, PubrelReasonCode,
}
use mqtt_protocol_core.Codec.{id_of}
use mqtt_protocol_core.V3_1_1.Ack.{GenericAck, GenericAckBuilder}
use mqtt_protocol_core.V3_1_1.Ack

abbrev pub GenericPubrel : Type 0
GenericPubrel = GenericAck

abbrev pub fixed_header : ℕ
fixed_header = 0x62

abbrev pub packet_id : GenericPubrel → ℕ
packet_id = Ack.packet_id

abbrev pub reason_code : GenericPubrel → Option PubrelReasonCode
reason_code = Ack.reason_code pubrel_reason_from_u8

abbrev pub size : GenericPubrel → ℕ
size = Ack.size

abbrev pub to_continuous_buffer : GenericPubrel → List ℕ
to_continuous_buffer = Ack.to_continuous_buffer

abbrev pub parse : List ℕ → Option (Result (GenericPubrel × ℕ))
parse = Ack.parse fixed_header pubrel_reason_from_u8

-- The builder's `packet_id` and `reason_code`.
abbrev pub with_packet_id : ℕ → GenericAckBuilder → GenericAckBuilder
with_packet_id id b = record b { packet_id_buf = some (id_of id) }

abbrev pub with_reason_code : PubrelReasonCode → GenericAckBuilder → GenericAckBuilder
with_reason_code rc b = record b { reason_code_buf = some (some (pubrel_reason_as_u8 rc)) }

abbrev pub validate : GenericAckBuilder → Result (Unit {0})
validate = Ack.validate

abbrev pub build : GenericAckBuilder → Option (Result GenericPubrel)
build = Ack.build fixed_header
