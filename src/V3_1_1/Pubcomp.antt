-- ===== src/V3_1_1/Pubcomp.antt =====
-- packet/v3_1_1/pubcomp.rs, an instance of the shared acknowledgement.
use mqtt_protocol_core.Common.{ℕ, List, Option, some}
use mqtt_protocol_core.ResultCode.{Result, PubcompReasonCode}
use mqtt_protocol_core.ResultCode.Codes.{pubcomp_reason_as_u8, pubcomp_reason_from_u8}
use mqtt_protocol_core.Codec.{id_of}
use mqtt_protocol_core.V3_1_1.Ack.{GenericAck, GenericAckBuilder}
use mqtt_protocol_core.V3_1_1.Ack

abbrev pub GenericPubcomp : Type 0
GenericPubcomp = GenericAck

abbrev pub fixed_header : ℕ
fixed_header = 0x70

abbrev pub packet_id : GenericPubcomp → ℕ
packet_id = Ack.packet_id

abbrev pub reason_code : GenericPubcomp → Option PubcompReasonCode
reason_code = Ack.reason_code pubcomp_reason_from_u8

abbrev pub size : GenericPubcomp → ℕ
size = Ack.size

abbrev pub to_continuous_buffer : GenericPubcomp → List ℕ
to_continuous_buffer = Ack.to_continuous_buffer

abbrev pub parse : List ℕ → Option (Result (GenericPubcomp × ℕ))
parse = Ack.parse fixed_header pubcomp_reason_from_u8

-- The builder's `packet_id` and `reason_code`.
abbrev pub with_packet_id : ℕ → GenericAckBuilder → GenericAckBuilder
with_packet_id id b = record b { packet_id_buf = some (id_of id) }

abbrev pub with_reason_code : PubcompReasonCode → GenericAckBuilder → GenericAckBuilder
with_reason_code rc b = record b { reason_code_buf = some (some (pubcomp_reason_as_u8 rc)) }

abbrev pub validate : GenericAckBuilder → Result (Unit {0})
validate = Ack.validate

abbrev pub build : GenericAckBuilder → Option (Result GenericPubcomp)
build = Ack.build fixed_header
