-- ===== src/Packet.antt =====
-- packet/: the packets as the connection sees them, by the values of their getters. What the
-- connection does not read (payloads, topic filters, wills, names and passwords) is left out; the
-- `size` of a packet is the value of its `size()`. Also packet/qos.rs, connection/version.rs,
-- connection/role.rs, and packet/enum_store_packet.rs.
pub mod Topic
use mqtt_protocol_core.Common.{ℕ, Bool, true, List, Option, none, some}
use mqtt_protocol_core.Wire.Property.{Property}
use mqtt_protocol_core.ResultCode.{
  ConnectReturnCode, ConnectReasonCode, DisconnectReasonCode, PubrecReasonCode, PubcompReasonCode,
}

pub data Qos : Type 0 where
  at_most_once at_least_once exactly_once : Qos

pub data Version : Type 0 where
  undetermined v3_1_1 v5_0 : Version

pub data Role : Type 0 where
  client server any : Role

pub record Connect : Type 0 where
  pub keep_alive : ℕ
  pub clean_start : Bool
  pub props : List Property
  pub size : ℕ

pub record Connack311 : Type 0 where
  pub return_code : ConnectReturnCode
  pub session_present : Bool
  pub size : ℕ

pub record Connack5 : Type 0 where
  pub reason_code : ConnectReasonCode
  pub session_present : Bool
  pub props : List Property
  pub size : ℕ

pub record Publish : Type 0 where
  pub packet_id : Option ℕ
  pub qos : Qos
  pub dup : Bool
  pub topic_name : List ℕ
  pub props : List Property
  pub payload_len : ℕ
  pub size : ℕ

-- A packet of which the connection reads the identifier only.
pub record WithId : Type 0 where
  pub packet_id : ℕ
  pub size : ℕ

pub record Pubrec5 : Type 0 where
  pub packet_id : ℕ
  pub reason_code : Option PubrecReasonCode
  pub size : ℕ

pub record Pubcomp5 : Type 0 where
  pub packet_id : ℕ
  pub reason_code : Option PubcompReasonCode
  pub size : ℕ

pub record Disconnect5 : Type 0 where
  pub reason_code : Option DisconnectReasonCode
  pub size : ℕ

-- A packet of which the connection reads the size only.
pub record Plain : Type 0 where
  pub size : ℕ

pub data GenericPacket : Type 0 where
  v3_1_1_connect v5_0_connect : Connect → GenericPacket
  v3_1_1_connack : Connack311 → GenericPacket
  v5_0_connack : Connack5 → GenericPacket
  v3_1_1_publish v5_0_publish : Publish → GenericPacket
  v3_1_1_puback v5_0_puback v3_1_1_pubrec v3_1_1_pubrel v5_0_pubrel : WithId → GenericPacket
  v5_0_pubrec : Pubrec5 → GenericPacket
  v3_1_1_pubcomp : WithId → GenericPacket
  v5_0_pubcomp : Pubcomp5 → GenericPacket
  v3_1_1_subscribe v5_0_subscribe v3_1_1_suback v5_0_suback : WithId → GenericPacket
  v3_1_1_unsubscribe v5_0_unsubscribe v3_1_1_unsuback v5_0_unsuback : WithId → GenericPacket
  v3_1_1_pingreq v5_0_pingreq v3_1_1_pingresp v5_0_pingresp : Plain → GenericPacket
  v3_1_1_disconnect v5_0_auth : Plain → GenericPacket
  v5_0_disconnect : Disconnect5 → GenericPacket

pub data ResponsePacket : Type 0 where
  v3_1_1_puback v3_1_1_pubrec v3_1_1_pubcomp : ResponsePacket
  v5_0_puback v5_0_pubrec v5_0_pubcomp : ResponsePacket

pub data GenericStorePacket : Type 0 where
  v3_1_1_publish v5_0_publish : Publish → GenericStorePacket
  v3_1_1_pubrel v5_0_pubrel : WithId → GenericStorePacket

-- `packet_id`: `none` is the panic of `unwrap`.
unfoldable pub store_packet_id : GenericStorePacket → Option ℕ
store_packet_id (GenericStorePacket.v3_1_1_publish p) = p.packet_id
store_packet_id (GenericStorePacket.v5_0_publish p) = p.packet_id
store_packet_id (GenericStorePacket.v3_1_1_pubrel p) = some p.packet_id
store_packet_id (GenericStorePacket.v5_0_pubrel p) = some p.packet_id

response_by_qos : Qos → ResponsePacket → ResponsePacket → Option ResponsePacket
response_by_qos Qos.at_least_once puback pubrec = some puback
response_by_qos Qos.exactly_once puback pubrec = some pubrec
response_by_qos Qos.at_most_once puback pubrec = none

-- `response_packet`: `none` is the panic on QoS 0.
pub response_packet : GenericStorePacket → Option ResponsePacket
unfolding response_by_qos
response_packet (GenericStorePacket.v3_1_1_publish p) =
    response_by_qos p.qos ResponsePacket.v3_1_1_puback ResponsePacket.v3_1_1_pubrec
response_packet (GenericStorePacket.v3_1_1_pubrel p) = some ResponsePacket.v3_1_1_pubcomp
response_packet (GenericStorePacket.v5_0_publish p) =
    response_by_qos p.qos ResponsePacket.v5_0_puback ResponsePacket.v5_0_pubrec
response_packet (GenericStorePacket.v5_0_pubrel p) = some ResponsePacket.v5_0_pubcomp

-- GenericPacketTrait::size.
pub store_packet_size : GenericStorePacket → ℕ
store_packet_size (GenericStorePacket.v3_1_1_publish p) = p.size
store_packet_size (GenericStorePacket.v3_1_1_pubrel p) = p.size
store_packet_size (GenericStorePacket.v5_0_publish p) = p.size
store_packet_size (GenericStorePacket.v5_0_pubrel p) = p.size

-- GenericPacket::from(GenericStorePacket).
pub packet_from_store : GenericStorePacket → GenericPacket
packet_from_store (GenericStorePacket.v3_1_1_publish p) = GenericPacket.v3_1_1_publish p
packet_from_store (GenericStorePacket.v3_1_1_pubrel p) = GenericPacket.v3_1_1_pubrel p
packet_from_store (GenericStorePacket.v5_0_publish p) = GenericPacket.v5_0_publish p
packet_from_store (GenericStorePacket.v5_0_pubrel p) = GenericPacket.v5_0_pubrel p

-- GenericStorePacket::try_from on a PUBLISH of version 3.1.1; `none` is `Err(InvalidQos)`.
pub store_v3_1_1_publish : Publish → Option GenericStorePacket
store_v3_1_1_publish p = elim p.qos [
  | Qos.at_most_once ↦ none
  | _ ↦ some (GenericStorePacket.v3_1_1_publish p)
]

-- The same on a PUBLISH of version 5.0.
pub store_v5_0_publish : Publish → Option GenericStorePacket
store_v5_0_publish p = elim p.qos [
  | Qos.at_most_once ↦ none
  | _ ↦ some (GenericStorePacket.v5_0_publish p)
]

-- `set_dup(true)`.
pub set_dup : Publish → Publish
set_dup p = record p { dup = true }
