-- ===== src/Lib.antt =====
-- Models and proofs for the MQTT protocol core: the sans-I/O state machine of src/mqtt.
--
-- The program has three layers. Values: packet identifiers and topic aliases come from an allocator
-- of intervals, lengths travel as variable byte integers. Framing: the packet builder cuts the bytes
-- of the transport, which come in chunks, into packets. Protocol: the connection takes packets from
-- the user and from the framing, changes its state and returns events; it owns an identifier manager,
-- a store of the packets to send again, and the topic aliases.
--
-- Allocator: src/mqtt/common/value_allocator.rs. The BTreeSet of intervals is its ascending list.
-- PacketId: src/mqtt/connection/packet_id_manager.rs.
-- Vbi: src/mqtt/packet/variable_byte_integer.rs, `from_u32`, `to_u32` and `decode_stream`.
-- Builder: src/mqtt/connection/packet_builder.rs. The cursor is the list of the bytes left to read.
-- ResultCode: src/mqtt/result_code.rs; its child Codes has the codes of the acknowledgements.
-- Wire: src/mqtt/packet/mqtt_binary.rs, mqtt_string.rs and property.rs, the parts that packets are
-- made of, with their encodings and parsers; Wire/Entry is sub_entry.rs.
-- Codec: the steps that the parsers of packets share, with early returns and panics.
-- V3_1_1: src/mqtt/packet/v3_1_1, a module per packet (Ack for PUBACK, PUBREC, PUBREL and PUBCOMP, Plain
-- for PINGREQ, PINGRESP and DISCONNECT); its child Packet is the sum of enum_packet.rs with the dispatch of
-- `process_recv_packet` to the parsers, and Packet/Transport puts the packets through the builder.
-- V5_0: src/mqtt/packet/v5_0, the acknowledgements (Ack), SUBACK and UNSUBACK (Granted), DISCONNECT and
-- AUTH; Tail is the reason code and the properties that most of them share.
-- Packet: src/mqtt/packet, packets as records of the getters that the connection calls; its child Topic
-- is how v5_0/publish.rs rewrites the topic and the topic alias.
-- Store: src/mqtt/connection/store.rs. The IndexMap is an association list in insertion order.
-- TopicAlias: src/mqtt/packet/topic_alias_recv.rs and topic_alias_send.rs.
-- Connection: src/mqtt/connection/core.rs and event.rs. The state and the steps that the handlers
-- share stand in the module itself; Send, Session and Publish have the `process_send_` handlers, Recv
-- and its child Publish those of `process_recv_`, Connack and Accept both ends of the handshake; Restore
-- has the store after a restart, Notify the calls of the user, Dispatch and Receive the dispatch of `send`
-- and of `recv`; Timers follows the timers, Flow the flow control (with the modules Quota, beside
-- it and below Publish, Recv and Session), and Recv/Publish/Zero the identifier 0.
--
-- Numbers are naturals; where the code computes on 32 bits in a way that can wrap or saturate, the
-- model writes it out. PacketIdType is u16, and masks and shifts of a byte are written as remainders and
-- quotients. Most loops are structural in the bytes that they read; the loop of `from_u32` has a bound of
-- four, the length that the code asserts. The loops over the properties and over the entries of a packet
-- have fuel: the number of the bytes, of which each round consumes one at least. `none` in the result of a
-- function whose source does not return an Option is a panic. The subtraction from
-- `publish_send_count`, which can pass zero, takes as an argument whether the build checks overflows.
-- HashSets are lists without order; the order in which `drain` visits them is the list's.
--
-- Not modelled: the parsers and builders of the other packets of version 5.0. A `process_recv_` handler
-- takes what `parse` returned, and Receive takes the parsers as a parameter. Nor are logging, printing,
-- serialization to JSON, the views for vectored output, the compile-time dispatch of `checked_send`, and
-- module glue.
pub mod Allocator
pub mod Builder
pub mod Codec
pub mod Common
pub mod Connection
pub mod Packet
pub mod PacketId
pub mod ResultCode
pub mod Store
pub mod TopicAlias
pub mod V3_1_1
pub mod V5_0
pub mod Vbi
pub mod Wire
