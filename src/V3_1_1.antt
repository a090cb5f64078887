-- ===== src/V3_1_1.antt =====
-- packet/v3_1_1: the packets of version 3.1.1, with their builders, encodings and parsers.
pub mod Ack
pub mod Puback
pub mod Pubrec
pub mod Pubrel
pub mod Pubcomp
pub mod Plain
pub mod Connack
pub mod Unsuback
pub mod Suback
pub mod Subscribe
pub mod Unsubscribe
pub mod Publish
pub mod Connect
pub mod Packet
mod Tests
