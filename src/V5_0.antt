-- ===== src/V5_0.antt =====
-- packet/v5_0: packets of version 5.0, with their encodings and parsers.
pub mod Tail
pub mod Ack
pub mod Puback
pub mod Pubrec
pub mod Pubrel
pub mod Pubcomp
pub mod Disconnect
pub mod Auth
pub mod Granted
mod Tests
