-- ===== src/Wire.antt =====
-- packet/mqtt_binary.rs, packet/mqtt_string.rs and packet/property.rs: the parts that packets are
-- made of on the wire. A parser returns the value and the number of bytes it consumed.
pub mod Binary
pub mod Text
pub mod Utf8
pub mod Entry
pub mod Property
mod Tests
