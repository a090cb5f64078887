-- ===== src/TopicAlias.antt =====
-- packet/topic_alias_recv.rs and packet/topic_alias_send.rs: topic aliases in both directions.
pub mod Recv
pub mod Send
pub mod Agreement
mod Tests
