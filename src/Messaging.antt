-- ===== src/Messaging.antt =====
-- The topics: their messages, the dead letters and the consumer (src/dag_doctor/messaging).
pub mod Base64
pub mod Schemas
pub mod Consumer
pub mod Publisher
pub mod Callback
