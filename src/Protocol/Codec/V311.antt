-- ===== src/Protocol/Codec/V311.antt =====
-- MQTT v3.1.1: packet/impl/v3_1_1_*.ipp.
pub mod Acks
pub mod Plain
pub mod Publish
pub mod Subscribe
pub mod Unsubscribe
pub mod Connect
