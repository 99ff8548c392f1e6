-- ===== src/Protocol/Codec/V5.antt =====
-- MQTT v5: packet/impl/v5_*.ipp.
pub mod Section
pub mod Reason
pub mod Acks
pub mod Ending
pub mod Plain
pub mod Publish
pub mod Subscribe
pub mod Lists
pub mod Connect
