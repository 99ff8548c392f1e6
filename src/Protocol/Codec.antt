-- ===== src/Protocol/Codec.antt =====
-- The packets as bytes: include/async_mqtt/protocol/packet/impl. A parser is the constructor from a
-- buffer and an error_code, and a printer the bytes of const_buffer_sequence, in its order.
pub mod Result
pub mod FixedHeader
pub mod Fields
pub mod PublishHeader
pub mod ConnectFlags
pub mod PropertyId
pub mod PropertyLocation
pub mod Property
pub mod V311
pub mod V5
pub mod Variant
pub mod Safety
pub mod Progress
