-- ===== src/Util.antt =====
-- include/async_mqtt/util: the helpers of the protocol layer.
pub mod ValueAllocator
pub mod VariableBytes
pub mod TopicAliasRecv
pub mod Utf8
pub mod EndianConvert
