-- ===== src/Protocol.antt =====
-- include/async_mqtt/protocol: packets, their identifiers, and the connection's state machine.
pub mod Packet
pub mod Event
pub mod PidSet
pub mod PidManager
pub mod Store
pub mod Builder
pub mod Env
pub mod TopicAliases
pub mod Connection
pub mod PacketIdManager
pub mod Codec
pub mod TopicSharename
