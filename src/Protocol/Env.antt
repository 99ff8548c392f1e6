-- ===== src/Protocol/Env.antt =====
-- What a connection is built from: its role, the identifier manager, the store's container, the two
-- topic alias tables and the packet codec.
use async_mqtt_cpp.Prelude.{ℕ, Option}
use async_mqtt_cpp.Protocol.Packet.{Bytes, Packet, ProtocolVersion, Role}
use async_mqtt_cpp.Protocol.Event.{ErrorCode}
use async_mqtt_cpp.Protocol.PidManager.{PidManager}
use async_mqtt_cpp.Protocol.Store.{SequencedUnique}

-- util/topic_alias_send.hpp, as the connection calls it. `find` refreshes the entry that it finds.
pub record AliasSend : Type 1 where
  pub State : Type 0
  pub make : (max : ℕ) → State
  pub max : State → ℕ
  pub insert_or_update : Bytes → ℕ → State → State
  pub find : ℕ → State → State × Bytes
  pub find_without_touch : ℕ → State → Bytes
  pub find_alias : Bytes → State → Option ℕ
  pub get_lru_alias : State → ℕ

-- util/topic_alias_recv.hpp, as the connection calls it.
pub record AliasRecv : Type 1 where
  pub State : Type 0
  pub make : (max : ℕ) → State
  pub max : State → ℕ
  pub insert_or_update : Bytes → ℕ → State → State
  pub find : ℕ → State → Bytes

-- What buffer_to_basic_packet_variant makes of the bytes of one packet.
pub data Decoded : Type 0 where
  decoded : Packet → Decoded
  undecodable : ErrorCode → Decoded

pub record Env : Type 1 where
  pub role : Role
  pub ids : PidManager
  pub stores : SequencedUnique
  pub alias_send : AliasSend
  pub alias_recv : AliasRecv
  pub size : Packet → ℕ
  pub buffer_to_packet_variant : Bytes → ProtocolVersion → Decoded
