-- ===== src/Protocol/Event.antt =====
-- What the connection reports: the callbacks of basic_connection, as the values that
-- protocol/event/event_variant.hpp and rv_connection.ipp make of them.
use async_mqtt_cpp.Prelude.{ℕ, Option}
use async_mqtt_cpp.Protocol.Packet.{Packet}

-- timer.hpp
pub data TimerKind : Type 0 where
  pingreq_send pingreq_recv pingresp_recv : TimerKind

pub data TimerOp : Type 0 where
  reset cancel : TimerOp

-- An error_code: its category and its value (protocol/error.hpp).
pub data ErrorCode : Type 0 where
  mqtt_error connect_reason_code connect_return_code disconnect_reason_code : ℕ → ErrorCode

abbrev pub packet_not_allowed_to_send : ErrorCode
packet_not_allowed_to_send = mqtt_error 0x0184

abbrev pub packet_identifier_invalid : ErrorCode
packet_identifier_invalid = mqtt_error 0x0183

abbrev pub packet_not_regulated : ErrorCode
packet_not_regulated = mqtt_error 0x0186

-- disconnect_reason_code
abbrev pub protocol_error : ℕ
protocol_error = 0x82

abbrev pub keep_alive_timeout : ℕ
keep_alive_timeout = 0x8d

abbrev pub receive_maximum_exceeded : ℕ
receive_maximum_exceeded = 0x93

abbrev pub topic_alias_invalid : ℕ
topic_alias_invalid = 0x94

abbrev pub packet_too_large : ℕ
packet_too_large = 0x95

-- basic_event_variant
pub data Event : Type 0 where
  error : ErrorCode → Event
  send : Packet → (release_packet_id_if_send_error : Option ℕ) → Event
  packet_id_released : ℕ → Event
  packet_received : Packet → Event
  timer : TimerOp → TimerKind → (ms : Option ℕ) → Event
  close : Event
