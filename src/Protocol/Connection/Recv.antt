-- ===== src/Protocol/Connection/Recv.antt =====
-- `recv`, `process_recv_packet` and `notify_timer_fired`:
-- include/async_mqtt/protocol/impl/connection_impl.ipp.
pub mod Common
pub mod Session
pub mod Publishing
pub mod Acks
use async_mqtt_cpp.Prelude.{
  ℕ, Bool, true, false, not, ◌&&◌, if◌then◌else◌, ltb, Option, none, some, [], length,
}
use async_mqtt_cpp.Protocol.Packet.{
  Bytes, Packet, ProtocolVersion, undetermined, v3_1_1, v5, v3_1_1_connect, v3_1_1_connack,
  v3_1_1_publish, v3_1_1_puback, v3_1_1_pubrec, v3_1_1_pubrel, v3_1_1_pubcomp, v3_1_1_subscribe,
  v3_1_1_suback, v3_1_1_unsubscribe, v3_1_1_unsuback, v3_1_1_pingreq, v3_1_1_pingresp,
  v3_1_1_disconnect, v5_connect, v5_connack, v5_publish, v5_puback, v5_pubrec, v5_pubrel,
  v5_pubcomp, v5_subscribe, v5_suback, v5_unsubscribe, v5_unsuback, v5_pingreq, v5_pingresp,
  v5_disconnect, v5_auth, Kind, connect, connack, auth, publish, normal, kind,
}
use async_mqtt_cpp.Protocol.Event.{
  ErrorCode, mqtt_error, connect_reason_code, connect_return_code, disconnect_reason_code,
  TimerKind, pingreq_send, pingreq_recv, pingresp_recv, protocol_error, packet_too_large,
  keep_alive_timeout,
}
use async_mqtt_cpp.Protocol.Builder.{ErrorPacket, failed, complete, clear_packet, recv_bytes}
use async_mqtt_cpp.Protocol.Env.{Env, Decoded, decoded, undecodable}
use async_mqtt_cpp.Protocol.Connection.{
  Conn, ConnectionStatus, connecting, connected, disconnected, is_connected, is_connecting,
  is_disconnected, on_error, on_close, cancel_timers,
}
use async_mqtt_cpp.Protocol.Connection.Send.{send}
use Common.{deliver, pingreq_recv_op, violation_v3_1_1, violation_v5}
use Session.{recv_connect_v3_1_1, recv_connect_v5, recv_connack_v3_1_1, recv_connack_v5}
use Publishing.{recv_publish_v3_1_1, recv_publish_v5}
use Acks.{
  recv_puback_v3_1_1, recv_puback_v5, recv_pubrec_v3_1_1, recv_pubrec_v5, recv_pubrel,
  recv_pubcomp_v3_1_1, recv_pubcomp_v5, recv_suback, recv_unsuback, recv_pingreq, recv_pingresp,
  recv_disconnect,
}

module _ (env : Env) where
  -- The connection status in which a packet may arrive (protocol_satisfied).
  abbrev pub status_allows_recv : Kind → ConnectionStatus → Bool
  status_allows_recv connect st = is_disconnected st
  status_allows_recv connack st = is_connecting st
  status_allows_recv auth st = not (is_disconnected st)
  status_allows_recv k st = is_connected st

  -- The internal protocol processing of a packet.
  unfoldable pub handle : Packet → Conn env → Conn env
  unfolding recv_connect_v3_1_1 recv_connect_v5 recv_connack_v3_1_1 recv_connack_v5
      recv_publish_v3_1_1 recv_publish_v5 recv_puback_v3_1_1 recv_puback_v5 recv_pubrec_v3_1_1
      recv_pubrec_v5 recv_pubrel recv_pubcomp_v3_1_1 recv_pubcomp_v5 recv_suback recv_unsuback
      recv_pingreq recv_pingresp recv_disconnect pingreq_recv_op
  handle (v3_1_1_connect k c o) = recv_connect_v3_1_1 env k c (v3_1_1_connect k c o)
  handle (v5_connect k c ps o) = recv_connect_v5 env k c ps (v5_connect k c ps o)
  handle (v3_1_1_connack sp c) = recv_connack_v3_1_1 env sp c (v3_1_1_connack sp c)
  handle (v5_connack sp c ps) = recv_connack_v5 env sp c ps (v5_connack sp c ps)
  handle (v3_1_1_publish p) = recv_publish_v3_1_1 env p
  handle (v5_publish p) = recv_publish_v5 env p
  handle (v3_1_1_puback i) = recv_puback_v3_1_1 env i
  handle (v5_puback i c ps) = recv_puback_v5 env i (v5_puback i c ps)
  handle (v3_1_1_pubrec i) = recv_pubrec_v3_1_1 env i
  handle (v5_pubrec i c ps) = recv_pubrec_v5 env i c (v5_pubrec i c ps)
  handle (v3_1_1_pubrel i) = recv_pubrel env i (v3_1_1_pubcomp i) (v3_1_1_pubrel i)
  handle (v5_pubrel i c ps) = recv_pubrel env i (v5_pubcomp i none []) (v5_pubrel i c ps)
  handle (v3_1_1_pubcomp i) = recv_pubcomp_v3_1_1 env i
  handle (v5_pubcomp i c ps) = recv_pubcomp_v5 env i (v5_pubcomp i c ps)
  handle (v3_1_1_suback i o) = recv_suback env i (v3_1_1_suback i o) (violation_v3_1_1 env)
  handle (v5_suback i o) = recv_suback env i (v5_suback i o) (violation_v5 env protocol_error)
  handle (v3_1_1_unsuback i) = recv_unsuback env i (v3_1_1_unsuback i) (violation_v3_1_1 env)
  handle (v5_unsuback i o) = recv_unsuback env i (v5_unsuback i o) (violation_v5 env protocol_error)
  handle v3_1_1_pingreq = recv_pingreq env v3_1_1_pingresp v3_1_1_pingreq
  handle v5_pingreq = recv_pingreq env v5_pingresp v5_pingreq
  handle v3_1_1_pingresp = recv_pingresp env v3_1_1_pingresp
  handle v5_pingresp = recv_pingresp env v5_pingresp
  handle v3_1_1_disconnect = recv_disconnect env v3_1_1_disconnect
  handle (v5_disconnect c ps) = recv_disconnect env (v5_disconnect c ps)
  handle p = deliver env p

  unfoldable pub process_packet : Packet → Conn env → Conn env
  unfolding handle kind
  process_packet p s =
      if status_allows_recv (kind p) s.status
      then handle p s
      else on_error env (disconnect_reason_code protocol_error) s

  abbrev value : ErrorCode → ℕ
  value (mqtt_error v) = v
  value (connect_reason_code v) = v
  value (connect_return_code v) = v
  value (disconnect_reason_code v) = v

  abbrev is_connect_reason : ErrorCode → Bool
  is_connect_reason (connect_reason_code v) = true
  is_connect_reason ec = false

  abbrev is_v5 : ProtocolVersion → Bool
  is_v5 v5 = true
  is_v5 v = false

  -- The first packet is a CONNECT packet in error: CONNACK is sent with the reason.
  unfoldable pub refuse_connect : ℕ → Conn env → Conn env
  unfolding send
  refuse_connect v s =
      let s1 = record s { status = connecting } in
      on_error env (connect_reason_code v) (
        if is_v5 s1.protocol_version
        then send env (v5_connack false v []) s1
        else send env (v3_1_1_connack false v) s1)

  unfoldable pub decode_error : ErrorCode → Conn env → Conn env
  unfolding refuse_connect send
  decode_error ec s =
      if is_disconnected s.status && is_connect_reason ec
      then refuse_connect (value ec) s
      else on_error env (disconnect_reason_code (value ec)) (
          if is_connected s.status && is_v5 s.protocol_version
          then send env (v5_disconnect (some (value ec)) []) s
          else on_close env s)

  unfoldable pub process_buffer : Bytes → Conn env → Conn env
  unfolding process_packet decode_error send
  process_buffer buf s =
      if ltb s.maximum_packet_size_recv (length buf)
      then on_error env (disconnect_reason_code packet_too_large)
          (send env (v5_disconnect (some packet_too_large) []) s)
      else elim (env.buffer_to_packet_variant buf s.protocol_version) [
        | undecodable ec ↦ decode_error ec s
        | decoded p ↦ process_packet p s
      ]

  unfoldable pub process_recv_packet : Conn env → Conn env
  unfolding process_buffer cancel_timers
  process_recv_packet s = elim s.rpb.read_packet [
    | none ↦ s
    | some (failed ec) ↦
        let s1 = record s { rpb = clear_packet s.rpb; status = disconnected } in
        on_error env ec (on_close env (cancel_timers env s1))
    | some (complete buf) ↦ process_buffer buf (record s { rpb = clear_packet s.rpb })
  ]

  -- `recv`, with the bytes that it leaves in the stream.
  unfoldable pub recv : Bytes → Conn env → Conn env × Bytes
  unfolding recv_bytes process_recv_packet
  recv is s =
      let (b, rest) = recv_bytes s.rpb is in (process_recv_packet (record s { rpb = b }), rest)

  -- The version is v3_1_1 or v5; the source asserts it.
  unfoldable pub timed_out : ProtocolVersion → Conn env → Conn env
  unfolding send
  timed_out v3_1_1 s = on_close env s
  timed_out v5 s =
      if is_connected s.status then send env (v5_disconnect (some keep_alive_timeout) []) s else s
  timed_out undetermined s = s

  unfoldable pub ping : ProtocolVersion → Conn env → Conn env
  unfolding send
  ping v3_1_1 s = if is_connected s.status then send env v3_1_1_pingreq s else s
  ping v5 s = if is_connected s.status then send env v5_pingreq s else s
  ping undetermined s = s

  unfoldable pub notify_timer_fired : TimerKind → Conn env → Conn env
  unfolding timed_out ping
  notify_timer_fired pingreq_send s =
      ping s.protocol_version (record s { pingreq_send_set = false })
  notify_timer_fired pingreq_recv s =
      timed_out s.protocol_version (record s { pingreq_recv_set = false })
  notify_timer_fired pingresp_recv s =
      timed_out s.protocol_version (record s { pingresp_recv_set = false })
