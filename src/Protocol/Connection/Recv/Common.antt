-- ===== src/Protocol/Connection/Recv/Common.antt =====
-- Parts that several handlers of process_recv_packet (connection_impl.ipp) share.
use async_mqtt_cpp.Prelude.{ℕ, true, false, none, some, []}
use async_mqtt_cpp.Protocol.Packet.{Packet, v5_disconnect}
use async_mqtt_cpp.Protocol.Event.{
  reset, cancel, pingreq_recv, disconnect_reason_code, protocol_error,
}
use async_mqtt_cpp.Protocol.Env.{Env}
use async_mqtt_cpp.Protocol.Connection.{
  Conn, disconnected, on_error, on_close, on_receive, on_timer_op,
}
use async_mqtt_cpp.Protocol.Connection.Send.{send}

module _ (env : Env) where
  -- The timer that waits for the next packet of the client.
  unfoldable pub pingreq_recv_op : Conn env → Conn env
  pingreq_recv_op s = elim s.pingreq_recv_timeout_ms [
    | none ↦ s
    | some ms ↦ elim s.status [
      | disconnected ↦
          on_timer_op env cancel pingreq_recv none (record s { pingreq_recv_set = false })
      | _ ↦ on_timer_op env reset pingreq_recv (some ms) (record s { pingreq_recv_set = true })
    ]
  ]

  abbrev pub deliver : Packet → Conn env → Conn env
  deliver p s = on_receive env p (pingreq_recv_op s)

  -- The peer broke the protocol: v3.1.1 closes, v5 sends DISCONNECT with the reason.
  unfoldable pub violation_v3_1_1 : Conn env → Conn env
  violation_v3_1_1 s = on_error env (disconnect_reason_code protocol_error) (on_close env s)

  unfoldable pub violation_v5 : ℕ → Conn env → Conn env
  unfolding send
  violation_v5 reason s =
      on_error env (disconnect_reason_code reason) (send env (v5_disconnect (some reason) []) s)
