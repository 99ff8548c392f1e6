-- ===== src/Protocol/Connection/Recv/Acks.antt =====
-- process_recv_packet (connection_impl.ipp) on acknowledgements, pings and DISCONNECT.
use async_mqtt_cpp.Prelude.{
  ℕ, ◌+◌, ◌-◌, ◌%◌, ◌^◌, false, ◌&&◌, if◌then◌else◌, Option, none, some, [],
}
use async_mqtt_cpp.Protocol.Packet.{
  Packet, ResponsePacket, v3_1_1_puback, v3_1_1_pubrec, v3_1_1_pubrel, v3_1_1_pubcomp, v5_pubrel,
  is_failure, can_send_as_server,
}
use async_mqtt_cpp.Protocol.Event.{cancel, pingresp_recv, protocol_error}
use async_mqtt_cpp.Protocol.PidSet.{contains, erase}
use async_mqtt_cpp.Protocol.Store
use async_mqtt_cpp.Protocol.Env.{Env}
use async_mqtt_cpp.Protocol.Connection.{
  Conn, disconnected, is_connected, on_receive, on_timer_op, release_and_report, cancel_timers,
}
use async_mqtt_cpp.Protocol.Connection.Send.{send}
use async_mqtt_cpp.Protocol.Connection.Recv.Common.{
  pingreq_recv_op, deliver, violation_v3_1_1, violation_v5,
}

module _ (env : Env) where
  -- --publish_send_count_, a uint16_t, where the peer gave a receive maximum.
  unfoldable pub publish_done : Conn env → Conn env
  publish_done s = elim s.publish_send_max [
    | none ↦ s
    | some m ↦ record s { publish_send_count = (s.publish_send_count + (2 ^ 16 - 1)) % 2 ^ 16 }
  ]

  abbrev erase_stored : ResponsePacket → ℕ → Conn env → Conn env
  erase_stored r i s = record s { store = (Store.erase env.stores r i s.store).0 }

  unfoldable pub recv_puback_v3_1_1 : ℕ → Conn env → Conn env
  unfolding pingreq_recv_op violation_v3_1_1
  recv_puback_v3_1_1 i s =
      if contains i s.pid_puback
      then deliver env (v3_1_1_puback i) (
          release_and_report env i (
            erase_stored ResponsePacket.v3_1_1_puback i
              (record s { pid_puback = erase i s.pid_puback })))
      else violation_v3_1_1 env s

  unfoldable pub recv_puback_v5 : ℕ → Packet → Conn env → Conn env
  unfolding pingreq_recv_op publish_done violation_v5
  recv_puback_v5 i p s =
      if contains i s.pid_puback
      then deliver env p (
          publish_done (
            release_and_report env i (
              erase_stored ResponsePacket.v5_puback i
                (record s { pid_puback = erase i s.pid_puback }))))
      else violation_v5 env protocol_error s

  unfoldable pub recv_pubrec_v3_1_1 : ℕ → Conn env → Conn env
  unfolding pingreq_recv_op violation_v3_1_1 send
  recv_pubrec_v3_1_1 i s =
      if contains i s.pid_pubrec
      then (let s1 =
            erase_stored ResponsePacket.v3_1_1_pubrec i
              (record s { pid_pubrec = erase i s.pid_pubrec }) in
          deliver env (v3_1_1_pubrec i) (
            if s1.auto_pub_response && is_connected s1.status
            then send env (v3_1_1_pubrel i) s1
            else s1))
      else violation_v3_1_1 env s

  abbrev end_qos2 : ℕ → Conn env → Conn env
  end_qos2 i s = record s { qos2_publish_processing = erase i s.qos2_publish_processing }

  unfoldable pub recv_pubrec_v5 : ℕ → Option ℕ → Packet → Conn env → Conn env
  unfolding pingreq_recv_op publish_done violation_v5 send
  recv_pubrec_v5 i code p s =
      if contains i s.pid_pubrec
      then (let s1 =
            erase_stored ResponsePacket.v5_pubrec i
              (record s { pid_pubrec = erase i s.pid_pubrec }) in
          deliver env p (
            if is_failure code
            then publish_done (end_qos2 i (release_and_report env i s1))
            else if s1.auto_pub_response && is_connected s1.status
            then send env (v5_pubrel i none []) s1
            else s1))
      else violation_v5 env protocol_error s

  unfoldable pub recv_pubrel : ℕ → (response received : Packet) → Conn env → Conn env
  unfolding pingreq_recv_op send
  recv_pubrel i response received s =
      let s1 = record s { qos2_publish_handled = erase i s.qos2_publish_handled } in
      deliver env received
        (if s1.auto_pub_response && is_connected s1.status then send env response s1 else s1)

  unfoldable pub recv_pubcomp_v3_1_1 : ℕ → Conn env → Conn env
  unfolding pingreq_recv_op violation_v3_1_1
  recv_pubcomp_v3_1_1 i s =
      if contains i s.pid_pubcomp
      then deliver env (v3_1_1_pubcomp i) (
          end_qos2 i (
            release_and_report env i (
              erase_stored ResponsePacket.v3_1_1_pubcomp i
                (record s { pid_pubcomp = erase i s.pid_pubcomp }))))
      else violation_v3_1_1 env s

  unfoldable pub recv_pubcomp_v5 : ℕ → Packet → Conn env → Conn env
  unfolding pingreq_recv_op publish_done violation_v5
  recv_pubcomp_v5 i p s =
      if contains i s.pid_pubcomp
      then deliver env p (
          publish_done (
            end_qos2 i (
              release_and_report env i (
                erase_stored ResponsePacket.v5_pubcomp i
                  (record s { pid_pubcomp = erase i s.pid_pubcomp })))))
      else violation_v5 env protocol_error s

  unfoldable pub recv_suback : ℕ → Packet → (violation : Conn env → Conn env) → Conn env → Conn env
  unfolding pingreq_recv_op
  recv_suback i p violation s =
      if contains i s.pid_suback
      then deliver env p (release_and_report env i (record s { pid_suback = erase i s.pid_suback }))
      else violation s

  unfoldable pub recv_unsuback :
      ℕ → Packet → (violation : Conn env → Conn env) → Conn env → Conn env
  unfolding pingreq_recv_op
  recv_unsuback i p violation s =
      if contains i s.pid_unsuback
      then deliver env p
          (release_and_report env i (record s { pid_unsuback = erase i s.pid_unsuback }))
      else violation s

  unfoldable pub recv_pingreq : (response received : Packet) → Conn env → Conn env
  unfolding pingreq_recv_op send
  recv_pingreq response received s = deliver env received (
      if can_send_as_server env.role && (s.auto_ping_response && is_connected s.status)
      then send env response s
      else s)

  unfoldable pub recv_pingresp : Packet → Conn env → Conn env
  recv_pingresp p s =
      on_receive env p
        (on_timer_op env cancel pingresp_recv none (record s { pingresp_recv_set = false }))

  unfoldable pub recv_disconnect : Packet → Conn env → Conn env
  unfolding cancel_timers
  recv_disconnect p s = on_receive env p (cancel_timers env (record s { status = disconnected }))
