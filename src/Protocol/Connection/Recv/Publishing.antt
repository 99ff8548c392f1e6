-- ===== src/Protocol/Connection/Recv/Publishing.antt =====
-- process_recv_packet (connection_impl.ipp) on PUBLISH packets.
use async_mqtt_cpp.Prelude.{
  ℕ, Bool, true, false, ◌&&◌, ◌||◌, if◌then◌else◌, ◌==◌, ltb, Option, none, some, [], length,
}
use async_mqtt_cpp.Protocol.Packet.{
  Publish, at_most_once, at_least_once, exactly_once, v3_1_1_publish, v3_1_1_puback, v3_1_1_pubrec,
  v5_publish, v5_puback, v5_pubrec, is_empty, get_topic_alias, add_topic,
}
use async_mqtt_cpp.Protocol.Event.{receive_maximum_exceeded, topic_alias_invalid}
use async_mqtt_cpp.Protocol.PidSet.{contains, insert}
use async_mqtt_cpp.Protocol.Env.{Env}
use async_mqtt_cpp.Protocol.Connection.{Conn, is_connected, on_receive}
use async_mqtt_cpp.Protocol.Connection.Send.{send}
use async_mqtt_cpp.Protocol.Connection.Recv.Common.{pingreq_recv_op, deliver, violation_v5}

module _ (env : Env) where
  -- A QoS 2 identifier that is not handled yet is noted. The answer is already_handled.
  unfoldable pub note_handled : ℕ → Conn env → Conn env × Bool
  note_handled packet_id s =
      if contains packet_id s.qos2_publish_handled
      then (s, true)
      else (record s { qos2_publish_handled = insert packet_id s.qos2_publish_handled }, false)

  unfoldable pub recv_publish_v3_1_1 : Publish → Conn env → Conn env
  unfolding send pingreq_recv_op note_handled
  recv_publish_v3_1_1 p s = elim p.qos [
    | at_most_once ↦ deliver env (v3_1_1_publish p) s
    | at_least_once ↦ deliver env (v3_1_1_publish p) (
        if s.auto_pub_response && is_connected s.status
        then send env (v3_1_1_puback p.packet_id) s
        else s)
    | exactly_once ↦
        let (s1, already_handled) = note_handled p.packet_id s in
        let s2 = pingreq_recv_op env (
          if is_connected s1.status && (s1.auto_pub_response || already_handled)
          then send env (v3_1_1_pubrec p.packet_id) s1
          else s1) in
        if already_handled then s2 else on_receive env (v3_1_1_publish p) s2
  ]

  -- The state after the checks on a v5 publish packet, or after its refusal.
  pub data Checked : Type 0 where
    refused : Conn env → Checked
    accepted : (already_handled puback_send pubrec_send : Bool) → Conn env → Checked

  abbrev pub receive_full : Conn env → Bool
  receive_full s = elim s.publish_recv_max [ none ↦ false | some m ↦ length s.publish_recv == m ]

  -- Receive maximum, QoS 2 duplicates, and which response to send.
  unfoldable pub check_publish_v5 : Publish → Conn env → Checked
  unfolding violation_v5 note_handled
  check_publish_v5 p s = elim p.qos [
    | at_most_once ↦ accepted false false false s
    | at_least_once ↦
        if receive_full s
        then refused (violation_v5 env receive_maximum_exceeded s)
        else accepted false (s.auto_pub_response && is_connected s.status) false
            (record s { publish_recv = insert p.packet_id s.publish_recv })
    | exactly_once ↦
        if receive_full s
        then refused (violation_v5 env receive_maximum_exceeded s)
        else (let s1 = record s { publish_recv = insert p.packet_id s.publish_recv } in
            let (s2, already_handled) = note_handled p.packet_id s1 in
            accepted already_handled false
              (is_connected s2.status && (s2.auto_pub_response || already_handled)) s2)
  ]

  -- The table of aliases, if the alias is in its range.
  abbrev alias_table : ℕ → Conn env → Option env.alias_recv.State
  alias_table ta s = elim s.topic_alias_recv [
    | none ↦ none
    | some t ↦ if ta == 0 || ltb (env.alias_recv.max t) ta then none else some t
  ]

  -- The topic of a v5 publish packet: extracted from its alias, or registered under it. `none` when
  -- the packet is refused.
  unfoldable pub resolve_topic : Publish → Conn env → Option (Publish × Conn env)
  resolve_topic p s = elim (get_topic_alias p.props) [
    | none ↦ if is_empty p.topic then none else some (p, s)
    | some ta ↦ elim (alias_table ta s) [
      | none ↦ none
      | some t ↦
          if is_empty p.topic
          then (let topic = env.alias_recv.find ta t in
              if is_empty topic then none else some (add_topic topic p, s))
          else some (
            p,
            record s { topic_alias_recv = some (env.alias_recv.insert_or_update p.topic ta t) },
          )
    ]
  ]

  unfoldable pub respond_and_deliver :
      (already_handled puback_send pubrec_send : Bool) → Publish → Conn env → Conn env
  unfolding send pingreq_recv_op
  respond_and_deliver already_handled puback_send pubrec_send p s =
      let s1 = if puback_send then send env (v5_puback p.packet_id none []) s else s in
      let s2 = if pubrec_send then send env (v5_pubrec p.packet_id none []) s1 else s1 in
      let s3 = pingreq_recv_op env s2 in
      if already_handled then s3 else on_receive env (v5_publish p) s3

  unfoldable pub recv_publish_v5 : Publish → Conn env → Conn env
  unfolding check_publish_v5 resolve_topic respond_and_deliver violation_v5
  recv_publish_v5 p s = elim (check_publish_v5 p s) [
    | refused s' ↦ s'
    | accepted already puback pubrec s' ↦ elim (resolve_topic p s') [
      | none ↦ violation_v5 env topic_alias_invalid s'
      | some r ↦ respond_and_deliver already puback pubrec r.0 r.1
    ]
  ]
