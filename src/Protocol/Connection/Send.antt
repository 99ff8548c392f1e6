-- ===== src/Protocol/Connection/Send.antt =====
-- `send` and `process_send_packet`: include/async_mqtt/protocol/impl/connection_send.ipp.
pub mod Publishing
use async_mqtt_cpp.Prelude.{
  ℕ, ◌+◌, ◌*◌, ◌%◌, ◌^◌, Bool, true, false, not, ◌&&◌, ◌||◌, if◌then◌else◌, ◌==◌, ltb, Option, none,
  some, List, [], ◌∷◌,
}
use async_mqtt_cpp.Protocol.Packet.{
  Packet, Property, Properties, ProtocolVersion, Role, v3_1_1, v5, v3_1_1_connect, v3_1_1_connack,
  v3_1_1_publish, v3_1_1_puback, v3_1_1_pubrec, v3_1_1_pubrel, v3_1_1_pubcomp, v3_1_1_subscribe,
  v3_1_1_suback, v3_1_1_unsubscribe, v3_1_1_unsuback, v3_1_1_pingreq, v3_1_1_pingresp,
  v3_1_1_disconnect, v5_connect, v5_connack, v5_publish, v5_puback, v5_pubrec, v5_pubrel,
  v5_pubcomp, v5_subscribe, v5_suback, v5_unsubscribe, v5_unsuback, v5_pingreq, v5_pingresp,
  v5_disconnect, v5_auth, Kind, connect, connack, auth, publish, normal, kind, packet_version,
  own_packet_id, is_client_sendable, is_server_sendable, can_send_as_client, can_send_as_server,
  same_version, is_failure, topic_alias_maximum, receive_maximum, maximum_packet_size,
  session_expiry_interval,
}
use async_mqtt_cpp.Protocol.Event.{
  Event, reset, pingreq_send, pingresp_recv, packet_not_allowed_to_send,
}
use async_mqtt_cpp.Protocol.PidSet.{insert, erase}
use async_mqtt_cpp.Protocol.Store
use async_mqtt_cpp.Protocol.Store.{StorePacket}
use async_mqtt_cpp.Protocol.Env.{Env}
use async_mqtt_cpp.Protocol.Connection.{
  Conn, ConnectionStatus, connecting, connected, disconnected, is_connected, is_connecting,
  is_disconnected, on_error, on_close, on_send, on_timer_op, release_and_report, cancel_timers,
  initialize_session, send_stored, validate_maximum_packet_size,
}
use Publishing.{refuse, publish_v3_1_1, publish_v5}

module _ (env : Env) where
  unfoldable pub is_sendable : Packet → Bool
  unfolding is_client_sendable is_server_sendable
  is_sendable p =
      can_send_as_client env.role && is_client_sendable p
      || can_send_as_server env.role && is_server_sendable p

  unfoldable pub version_check : Packet → Conn env → Bool
  unfolding packet_version
  version_check p s = same_version s.protocol_version (packet_version p)

  -- The connection status in which a packet may be sent.
  abbrev pub status_allows_send : Kind → ConnectionStatus → Bool
  status_allows_send connect st = is_disconnected st
  status_allows_send connack st = is_connecting st
  status_allows_send auth st = not (is_disconnected st)
  status_allows_send publish st = true
  status_allows_send normal st = is_connected st

  -- A packet larger than the peer takes: its own identifier is released.
  unfoldable pub oversize : Packet → Conn env → Conn env
  unfolding own_packet_id
  oversize p s = elim (own_packet_id p) [
    | none ↦ on_error env packet_not_allowed_to_send s
    | some packet_id ↦ refuse env packet_not_allowed_to_send packet_id s
  ]

  -- pingreq_send_interval_ms_, unless it is set.
  abbrev adopt_keep_alive : ℕ → Conn env → Conn env
  adopt_keep_alive keep_alive s = elim s.pingreq_send_interval_ms [
    | none ↦
        if keep_alive == 0
        then s
        else record s { pingreq_send_interval_ms = some (keep_alive * 1000) }
    | some ms ↦ s
  ]

  abbrev clean_expectations : Conn env → Conn env
  clean_expectations s = record s {
    pid_man = env.ids.clear_ids s.pid_man;
    store = Store.clear env.stores s.store;
    pid_puback = [];
    pid_pubrec = [];
    pid_pubcomp = [];
  }

  unfoldable pub connect_v3_1_1 : ℕ → Bool → Conn env → Conn env
  unfolding initialize_session
  connect_v3_1_1 keep_alive clean_session s =
      let s1 = record (initialize_session env true s) { status = connecting } in
      let s2 = adopt_keep_alive keep_alive s1 in
      let s3 =
        if clean_session
        then record (clean_expectations s2) { need_store = false }
        else record s2 { need_store = true } in
      record s3 { topic_alias_send = none }

  -- A property of a CONNECT packet to send.
  unfoldable pub connect_property : Property → Conn env → Conn env
  connect_property (topic_alias_maximum v) s =
      if v == 0 then s else record s { topic_alias_recv = some (env.alias_recv.make v) }
  connect_property (receive_maximum v) s = record s { publish_recv_max = some v }
  connect_property (maximum_packet_size v) s = record s { maximum_packet_size_recv = v }
  connect_property (session_expiry_interval v) s =
      if v == 0 then s else record s { need_store = true }
  connect_property p s = s

  unfoldable pub connect_properties : Properties → Conn env → Conn env
  unfolding connect_property
  connect_properties [] s = s
  connect_properties (p ∷ ps) s = connect_properties ps (connect_property p s)

  unfoldable pub connect_v5 : ℕ → Bool → Properties → Conn env → Conn env
  unfolding initialize_session connect_properties
  connect_v5 keep_alive clean_start props s =
      let s1 = record (initialize_session env true s) { status = connecting } in
      let s2 = adopt_keep_alive keep_alive s1 in
      connect_properties props (if clean_start then clean_expectations s2 else s2)

  -- A property of a CONNACK packet to send.
  unfoldable pub connack_property : Property → Conn env → Conn env
  connack_property (topic_alias_maximum v) s =
      if v == 0 then s else record s { topic_alias_recv = some (env.alias_recv.make v) }
  connack_property (receive_maximum v) s = record s { publish_recv_max = some v }
  connack_property (maximum_packet_size v) s = record s { maximum_packet_size_recv = v }
  connack_property p s = s

  unfoldable pub connack_properties : Properties → Conn env → Conn env
  unfolding connack_property
  connack_properties [] s = s
  connack_properties (p ∷ ps) s = connack_properties ps (connack_property p s)

  unfoldable pub connack_status : ℕ → Properties → Conn env → Conn env
  unfolding connack_properties cancel_timers
  connack_status code props s =
      if code == 0
      then connack_properties props (record s { status = connected })
      else cancel_timers env (record s { status = disconnected })

  -- A pubrel packet: stored if the session is, and then awaited.
  unfoldable pub await_pubcomp : StorePacket → Conn env → Conn env
  await_pubcomp p s =
      let s' =
        if s.need_store then record s { store = (Store.add env.stores p s.store).0 } else s in
      record s' { pid_pubcomp = insert (Store.packet_id p) s'.pid_pubcomp }

  unfoldable pub arm_pingresp : Conn env → Conn env
  arm_pingresp s = elim s.pingresp_recv_timeout_ms [
    | none ↦ s
    | some ms ↦
        on_timer_op env reset pingresp_recv (some ms) (record s { pingresp_recv_set = true })
  ]

  abbrev sent : Packet → Conn env → Conn env × Bool
  sent p s = (on_send env p none s, true)

  abbrev end_connection : Packet → Conn env → Conn env × Bool
  end_connection p s = (
    on_close env (on_send env p none (cancel_timers env (record s { status = disconnected }))),
    true,
  )

  -- The part of process_send_packet behind the checks that all packets share.
  unfoldable pub send_body : Packet → Conn env → Conn env × Bool
  unfolding connect_v3_1_1 connect_v5 connack_status await_pubcomp arm_pingresp cancel_timers
      publish_v3_1_1 publish_v5
  send_body (v3_1_1_connect k c o) s = sent (v3_1_1_connect k c o) (connect_v3_1_1 k c s)
  send_body (v5_connect k c ps o) s = sent (v5_connect k c ps o) (connect_v5 k c ps s)
  send_body (v3_1_1_connack sp c) s = sent (v3_1_1_connack sp c) (connack_status c [] s)
  send_body (v5_connack sp c ps) s = sent (v5_connack sp c ps) (connack_status c ps s)
  send_body (v3_1_1_publish p) s = publish_v3_1_1 env p s
  send_body (v5_publish p) s = publish_v5 env p s
  send_body (v5_puback i c ps) s =
      sent (v5_puback i c ps) (record s { publish_recv = erase i s.publish_recv })
  send_body (v5_pubrec i c ps) s = sent (v5_pubrec i c ps) (
      if is_failure c
      then record s {
        publish_recv = erase i s.publish_recv;
        qos2_publish_handled = erase i s.qos2_publish_handled;
      }
      else s)
  send_body (v3_1_1_pubrel i) s =
      sent (v3_1_1_pubrel i) (await_pubcomp (StorePacket.v3_1_1_pubrel i) s)
  send_body (v5_pubrel i c ps) s =
      sent (v5_pubrel i c ps) (await_pubcomp (StorePacket.v5_pubrel i c ps) s)
  send_body (v5_pubcomp i c ps) s =
      sent (v5_pubcomp i c ps) (record s { publish_recv = erase i s.publish_recv })
  send_body (v3_1_1_subscribe i o) s = (
    on_send env (v3_1_1_subscribe i o) (some i) (record s { pid_suback = insert i s.pid_suback }),
    true,
  )
  send_body (v5_subscribe i o) s = (
    on_send env (v5_subscribe i o) (some i) (record s { pid_suback = insert i s.pid_suback }),
    true,
  )
  send_body (v3_1_1_unsubscribe i o) s = (
    on_send env (v3_1_1_unsubscribe i o) (some i)
        (record s { pid_unsuback = insert i s.pid_unsuback }),
    true,
  )
  send_body (v5_unsubscribe i o) s = (
    on_send env (v5_unsubscribe i o) (some i) (record s { pid_unsuback = insert i s.pid_unsuback }),
    true,
  )
  send_body v3_1_1_pingreq s = (arm_pingresp (on_send env v3_1_1_pingreq none s), true)
  send_body v5_pingreq s = (arm_pingresp (on_send env v5_pingreq none s), true)
  send_body v3_1_1_disconnect s = end_connection v3_1_1_disconnect s
  send_body (v5_disconnect c ps) s = end_connection (v5_disconnect c ps) s
  send_body p s = sent p s

  abbrev not_allowed : Conn env → Conn env × Bool
  not_allowed s = (on_error env packet_not_allowed_to_send s, false)

  unfoldable pub process_send_packet : Packet → Conn env → Conn env × Bool
  unfolding is_sendable version_check kind validate_maximum_packet_size
  process_send_packet p s =
      if not (is_sendable p)
      then not_allowed s
      else if not (status_allows_send (kind p) s.status)
      then not_allowed s
      else if not (version_check p s)
      then not_allowed s
      else if not (validate_maximum_packet_size env (env.size p) s)
      then (oversize p s, false)
      else send_body p s

  abbrev is_client_role : Role → Bool
  is_client_role Role.server = false
  is_client_role r = true

  -- What send_and_post_process does last: the timer of the next PINGREQ.
  unfoldable pub arm_pingreq_send : Conn env → Conn env
  arm_pingreq_send s =
      if is_client_role env.role && s.is_client
      then elim s.pingreq_send_interval_ms [
        | none ↦ s
        | some ms ↦
            if is_disconnected s.status
            then s
            else on_timer_op env reset pingreq_send (some ms) (record s { pingreq_send_set = true })
      ]
      else s

  abbrev pub after_connack : Kind → Conn env → Conn env
  after_connack connack s = send_stored env s
  after_connack k s = s

  -- The server sends the stored packets behind a CONNACK packet.
  unfoldable pub post_process : Packet → Conn env × Bool → Conn env
  unfolding arm_pingreq_send send_stored kind
  post_process p (s, true) = arm_pingreq_send (after_connack (kind p) s)
  post_process p (s, false) = s

  unfoldable pub send : Packet → Conn env → Conn env
  unfolding process_send_packet post_process
  send p s = post_process p (process_send_packet p s)
