-- ===== src/Protocol/Connection/Recv/Session.antt =====
-- process_recv_packet (connection_impl.ipp) on CONNECT and CONNACK packets.
use async_mqtt_cpp.Prelude.{ℕ, ◌*◌, ◌/◌, Bool, true, false, if◌then◌else◌, ◌==◌, some, [], ◌∷◌}
use async_mqtt_cpp.Protocol.Packet.{
  Packet, Property, Properties, v3_1_1, v5, can_send_as_client, topic_alias_maximum,
  receive_maximum, maximum_packet_size, session_expiry_interval, server_keep_alive,
}
use async_mqtt_cpp.Protocol.Store
use async_mqtt_cpp.Protocol.Env.{Env}
use async_mqtt_cpp.Protocol.Connection.{
  Conn, connecting, connected, on_receive, initialize_session, send_stored,
  set_pingreq_send_interval,
}
use async_mqtt_cpp.Protocol.Connection.Recv.Common.{pingreq_recv_op, deliver}

module _ (env : Env) where
  abbrev accept_keep_alive : ℕ → Conn env → Conn env
  accept_keep_alive keep_alive s =
      if keep_alive == 0
      then s
      else record s { pingreq_recv_timeout_ms = some (keep_alive * 1000 * 3 / 2) }

  abbrev forget_expectations : Conn env → Conn env
  forget_expectations s = record s { pid_puback = []; pid_pubrec = []; pid_pubcomp = [] }

  unfoldable pub recv_connect_v3_1_1 : ℕ → Bool → Packet → Conn env → Conn env
  unfolding initialize_session pingreq_recv_op
  recv_connect_v3_1_1 keep_alive clean_session p s =
      let s1 = record (initialize_session env false s) {
        protocol_version = v3_1_1;
        status = connecting;
      } in
      let s2 = accept_keep_alive keep_alive s1 in
      deliver env p (
        if clean_session
        then record (forget_expectations s2) { need_store = false }
        else record s2 { need_store = true })

  -- A property of a received CONNECT packet.
  unfoldable pub recv_connect_property : Property → Conn env → Conn env
  recv_connect_property (topic_alias_maximum v) s =
      if v == 0 then s else record s { topic_alias_send = some (env.alias_send.make v) }
  recv_connect_property (receive_maximum v) s = record s { publish_send_max = some v }
  recv_connect_property (maximum_packet_size v) s = record s { maximum_packet_size_send = v }
  recv_connect_property (session_expiry_interval v) s =
      if v == 0 then s else record s { need_store = true }
  recv_connect_property p s = s

  unfoldable pub recv_connect_properties : Properties → Conn env → Conn env
  unfolding recv_connect_property
  recv_connect_properties [] s = s
  recv_connect_properties (p ∷ ps) s = recv_connect_properties ps (recv_connect_property p s)

  unfoldable pub recv_connect_v5 : ℕ → Bool → Properties → Packet → Conn env → Conn env
  unfolding initialize_session pingreq_recv_op recv_connect_properties
  recv_connect_v5 keep_alive clean_start props p s =
      let s1 = record (initialize_session env false s) {
        protocol_version = v5;
        status = connecting;
      } in
      let s2 = accept_keep_alive keep_alive s1 in
      deliver env p
        (recv_connect_properties props (if clean_start then forget_expectations s2 else s2))

  -- The session that a CONNACK packet reports: resumed, or new.
  unfoldable pub resume_session : Bool → Conn env → Conn env
  unfolding send_stored
  resume_session true s = send_stored env s
  resume_session false s = record (forget_expectations s) {
    pid_man = env.ids.clear_ids s.pid_man;
    store = Store.clear env.stores s.store;
  }

  unfoldable pub recv_connack_v3_1_1 : Bool → ℕ → Packet → Conn env → Conn env
  unfolding resume_session
  recv_connack_v3_1_1 session_present code p s =
      on_receive env p
        (if code == 0 then resume_session session_present (record s { status = connected }) else s)

  -- A property of a received CONNACK packet.
  unfoldable pub recv_connack_property : Property → Conn env → Conn env
  unfolding set_pingreq_send_interval
  recv_connack_property (topic_alias_maximum v) s =
      if v == 0 then s else record s { topic_alias_send = some (env.alias_send.make v) }
  recv_connack_property (receive_maximum v) s = record s { publish_send_max = some v }
  recv_connack_property (maximum_packet_size v) s = record s { maximum_packet_size_send = v }
  recv_connack_property (server_keep_alive v) s =
      if can_send_as_client env.role then set_pingreq_send_interval env (v * 1000) s else s
  recv_connack_property p s = s

  unfoldable pub recv_connack_properties : Properties → Conn env → Conn env
  unfolding recv_connack_property
  recv_connack_properties [] s = s
  recv_connack_properties (p ∷ ps) s = recv_connack_properties ps (recv_connack_property p s)

  unfoldable pub recv_connack_v5 : Bool → ℕ → Properties → Packet → Conn env → Conn env
  unfolding resume_session recv_connack_properties
  recv_connack_v5 session_present code props p s = on_receive env p (
      if code == 0
      then resume_session session_present
          (recv_connack_properties props (record s { status = connected }))
      else s)
