-- ===== src/Protocol/Connection.antt =====
-- basic_connection_impl: its state and small operations
-- (include/async_mqtt/protocol/impl/connection_impl.hpp and connection_impl.ipp).
-- A callback of basic_connection is recorded in `events`, the newest first, as rv_connection.ipp does.
pub mod Send
pub mod Recv
pub mod Gate
pub mod Timers
pub mod Resend
pub mod Status
pub mod Completion
pub mod Quota
pub mod Counting
pub mod Qos2
pub mod Closing
pub mod Regulation
pub mod Leftover
use async_mqtt_cpp.Prelude.{
  ℕ, zero, suc, ◌+◌, ◌-◌, ◌*◌, ◌%◌, ◌^◌, Bool, true, false, not, ◌&&◌, ◌||◌, if◌then◌else◌, ◌==◌,
  ltb, leb, Option, none, some, List, [], ◌∷◌, length,
}
use async_mqtt_cpp.Protocol.Packet.{
  Bytes, is_empty, Packet, Publish, ProtocolVersion, Qos, at_most_once, at_least_once, exactly_once,
  get_topic_alias, remove_topic_alias, remove_topic_alias_add_topic,
}
use async_mqtt_cpp.Protocol.Event.{
  Event, ErrorCode, TimerKind, TimerOp, reset, cancel, pingreq_send, pingreq_recv, pingresp_recv,
  packet_not_regulated,
}
use async_mqtt_cpp.Protocol.PidManager.{PidManager}
use async_mqtt_cpp.Protocol.PidSet.{PidSet, contains, insert}
use async_mqtt_cpp.Protocol.Store.{StorePacket, SequencedUnique, to_packet}
use async_mqtt_cpp.Protocol.Store
use async_mqtt_cpp.Protocol.Builder.{Builder, fresh}
use async_mqtt_cpp.Protocol.Env.{Env, AliasSend, AliasRecv}

-- connection_status.hpp
pub data ConnectionStatus : Type 0 where
  connecting connected disconnected : ConnectionStatus

abbrev pub is_connected : ConnectionStatus → Bool
is_connected connected = true
is_connected _ = false

abbrev pub is_connecting : ConnectionStatus → Bool
is_connecting connecting = true
is_connecting _ = false

abbrev pub is_disconnected : ConnectionStatus → Bool
is_disconnected disconnected = true
is_disconnected _ = false

-- 1 + 4 + 128 * 128 * 128 * 128
abbrev pub packet_size_no_limit : ℕ
packet_size_no_limit = 268435461

module _ (env : Env) where
  pub record Conn : Type 0 where
    pub protocol_version : ProtocolVersion
    pub pid_man : env.ids.State
    pub pid_suback : PidSet
    pub pid_unsuback : PidSet
    pub pid_puback : PidSet
    pub pid_pubrec : PidSet
    pub pid_pubcomp : PidSet
    pub need_store : Bool
    pub store : env.stores.Index
    pub offline_publish : Bool
    pub auto_pub_response : Bool
    pub auto_ping_response : Bool
    pub auto_map_topic_alias_send : Bool
    pub auto_replace_topic_alias_send : Bool
    pub topic_alias_send : Option env.alias_send.State
    pub topic_alias_recv : Option env.alias_recv.State
    pub publish_send_max : Option ℕ
    pub publish_recv_max : Option ℕ
    pub publish_send_count : ℕ
    pub publish_recv : PidSet
    pub maximum_packet_size_send : ℕ
    pub maximum_packet_size_recv : ℕ
    pub status : ConnectionStatus
    pub pingreq_send_interval_ms : Option ℕ
    pub pingreq_recv_timeout_ms : Option ℕ
    pub pingresp_recv_timeout_ms : Option ℕ
    pub qos2_publish_handled : PidSet
    pub qos2_publish_processing : PidSet
    pub pingreq_send_set : Bool
    pub pingreq_recv_set : Bool
    pub pingresp_recv_set : Bool
    pub is_client : Bool
    pub rpb : Builder
    pub events : List Event

  -- The constructor.
  unfoldable pub new_connection : ProtocolVersion → Conn
  new_connection ver = record {
    protocol_version = ver;
    pid_man = env.ids.initial;
    pid_suback = [];
    pid_unsuback = [];
    pid_puback = [];
    pid_pubrec = [];
    pid_pubcomp = [];
    need_store = false;
    store = env.stores.empty;
    offline_publish = false;
    auto_pub_response = false;
    auto_ping_response = false;
    auto_map_topic_alias_send = false;
    auto_replace_topic_alias_send = false;
    topic_alias_send = none;
    topic_alias_recv = none;
    publish_send_max = none;
    publish_recv_max = none;
    publish_send_count = 0;
    publish_recv = [];
    maximum_packet_size_send = packet_size_no_limit;
    maximum_packet_size_recv = packet_size_no_limit;
    status = disconnected;
    pingreq_send_interval_ms = none;
    pingreq_recv_timeout_ms = none;
    pingresp_recv_timeout_ms = none;
    qos2_publish_handled = [];
    qos2_publish_processing = [];
    pingreq_send_set = false;
    pingreq_recv_set = false;
    pingresp_recv_set = false;
    is_client = true;
    rpb = fresh;
    events = [];
  }

  abbrev pub emit : Event → Conn → Conn
  emit e s = record s { events = e ∷ s.events }

  -- on_error, on_close, on_packet_id_release, on_receive, on_send and on_timer_op
  abbrev pub on_error : ErrorCode → Conn → Conn
  on_error ec = emit (Event.error ec)

  abbrev pub on_close : Conn → Conn
  on_close = emit Event.close

  abbrev pub on_receive : Packet → Conn → Conn
  on_receive p = emit (Event.packet_received p)

  abbrev pub on_send : Packet → Option ℕ → Conn → Conn
  on_send p release = emit (Event.send p release)

  abbrev pub on_timer_op : TimerOp → TimerKind → Option ℕ → Conn → Conn
  on_timer_op op k ms = emit (Event.timer op k ms)

  -- pid_man_.release_id and on_packet_id_release, as the handlers call them together.
  abbrev pub release_and_report : ℕ → Conn → Conn
  release_and_report packet_id s =
      emit (Event.packet_id_released packet_id)
        (record s { pid_man = env.ids.release_id packet_id s.pid_man })

  pub cancel_pingreq_send : Conn → Conn
  cancel_pingreq_send s =
      if s.pingreq_send_set
      then on_timer_op cancel pingreq_send none (record s { pingreq_send_set = false })
      else s

  pub cancel_pingreq_recv : Conn → Conn
  cancel_pingreq_recv s =
      if s.pingreq_recv_set
      then on_timer_op cancel pingreq_recv none (record s { pingreq_recv_set = false })
      else s

  pub cancel_pingresp_recv : Conn → Conn
  cancel_pingresp_recv s =
      if s.pingresp_recv_set
      then on_timer_op cancel pingresp_recv none (record s { pingresp_recv_set = false })
      else s

  unfoldable pub cancel_timers : Conn → Conn
  unfolding cancel_pingreq_send cancel_pingreq_recv cancel_pingresp_recv
  cancel_timers s = cancel_pingresp_recv (cancel_pingreq_recv (cancel_pingreq_send s))

  unfoldable pub initialize_session : (is_client : Bool) → Conn → Conn
  initialize_session is_client s = record s {
    publish_send_max = none;
    publish_recv_max = none;
    publish_send_count = 0;
    topic_alias_send = none;
    topic_alias_recv = none;
    publish_recv = [];
    qos2_publish_processing = [];
    need_store = false;
    pid_suback = [];
    pid_unsuback = [];
    is_client = is_client;
  }

  unfoldable pub set_pingreq_send_interval : ℕ → Conn → Conn
  set_pingreq_send_interval duration s =
      if duration == 0
      then on_timer_op cancel pingreq_send none
          (record s { pingreq_send_interval_ms = none; pingreq_send_set = false })
      else on_timer_op reset pingreq_send (some duration)
          (record s { pingreq_send_interval_ms = some duration; pingreq_send_set = true })

  -- An int difference, converted to std::size_t.
  pub get_receive_maximum_vacancy_for_send : Conn → Option ℕ
  get_receive_maximum_vacancy_for_send s = elim s.publish_send_max [
    | none ↦ none
    | some m ↦ some ((m + 2 ^ 64 - s.publish_send_count) % 2 ^ 64)
  ]

  pub set_offline_publish : Bool → Conn → Conn
  set_offline_publish val s = record s { offline_publish = val }

  pub set_auto_pub_response : Bool → Conn → Conn
  set_auto_pub_response val s = record s { auto_pub_response = val }

  pub set_auto_ping_response : Bool → Conn → Conn
  set_auto_ping_response val s = record s { auto_ping_response = val }

  pub set_auto_map_topic_alias_send : Bool → Conn → Conn
  set_auto_map_topic_alias_send val s = record s { auto_map_topic_alias_send = val }

  pub set_auto_replace_topic_alias_send : Bool → Conn → Conn
  set_auto_replace_topic_alias_send val s = record s { auto_replace_topic_alias_send = val }

  pub set_pingresp_recv_timeout : ℕ → Conn → Conn
  set_pingresp_recv_timeout duration s = record s {
    pingresp_recv_timeout_ms = if duration == 0 then none else some duration;
  }

  pub acquire_unique_packet_id : Conn → Conn × Option ℕ
  acquire_unique_packet_id s =
      let (m, r) = env.ids.acquire_unique_id s.pid_man in (record s { pid_man = m }, r)

  pub register_packet_id : ℕ → Conn → Conn × Bool
  register_packet_id packet_id s =
      let (m, r) = env.ids.register_id packet_id s.pid_man in (record s { pid_man = m }, r)

  unfoldable pub release_packet_id : ℕ → Conn → Conn
  release_packet_id packet_id s =
      if env.ids.is_used_id packet_id s.pid_man then release_and_report packet_id s else s

  -- The loops of notify_closed over a set.
  unfoldable pub release_all : PidSet → Conn → Conn
  unfolding release_packet_id
  release_all [] s = s
  release_all (packet_id ∷ rest) s = release_all rest (release_packet_id packet_id s)

  unfoldable pub forget_session : Conn → Conn
  unfolding release_all
  forget_session s =
      let s1 = record s { qos2_publish_processing = []; qos2_publish_handled = [] } in
      let s2 = release_all s1.pid_puback s1 in
      let s3 = record s2 { pid_puback = [] } in
      let s4 = release_all s3.pid_pubrec s3 in
      let s5 = record s4 { pid_pubrec = [] } in
      let s6 = release_all s5.pid_pubcomp s5 in record s6 { pid_pubcomp = [] }

  unfoldable pub notify_closed : Conn → Conn
  unfolding forget_session
  notify_closed s =
      let s1 = record s {
        maximum_packet_size_send = packet_size_no_limit;
        maximum_packet_size_recv = packet_size_no_limit;
        status = disconnected;
        topic_alias_send = none;
        topic_alias_recv = none;
      } in
      let s2 = release_all s1.pid_suback s1 in
      let s3 = record s2 { pid_suback = [] } in
      let s4 = release_all s3.pid_unsuback s3 in
      let s5 = record s4 { pid_unsuback = [] } in
      cancel_timers (if s5.need_store then s5 else forget_session s5)

  pub get_qos2_publish_handled_pids : Conn → PidSet
  get_qos2_publish_handled_pids s = s.qos2_publish_handled

  pub restore_qos2_publish_handled_pids : PidSet → Conn → Conn
  restore_qos2_publish_handled_pids pids s = record s { qos2_publish_handled = pids }

  -- add_publish and add_store of restore_packets
  pub restore_expectation : StorePacket → Conn → Conn
  restore_expectation (StorePacket.v3_1_1_publish p) s = elim p.qos [
    | at_most_once ↦ s
    | at_least_once ↦ record s { pid_puback = insert p.packet_id s.pid_puback }
    | exactly_once ↦ record s { pid_pubrec = insert p.packet_id s.pid_pubrec }
  ]
  restore_expectation (StorePacket.v5_publish p) s = elim p.qos [
    | at_most_once ↦ s
    | at_least_once ↦ record s { pid_puback = insert p.packet_id s.pid_puback }
    | exactly_once ↦ record s { pid_pubrec = insert p.packet_id s.pid_pubrec }
  ]
  restore_expectation (StorePacket.v3_1_1_pubrel i) s = record s {
    pid_pubcomp = insert i s.pid_pubcomp;
  }
  restore_expectation (StorePacket.v5_pubrel i _ _) s = record s {
    pid_pubcomp = insert i s.pid_pubcomp;
  }

  pub add_store : StorePacket → Conn → Conn
  add_store p s =
      let (m, fresh_id) = env.ids.register_id (Store.packet_id p) s.pid_man in
      let s' = record s { pid_man = m } in
      if fresh_id then record s' { store = (Store.add env.stores p s'.store).0 } else s'

  unfoldable pub restore_packets : List StorePacket → Conn → Conn
  unfolding restore_expectation add_store
  restore_packets [] s = s
  restore_packets (p ∷ ps) s = restore_packets ps (add_store p (restore_expectation p s))

  pub get_stored_packets : Conn → List StorePacket
  get_stored_packets s = Store.get_stored env.stores s.store

  pub is_publish_processing : ℕ → Conn → Bool
  is_publish_processing pid s = contains pid s.qos2_publish_processing

  -- The regulated packet, or the error. `none` is a fault: the source reads topic_alias_send_ with
  -- no check that it is set.
  unfoldable pub regulate_for_store : Publish → Conn → Option (Publish × Option ErrorCode)
  regulate_for_store p s =
      if is_empty p.topic
      then elim (get_topic_alias p.props) [
        | none ↦ some (p, some packet_not_regulated)
        | some ta ↦ elim s.topic_alias_send [
          | none ↦ none
          | some t ↦
              let topic = env.alias_send.find_without_touch ta t in
              if is_empty topic
              then some (p, some packet_not_regulated)
              else some (remove_topic_alias_add_topic topic p, none)
        ]
      ]
      else some (remove_topic_alias p, none)

  -- One stored packet in send_stored: dropped if it has become too large.
  pub send_one : StorePacket → Conn → Conn × Bool
  send_one p s =
      if ltb s.maximum_packet_size_send (env.size (to_packet p))
      then (release_and_report (Store.packet_id p) s, false)
      else (on_send (to_packet p) none s, true)

  unfoldable pub send_stored : Conn → Conn
  unfolding send_one
  send_stored s =
      let (elems, s') = Store.for_each env.stores send_one s.store s in record s' { store = elems }

  unfoldable pub validate_topic_alias_range : ℕ → Conn → Bool
  validate_topic_alias_range ta s = elim s.topic_alias_send [
    | none ↦ false
    | some t ↦ if ta == 0 || ltb (env.alias_send.max t) ta then false else true
  ]

  -- The look-up refreshes the entry.
  pub look_up_alias : ℕ → Conn → Conn × Option Bytes
  look_up_alias ta s = elim s.topic_alias_send [
    | none ↦ (s, none)
    | some t ↦
        let (t', topic) = env.alias_send.find ta t in
        let s' = record s { topic_alias_send = some t' } in
        if is_empty topic then (s', none) else (s', some topic)
  ]

  unfoldable pub validate_topic_alias : Option ℕ → Conn → Conn × Option Bytes
  unfolding look_up_alias validate_topic_alias_range
  validate_topic_alias none s = (s, none)
  validate_topic_alias (some ta) s =
      if validate_topic_alias_range ta s then look_up_alias ta s else (s, none)

  unfoldable pub validate_maximum_packet_size : ℕ → Conn → Bool
  validate_maximum_packet_size size s = if ltb s.maximum_packet_size_send size then false else true
