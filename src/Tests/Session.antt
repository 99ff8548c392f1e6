-- ===== src/Tests/Session.antt =====
-- A concrete connection of protocol/impl/connection_impl.ipp, and what ends its transport.
use async_mqtt_cpp.Prelude.{
  if◌then◌else◌, ℕ, ◌≡◌, refl, ◌∙◌, true, false, not, ◌&&◌, ◌==◌, none, List, [], ◌∷◌, ◌++◌, arith,
}
use async_mqtt_cpp.MultiIndex.{list_index}
use async_mqtt_cpp.Util.ValueAllocator.{before}
use async_mqtt_cpp.Protocol.Packet.{
  Publish, Role, v5, at_least_once, topic_alias, remove_topic_alias, remove_topic_alias_impl,
}
use async_mqtt_cpp.Util.TopicAliasRecv.{by_alias}
use async_mqtt_cpp.Protocol.TopicAliases.{topic_alias_recv}
use async_mqtt_cpp.Protocol.Event.{disconnect_reason_code, protocol_error}
use async_mqtt_cpp.Protocol.PidSet.{contains}
use async_mqtt_cpp.Protocol.Store.{list_store}
use async_mqtt_cpp.Protocol.PidManager.{PidManager}
use async_mqtt_cpp.Protocol.PacketIdManager.Laws.{packet_id_manager}
use async_mqtt_cpp.Protocol.Env.{Env, AliasSend, undecodable}
use async_mqtt_cpp.Protocol.Connection.{
  Conn, connected, new_connection, notify_closed, regulate_for_store,
}
use async_mqtt_cpp.Protocol.Connection.Timers.{IsQuiet, timer_ops, cancels}
use async_mqtt_cpp.Protocol.Connection.Closing.{
  IsSettled, session_of, expected_of, notify_closed-ends, notify_closed-keeps,
  notify_closed-forgets,
}
use async_mqtt_cpp.Protocol.Connection.Regulation.{IsRegulated, regulate_for_store-IsRegulated}

abbrev pub ids : PidManager
ids = packet_id_manager (list_index before) 65535 (omega arith) (omega arith)

-- A table that keeps the last alias only.
abbrev last_alias : AliasSend
last_alias = record {
  State = ℕ × (ℕ × List ℕ);
  make = λ m. (m, (0, []));
  max = λ t. t.0;
  insert_or_update = λ topic ta t. (t.0, (ta, topic));
  find = λ ta t. (t, if ta == t.1.0 then t.1.1 else []);
  find_without_touch = λ ta t. if ta == t.1.0 then t.1.1 else [];
  find_alias = λ topic t. none;
  get_lru_alias = λ t. 1;
}

abbrev pub env : Env
env = record {
  role = Role.any;
  ids = ids;
  stores = list_store;
  alias_send = last_alias;
  alias_recv = topic_alias_recv (list_index by_alias);
  size = λ p. 10;
  buffer_to_packet_variant = λ bytes version. undecodable (disconnect_reason_code protocol_error);
}

-- Connected, with a session to keep. Identifiers 3 and 4 are used: 3 waits for PUBACK, 4 for SUBACK.
abbrev pub session : Conn env
session = record (new_connection env v5) {
  pid_man = (ids.register_id 4 (ids.register_id 3 ids.initial).0).0;
  pid_puback = 3 ∷ [];
  pid_suback = 4 ∷ [];
  need_store = true;
  status = connected;
  pingreq_send_set = true;
}

pub session-Valid : ids.Valid session.pid_man
session-Valid = ids.register-Valid 4 _ (ids.register-Valid 3 _ ids.initial-Valid)

pub session-used : ids.is_used_id 3 session.pid_man ≡ true
session-used =
    (ids.register_lem 3 4 _ (ids.register-Valid 3 _ ids.initial-Valid)).1
    ∙ (ids.register_lem 3 3 _ ids.initial-Valid).1

-- A connection with two timers marked as set.
abbrev timed : Conn env
timed = record session { pingreq_send_set = true; pingresp_recv_set = true }

notify_closed-ends_example :
    (timer_ops (notify_closed env timed).events ≡ cancels env timed ++ timer_ops timed.events)
    × IsQuiet env (notify_closed env timed)
    × IsSettled env (notify_closed env timed)
notify_closed-ends_example = notify_closed-ends env timed

notify_closed-keeps_example :
    (session_of env (notify_closed env session) ≡ session_of env session)
    × ((j : ℕ)
        → ids.is_used_id j (notify_closed env session).pid_man
          ≡ (ids.is_used_id j session.pid_man && not (contains j (4 ∷ [])) && not (contains j [])))
unfolding new_connection
notify_closed-keeps_example =
    notify_closed-keeps env session refl session-Valid (omega arith, (omega arith, tt)) tt

-- The same connection without a session to keep.
abbrev clean : Conn env
clean = record session {
  need_store = false;
  qos2_publish_processing = 5 ∷ [];
  qos2_publish_handled = 6 ∷ [];
}

notify_closed-forgets_example :
    expected_of env (notify_closed env clean) ≡ ([], ([], ([], ([], []))))
notify_closed-forgets_example = notify_closed-forgets env clean refl

-- A publish packet to the topic of byte 116 with alias 1.
abbrev pub aliased : Publish
aliased = record {
  packet_id = 3;
  topic = 116 ∷ [];
  payload = 1 ∷ 2 ∷ [];
  qos = at_least_once;
  retain = false;
  dup = false;
  props = topic_alias 1 ∷ [];
}

regulate_for_store-IsRegulated_example : IsRegulated env aliased (record aliased { props = [] })
unfolding regulate_for_store remove_topic_alias remove_topic_alias_impl
regulate_for_store-IsRegulated_example =
    regulate_for_store-IsRegulated env aliased (record aliased { props = [] }) session refl
