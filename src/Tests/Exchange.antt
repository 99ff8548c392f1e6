-- ===== src/Tests/Exchange.antt =====
-- Concrete packets through a connection of protocol/impl/connection_impl.ipp and connection_send.ipp.
use async_mqtt_cpp.Prelude.{
  ℕ, ◌+◌, ◌-◌, ◌%◌, ◌^◌, ◌≡◌, refl, true, false, if◌then◌else◌, none, some, [], ◌∷◌, arith,
}
use async_mqtt_cpp.Protocol.Packet.{
  Publish, ResponsePacket, exactly_once, v3_1_1_puback, v3_1_1_pubcomp, v5_puback, v5_pubcomp,
  v5_publish, v3_1_1_publish, v5_disconnect, kind, get_topic_alias,
}
use async_mqtt_cpp.Protocol.PidSet.{contains}
use async_mqtt_cpp.Protocol.Store.{StorePacket}
use async_mqtt_cpp.Protocol.Store
use async_mqtt_cpp.Protocol.Store.Contents.{fold_each, for_each-fold_each}
use async_mqtt_cpp.Protocol.Connection.{
  Conn, new_connection, send_stored, send_one, get_receive_maximum_vacancy_for_send,
  validate_maximum_packet_size,
}
use async_mqtt_cpp.Protocol.Connection.Send.{send, is_sendable, version_check}
use async_mqtt_cpp.Protocol.Connection.Send.Publishing.{publish_v5}
use async_mqtt_cpp.Protocol.Connection.Recv.Acks.{
  recv_puback_v3_1_1, recv_puback_v5, recv_pubcomp_v3_1_1, recv_pubcomp_v5,
}
use async_mqtt_cpp.Protocol.Connection.Recv.Publishing.{recv_publish_v3_1_1, recv_publish_v5}
use async_mqtt_cpp.Protocol.Connection.Counting.{IsCounted, publish_v5-IsCounted}
use async_mqtt_cpp.Protocol.Connection.Status.{status_after_send, status-send}
use async_mqtt_cpp.Protocol.Connection.Completion.{
  received, Completed, recv_puback_v3_1_1-Completed, recv_puback_v5-Completed,
  recv_pubcomp_v3_1_1-Completed, recv_pubcomp_v5-Completed,
}
use async_mqtt_cpp.Protocol.Connection.Quota.{puback_underflow}
use async_mqtt_cpp.Protocol.Connection.Qos2.{recv_publish_v3_1_1-once, recv_publish_v5-once}
use async_mqtt_cpp.Protocol.Connection.Leftover.{publish_v5-leftover}
use async_mqtt_cpp.Tests.Session.{ids, env, session, session-Valid, session-used, aliased}

-- A packet without an alias.
abbrev plain : Publish
plain = record aliased { props = [] }

-- Two packets of the session are stored.
abbrev stored : Conn env
stored = record session {
  store = StorePacket.v5_publish plain ∷ StorePacket.v5_pubrel 5 none [] ∷ [];
}

abbrev waiting : Conn env
waiting = record session { pid_pubcomp = 3 ∷ [] }

status-send_example :
    (send env (v5_disconnect none []) session).status
    ≡ status_after_send (v5_disconnect none []) session.status
unfolding is_sendable version_check validate_maximum_packet_size new_connection kind
status-send_example = status-send env (v5_disconnect none []) session refl refl

recv_puback_v3_1_1-Completed_example :
    Completed env 3 ResponsePacket.v3_1_1_puback
      (v3_1_1_puback 3)
      session
      (recv_puback_v3_1_1 env 3 session)
recv_puback_v3_1_1-Completed_example =
    recv_puback_v3_1_1-Completed env 3 session session-Valid (omega arith) (omega arith) refl

recv_puback_v5-Completed_example :
    Completed env 3 ResponsePacket.v5_puback
      (v5_puback 3 (some 0x10) [])
      session
      (recv_puback_v5 env 3 (v5_puback 3 (some 0x10) []) session)
recv_puback_v5-Completed_example =
    recv_puback_v5-Completed env 3 session session-Valid (omega arith) (omega arith)
      (v5_puback 3 (some 0x10) []) refl

recv_pubcomp_v3_1_1-Completed_example :
    Completed env 3 ResponsePacket.v3_1_1_pubcomp
      (v3_1_1_pubcomp 3)
      waiting
      (recv_pubcomp_v3_1_1 env 3 waiting)
recv_pubcomp_v3_1_1-Completed_example =
    recv_pubcomp_v3_1_1-Completed env 3 waiting session-Valid (omega arith) (omega arith) refl

recv_pubcomp_v5-Completed_example :
    Completed env 3 ResponsePacket.v5_pubcomp
      (v5_pubcomp 3 none [])
      waiting
      (recv_pubcomp_v5 env 3 (v5_pubcomp 3 none []) waiting)
recv_pubcomp_v5-Completed_example =
    recv_pubcomp_v5-Completed env 3 waiting session-Valid (omega arith) (omega arith)
      (v5_pubcomp 3 none []) refl

-- A peer that takes two packets at a time.
abbrev limited : ℕ → Conn env
limited count = record session { publish_send_max = some 2; publish_send_count = count }

publish_v5-IsCounted_example : IsCounted env (limited 2) 2 (publish_v5 env plain (limited 2)).0
publish_v5-IsCounted_example =
    publish_v5-IsCounted env (limited 2) 2 refl (omega arith) (omega arith) plain (λ e. cc)

puback_underflow_example :
    let t = recv_puback_v5 env 3 (v5_puback 3 none []) (send_stored env (limited 0)) in
    (t.publish_send_count ≡ 2 ^ 16 - 1)
    × (get_receive_maximum_vacancy_for_send env t ≡ some ((2 + 2 ^ 64 - (2 ^ 16 - 1)) % 2 ^ 64))
puback_underflow_example =
    puback_underflow env 3 2 (v5_puback 3 none []) (limited 0) refl refl refl (omega arith)

abbrev twice : Publish
twice = record plain { qos = exactly_once; packet_id = 7 }

-- Identifier 7 is handled already.
recv_publish_v3_1_1-once_example :
    let s = record session { qos2_publish_handled = 7 ∷ [] } in
    let t = recv_publish_v3_1_1 env twice s in
    (received t.events ≡ (
      if contains 7 s.qos2_publish_handled
      then received s.events
      else v3_1_1_publish twice ∷ received s.events))
    × (contains 7 t.qos2_publish_handled ≡ true)
recv_publish_v3_1_1-once_example =
    recv_publish_v3_1_1-once env twice (record session { qos2_publish_handled = 7 ∷ [] }) refl

recv_publish_v5-once_example :
    let t = recv_publish_v5 env twice session in
    (received t.events ≡ (
      if contains 7 session.qos2_publish_handled
      then received session.events
      else v5_publish twice ∷ received session.events))
    × (contains 7 t.qos2_publish_handled ≡ true)
unfolding new_connection get_topic_alias
recv_publish_v5-once_example = recv_publish_v5-once env twice session refl refl refl refl

publish_v5-leftover_example :
    let r = publish_v5 env plain (limited 2) in
    (r.1 ≡ false) × ((ids.is_used_id 3 r.0.pid_man ≡ false) × (contains 3 r.0.pid_puback ≡ true))
unfolding new_connection get_topic_alias
publish_v5-leftover_example =
    publish_v5-leftover env plain 2 (limited 2) session-Valid (omega arith) (omega arith)
      session-used refl refl refl refl refl refl refl

for_each-fold_each_example :
    let r = Store.for_each env.stores (send_one env) stored.store stored in
    (r.0 ≡ (fold_each (send_one env) stored.store stored).0)
    × (r.1 ≡ (fold_each (send_one env) stored.store stored).1)
for_each-fold_each_example = for_each-fold_each env.stores (send_one env) stored.store stored
