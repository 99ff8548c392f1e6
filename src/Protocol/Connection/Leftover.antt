-- ===== src/Protocol/Connection/Leftover.antt =====
-- A v5 publish packet that the receive maximum refuses after it was stored (connection_send.ipp).
use async_mqtt_cpp.Prelude.{ℕ, ◌≤◌, ◌≡◌, true, false, none, some, arith}
use async_mqtt_cpp.Protocol.Packet.{Publish, at_least_once, is_empty, get_topic_alias}
use async_mqtt_cpp.Protocol.PidSet.{contains, contains-insert}
use async_mqtt_cpp.Protocol.Env.{Env}
use async_mqtt_cpp.Protocol.Connection.{Conn, connected}
use async_mqtt_cpp.Protocol.Connection.Send.Publishing.{
  publish_v5, prepare_v5, store_publish, store_publish_qos12, store_v5, await_response,
  reject_offline_alias, apply_topic_alias, map_alias, count_publish, refuse,
}

module _ (env : Env) where
  -- A connected v5 packet of QoS 1 with a topic, no alias and a used identifier, where the peer
  -- gave no topic alias maximum and its receive maximum is reached: the packet is refused and its
  -- identifier is free again, but PUBACK for this identifier is still expected.
  pub publish_v5-leftover :
      (p : Publish) (m : ℕ) (s : Conn env)
      → env.ids.Valid s.pid_man
      → 1 ≤ p.packet_id
      → p.packet_id ≤ env.ids.largest
      → env.ids.is_used_id p.packet_id s.pid_man ≡ true
      → p.qos ≡ at_least_once
      → is_empty p.topic ≡ false
      → get_topic_alias p.props ≡ none
      → s.status ≡ connected
      → s.topic_alias_send ≡ none
      → s.publish_send_max ≡ some m
      → s.publish_send_count ≡ m
      → let r = publish_v5 env p s in
        (r.1 ≡ false)
        × ((env.ids.is_used_id p.packet_id r.0.pid_man ≡ false)
            × (contains p.packet_id r.0.pid_puback ≡ true))
  unfolding publish_v5 prepare_v5 store_publish store_publish_qos12 store_v5 await_response
      reject_offline_alias apply_topic_alias map_alias count_publish refuse
  publish_v5-leftover p m s v lo hi u q t a c n k e = ground (
    arith,
    u,
    q,
    t,
    a,
    c,
    n,
    k,
    e,
    lo,
    env.ids.release_lem p.packet_id p.packet_id s.pid_man v lo hi,
    contains-insert p.packet_id p.packet_id s.pid_puback,
  )
