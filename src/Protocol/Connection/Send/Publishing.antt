-- ===== src/Protocol/Connection/Send/Publishing.antt =====
-- The publish part of process_send_packet (connection_send.ipp): storing, topic aliases and the
-- peer's receive maximum, with the early returns of the source as `stop`.
use async_mqtt_cpp.Prelude.{
  ℕ, ◌+◌, ◌%◌, ◌^◌, Bool, true, false, not, ◌&&◌, ◌||◌, if◌then◌else◌, ◌==◌, Option, none, some,
}
use async_mqtt_cpp.Protocol.Packet.{
  Packet, Publish, at_most_once, exactly_once, v3_1_1_publish, v5_publish, is_empty,
  get_topic_alias, erase_topic_alias, add_topic_alias, remove_topic_add_topic_alias,
}
use async_mqtt_cpp.Protocol.Event.{
  ErrorCode, packet_not_allowed_to_send, packet_identifier_invalid, disconnect_reason_code,
  receive_maximum_exceeded,
}
use async_mqtt_cpp.Protocol.PidSet.{insert}
use async_mqtt_cpp.Protocol.Store
use async_mqtt_cpp.Protocol.Store.{StorePacket}
use async_mqtt_cpp.Protocol.Env.{Env}
use async_mqtt_cpp.Protocol.Connection.{
  Conn, is_connected, is_disconnected, on_error, on_send, release_and_report, validate_topic_alias,
  validate_topic_alias_range, validate_maximum_packet_size,
}

-- `stop` is `return false` in the middle of process_send_packet.
pub data Step (S A : Type 0) : Type 0 where
  stop : S → Step S A
  continue : S → A → Step S A

infixl 5 ◌>>=◌ ◌>>◌
abbrev pub ◌>>=◌ : {S A B : Type 0} → (S → Step S A) → (A → S → Step S B) → S → Step S B
◌>>=◌ m f s = elim (m s) [ stop s' ↦ stop s' | continue s' a ↦ f a s' ]

abbrev pub ◌>>◌ : {S B : Type 0} → (S → Step S (Unit {0})) → (S → Step S B) → S → Step S B
m >> k = m >>= λ _. k

abbrev pub is_some {ℓ} : {A : Type ℓ} → Option A → Bool
is_some none = false
is_some (some a) = true

module _ (env : Env) where
  -- The error, and the release of the packet's identifier if it has one.
  unfoldable pub refuse : ErrorCode → ℕ → Conn env → Conn env
  refuse ec packet_id s =
      let s' = on_error env ec s in
      if packet_id == 0 then s' else release_and_report env packet_id s'

  unfoldable pub reject_offline_alias : Publish → Conn env → Step (Conn env) (Unit {0})
  reject_offline_alias p s =
      if not (is_connected s.status) && is_some (get_topic_alias p.props)
      then stop (refuse packet_not_allowed_to_send p.packet_id s)
      else continue s tt

  abbrev add_to_store : StorePacket → Conn env → Conn env
  add_to_store p s = record s { store = (Store.add env.stores p s.store).0 }

  abbrev dup : Publish → Publish
  dup p = record p { dup = true }

  -- The stored copy names its topic. The answer is topic_alias_validated.
  unfoldable pub store_v5 : Publish → Conn env → Step (Conn env) Bool
  unfolding validate_topic_alias validate_maximum_packet_size
  store_v5 p s =
      if is_empty p.topic
      then (let (s', topic_opt) = validate_topic_alias env (get_topic_alias p.props) s in
          elim topic_opt [
            | none ↦ stop (refuse packet_not_allowed_to_send p.packet_id s')
            | some topic ↦
                let store_packet = record p { topic = topic; props = erase_topic_alias p.props } in
                if validate_maximum_packet_size env (env.size (v5_publish store_packet)) s'
                then continue (add_to_store (StorePacket.v5_publish (dup store_packet)) s') true
                else stop (refuse packet_not_allowed_to_send p.packet_id s')
          ])
      else continue
          (add_to_store
            (StorePacket.v5_publish (dup (record p { props = erase_topic_alias p.props }))) s)
          false

  unfoldable pub store_v3_1_1 : Publish → Conn env → Step (Conn env) Bool
  store_v3_1_1 p s = continue (add_to_store (StorePacket.v3_1_1_publish (dup p)) s) false

  -- pid_pubrec_ with qos2_publish_processing_, or pid_puback_.
  unfoldable pub await_response : Publish → Conn env → Conn env
  await_response p s = elim p.qos [
    | exactly_once ↦ record s {
      qos2_publish_processing = insert p.packet_id s.qos2_publish_processing;
      pid_pubrec = insert p.packet_id s.pid_pubrec;
    }
    | _ ↦ record s { pid_puback = insert p.packet_id s.pid_puback }
  ]

  -- A packet of QoS 1 or 2. The answer is topic_alias_validated with release_packet_id_if_send_error.
  unfoldable pub store_publish_qos12 :
      (Publish → Conn env → Step (Conn env) Bool)
      → Publish
      → Conn env
      → Step (Conn env) (Bool × Option ℕ)
  unfolding await_response
  store_publish_qos12 keep p s =
      if not (env.ids.is_used_id p.packet_id s.pid_man)
      then stop (on_error env packet_identifier_invalid s)
      else if s.need_store && (not (is_disconnected s.status) || s.offline_publish)
      then elim (keep p s) [
        | stop s' ↦ stop s'
        | continue s' validated ↦ continue (await_response p s') (validated, none)
      ]
      else continue (await_response p s) (false, some p.packet_id)

  unfoldable pub store_publish :
      (Publish → Conn env → Step (Conn env) Bool)
      → Publish
      → Conn env
      → Step (Conn env) (Bool × Option ℕ)
  unfolding store_publish_qos12
  store_publish keep p s = elim p.qos [
    | at_most_once ↦ continue s (false, none)
    | _ ↦ store_publish_qos12 keep p s
  ]

  -- A topic without an alias: the connection's own mapping, while it is connected.
  unfoldable pub map_alias : Publish → Conn env → Conn env × Publish
  map_alias p s = elim s.topic_alias_send [
    | none ↦ (s, p)
    | some t ↦
        if s.auto_map_topic_alias_send
        then elim (env.alias_send.find_alias p.topic t) [
          | some ta ↦ (s, remove_topic_add_topic_alias ta p)
          | none ↦
              let lru_ta = env.alias_send.get_lru_alias t in
              (
                record s {
                  topic_alias_send = some (env.alias_send.insert_or_update p.topic lru_ta t);
                },
                add_topic_alias lru_ta p,
              )
        ]
        else if s.auto_replace_topic_alias_send
        then elim (env.alias_send.find_alias p.topic t) [
          | some ta ↦ (s, remove_topic_add_topic_alias ta p)
          | none ↦ (s, p)
        ]
        else (s, p)
  ]

  -- The user's own alias for a topic.
  unfoldable pub register_alias : ℕ → Publish → Conn env → Step (Conn env) Publish
  register_alias ta p s =
      if validate_topic_alias_range env ta s
      then elim s.topic_alias_send [
        | none ↦ continue s p
        | some t ↦
            continue
              (record s { topic_alias_send = some (env.alias_send.insert_or_update p.topic ta t) })
              p
      ]
      else stop (refuse packet_not_allowed_to_send p.packet_id s)

  unfoldable pub apply_topic_alias :
      (validated : Bool) → Publish → Conn env → Step (Conn env) Publish
  unfolding validate_topic_alias validate_topic_alias_range map_alias register_alias
  apply_topic_alias validated p s =
      if is_empty p.topic
      then (if validated
          then continue s p
          else (let (s', topic_opt) = validate_topic_alias env (get_topic_alias p.props) s in
              elim topic_opt [
                | none ↦ stop (refuse packet_not_allowed_to_send p.packet_id s')
                | some topic ↦ continue s' p
              ]))
      else elim (get_topic_alias p.props) [
        | some ta ↦ register_alias ta p s
        | none ↦
            if is_connected s.status
            then (let (s', p') = map_alias p s in continue s' p')
            else continue s p
      ]

  -- receive_maximum for sending; publish_send_count_ is a uint16_t.
  unfoldable pub count_publish : Publish → Conn env → Step (Conn env) (Unit {0})
  count_publish p s = elim p.qos [
    | at_most_once ↦ continue s tt
    | _ ↦ elim s.publish_send_max [
      | none ↦ continue s tt
      | some m ↦
          if s.publish_send_count == m
          then stop (refuse (disconnect_reason_code receive_maximum_exceeded) p.packet_id s)
          else continue (record s { publish_send_count = (s.publish_send_count + 1) % 2 ^ 16 }) tt
    ]
  ]

  -- Sent, or kept for later, or refused.
  unfoldable pub finish_publish : Packet → ℕ → Option ℕ → Conn env → Conn env × Bool
  finish_publish packet packet_id release s =
      if is_connected s.status
      then (on_send env packet release s, true)
      else if s.offline_publish
      then (s, true)
      else (refuse packet_not_allowed_to_send packet_id s, false)

  unfoldable pub publish_v3_1_1 : Publish → Conn env → Conn env × Bool
  unfolding store_publish store_v3_1_1 finish_publish
  publish_v3_1_1 p s = elim (store_publish store_v3_1_1 p s) [
    | stop s' ↦ (s', false)
    | continue s' r ↦ finish_publish (v3_1_1_publish p) p.packet_id r.1 s'
  ]

  -- The steps for a v5 packet, up to the sending itself.
  unfoldable pub prepare_v5 : Publish → Conn env → Step (Conn env) (Publish × Option ℕ)
  unfolding reject_offline_alias store_publish store_v5 apply_topic_alias count_publish
  prepare_v5 p = do
    reject_offline_alias p
    r ← store_publish store_v5 p
    p' ← apply_topic_alias r.0 p
    count_publish p'
    λ s. continue s (p', r.1)

  unfoldable pub publish_v5 : Publish → Conn env → Conn env × Bool
  unfolding prepare_v5 finish_publish
  publish_v5 p s = elim (prepare_v5 p s) [
    | stop s' ↦ (s', false)
    | continue s' r ↦ finish_publish (v5_publish r.0) p.packet_id r.1 s'
  ]
