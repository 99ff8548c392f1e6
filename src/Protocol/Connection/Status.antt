-- ===== src/Protocol/Connection/Status.antt =====
-- The connection status as a state machine (connection_send.ipp, connection_impl.ipp).
use async_mqtt_cpp.Prelude.{
  ℕ, ◌≡◌, refl, ◌∙◌, Bool-cases, inl, inr, Bool, true, false, ◌&&◌, if◌then◌else◌, ◌==◌, Option,
  none, some, [], ◌∷◌, arith,
}
use async_mqtt_cpp.Protocol.Packet.{
  Packet, Publish, Properties, Property, v3_1_1_connect, v3_1_1_connack, v5_connect, v5_connack,
  v5_disconnect, v3_1_1_disconnect, Kind, connack, v3_1_1_publish, v5_publish, v3_1_1_pingreq,
  v5_pingreq, kind, topic_alias_maximum,
}
use async_mqtt_cpp.Protocol.Env.{Env}
use async_mqtt_cpp.Protocol.Connection.{
  Conn, ConnectionStatus, connecting, connected, disconnected, validate_topic_alias,
  validate_maximum_packet_size, on_send,
}
use async_mqtt_cpp.Protocol.Connection.Send.{
  send, process_send_packet, post_process, send_body, connect_v5, connect_property,
  connect_properties, connack_status, connack_property, connack_properties, is_sendable,
  version_check, status_allows_send, arm_pingreq_send, arm_pingresp, after_connack,
}
use async_mqtt_cpp.Protocol.Connection.Send.Publishing.{
  ◌>>=◌, Step, stop, continue, publish_v5, publish_v3_1_1, reject_offline_alias, store_v5,
  store_v3_1_1, store_publish, refuse, apply_topic_alias, count_publish, finish_publish, prepare_v5,
}
use async_mqtt_cpp.Protocol.Connection.Timers.{status-cancel_timers}
use async_mqtt_cpp.Protocol.Connection.Resend.{status-send_stored}

-- The status machine of a sender.
abbrev pub status_after_send : Packet → ConnectionStatus → ConnectionStatus
status_after_send (v3_1_1_connect _ _ _) st = connecting
status_after_send (v5_connect _ _ _ _) st = connecting
status_after_send (v3_1_1_connack _ c) st = if c == 0 then connected else disconnected
status_after_send (v5_connack _ c _) st = if c == 0 then connected else disconnected
status_after_send v3_1_1_disconnect st = disconnected
status_after_send (v5_disconnect _ _) st = disconnected
status_after_send p st = st

module _ (env : Env) where
  -- The state in which a step ends.
  abbrev pub end_of : {A : Type 0} → Step (Conn env) A → Conn env
  end_of (stop s) = s
  end_of (continue s a) = s

  status-connect_properties :
      (ps : Properties) (s : Conn env) → (connect_properties env ps s).status ≡ s.status
  unfolding connect_properties
  status-connect_properties [] s = refl
  status-connect_properties (p ∷ ps) s = status-connect_properties ps _ ∙ one p s
    where
      one : (p : Property) (s : Conn env) → (connect_property env p s).status ≡ s.status
      one (topic_alias_maximum v) s = ground arith
      one p s = ground arith

  status-connack_properties :
      (ps : Properties) (s : Conn env) → (connack_properties env ps s).status ≡ s.status
  unfolding connack_properties
  status-connack_properties [] s = refl
  status-connack_properties (p ∷ ps) s = status-connack_properties ps _ ∙ one p s
    where
      one : (p : Property) (s : Conn env) → (connack_property env p s).status ≡ s.status
      one (topic_alias_maximum v) s = ground arith
      one p s = ground arith

  status-validate_topic_alias :
      (ta : Option ℕ) (s : Conn env) → (validate_topic_alias env ta s).0.status ≡ s.status
  unfolding validate_topic_alias
  status-validate_topic_alias none s = refl
  status-validate_topic_alias (some ta) s = ground arith

  status-store_v5 : (p : Publish) (s : Conn env) → (end_of (store_v5 env p s)).status ≡ s.status
  unfolding store_v5 refuse
  status-store_v5 p s = ground arith

  status-store_publish :
      (keep : Publish → Conn env → Step (Conn env) Bool) (p : Publish) (s : Conn env)
      → (end_of (keep p s)).status ≡ s.status
      → (end_of (store_publish env keep p s)).status ≡ s.status
  unfolding store_publish
  status-store_publish keep p s h = ground arith

  status-apply_topic_alias :
      (validated : Bool) (p : Publish) (s : Conn env)
      → (end_of (apply_topic_alias env validated p s)).status ≡ s.status
  unfolding apply_topic_alias refuse
  status-apply_topic_alias validated p s = ground arith

  status-count_publish :
      (p : Publish) (s : Conn env) → (end_of (count_publish env p s)).status ≡ s.status
  unfolding count_publish refuse
  status-count_publish p s = ground arith

  status-reject_offline_alias :
      (p : Publish) (s : Conn env) → (end_of (reject_offline_alias env p s)).status ≡ s.status
  unfolding reject_offline_alias refuse
  status-reject_offline_alias p s = ground arith

  step-keeps :
      {A B C : Type 0} (g : Conn env → C) (f : A → Conn env → Step (Conn env) B)
      → ((a : A) (s : Conn env) → g (end_of (f a s)) ≡ g s)
      → (r : Step (Conn env) A)
      → g (end_of (elim r as (λ x. Step (Conn env) B) [ stop s ↦ stop s | continue s a ↦ f a s ]))
        ≡ g (end_of r)
  step-keeps g f k (stop s) = refl
  step-keeps g f k (continue s a) = k a s

  -- A sequence of steps leaves alone what each of them leaves alone.
  pub >>=-keeps :
      {A B C : Type 0} (g : Conn env → C) (m : Conn env → Step (Conn env) A)
      (f : A → Conn env → Step (Conn env) B)
      → ((s : Conn env) → g (end_of (m s)) ≡ g s)
      → ((a : A) (s : Conn env) → g (end_of (f a s)) ≡ g s)
      → (s : Conn env) → g (end_of ((m >>= f) s)) ≡ g s
  >>=-keeps g m f h k s = step-keeps g f k (m s) ∙ h s

  abbrev status_of : Conn env → ConnectionStatus
  status_of s = s.status

  status-prepare_v5 :
      (p : Publish) (s : Conn env) → status_of (end_of (prepare_v5 env p s)) ≡ s.status
  unfolding prepare_v5
  status-prepare_v5 p =
      >>=-keeps status_of (reject_offline_alias env p) _ (status-reject_offline_alias p) λ _.
        >>=-keeps status_of (store_publish env (store_v5 env) p) _
          (λ s. status-store_publish (store_v5 env) p s (status-store_v5 p s))
          λ r.
            >>=-keeps status_of (apply_topic_alias env r.0 p) _ (status-apply_topic_alias r.0 p)
              λ p'.
                >>=-keeps status_of (count_publish env p') _ (status-count_publish p') (λ _ s. refl)

  status-finish_publish :
      (packet : Packet) (packet_id : ℕ) (release : Option ℕ) (s : Conn env)
      → (finish_publish env packet packet_id release s).0.status ≡ s.status
  unfolding finish_publish refuse
  status-finish_publish packet packet_id release s = ground arith

  publish-finishes :
      {A : Type 0} (r : Step (Conn env) A) (f : Conn env → A → Conn env × Bool)
      → ((s : Conn env) (a : A) → (f s a).0.status ≡ s.status)
      → (elim r as (λ x. Conn env × Bool) [
        | stop s' ↦ (s', false)
        | continue s' a ↦ f s' a
      ]).0.status
        ≡ (end_of r).status
  publish-finishes (stop s) f h = refl
  publish-finishes (continue s a) f h = h s a

  status-publish_v5 : (p : Publish) (s : Conn env) → (publish_v5 env p s).0.status ≡ s.status
  unfolding publish_v5
  status-publish_v5 p s =
      publish-finishes (prepare_v5 env p s) _
        (λ s' r. status-finish_publish (v5_publish r.0) p.packet_id r.1 s')
      ∙ status-prepare_v5 p s

  status-publish_v3_1_1 :
      (p : Publish) (s : Conn env) → (publish_v3_1_1 env p s).0.status ≡ s.status
  unfolding publish_v3_1_1
  status-publish_v3_1_1 p s =
      publish-finishes (store_publish env (store_v3_1_1 env) p s) _
        (λ s' r. status-finish_publish (v3_1_1_publish p) p.packet_id r.1 s')
      ∙ status-store_publish (store_v3_1_1 env) p s (unfold store_v3_1_1 in refl)

  status-connect_v5 :
      (k : ℕ) (c : Bool) (ps : Properties) (s : Conn env)
      → (connect_v5 env k c ps s).status ≡ connecting
  unfolding connect_v5
  status-connect_v5 k c ps s = status-connect_properties ps _ ∙ ground arith

  status-connack_status :
      (c : ℕ) (ps : Properties) (s : Conn env)
      → (connack_status env c ps s).status ≡ (if c == 0 then connected else disconnected)
  unfolding connack_status
  status-connack_status c ps s = elim (Bool-cases (c == 0)) [
    | inl e ↦ rw e (status-connack_properties ps (record s { status = connected }))
    | inr e ↦ rw e (status-cancel_timers env (record s { status = disconnected }))
  ]

  status-arm_pingresp : (s : Conn env) → (arm_pingresp env s).status ≡ s.status
  unfolding arm_pingresp
  status-arm_pingresp s = ground arith

  status-send_body :
      (p : Packet) (s : Conn env) → (send_body env p s).0.status ≡ status_after_send p s.status
  unfolding send_body
  status-send_body (v3_1_1_connect k c o) s = ground arith
  status-send_body (v5_connect k c ps o) s = status-connect_v5 k c ps s
  status-send_body (v3_1_1_connack sp c) s = status-connack_status c [] s
  status-send_body (v5_connack sp c ps) s = status-connack_status c ps s
  status-send_body (v3_1_1_publish p) s = status-publish_v3_1_1 p s
  status-send_body (v5_publish p) s = status-publish_v5 p s
  status-send_body v3_1_1_pingreq s = status-arm_pingresp (on_send env v3_1_1_pingreq none s)
  status-send_body v5_pingreq s = status-arm_pingresp (on_send env v5_pingreq none s)
  status-send_body v3_1_1_disconnect s =
      status-cancel_timers env (record s { status = disconnected })
  status-send_body (v5_disconnect c ps) s =
      status-cancel_timers env (record s { status = disconnected })
  status-send_body p s = ground arith

  status-arm_pingreq_send : (s : Conn env) → (arm_pingreq_send env s).status ≡ s.status
  unfolding arm_pingreq_send
  status-arm_pingreq_send s = ground arith

  status-after_connack : (k : Kind) (s : Conn env) → (after_connack env k s).status ≡ s.status
  status-after_connack connack s = status-send_stored env s
  status-after_connack k s = refl

  status-post_process :
      (p : Packet) (r : Conn env × Bool) → (post_process env p r).status ≡ r.0.status
  unfolding post_process
  status-post_process p (s, true) =
      status-arm_pingreq_send (after_connack env (kind p) s) ∙ status-after_connack (kind p) s
  status-post_process p (s, false) = refl

  -- A packet that the role, the status and the version allow and that is within the peer's size
  -- limit moves the status as the protocol's state machine says: CONNECT to connecting, CONNACK
  -- to connected or disconnected by its code, DISCONNECT to disconnected. Every other such
  -- packet, also one that is refused on the way, keeps the status.
  pub status-send :
      (p : Packet) (s : Conn env)
      → (is_sendable env p && (status_allows_send env (kind p) s.status && version_check env p s))
        ≡ true
      → validate_maximum_packet_size env (env.size p) s ≡ true
      → (send env p s).status ≡ status_after_send p s.status
  unfolding send process_send_packet
  status-send p s h k =
      ground (arith, status-post_process p (send_body env p s), status-send_body p s)
