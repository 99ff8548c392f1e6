-- ===== src/Protocol/Connection/Qos2.antt =====
-- Exactly-once delivery of QoS 2 packets (connection_impl.ipp): qos2_publish_handled_.
use async_mqtt_cpp.Prelude.{
  ℕ, ◌≡◌, ap, ◌∙◌, Bool-cases, inl, inr, Bool, true, false, ◌&&◌, ◌||◌, if◌then◌else◌, none, some,
  List, [], ◌∷◌, arith,
}
use async_mqtt_cpp.Protocol.Packet.{
  Packet, Publish, exactly_once, v3_1_1_publish, v3_1_1_pubrec, v5_pubrec, v5_publish, kind,
  own_packet_id, is_empty, get_topic_alias,
}
use async_mqtt_cpp.Protocol.PidSet.{PidSet, contains, insert, contains-insert}
use async_mqtt_cpp.Protocol.Env.{Env}
use async_mqtt_cpp.Protocol.Connection.{Conn, is_connected, on_send, on_receive}
use async_mqtt_cpp.Protocol.Connection.Send.{
  send, process_send_packet, post_process, send_body, oversize, arm_pingreq_send,
}
use async_mqtt_cpp.Protocol.Connection.Recv.Common.{pingreq_recv_op}
use async_mqtt_cpp.Protocol.Connection.Recv.Publishing.{
  recv_publish_v3_1_1, recv_publish_v5, note_handled, check_publish_v5, resolve_topic,
  respond_and_deliver, receive_full,
}
use async_mqtt_cpp.Protocol.Connection.Completion.{received}

contains_inserted : (k : ℕ) (s : PidSet) → contains k (insert k s) ≡ true
contains_inserted k s = ground (arith, contains-insert k k s)

module _ (env : Env) where
  -- Sending a response to a QoS 2 packet delivers nothing and leaves the handled identifiers alone.
  pub record Responded (s t : Conn env) : Type 0 where
    pub same_received : received t.events ≡ received s.events
    pub same_handled : t.qos2_publish_handled ≡ s.qos2_publish_handled

  Responded-arm_pingreq_send : (s : Conn env) → Responded s (arm_pingreq_send env s)
  unfolding arm_pingreq_send
  Responded-arm_pingreq_send s = record {
    same_received = ground arith;
    same_handled = ground arith;
  }

  Responded-pubrec_v3_1_1 : (i : ℕ) (s : Conn env) → Responded s (send env (v3_1_1_pubrec i) s)
  unfolding send process_send_packet post_process send_body oversize kind own_packet_id
  Responded-pubrec_v3_1_1 i s =
      let t = Responded-arm_pingreq_send (on_send env (v3_1_1_pubrec i) none s) in
      record {
        same_received = ground (arith, t.same_received);
        same_handled = ground (arith, t.same_handled);
      }

  Responded-pubrec_v5 : (i : ℕ) (s : Conn env) → Responded s (send env (v5_pubrec i none []) s)
  unfolding send process_send_packet post_process send_body oversize kind own_packet_id
  Responded-pubrec_v5 i s =
      let t = Responded-arm_pingreq_send (on_send env (v5_pubrec i none []) none s) in
      record {
        same_received = ground (arith, t.same_received);
        same_handled = ground (arith, t.same_handled);
      }

  Responded-pingreq_recv_op : (s : Conn env) → Responded s (pingreq_recv_op env s)
  unfolding pingreq_recv_op
  Responded-pingreq_recv_op s = record { same_received = ground arith; same_handled = ground arith }

  Responded-trans : {s t u : Conn env} → Responded s t → Responded t u → Responded s u
  Responded-trans a b = record {
    same_received = b.same_received ∙ a.same_received;
    same_handled = b.same_handled ∙ a.same_handled;
  }

  respond_v3_1_1 :
      (flag : Bool) (i : ℕ) (s : Conn env)
      → Responded s (pingreq_recv_op env (if flag then send env (v3_1_1_pubrec i) s else s))
  respond_v3_1_1 true i s =
      Responded-trans (Responded-pubrec_v3_1_1 i s) (Responded-pingreq_recv_op _)
  respond_v3_1_1 false i s = Responded-pingreq_recv_op s

  respond_v5 :
      (flag : Bool) (i : ℕ) (s : Conn env)
      → Responded s (pingreq_recv_op env (if flag then send env (v5_pubrec i none []) s else s))
  respond_v5 true i s = Responded-trans (Responded-pubrec_v5 i s) (Responded-pingreq_recv_op _)
  respond_v5 false i s = Responded-pingreq_recv_op s

  abbrev noted : Publish → Conn env → Conn env
  noted p s = record s { qos2_publish_handled = insert p.packet_id s.qos2_publish_handled }

  abbrev reply_v3_1_1 : (already_handled : Bool) → Publish → Conn env → Conn env
  reply_v3_1_1 already p s = pingreq_recv_op env (
      if is_connected s.status && (s.auto_pub_response || already)
      then send env (v3_1_1_pubrec p.packet_id) s
      else s)

  repeated_v3_1_1 :
      (p : Publish) (s : Conn env)
      → p.qos ≡ exactly_once
      → contains p.packet_id s.qos2_publish_handled ≡ true
      → recv_publish_v3_1_1 env p s ≡ reply_v3_1_1 true p s
  unfolding recv_publish_v3_1_1 note_handled
  repeated_v3_1_1 p s q h = ground (arith, q, h)

  fresh_v3_1_1 :
      (p : Publish) (s : Conn env)
      → p.qos ≡ exactly_once
      → contains p.packet_id s.qos2_publish_handled ≡ false
      → recv_publish_v3_1_1 env p s
        ≡ on_receive env (v3_1_1_publish p) (reply_v3_1_1 false p (noted p s))
  unfolding recv_publish_v3_1_1 note_handled
  fresh_v3_1_1 p s q h = ground (arith, q, h)

  -- A v3.1.1 QoS 2 packet is handed to the application when its identifier is not handled yet,
  -- and not again while it is; afterwards it is handled.
  pub recv_publish_v3_1_1-once :
      (p : Publish) (s : Conn env)
      → p.qos ≡ exactly_once
      → let t = recv_publish_v3_1_1 env p s in
        (received t.events ≡ (
          if contains p.packet_id s.qos2_publish_handled
          then received s.events
          else v3_1_1_publish p ∷ received s.events))
        × (contains p.packet_id t.qos2_publish_handled ≡ true)
  recv_publish_v3_1_1-once p s q = elim (Bool-cases (contains p.packet_id s.qos2_publish_handled)) [
    | inl h ↦
        let r =
          respond_v3_1_1 (is_connected s.status && (s.auto_pub_response || true)) p.packet_id s in
        rw (repeated_v3_1_1 p s q h, h)
          (r.same_received, ap (contains p.packet_id) r.same_handled ∙ h)
    | inr h ↦
        let u = noted p s in
        let r =
          respond_v3_1_1 (is_connected u.status && (u.auto_pub_response || false)) p.packet_id u in
        rw (fresh_v3_1_1 p s q h, h)
          (
            ap (λ (l : List Packet). v3_1_1_publish p ∷ l) r.same_received,
            ap (contains p.packet_id) r.same_handled
                ∙ contains_inserted p.packet_id s.qos2_publish_handled,
          )
  ]

  abbrev counted : Publish → Conn env → Conn env
  counted p s = record s { publish_recv = insert p.packet_id s.publish_recv }

  abbrev reply_v5 : (already_handled : Bool) → Publish → Conn env → Conn env
  reply_v5 already p s = pingreq_recv_op env (
      if is_connected s.status && (s.auto_pub_response || already)
      then send env (v5_pubrec p.packet_id none []) s
      else s)

  named_topic :
      (p : Publish) (s : Conn env)
      → get_topic_alias p.props ≡ none
      → is_empty p.topic ≡ false
      → resolve_topic env p s ≡ some (p, s)
  unfolding resolve_topic
  named_topic p s a e = ground (arith, a, e)

  repeated_v5 :
      (p : Publish) (s : Conn env)
      → p.qos ≡ exactly_once
      → receive_full env s ≡ false
      → get_topic_alias p.props ≡ none
      → is_empty p.topic ≡ false
      → contains p.packet_id s.qos2_publish_handled ≡ true
      → recv_publish_v5 env p s ≡ reply_v5 true p (counted p s)
  unfolding recv_publish_v5 check_publish_v5 respond_and_deliver note_handled
  repeated_v5 p s q f a e h = ground (arith, q, f, h, named_topic p (counted p s) a e)

  fresh_v5 :
      (p : Publish) (s : Conn env)
      → p.qos ≡ exactly_once
      → receive_full env s ≡ false
      → get_topic_alias p.props ≡ none
      → is_empty p.topic ≡ false
      → contains p.packet_id s.qos2_publish_handled ≡ false
      → recv_publish_v5 env p s
        ≡ on_receive env (v5_publish p) (reply_v5 false p (noted p (counted p s)))
  unfolding recv_publish_v5 check_publish_v5 respond_and_deliver note_handled
  fresh_v5 p s q f a e h = ground (arith, q, f, h, named_topic p (noted p (counted p s)) a e)

  -- A v5 QoS 2 packet is handed to the application when its identifier is not handled yet, and
  -- not again while it is; afterwards it is handled. This is for a packet within the receive
  -- maximum that names its topic and has no alias.
  pub recv_publish_v5-once :
      (p : Publish) (s : Conn env)
      → p.qos ≡ exactly_once
      → receive_full env s ≡ false
      → get_topic_alias p.props ≡ none
      → is_empty p.topic ≡ false
      → let t = recv_publish_v5 env p s in
        (received t.events ≡ (
          if contains p.packet_id s.qos2_publish_handled
          then received s.events
          else v5_publish p ∷ received s.events))
        × (contains p.packet_id t.qos2_publish_handled ≡ true)
  recv_publish_v5-once p s q f a e =
      elim (Bool-cases (contains p.packet_id s.qos2_publish_handled)) [
        | inl h ↦
            let v = counted p s in
            let r =
              respond_v5 (is_connected v.status && (v.auto_pub_response || true)) p.packet_id v in
            rw (repeated_v5 p s q f a e h, h)
              (r.same_received, ap (contains p.packet_id) r.same_handled ∙ h)
        | inr h ↦
            let u = noted p (counted p s) in
            let r =
              respond_v5 (is_connected u.status && (u.auto_pub_response || false)) p.packet_id u in
            rw (fresh_v5 p s q f a e h, h)
              (
                ap (λ (l : List Packet). v5_publish p ∷ l) r.same_received,
                ap (contains p.packet_id) r.same_handled
                    ∙ contains_inserted p.packet_id s.qos2_publish_handled,
              )
      ]
