-- ===== src/Protocol/Connection/Quota.antt =====
-- The receive maximum of the peer (connection_send.ipp, connection_impl.ipp): publish_send_count_.
use async_mqtt_cpp.Prelude.{ℕ, ◌+◌, ◌-◌, ◌%◌, ◌^◌, ◌<◌, ◌≡◌, refl, ap, ◌∙◌, true, some, arith}
use async_mqtt_cpp.Protocol.Packet.{Packet}
use async_mqtt_cpp.Protocol.PidSet.{contains}
use async_mqtt_cpp.Protocol.Env.{Env}
use async_mqtt_cpp.Protocol.Connection.{
  Conn, send_stored, send_one, get_receive_maximum_vacancy_for_send,
}
use async_mqtt_cpp.Protocol.Connection.Resend.{send_stored_keeps}
use async_mqtt_cpp.Protocol.Connection.Recv.Acks.{recv_puback_v5, publish_done}

module _ (env : Env) where
  -- Stored packets are sent again without being counted.
  pub count-send_stored :
      (s : Conn env) → (send_stored env s).publish_send_count ≡ s.publish_send_count
  unfolding send_one
  count-send_stored s =
      send_stored_keeps env (λ t. t.publish_send_count) s (λ elems t. refl) (λ p t. ground arith)

  max-send_stored : (s : Conn env) → (send_stored env s).publish_send_max ≡ s.publish_send_max
  unfolding send_one
  max-send_stored s =
      send_stored_keeps env (λ t. t.publish_send_max) s (λ elems t. refl) (λ p t. ground arith)

  puback-send_stored : (s : Conn env) → (send_stored env s).pid_puback ≡ s.pid_puback
  unfolding send_one
  puback-send_stored s =
      send_stored_keeps env (λ t. t.pid_puback) s (λ elems t. refl) (λ p t. ground arith)

  puback-publish_done :
      (i m : ℕ) (p : Packet) (s : Conn env)
      → contains i s.pid_puback ≡ true
      → s.publish_send_max ≡ some m
      → ((recv_puback_v5 env i p s).publish_send_count
          ≡ (s.publish_send_count + (2 ^ 16 - 1)) % 2 ^ 16)
        × ((recv_puback_v5 env i p s).publish_send_max ≡ some m)
  unfolding recv_puback_v5 publish_done
  puback-publish_done i m p s h k = (ground (arith, h, k), ground (arith, h, k))

  -- Where nothing is counted and the peer gave a receive maximum, the PUBACK of an expected v5
  -- packet after send_stored wraps the count around to 65535, and the vacancy then reported is
  -- the receive maximum less 65535 as a 64-bit number.
  pub puback_underflow :
      (i m : ℕ) (p : Packet) (s : Conn env)
      → contains i s.pid_puback ≡ true
      → s.publish_send_max ≡ some m
      → s.publish_send_count ≡ 0
      → m < 2 ^ 16
      → let t = recv_puback_v5 env i p (send_stored env s) in
        (t.publish_send_count ≡ 2 ^ 16 - 1)
        × (get_receive_maximum_vacancy_for_send env t ≡ some ((m + 2 ^ 64 - (2 ^ 16 - 1)) % 2 ^ 64))
  unfolding get_receive_maximum_vacancy_for_send
  puback_underflow i m p s h k e w =
      let u = send_stored env s in
      let (count, max) =
        puback-publish_done i m p u (ap (contains i) (puback-send_stored s) ∙ h)
          (max-send_stored s ∙ k) in
      let zero = count-send_stored s ∙ e in
      let wrapped = count ∙ ap (λ n. (n + (2 ^ 16 - 1)) % 2 ^ 16) zero in
      (wrapped, rw (max, wrapped) refl)
