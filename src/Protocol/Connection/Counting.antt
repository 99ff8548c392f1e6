-- ===== src/Protocol/Connection/Counting.antt =====
-- A v5 publish packet and the receive maximum of the peer (connection_send.ipp): publish_send_count_.
use async_mqtt_cpp.Prelude.{
  ℕ, ◌+◌, ◌%◌, ◌^◌, ◌≤◌, ◌<◌, ◌≡◌, ◌≢◌, ◌⊎◌, refl, ap, sym, ◌∙◌, inl, inr, Bool, true, false,
  if◌then◌else◌, ◌==◌, Option, some, List, [], ◌∷◌, arith,
}
use async_mqtt_cpp.Protocol.Packet.{
  Packet, Publish, Qos, at_most_once, v5_publish, add_topic_alias, remove_topic_add_topic_alias,
}
use async_mqtt_cpp.Protocol.Event.{
  Event, ErrorCode, disconnect_reason_code, receive_maximum_exceeded,
}
use async_mqtt_cpp.Protocol.Env.{Env}
use async_mqtt_cpp.Protocol.Connection.{Conn}
use async_mqtt_cpp.Protocol.Connection.Send.Publishing.{
  Step, stop, continue, ◌>>=◌, refuse, reject_offline_alias, store_v5, store_publish,
  apply_topic_alias, count_publish, finish_publish, prepare_v5, publish_v5,
}
use async_mqtt_cpp.Protocol.Connection.Status.{end_of}

-- The packets that have been given to the transport, the newest first.
abbrev pub sent_packets : List Event → List Packet
sent_packets [] = []
sent_packets (Event.send p _ ∷ es) = p ∷ sent_packets es
sent_packets (_ ∷ es) = sent_packets es

-- How a step ends: `P` where it stops, `Q` where it goes on.
data Ends {S A : Type 0} (P : S → Type 0) (Q : A → S → Type 0) : Step S A → Type 0 where
  stopped : (s : S) → P s → Ends P Q (stop s)
  continued : (s : S) (a : A) → Q a s → Ends P Q (continue s a)

follow-Ends :
    {S A B : Type 0} (P : S → Type 0) (Q : A → S → Type 0) (R : B → S → Type 0)
    (f : A → S → Step S B) (r : Step S A)
    → Ends P Q r
    → ((a : A) (t : S) → Q a t → Ends P R (f a t))
    → Ends P R (elim r as (λ x. Step S B) [ stop s ↦ stop s | continue s a ↦ f a s ])
follow-Ends P Q R f _ (stopped t p) k = stopped t p
follow-Ends P Q R f _ (continued t a q) k = k a t q

-- A step, and what comes behind it where it goes on.
bind-Ends :
    {S A B : Type 0} (P : S → Type 0) (Q : A → S → Type 0) (R : B → S → Type 0) (m : S → Step S A)
    (f : A → S → Step S B) (s : S)
    → Ends P Q (m s)
    → ((a : A) (t : S) → Q a t → Ends P R (f a t))
    → Ends P R ((m >>= f) s)
bind-Ends P Q R m f s h k = follow-Ends P Q R f (m s) h k

qos_after : {S : Type 0} → Qos → Step S Publish → Qos
qos_after q (stop s) = q
qos_after q (continue s p) = p.qos

module _ (env : Env) where
  -- What the receive maximum is about.
  abbrev quota_of : Conn env → Option ℕ × (ℕ × List Packet)
  quota_of s = (s.publish_send_max, (s.publish_send_count, sent_packets s.events))

  Ends-of :
      {A : Type 0} (x : Option ℕ × (ℕ × List Packet)) (r : Step (Conn env) A)
      → quota_of (end_of env r) ≡ x
      → Ends (λ t. quota_of t ≡ x) (λ a t. quota_of t ≡ x) r
  Ends-of x (stop s) h = stopped s h
  Ends-of x (continue s a) h = continued s a h

  Ends-with :
      (x : Option ℕ × (ℕ × List Packet)) (q : Qos) (r : Step (Conn env) Publish)
      → quota_of (end_of env r) ≡ x
      → qos_after q r ≡ q
      → Ends (λ t. quota_of t ≡ x) (λ p t. (quota_of t ≡ x) × (p.qos ≡ q)) r
  unfolding qos_after
  Ends-with x q (stop s) h e = stopped s h
  Ends-with x q (continue s p) h e = continued s p (h, e)

  quota-refuse : (ec : ErrorCode) (i : ℕ) (s : Conn env) → quota_of (refuse env ec i s) ≡ quota_of s
  unfolding refuse
  quota-refuse ec i s = ground arith

  quota-reject :
      (p : Publish) (s : Conn env)
      → quota_of (end_of env (reject_offline_alias env p s)) ≡ quota_of s
  unfolding reject_offline_alias refuse
  quota-reject p s = ground arith

  quota-store_v5 :
      (p : Publish) (s : Conn env) → quota_of (end_of env (store_v5 env p s)) ≡ quota_of s
  unfolding store_v5 refuse
  quota-store_v5 p s = ground arith

  quota-store :
      (p : Publish) (s : Conn env)
      → quota_of (end_of env (store_publish env (store_v5 env) p s)) ≡ quota_of s
  unfolding store_publish
  quota-store p s = ground (arith, quota-store_v5 p s)

  quota-apply :
      (validated : Bool) (p : Publish) (s : Conn env)
      → quota_of (end_of env (apply_topic_alias env validated p s)) ≡ quota_of s
  unfolding apply_topic_alias refuse
  quota-apply validated p s = ground arith

  qos-apply :
      (validated : Bool) (p : Publish) (s : Conn env)
      → qos_after p.qos (apply_topic_alias env validated p s) ≡ p.qos
  unfolding apply_topic_alias qos_after add_topic_alias remove_topic_add_topic_alias
  qos-apply validated p s = ground arith

  module _ (s : Conn env) (m : ℕ) where
    -- What a publish packet may do: the count stays within the maximum, and it rises by one where
    -- anything is sent.
    pub record IsCounted (t : Conn env) : Type 0 where
      pub max : t.publish_send_max ≡ some m
      pub bound : t.publish_send_count ≤ m
      pub counted :
          (sent_packets t.events ≡ sent_packets s.events)
          ⊎ (t.publish_send_count ≡ s.publish_send_count + 1)

  module _ (s : Conn env) (m : ℕ) (peer : s.publish_send_max ≡ some m)
      (within : s.publish_send_count ≤ m) (fits : m < 2 ^ 16) where
    same_quota : (t : Conn env) → quota_of t ≡ quota_of s → IsCounted s m t
    same_quota t e = record {
      max = ap (λ x. x.0) e ∙ peer;
      bound = ground (arith, within, e);
      counted = inl (ap (λ x. x.1.1) e);
    }

    IsCountedUp : Conn env → Type 0
    IsCountedUp t =
        (t.publish_send_max ≡ some m)
        × (t.publish_send_count ≤ m)
        × (t.publish_send_count ≡ s.publish_send_count + 1)

    -- The two branches of a packet that counts.
    abbrev limited : Bool → Publish → Conn env → Step (Conn env) (Unit {0})
    limited at_max p t =
        if at_max
        then stop (refuse env (disconnect_reason_code receive_maximum_exceeded) p.packet_id t)
        else continue (record t { publish_send_count = (t.publish_send_count + 1) % 2 ^ 16 }) tt

    count_publish-limited :
        (p : Publish) (t : Conn env)
        → p.qos ≢ at_most_once
        → t.publish_send_max ≡ some m
        → count_publish env p t ≡ limited (t.publish_send_count == m) p t
    unfolding count_publish
    count_publish-limited p t q e = ground (arith, q, e)

    limited-Ends :
        (at_max : Bool) (p : Publish) (t : Conn env)
        → (t.publish_send_count == m) ≡ at_max
        → quota_of t ≡ quota_of s
        → Ends (λ u. quota_of u ≡ quota_of s) (λ a u. IsCountedUp u) (limited at_max p t)
    unfolding IsCountedUp
    limited-Ends true p t b e = stopped _ (quota-refuse _ p.packet_id t ∙ e)
    limited-Ends false p t b e = continued _ tt (
      ap (λ x. x.0) e ∙ peer,
      ground (arith, b, e, within, fits),
      ground (arith, b, e, within, fits),
    )

    count_publish-Ends :
        (p : Publish) (t : Conn env)
        → p.qos ≢ at_most_once
        → quota_of t ≡ quota_of s
        → Ends (λ u. quota_of u ≡ quota_of s) (λ a u. IsCountedUp u) (count_publish env p t)
    count_publish-Ends p t q e =
        rw (count_publish-limited p t q (ap (λ x. x.0) e ∙ peer))
          (limited-Ends (t.publish_send_count == m) p t refl e)

    prepare_v5-Ends :
        (p : Publish)
        → p.qos ≢ at_most_once
        → Ends (λ u. quota_of u ≡ quota_of s) (λ a u. IsCountedUp u) (prepare_v5 env p s)
    unfolding prepare_v5
    prepare_v5-Ends p q =
        bind-Ends _ (λ a t. quota_of t ≡ quota_of s) _ (reject_offline_alias env p) _ s
          (Ends-of (quota_of s) _ (quota-reject p s))
          (λ _ t e.
            bind-Ends _ (λ a u. quota_of u ≡ quota_of s) _ (store_publish env (store_v5 env) p) _ t
              (Ends-of (quota_of s) _ (quota-store p t ∙ e))
              (λ r u e.
                bind-Ends _ (λ p' v. (quota_of v ≡ quota_of s) × (p'.qos ≡ p.qos)) _
                  (apply_topic_alias env r.0 p) _ u
                  (Ends-with (quota_of s) p.qos _ (quota-apply r.0 p u ∙ e) (qos-apply r.0 p u))
                  (λ p' v e.
                    bind-Ends _ (λ a w. IsCountedUp w) _ (count_publish env p') _ v
                      (count_publish-Ends p' v (λ z. q (sym e.1 ∙ z)) e.0)
                      (λ a w c. continued w _ c))))

    finish-IsCounted :
        (packet : Packet) (i : ℕ) (release : Option ℕ) (t : Conn env)
        → IsCountedUp t
        → IsCounted s m (finish_publish env packet i release t).0
    unfolding finish_publish refuse IsCountedUp
    finish-IsCounted packet i release t c = record {
      max = ground (arith, c);
      bound = ground (arith, c);
      counted = inr (ground (arith, c));
    }

    finished :
        (r : Step (Conn env) (Publish × Option ℕ))
        (f : Conn env → Publish × Option ℕ → Conn env × Bool)
        → Ends (λ u. quota_of u ≡ quota_of s) (λ a u. IsCountedUp u) r
        → ((t : Conn env) (a : Publish × Option ℕ) → IsCountedUp t → IsCounted s m (f t a).0)
        → IsCounted s m
            (elim r as (λ x. Conn env × Bool) [ stop s' ↦ (s', false) | continue s' a ↦ f s' a ]).0
    finished _ f (stopped t e) k = same_quota t e
    finished _ f (continued t a c) k = k t a c

    -- A v5 publish packet of QoS 1 or 2, to a peer with a receive maximum that fits into 16 bits and
    -- that publish_send_count_ is within, leaves the maximum and keeps the count within it,
    -- whichever way the call ends. It gives nothing to the transport, or the count is one more than
    -- before: so at the maximum nothing is sent.
    pub publish_v5-IsCounted :
        (p : Publish) → p.qos ≢ at_most_once → IsCounted s m (publish_v5 env p s).0
    unfolding publish_v5
    publish_v5-IsCounted p q =
        finished (prepare_v5 env p s) _ (prepare_v5-Ends p q)
          (λ t r c. finish-IsCounted (v5_publish r.0) p.packet_id r.1 t c)
