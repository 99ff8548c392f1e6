-- ===== src/Protocol/Connection/Closing.antt =====
-- `notify_closed` (connection_impl.ipp): the transport has gone.
use async_mqtt_cpp.Prelude.{
  ℕ, ◌≤◌, ◌≡◌, refl, ap, ◌∙◌, Bool-cases, inl, inr, true, false, not, ◌&&◌, if◌then◌else◌, ◌==◌,
  none, Bool, List, [], ◌∷◌, ◌++◌, arith,
}
use async_mqtt_cpp.Protocol.Event.{TimerOp, TimerKind}
use async_mqtt_cpp.Protocol.PidSet.{PidSet, contains}
use async_mqtt_cpp.Protocol.Env.{Env}
use async_mqtt_cpp.Protocol.Connection.{
  Conn, ConnectionStatus, disconnected, cancel_timers, release_packet_id, release_all,
  forget_session, notify_closed, release_and_report, packet_size_no_limit,
}
use async_mqtt_cpp.Protocol.Connection.Timers.{
  IsQuiet, cancel_timers-IsQuiet, timer_ops, cancels, timer_ops-cancel_timers,
}

-- Every packet identifier of a set is one that the manager counts.
abbrev pub InRange : (largest : ℕ) → PidSet → Type 0
InRange largest [] = Unit
InRange largest (i ∷ is) = (1 ≤ i) × ((i ≤ largest) × InRange largest is)

module _ (env : Env) where
  -- What the release of one identifier leaves alone, the release of a whole set does.
  release_all_keeps :
      {B : Type 0} (f : Conn env → B)
      → ((i : ℕ) (t : Conn env) → f (release_and_report env i t) ≡ f t)
      → (pids : PidSet) (s : Conn env) → f (release_all env pids s) ≡ f s
  unfolding release_all release_packet_id
  release_all_keeps f k [] s = refl
  release_all_keeps f k (i ∷ is) s = elim (Bool-cases (env.ids.is_used_id i s.pid_man)) [
    | inl h ↦ rw h (release_all_keeps f k is (release_and_report env i s) ∙ k i s)
    | inr h ↦ rw h (release_all_keeps f k is s)
  ]

  one_freed :
      (j i : ℕ) (s : Conn env)
      → env.ids.Valid s.pid_man
      → 1 ≤ i
      → i ≤ env.ids.largest
      → env.ids.is_used_id j (release_packet_id env i s).pid_man
        ≡ (env.ids.is_used_id j s.pid_man && not (j == i))
  unfolding release_packet_id
  one_freed j i s v lo hi = ground (arith, env.ids.release_lem j i s.pid_man v lo hi)

  one_valid :
      (i : ℕ) (s : Conn env)
      → env.ids.Valid s.pid_man
      → 1 ≤ i
      → i ≤ env.ids.largest
      → env.ids.Valid (release_packet_id env i s).pid_man
  unfolding release_packet_id
  one_valid i s v lo hi = elim (Bool-cases (env.ids.is_used_id i s.pid_man)) [
    | inl h ↦ rw h (env.ids.release-Valid i s.pid_man v lo hi)
    | inr h ↦ rw h v
  ]

  -- Releasing the identifiers of a set frees these and no others.
  pub release_all-freed :
      (j : ℕ) (pids : PidSet) (s : Conn env)
      → env.ids.Valid s.pid_man
      → InRange env.ids.largest pids
      → env.ids.is_used_id j (release_all env pids s).pid_man
        ≡ (env.ids.is_used_id j s.pid_man && not (contains j pids))
  unfolding release_all
  release_all-freed j [] s v r = ground arith
  release_all-freed j (i ∷ is) s v (lo, (hi, r)) = ground (
    arith,
    release_all-freed j is (release_packet_id env i s) (one_valid i s v lo hi) r,
    one_freed j i s v lo hi,
  )

  release_all-Valid :
      (pids : PidSet) (s : Conn env)
      → env.ids.Valid s.pid_man
      → InRange env.ids.largest pids
      → env.ids.Valid (release_all env pids s).pid_man
  unfolding release_all
  release_all-Valid [] s v r = v
  release_all-Valid (i ∷ is) s v (lo, (hi, r)) =
      release_all-Valid is (release_packet_id env i s) (one_valid i s v lo hi) r

  -- What a kept session consists of.
  abbrev pub session_of :
      Conn env → env.stores.Index × (PidSet × (PidSet × (PidSet × (PidSet × PidSet))))
  session_of s = (
    s.store,
    (
      s.pid_puback,
      (s.pid_pubrec, (s.pid_pubcomp, (s.qos2_publish_handled, s.qos2_publish_processing))),
    ),
  )

  -- What closing settles in any case.
  abbrev closing_of : Conn env → ConnectionStatus × (PidSet × PidSet)
  closing_of s = (s.status, (s.pid_suback, s.pid_unsuback))

  -- The parts of notify_closed before the session is looked at.
  abbrev limits_gone : Conn env → Conn env
  limits_gone s = record s {
    maximum_packet_size_send = packet_size_no_limit;
    maximum_packet_size_recv = packet_size_no_limit;
    status = disconnected;
    topic_alias_send = none;
    topic_alias_recv = none;
  }

  abbrev suback_gone : Conn env → Conn env
  suback_gone s = record (release_all env s.pid_suback (limits_gone s)) { pid_suback = [] }

  abbrev subs_gone : Conn env → Conn env
  subs_gone s =
      let t = suback_gone s in record (release_all env t.pid_unsuback t) { pid_unsuback = [] }

  unsuback-suback_gone : (s : Conn env) → (suback_gone s).pid_unsuback ≡ s.pid_unsuback
  unsuback-suback_gone s =
      release_all_keeps (λ t. t.pid_unsuback) (λ i t. refl) s.pid_suback (limits_gone s)

  session-subs_gone : (s : Conn env) → session_of (subs_gone s) ≡ session_of s
  session-subs_gone s =
      release_all_keeps session_of (λ i t. refl) (suback_gone s).pid_unsuback (suback_gone s)
      ∙ release_all_keeps session_of (λ i t. refl) s.pid_suback (limits_gone s)

  need_store-subs_gone : (s : Conn env) → (subs_gone s).need_store ≡ s.need_store
  need_store-subs_gone s =
      release_all_keeps (λ t. t.need_store) (λ i t. refl) (suback_gone s).pid_unsuback
        (suback_gone s)
      ∙ release_all_keeps (λ t. t.need_store) (λ i t. refl) s.pid_suback (limits_gone s)

  closing-subs_gone : (s : Conn env) → closing_of (subs_gone s) ≡ (disconnected, ([], []))
  closing-subs_gone s =
      ap (λ x. (x.0, (x.1.0, [])))
        (release_all_keeps closing_of (λ i t. refl) (suback_gone s).pid_unsuback (suback_gone s))
      ∙ ap (λ x. (x.0, ([], [])))
          (release_all_keeps closing_of (λ i t. refl) s.pid_suback (limits_gone s))

  session-cancel_timers : (s : Conn env) → session_of (cancel_timers env s) ≡ session_of s
  unfolding cancel_timers
  session-cancel_timers s = ground arith

  closing-cancel_timers : (s : Conn env) → closing_of (cancel_timers env s) ≡ closing_of s
  unfolding cancel_timers
  closing-cancel_timers s = ground arith

  pid_man-cancel_timers : (s : Conn env) → (cancel_timers env s).pid_man ≡ s.pid_man
  unfolding cancel_timers
  pid_man-cancel_timers s = ground arith

  kept :
      (s : Conn env) → s.need_store ≡ true → notify_closed env s ≡ cancel_timers env (subs_gone s)
  unfolding notify_closed
  kept s n =
      ap (λ b. cancel_timers env (if b then subs_gone s else forget_session env (subs_gone s)))
        (need_store-subs_gone s ∙ n)

  forgotten :
      (s : Conn env)
      → s.need_store ≡ false
      → notify_closed env s ≡ cancel_timers env (forget_session env (subs_gone s))
  unfolding notify_closed
  forgotten s n =
      ap (λ b. cancel_timers env (if b then subs_gone s else forget_session env (subs_gone s)))
        (need_store-subs_gone s ∙ n)

  subs_freed :
      (j : ℕ) (s : Conn env)
      → env.ids.Valid s.pid_man
      → InRange env.ids.largest s.pid_suback
      → InRange env.ids.largest s.pid_unsuback
      → env.ids.is_used_id j (subs_gone s).pid_man ≡ (
          env.ids.is_used_id j s.pid_man
          && not (contains j s.pid_suback)
          && not (contains j s.pid_unsuback))
  subs_freed j s v a b =
      ap (λ l. env.ids.is_used_id j (release_all env l (suback_gone s)).pid_man)
        (unsuback-suback_gone s)
      ∙ release_all-freed j s.pid_unsuback (suback_gone s)
          (release_all-Valid s.pid_suback (limits_gone s) v a) b
      ∙ ap (λ x. x && not (contains j s.pid_unsuback))
          (release_all-freed j s.pid_suback (limits_gone s) v a)

  abbrev qos2_gone : Conn env → Conn env
  qos2_gone s = record s { qos2_publish_processing = []; qos2_publish_handled = [] }

  abbrev puback_gone : Conn env → Conn env
  puback_gone s = record (release_all env s.pid_puback (qos2_gone s)) { pid_puback = [] }

  abbrev pubrec_gone : Conn env → Conn env
  pubrec_gone s =
      let t = puback_gone s in record (release_all env t.pid_pubrec t) { pid_pubrec = [] }

  closing-forget_session : (s : Conn env) → closing_of (forget_session env s) ≡ closing_of s
  unfolding forget_session
  closing-forget_session s =
      let keeps = release_all_keeps closing_of (λ i t. refl) in
      keeps (pubrec_gone s).pid_pubcomp (pubrec_gone s)
      ∙ keeps (puback_gone s).pid_pubrec (puback_gone s)
      ∙ keeps s.pid_puback (qos2_gone s)

  -- The sets of a session that is not kept.
  abbrev pub expected_of : Conn env → PidSet × (PidSet × (PidSet × (PidSet × PidSet)))
  expected_of s = (
    s.pid_puback,
    (s.pid_pubrec, (s.pid_pubcomp, (s.qos2_publish_handled, s.qos2_publish_processing))),
  )

  expected-forget_session :
      (s : Conn env) → expected_of (forget_session env s) ≡ ([], ([], ([], ([], []))))
  unfolding forget_session
  expected-forget_session s =
      let keeps = release_all_keeps expected_of (λ i t. refl) in
      ap (λ x. (x.0, (x.1.0, ([], x.1.1.1)))) (keeps (pubrec_gone s).pid_pubcomp (pubrec_gone s))
      ∙ ap (λ x. (x.0, ([], ([], x.1.1.1)))) (keeps (puback_gone s).pid_pubrec (puback_gone s))
      ∙ ap (λ x. ([], ([], ([], x.1.1.1)))) (keeps s.pid_puback (qos2_gone s))

  abbrev pub IsSettled : Conn env → Type 0
  IsSettled t = (t.status ≡ disconnected) × ((t.pid_suback ≡ []) × (t.pid_unsuback ≡ []))

  settled : (t : Conn env) → closing_of t ≡ (disconnected, ([], [])) → IsSettled t
  settled t e = (ap (λ x. x.0) e, (ap (λ x. x.1.0) e, ap (λ x. x.1.1) e))

  -- The timer operations reported and the marks of the timers.
  abbrev timers_of : Conn env → List (TimerOp × TimerKind) × (Bool × (Bool × Bool))
  timers_of s =
      (timer_ops s.events, (s.pingresp_recv_set, (s.pingreq_recv_set, s.pingreq_send_set)))

  timers-subs_gone : (s : Conn env) → timers_of (subs_gone s) ≡ timers_of s
  timers-subs_gone s =
      release_all_keeps timers_of (λ i t. refl) (suback_gone s).pid_unsuback (suback_gone s)
      ∙ release_all_keeps timers_of (λ i t. refl) s.pid_suback (limits_gone s)

  timers-forget_session : (s : Conn env) → timers_of (forget_session env s) ≡ timers_of s
  unfolding forget_session
  timers-forget_session s =
      let keeps = release_all_keeps timers_of (λ i t. refl) in
      keeps (pubrec_gone s).pid_pubcomp (pubrec_gone s)
      ∙ keeps (puback_gone s).pid_pubrec (puback_gone s)
      ∙ keeps s.pid_puback (qos2_gone s)

  -- The operations of cancel_timers, from a state with the timers of another.
  cancelled :
      (s t : Conn env)
      → timers_of t ≡ timers_of s
      → timer_ops (cancel_timers env t).events ≡ cancels env s ++ timer_ops s.events
  cancelled s t e = ground (arith, timer_ops-cancel_timers env t, e)

  -- Closing ends in the status disconnected, with no timer marked as set and no subscription waiting
  -- for its answer, whether or not the session is kept. The timer operations that it reports are a
  -- cancel for each timer that was marked as set, and no others.
  pub notify_closed-ends :
      (s : Conn env)
      → (timer_ops (notify_closed env s).events ≡ cancels env s ++ timer_ops s.events)
        × IsQuiet env (notify_closed env s)
        × IsSettled (notify_closed env s)
  notify_closed-ends s = elim (Bool-cases s.need_store) [
    | inl n ↦ (
      rw (kept s n) (cancelled s (subs_gone s) (timers-subs_gone s)),
      rw (kept s n) (cancel_timers-IsQuiet env (subs_gone s)),
      settled (notify_closed env s)
          (ap closing_of (kept s n) ∙ closing-cancel_timers (subs_gone s) ∙ closing-subs_gone s),
    )
    | inr n ↦ (
      rw (forgotten s n) (
          cancelled s (forget_session env (subs_gone s))
            (timers-forget_session (subs_gone s) ∙ timers-subs_gone s)),
      rw (forgotten s n) (cancel_timers-IsQuiet env (forget_session env (subs_gone s))),
      settled (notify_closed env s) (
          ap closing_of (forgotten s n)
          ∙ closing-cancel_timers (forget_session env (subs_gone s))
          ∙ closing-forget_session (subs_gone s)
          ∙ closing-subs_gone s),
    )
  ]

  -- A session that is not kept expects no response any more, and no QoS 2 packet is under way in
  -- either direction: none is handled and none is being sent.
  pub notify_closed-forgets :
      (s : Conn env)
      → s.need_store ≡ false
      → expected_of (notify_closed env s) ≡ ([], ([], ([], ([], []))))
  notify_closed-forgets s n =
      ap expected_of (forgotten s n)
      ∙ ap (λ x. (x.1.0, (x.1.1.0, (x.1.1.1.0, x.1.1.1.1))))
          (session-cancel_timers (forget_session env (subs_gone s)))
      ∙ expected-forget_session (subs_gone s)

  -- A closed connection that has a session to keep keeps the store, the expected responses and
  -- the QoS 2 identifiers. With a valid manager and identifiers in range, those that waited for
  -- SUBACK or UNSUBACK are free, and every other one is as before.
  pub notify_closed-keeps :
      (s : Conn env)
      → s.need_store ≡ true
      → env.ids.Valid s.pid_man
      → InRange env.ids.largest s.pid_suback
      → InRange env.ids.largest s.pid_unsuback
      → (session_of (notify_closed env s) ≡ session_of s)
        × ((j : ℕ)
            → env.ids.is_used_id j (notify_closed env s).pid_man ≡ (
                env.ids.is_used_id j s.pid_man
                && not (contains j s.pid_suback)
                && not (contains j s.pid_unsuback)))
  notify_closed-keeps s n v a b =
      let e = kept s n in
      (
        ap session_of e ∙ session-cancel_timers (subs_gone s) ∙ session-subs_gone s,
        λ j.
            ap (λ (t : Conn env). env.ids.is_used_id j t.pid_man) e
            ∙ ap (env.ids.is_used_id j) (pid_man-cancel_timers (subs_gone s))
            ∙ subs_freed j s v a b,
      )
