-- ===== src/Protocol/Connection/Timers.antt =====
-- Timers and the end of a connection (connection_impl.ipp, connection_send.ipp).
use async_mqtt_cpp.Prelude.{◌≡◌, Bool, true, false, List, [], ◌∷◌, ◌++◌, arith}
use async_mqtt_cpp.Protocol.Event.{
  Event, TimerOp, TimerKind, cancel, pingreq_send, pingreq_recv, pingresp_recv,
}
use async_mqtt_cpp.Protocol.Env.{Env}
use async_mqtt_cpp.Protocol.Connection.{Conn, cancel_timers}

-- The timer operations that have been reported, the newest first.
abbrev pub timer_ops : List Event → List (TimerOp × TimerKind)
timer_ops [] = []
timer_ops (Event.timer op k _ ∷ es) = (op, k) ∷ timer_ops es
timer_ops (_ ∷ es) = timer_ops es

abbrev cancel_if : Bool → TimerKind → List (TimerOp × TimerKind)
cancel_if true k = (cancel, k) ∷ []
cancel_if false k = []

module _ (env : Env) where
  -- A cancel operation for each timer that is marked as set, the newest first.
  abbrev pub cancels : Conn env → List (TimerOp × TimerKind)
  cancels s =
      cancel_if s.pingresp_recv_set pingresp_recv
      ++ (cancel_if s.pingreq_recv_set pingreq_recv ++ cancel_if s.pingreq_send_set pingreq_send)

  pub timer_ops-cancel_timers :
      (s : Conn env) → timer_ops (cancel_timers env s).events ≡ cancels s ++ timer_ops s.events
  unfolding cancel_timers
  timer_ops-cancel_timers s = ground arith

  -- No timer is marked as set.
  pub record IsQuiet (s : Conn env) : Type 0 where
    pub no_pingreq_send : s.pingreq_send_set ≡ false
    pub no_pingreq_recv : s.pingreq_recv_set ≡ false
    pub no_pingresp_recv : s.pingresp_recv_set ≡ false

  pub cancel_timers-IsQuiet : (s : Conn env) → IsQuiet (cancel_timers env s)
  unfolding cancel_timers
  cancel_timers-IsQuiet s = ground arith

  pub status-cancel_timers : (s : Conn env) → (cancel_timers env s).status ≡ s.status
  unfolding cancel_timers
  status-cancel_timers s = ground arith
