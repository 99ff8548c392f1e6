-- ===== src/Protocol/Connection/Resend.antt =====
-- `send_stored` (connection_impl.ipp): the stored packets go out again, in order.
use async_mqtt_cpp.Prelude.{ℕ, ◌≡◌, refl, ap, ◌∙◌, if◌then◌else◌, ltb, none, List, [], ◌∷◌, arith}
use async_mqtt_cpp.Protocol.Event.{Event}
use async_mqtt_cpp.Protocol.Store.{StorePacket, to_packet, packet_id}
use async_mqtt_cpp.Protocol.Store.Contents.{fold_each, for_each-fold_each, fold_each_keeps}
use async_mqtt_cpp.Protocol.Env.{Env}
use async_mqtt_cpp.Protocol.Connection.{Conn, send_one, send_stored}

module _ (env : Env) where
  -- `send_stored` by one pass over the stored packets.
  send_stored-fold_each :
      {B : Type 0} (f : Conn env → B) (s : Conn env)
      → ((elems : env.stores.Index) (t : Conn env) → f (record t { store = elems }) ≡ f t)
      → f (send_stored env s) ≡ f (fold_each (send_one env) (env.stores.elements s.store) s).1
  unfolding send_stored
  send_stored-fold_each f s h =
      let (e, r) = for_each-fold_each env.stores (send_one env) s.store s in h _ _ ∙ ap f r

  pub send_stored_keeps :
      {B : Type 0} (f : Conn env → B) (s : Conn env)
      → ((elems : env.stores.Index) (t : Conn env) → f (record t { store = elems }) ≡ f t)
      → ((p : StorePacket) (t : Conn env) → f (send_one env p t).0 ≡ f t)
      → f (send_stored env s) ≡ f s
  send_stored_keeps f s h k =
      send_stored-fold_each f s h
      ∙ fold_each_keeps (send_one env) f k (env.stores.elements s.store) s

  pub status-send_stored : (s : Conn env) → (send_stored env s).status ≡ s.status
  unfolding send_one
  status-send_stored s = send_stored_keeps (λ t. t.status) s (λ elems t. refl) (λ p t. ground arith)

  -- The stored packets that the peer's size limit lets through.
  abbrev pub within_limit : ℕ → List StorePacket → List StorePacket
  within_limit limit [] = []
  within_limit limit (p ∷ ps) =
      let rest = within_limit limit ps in
      if ltb limit (env.size (to_packet p)) then rest else p ∷ rest

  -- What resending a list of packets reports, the newest event first, above `old`.
  abbrev pub resent : ℕ → List StorePacket → List Event → List Event
  resent limit [] old = old
  resent limit (p ∷ ps) old = resent limit ps (
      (if ltb limit (env.size (to_packet p))
        then Event.packet_id_released (packet_id p)
        else Event.send (to_packet p) none)
      ∷ old)
