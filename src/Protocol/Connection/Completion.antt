-- ===== src/Protocol/Connection/Completion.antt =====
-- The end of an exchange (connection_impl.ipp): PUBACK, PUBCOMP, SUBACK and UNSUBACK.
use async_mqtt_cpp.Prelude.{ℕ, ◌≤◌, ◌≡◌, true, false, not, ◌&&◌, ◌==◌, List, [], ◌∷◌, arith}
use async_mqtt_cpp.Protocol.Packet.{Packet, ResponsePacket, v3_1_1_puback, v3_1_1_pubcomp}
use async_mqtt_cpp.Protocol.Event.{Event}
use async_mqtt_cpp.Protocol.PidSet.{contains}
use async_mqtt_cpp.Protocol.Store.{some_key, without_key}
use async_mqtt_cpp.Protocol.Store
use async_mqtt_cpp.Protocol.Store.Contents.{some_key-without_key}
use async_mqtt_cpp.Protocol.Env.{Env}
use async_mqtt_cpp.Protocol.Connection.{Conn}
use async_mqtt_cpp.Protocol.Connection.Recv.Acks.{
  recv_puback_v3_1_1, recv_puback_v5, recv_pubcomp_v3_1_1, recv_pubcomp_v5,
}

-- The packets handed to the application, the newest first.
abbrev pub received : List Event → List Packet
received [] = []
received (Event.packet_received p ∷ es) = p ∷ received es
received (e ∷ es) = received es

module _ (env : Env) where
  -- From `s` to `t` the exchange of `i` ended: its identifier is free and every other one as
  -- before, nothing waits under the response `r` in the store, and the packet `p` was delivered.
  pub record Completed (i : ℕ) (r : ResponsePacket) (p : Packet) (s t : Conn env) : Type 0 where
    pub freed :
        (j : ℕ) → env.ids.is_used_id j t.pid_man ≡ (env.ids.is_used_id j s.pid_man && not (j == i))
    pub unstored : some_key r i (env.stores.elements t.store) ≡ false
    pub delivered : received t.events ≡ p ∷ received s.events
    pub same_status : t.status ≡ s.status

  erased :
      (r : ResponsePacket) (i : ℕ) (elems : env.stores.Index)
      → some_key r i (env.stores.elements (Store.erase env.stores r i elems).0) ≡ false
  unfolding Store.erase
  erased r i elems =
      rw ((env.stores.erase_key_lem r i elems).0)
        (some_key-without_key r i (env.stores.elements elems))

  module _ (i : ℕ) (s : Conn env) (v : env.ids.Valid s.pid_man) (lo : 1 ≤ i)
      (hi : i ≤ env.ids.largest) where
    -- A v3.1.1 PUBACK for an identifier in range that waits for it, in a connection with a valid
    -- identifier manager: the identifier is free and no other one changes, no packet waits for
    -- this response in the store, the packet is delivered and the status stays.
    pub recv_puback_v3_1_1-Completed :
        contains i s.pid_puback ≡ true
        → Completed i ResponsePacket.v3_1_1_puback (v3_1_1_puback i) s (recv_puback_v3_1_1 env i s)
    unfolding recv_puback_v3_1_1
    recv_puback_v3_1_1-Completed h = record {
      freed = λ j. ground (arith, h, env.ids.release_lem j i s.pid_man v lo hi);
      unstored = ground (arith, h, erased ResponsePacket.v3_1_1_puback i s.store);
      delivered = ground (arith, h);
      same_status = ground (arith, h);
    }

    -- A v5 PUBACK, whatever its reason code and properties, for an identifier in range that waits
    -- for it, in a connection with a valid identifier manager: the identifier is free and no
    -- other one changes, no packet waits for this response in the store, the packet is delivered
    -- and the status stays.
    pub recv_puback_v5-Completed :
        (p : Packet)
        → contains i s.pid_puback ≡ true
        → Completed i ResponsePacket.v5_puback p s (recv_puback_v5 env i p s)
    unfolding recv_puback_v5
    recv_puback_v5-Completed p h = record {
      freed = λ j. ground (arith, h, env.ids.release_lem j i s.pid_man v lo hi);
      unstored = ground (arith, h, erased ResponsePacket.v5_puback i s.store);
      delivered = ground (arith, h);
      same_status = ground (arith, h);
    }

    -- A v3.1.1 PUBCOMP for an identifier in range that waits for it, in a connection with a valid
    -- identifier manager: the identifier is free and no other one changes, no packet waits for
    -- this response in the store, the packet is delivered and the status stays.
    pub recv_pubcomp_v3_1_1-Completed :
        contains i s.pid_pubcomp ≡ true
        → Completed i ResponsePacket.v3_1_1_pubcomp
            (v3_1_1_pubcomp i)
            s
            (recv_pubcomp_v3_1_1 env i s)
    unfolding recv_pubcomp_v3_1_1
    recv_pubcomp_v3_1_1-Completed h = record {
      freed = λ j. ground (arith, h, env.ids.release_lem j i s.pid_man v lo hi);
      unstored = ground (arith, h, erased ResponsePacket.v3_1_1_pubcomp i s.store);
      delivered = ground (arith, h);
      same_status = ground (arith, h);
    }

    -- A v5 PUBCOMP, whatever its reason code and properties, for an identifier in range that
    -- waits for it, in a connection with a valid identifier manager: the identifier is free and
    -- no other one changes, no packet waits for this response in the store, the packet is
    -- delivered and the status stays.
    pub recv_pubcomp_v5-Completed :
        (p : Packet)
        → contains i s.pid_pubcomp ≡ true
        → Completed i ResponsePacket.v5_pubcomp p s (recv_pubcomp_v5 env i p s)
    unfolding recv_pubcomp_v5
    recv_pubcomp_v5-Completed p h = record {
      freed = λ j. ground (arith, h, env.ids.release_lem j i s.pid_man v lo hi);
      unstored = ground (arith, h, erased ResponsePacket.v5_pubcomp i s.store);
      delivered = ground (arith, h);
      same_status = ground (arith, h);
    }
