-- ===== src/Protocol/Connection/Gate.antt =====
-- Which packets a connection sends and takes in, by its role, version, size limit and status
-- (connection_send.ipp and connection_impl.ipp), against the rules of the protocol as tables.
use async_mqtt_cpp.Prelude.{Bool, true, false, ◌&&◌, ◌||◌, List, [], ◌∷◌}
use async_mqtt_cpp.Protocol.Packet.{
  Packet, Role, ProtocolVersion, v3_1_1, v5, v3_1_1_connect, v3_1_1_connack, v3_1_1_publish,
  v3_1_1_puback, v3_1_1_pubrec, v3_1_1_pubrel, v3_1_1_pubcomp, v3_1_1_subscribe, v3_1_1_suback,
  v3_1_1_unsubscribe, v3_1_1_unsuback, v3_1_1_pingreq, v3_1_1_pingresp, v3_1_1_disconnect,
  v5_connect, v5_connack, v5_publish, v5_puback, v5_pubrec, v5_pubrel, v5_pubcomp, v5_subscribe,
  v5_suback, v5_unsubscribe, v5_unsuback, v5_pingreq, v5_pingresp, v5_disconnect, v5_auth,
}
use async_mqtt_cpp.Protocol.Env.{Env}
use async_mqtt_cpp.Protocol.Connection.{ConnectionStatus, connecting, connected, disconnected}

-- Section 2.1 of the standard: the direction in which a packet flows, and the version it belongs to.
pub data Direction : Type 0 where
  to_server to_client either : Direction

abbrev pub flow : Packet → Direction × ProtocolVersion
flow (v3_1_1_connect _ _ _) = (to_server, v3_1_1)
flow (v3_1_1_connack _ _) = (to_client, v3_1_1)
flow (v3_1_1_publish _) = (either, v3_1_1)
flow (v3_1_1_puback _) = (either, v3_1_1)
flow (v3_1_1_pubrec _) = (either, v3_1_1)
flow (v3_1_1_pubrel _) = (either, v3_1_1)
flow (v3_1_1_pubcomp _) = (either, v3_1_1)
flow (v3_1_1_subscribe _ _) = (to_server, v3_1_1)
flow (v3_1_1_suback _ _) = (to_client, v3_1_1)
flow (v3_1_1_unsubscribe _ _) = (to_server, v3_1_1)
flow (v3_1_1_unsuback _) = (to_client, v3_1_1)
flow v3_1_1_pingreq = (to_server, v3_1_1)
flow v3_1_1_pingresp = (to_client, v3_1_1)
flow v3_1_1_disconnect = (to_server, v3_1_1)
flow (v5_connect _ _ _ _) = (to_server, v5)
flow (v5_connack _ _ _) = (to_client, v5)
flow (v5_publish _) = (either, v5)
flow (v5_puback _ _ _) = (either, v5)
flow (v5_pubrec _ _ _) = (either, v5)
flow (v5_pubrel _ _ _) = (either, v5)
flow (v5_pubcomp _ _ _) = (either, v5)
flow (v5_subscribe _ _) = (to_server, v5)
flow (v5_suback _ _) = (to_client, v5)
flow (v5_unsubscribe _ _) = (to_server, v5)
flow (v5_unsuback _ _) = (to_client, v5)
flow v5_pingreq = (to_server, v5)
flow v5_pingresp = (to_client, v5)
flow (v5_disconnect _ _) = (either, v5)
flow (v5_auth _ _) = (either, v5)

abbrev pub faces : Role → Direction → Bool
faces Role.any d = true
faces Role.client to_client = false
faces Role.client d = true
faces Role.server to_server = false
faces Role.server d = true

abbrev pub agrees : ProtocolVersion → ProtocolVersion → Bool
agrees v3_1_1 v3_1_1 = true
agrees v5 v5 = true
agrees _ _ = false

-- The statuses in which a packet opens, settles, renews or uses a connection.
abbrev pub opening : Packet → List ConnectionStatus → List ConnectionStatus
opening (v3_1_1_connect _ _ _) any_time = disconnected ∷ []
opening (v5_connect _ _ _ _) any_time = disconnected ∷ []
opening (v3_1_1_connack _ _) any_time = connecting ∷ []
opening (v5_connack _ _ _) any_time = connecting ∷ []
opening (v5_auth _ _) any_time = connecting ∷ connected ∷ []
opening (v3_1_1_publish _) any_time = any_time
opening (v5_publish _) any_time = any_time
opening p any_time = connected ∷ []

abbrev pub is_status : ConnectionStatus → ConnectionStatus → Bool
is_status connecting connecting = true
is_status connected connected = true
is_status disconnected disconnected = true
is_status _ _ = false

abbrev pub is_among : ConnectionStatus → List ConnectionStatus → Bool
is_among st [] = false
is_among st (x ∷ xs) = is_status st x || is_among st xs

-- A publish packet may be given to the connection at any time, but arrives only on one that is up.
abbrev pub may_send : Role → ProtocolVersion → ConnectionStatus → Packet → Bool
may_send role ver st p =
    faces role (flow p).0
    && agrees ver (flow p).1
    && is_among st (opening p (disconnected ∷ connecting ∷ connected ∷ []))

abbrev pub may_arrive : ConnectionStatus → Packet → Bool
may_arrive st p = is_among st (opening p (connected ∷ []))
