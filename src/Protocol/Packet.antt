-- ===== src/Protocol/Packet.antt =====
-- The packets, as far as the connection reads them: include/async_mqtt/protocol/packet.
-- Bytes and text are lists of numbers.
use async_mqtt_cpp.Prelude.{
  ℕ, Bool, true, false, ◌&&◌, ◌==◌, leb, Option, none, some, List, [], ◌∷◌, ◌++◌,
}

abbrev pub Bytes : Type 0
Bytes = List ℕ

abbrev pub is_empty : Bytes → Bool
is_empty [] = true
is_empty (c ∷ cs) = false

abbrev pub same_bytes : Bytes → Bytes → Bool
same_bytes [] [] = true
same_bytes (a ∷ xs) (b ∷ ys) = a == b && same_bytes xs ys
same_bytes _ _ = false

pub data ProtocolVersion : Type 0 where
  undetermined v3_1_1 v5 : ProtocolVersion

abbrev pub same_version : ProtocolVersion → ProtocolVersion → Bool
same_version undetermined undetermined = true
same_version v3_1_1 v3_1_1 = true
same_version v5 v5 = true
same_version _ _ = false

pub data Role : Type 0 where
  client server any : Role

abbrev pub can_send_as_client : Role → Bool
can_send_as_client server = false
can_send_as_client r = true

abbrev pub can_send_as_server : Role → Bool
can_send_as_server client = false
can_send_as_server r = true

pub data Qos : Type 0 where
  at_most_once at_least_once exactly_once : Qos

pub data Property : Type 0 where
  payload_format_indicator message_expiry_interval subscription_identifier : ℕ → Property
  session_expiry_interval server_keep_alive request_problem_information : ℕ → Property
  will_delay_interval request_response_information receive_maximum : ℕ → Property
  topic_alias_maximum topic_alias maximum_qos retain_available : ℕ → Property
  maximum_packet_size wildcard_subscription_available : ℕ → Property
  subscription_identifier_available shared_subscription_available : ℕ → Property
  content_type response_topic correlation_data assigned_client_identifier : Bytes → Property
  authentication_method authentication_data response_information : Bytes → Property
  server_reference reason_string : Bytes → Property
  user_property : Bytes → Bytes → Property

abbrev pub Properties : Type 0
Properties = List Property

-- v3_1_1::basic_publish_packet and v5::basic_publish_packet; the former has no properties.
-- A QoS 0 packet has the identifier 0.
pub record Publish : Type 0 where
  pub packet_id : ℕ
  pub topic : Bytes
  pub payload : Bytes
  pub qos : Qos
  pub retain : Bool
  pub dup : Bool
  pub props : Properties

-- will.hpp; v3.1.1 has no properties.
pub record Will : Type 0 where
  pub topic : Bytes
  pub message : Bytes
  pub retain : Bool
  pub qos : Qos
  pub props : Properties

-- What CONNECT says of the client, which the connection only carries.
pub record Login : Type 0 where
  pub client_id : Bytes
  pub will : Option Will
  pub user_name : Option Bytes
  pub password : Option Bytes

-- topic_subopts.hpp: the topic with its share name, and the byte of the options.
pub record TopicSubopts : Type 0 where
  pub all_topic : Bytes
  pub opts : ℕ

-- The entries of a v5 packet with its properties.
pub record Entries (A : Type 0) : Type 0 where
  pub props : Properties
  pub entries : A

-- The packet types of packet_variant.hpp. An absent reason code is `none`; a reason code of a list
-- is its byte.
pub data Packet : Type 0 where
  v3_1_1_connect : (keep_alive : ℕ) (clean_session : Bool) (login : Login) → Packet
  v3_1_1_connack : (session_present : Bool) (code : ℕ) → Packet
  v3_1_1_publish : Publish → Packet
  v3_1_1_puback v3_1_1_pubrec v3_1_1_pubrel v3_1_1_pubcomp : (packet_id : ℕ) → Packet
  v3_1_1_subscribe : (packet_id : ℕ) (entries : List TopicSubopts) → Packet
  v3_1_1_suback : (packet_id : ℕ) (entries : Bytes) → Packet
  v3_1_1_unsubscribe : (packet_id : ℕ) (entries : List Bytes) → Packet
  v3_1_1_unsuback : (packet_id : ℕ) → Packet
  v3_1_1_pingreq v3_1_1_pingresp v3_1_1_disconnect : Packet
  v5_connect : (keep_alive : ℕ) (clean_start : Bool) (props : Properties) (login : Login) → Packet
  v5_connack : (session_present : Bool) (code : ℕ) (props : Properties) → Packet
  v5_publish : Publish → Packet
  v5_puback v5_pubrec v5_pubrel v5_pubcomp :
      (packet_id : ℕ) (code : Option ℕ) (props : Properties) → Packet
  v5_subscribe : (packet_id : ℕ) → Entries (List TopicSubopts) → Packet
  v5_suback v5_unsuback : (packet_id : ℕ) → Entries Bytes → Packet
  v5_unsubscribe : (packet_id : ℕ) → Entries (List Bytes) → Packet
  v5_pingreq v5_pingresp : Packet
  v5_disconnect v5_auth : (code : Option ℕ) (props : Properties) → Packet

-- packet_traits.hpp
unfoldable pub is_client_sendable : Packet → Bool
is_client_sendable (v3_1_1_connack _ _) = false
is_client_sendable (v3_1_1_suback _ _) = false
is_client_sendable (v3_1_1_unsuback _) = false
is_client_sendable v3_1_1_pingresp = false
is_client_sendable (v5_connack _ _ _) = false
is_client_sendable (v5_suback _ _) = false
is_client_sendable (v5_unsuback _ _) = false
is_client_sendable v5_pingresp = false
is_client_sendable p = true

unfoldable pub is_server_sendable : Packet → Bool
is_server_sendable (v3_1_1_connect _ _ _) = false
is_server_sendable (v3_1_1_subscribe _ _) = false
is_server_sendable (v3_1_1_unsubscribe _ _) = false
is_server_sendable v3_1_1_pingreq = false
is_server_sendable v3_1_1_disconnect = false
is_server_sendable (v5_connect _ _ _ _) = false
is_server_sendable (v5_subscribe _ _) = false
is_server_sendable (v5_unsubscribe _ _) = false
is_server_sendable v5_pingreq = false
is_server_sendable p = true

-- is_v3_1_1 and is_v5
unfoldable pub packet_version : Packet → ProtocolVersion
packet_version (v3_1_1_connect _ _ _) = v3_1_1
packet_version (v3_1_1_connack _ _) = v3_1_1
packet_version (v3_1_1_publish _) = v3_1_1
packet_version (v3_1_1_puback _) = v3_1_1
packet_version (v3_1_1_pubrec _) = v3_1_1
packet_version (v3_1_1_pubrel _) = v3_1_1
packet_version (v3_1_1_pubcomp _) = v3_1_1
packet_version (v3_1_1_subscribe _ _) = v3_1_1
packet_version (v3_1_1_suback _ _) = v3_1_1
packet_version (v3_1_1_unsubscribe _ _) = v3_1_1
packet_version (v3_1_1_unsuback _) = v3_1_1
packet_version v3_1_1_pingreq = v3_1_1
packet_version v3_1_1_pingresp = v3_1_1
packet_version v3_1_1_disconnect = v3_1_1
packet_version p = v5

-- How the connection's checks group the packets: is_connect, is_connack, is_auth, is_publish.
pub data Kind : Type 0 where
  connect connack auth publish normal : Kind

unfoldable pub kind : Packet → Kind
kind (v3_1_1_connect _ _ _) = connect
kind (v5_connect _ _ _ _) = connect
kind (v3_1_1_connack _ _) = connack
kind (v5_connack _ _ _) = connack
kind (v5_auth _ _) = auth
kind (v3_1_1_publish _) = publish
kind (v5_publish _) = publish
kind p = normal

-- own_packet_id, with the identifier.
unfoldable pub own_packet_id : Packet → Option ℕ
own_packet_id (v3_1_1_publish p) = some p.packet_id
own_packet_id (v5_publish p) = some p.packet_id
own_packet_id (v3_1_1_pubrel i) = some i
own_packet_id (v5_pubrel i _ _) = some i
own_packet_id (v3_1_1_subscribe i _) = some i
own_packet_id (v5_subscribe i _) = some i
own_packet_id (v3_1_1_unsubscribe i _) = some i
own_packet_id (v5_unsubscribe i _) = some i
own_packet_id p = none

-- `make_error_code(p.code())` as a test: an absent code is success.
abbrev pub is_failure : Option ℕ → Bool
is_failure none = false
is_failure (some c) = leb 0x80 c

-- get_topic_alias: the value of the first such property.
unfoldable pub get_topic_alias : Properties → Option ℕ
get_topic_alias [] = none
get_topic_alias (topic_alias v ∷ ps) = some v
get_topic_alias (p ∷ ps) = get_topic_alias ps

-- The loop of process_send_packet that erases the first topic alias.
unfoldable pub erase_topic_alias : Properties → Properties
erase_topic_alias [] = []
erase_topic_alias (topic_alias v ∷ ps) = ps
erase_topic_alias (p ∷ ps) = p ∷ erase_topic_alias ps

-- remove_topic_alias_impl erases every topic alias.
unfoldable pub remove_topic_alias_impl : Properties → Properties
remove_topic_alias_impl [] = []
remove_topic_alias_impl (topic_alias v ∷ ps) = remove_topic_alias_impl ps
remove_topic_alias_impl (p ∷ ps) = p ∷ remove_topic_alias_impl ps

unfoldable pub add_topic_alias : ℕ → Publish → Publish
add_topic_alias ta p = record p { props = p.props ++ topic_alias ta ∷ [] }

unfoldable pub remove_topic_add_topic_alias : ℕ → Publish → Publish
remove_topic_add_topic_alias ta p = record p { topic = []; props = p.props ++ topic_alias ta ∷ [] }

unfoldable pub add_topic : Bytes → Publish → Publish
add_topic t p = record p { topic = t }

unfoldable pub remove_topic_alias : Publish → Publish
remove_topic_alias p = record p { props = remove_topic_alias_impl p.props }

unfoldable pub remove_topic_alias_add_topic : Bytes → Publish → Publish
remove_topic_alias_add_topic t p = record p { topic = t; props = remove_topic_alias_impl p.props }

-- store_packet_variant.hpp
pub data ResponsePacket : Type 0 where
  v3_1_1_puback v3_1_1_pubrec v3_1_1_pubcomp v5_puback v5_pubrec v5_pubcomp : ResponsePacket
