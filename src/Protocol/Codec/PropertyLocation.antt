-- ===== src/Protocol/Codec/PropertyLocation.antt =====
-- packet/impl/validate_property.hpp: which properties a packet may carry.
use async_mqtt_cpp.Prelude.{ℕ, Bool, false, ◌||◌, ◌==◌, List, [], ◌∷◌}
use async_mqtt_cpp.Protocol.Codec.PropertyId

pub data PropertyLocation : Type 0 where
  connect will connack publish puback pubrec pubrel pubcomp subscribe : PropertyLocation
  suback unsubscribe unsuback disconnect auth : PropertyLocation

abbrev pub allowed : PropertyLocation → List ℕ
allowed connect =
    PropertyId.session_expiry_interval ∷ PropertyId.authentication_method
    ∷ PropertyId.authentication_data ∷ PropertyId.request_problem_information
    ∷ PropertyId.request_response_information ∷ PropertyId.receive_maximum
    ∷ PropertyId.topic_alias_maximum ∷ PropertyId.user_property ∷ PropertyId.maximum_packet_size
    ∷ []
allowed will =
    PropertyId.payload_format_indicator ∷ PropertyId.message_expiry_interval
    ∷ PropertyId.content_type ∷ PropertyId.response_topic ∷ PropertyId.correlation_data
    ∷ PropertyId.will_delay_interval ∷ PropertyId.user_property ∷ []
allowed connack =
    PropertyId.session_expiry_interval ∷ PropertyId.assigned_client_identifier
    ∷ PropertyId.server_keep_alive ∷ PropertyId.authentication_method
    ∷ PropertyId.authentication_data ∷ PropertyId.response_information ∷ PropertyId.server_reference
    ∷ PropertyId.reason_string ∷ PropertyId.receive_maximum ∷ PropertyId.topic_alias_maximum
    ∷ PropertyId.maximum_qos ∷ PropertyId.retain_available ∷ PropertyId.user_property
    ∷ PropertyId.maximum_packet_size ∷ PropertyId.wildcard_subscription_available
    ∷ PropertyId.subscription_identifier_available ∷ PropertyId.shared_subscription_available ∷ []
allowed publish =
    PropertyId.payload_format_indicator ∷ PropertyId.message_expiry_interval
    ∷ PropertyId.content_type ∷ PropertyId.response_topic ∷ PropertyId.correlation_data
    ∷ PropertyId.subscription_identifier ∷ PropertyId.topic_alias ∷ PropertyId.user_property ∷ []
allowed puback = PropertyId.reason_string ∷ PropertyId.user_property ∷ []
allowed pubrec = PropertyId.reason_string ∷ PropertyId.user_property ∷ []
allowed pubrel = PropertyId.reason_string ∷ PropertyId.user_property ∷ []
allowed pubcomp = PropertyId.reason_string ∷ PropertyId.user_property ∷ []
allowed subscribe = PropertyId.subscription_identifier ∷ PropertyId.user_property ∷ []
allowed suback = PropertyId.reason_string ∷ PropertyId.user_property ∷ []
allowed unsubscribe = PropertyId.user_property ∷ []
allowed unsuback = PropertyId.reason_string ∷ PropertyId.user_property ∷ []
allowed disconnect =
    PropertyId.session_expiry_interval ∷ PropertyId.server_reference ∷ PropertyId.reason_string
    ∷ PropertyId.user_property ∷ []
allowed auth =
    PropertyId.authentication_method ∷ PropertyId.authentication_data ∷ PropertyId.reason_string
    ∷ PropertyId.user_property ∷ []

abbrev pub is_in : ℕ → List ℕ → Bool
is_in id [] = false
is_in id (i ∷ ids) = id == i || is_in id ids

unfoldable pub validate_property : PropertyLocation → ℕ → Bool
validate_property loc id = is_in id (allowed loc)
