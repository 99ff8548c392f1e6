-- ===== src/Protocol/Codec/Property.antt =====
-- packet/detail/base_property.hpp, impl/property.hpp and impl/property_variant.ipp: a property as
-- bytes. The Boolean properties keep their byte.
pub mod RoundTrip
use async_mqtt_cpp.Prelude.{
  ℕ, zero, suc, ◌+◌, ◌^◌, ◌≤◌, ◌<◌, ◌≡◌, refl, Bool, true, false, ◌&&◌, if◌then◌else◌, ◌==◌, ltb,
  leb, Option, none, some, List, [], ◌∷◌, ◌++◌, length, arith,
}
use async_mqtt_cpp.Util.EndianConvert.{endian_store, endian_load}
use async_mqtt_cpp.Util.VariableBytes.{val_to_variable_bytes}
use async_mqtt_cpp.Util.Utf8.{utf8string_check}
use async_mqtt_cpp.Protocol.Event.{ErrorCode}
use async_mqtt_cpp.Protocol.Packet.{Bytes, Property, Properties}
use async_mqtt_cpp.Protocol.Codec.Result.{
  Result, ok, err, fault, ◌>>=◌, ◌>>◌, malformed_packet, protocol_error, unless, or_malformed,
}
use async_mqtt_cpp.Protocol.Codec.Fields.{
  insert_advance, insert_advance_variable_length, binary, text, length_prefixed,
}
use async_mqtt_cpp.Protocol.Codec.PropertyLocation.{PropertyLocation, validate_property}
use async_mqtt_cpp.Protocol.Codec.PropertyId

-- property_variant::id
unfoldable pub property_id : Property → ℕ
property_id (Property.payload_format_indicator v) = PropertyId.payload_format_indicator
property_id (Property.message_expiry_interval v) = PropertyId.message_expiry_interval
property_id (Property.content_type v) = PropertyId.content_type
property_id (Property.response_topic v) = PropertyId.response_topic
property_id (Property.correlation_data v) = PropertyId.correlation_data
property_id (Property.subscription_identifier v) = PropertyId.subscription_identifier
property_id (Property.session_expiry_interval v) = PropertyId.session_expiry_interval
property_id (Property.assigned_client_identifier v) = PropertyId.assigned_client_identifier
property_id (Property.server_keep_alive v) = PropertyId.server_keep_alive
property_id (Property.authentication_method v) = PropertyId.authentication_method
property_id (Property.authentication_data v) = PropertyId.authentication_data
property_id (Property.request_problem_information v) = PropertyId.request_problem_information
property_id (Property.will_delay_interval v) = PropertyId.will_delay_interval
property_id (Property.request_response_information v) = PropertyId.request_response_information
property_id (Property.response_information v) = PropertyId.response_information
property_id (Property.server_reference v) = PropertyId.server_reference
property_id (Property.reason_string v) = PropertyId.reason_string
property_id (Property.receive_maximum v) = PropertyId.receive_maximum
property_id (Property.topic_alias_maximum v) = PropertyId.topic_alias_maximum
property_id (Property.topic_alias v) = PropertyId.topic_alias
property_id (Property.maximum_qos v) = PropertyId.maximum_qos
property_id (Property.retain_available v) = PropertyId.retain_available
property_id (Property.user_property k v) = PropertyId.user_property
property_id (Property.maximum_packet_size v) = PropertyId.maximum_packet_size
property_id (Property.wildcard_subscription_available v) =
    PropertyId.wildcard_subscription_available
property_id (Property.subscription_identifier_available v) =
    PropertyId.subscription_identifier_available
property_id (Property.shared_subscription_available v) = PropertyId.shared_subscription_available

-- The bytes behind the identifier, as const_buffer_sequence has them.
unfoldable pub print_value : Property → Bytes
print_value (Property.payload_format_indicator v) = endian_store 1 v
print_value (Property.message_expiry_interval v) = endian_store 4 v
print_value (Property.content_type v) = length_prefixed v
print_value (Property.response_topic v) = length_prefixed v
print_value (Property.correlation_data v) = length_prefixed v
print_value (Property.subscription_identifier v) = val_to_variable_bytes v
print_value (Property.session_expiry_interval v) = endian_store 4 v
print_value (Property.assigned_client_identifier v) = length_prefixed v
print_value (Property.server_keep_alive v) = endian_store 2 v
print_value (Property.authentication_method v) = length_prefixed v
print_value (Property.authentication_data v) = length_prefixed v
print_value (Property.request_problem_information v) = endian_store 1 v
print_value (Property.will_delay_interval v) = endian_store 4 v
print_value (Property.request_response_information v) = endian_store 1 v
print_value (Property.response_information v) = length_prefixed v
print_value (Property.server_reference v) = length_prefixed v
print_value (Property.reason_string v) = length_prefixed v
print_value (Property.receive_maximum v) = endian_store 2 v
print_value (Property.topic_alias_maximum v) = endian_store 2 v
print_value (Property.topic_alias v) = endian_store 2 v
print_value (Property.maximum_qos v) = endian_store 1 v
print_value (Property.retain_available v) = endian_store 1 v
print_value (Property.user_property k v) = length_prefixed k ++ length_prefixed v
print_value (Property.maximum_packet_size v) = endian_store 4 v
print_value (Property.wildcard_subscription_available v) = endian_store 1 v
print_value (Property.subscription_identifier_available v) = endian_store 1 v
print_value (Property.shared_subscription_available v) = endian_store 1 v

unfoldable pub print_property : Property → Bytes
unfolding property_id print_value
print_property p = property_id p ∷ print_value p

-- n_bytes_property, with the test of its value.
unfoldable pub n_bytes :
    ℕ → (ℕ → Result (Unit {0})) → (ℕ → Property) → Bytes → Result (Property × Bytes)
unfolding insert_advance
n_bytes n test make buf = do
  (bytes, buf) ← or_malformed (insert_advance n buf)
  test (endian_load bytes)
  ok (make (endian_load bytes), buf)

abbrev pub any_value : ℕ → Result (Unit {0})
any_value v = ok tt

abbrev pub at_most_one : ErrorCode → ℕ → Result (Unit {0})
at_most_one e v = unless (leb v 1) e

abbrev pub positive : ℕ → Result (Unit {0})
positive v = unless (ltb 0 v) protocol_error

unfoldable pub string_property : (Bytes → Property) → Bytes → Result (Property × Bytes)
unfolding text
string_property make buf = do (str, buf) ← text buf; ok (make str, buf)

unfoldable pub binary_property : (Bytes → Property) → Bytes → Result (Property × Bytes)
unfolding binary
binary_property make buf = do (str, buf) ← binary buf; ok (make str, buf)

unfoldable pub parse_subscription_identifier : Bytes → Result (Property × Bytes)
unfolding insert_advance_variable_length
parse_subscription_identifier buf = do
  (v, buf) ← or_malformed (insert_advance_variable_length buf)
  unless (ltb 0 v) protocol_error
  ok (Property.subscription_identifier v, buf)

-- user_property's constructor tests the two sizes with their length bytes, and ends by clearing the
-- error_code that the tests of the two texts have set.
unfoldable pub parse_user_property : Bytes → Result (Property × Bytes)
unfolding binary
parse_user_property buf = do
  (k, buf) ← binary buf
  (v, buf) ← binary buf
  unless (leb (2 + length k) 0xffff) malformed_packet
  unless (leb (2 + length v) 0xffff) malformed_packet
  ok (Property.user_property k v, buf)

-- The switch of make_property_variant, behind the identifier. It has no default: behind an identifier
-- of none of its cases, the caller takes the value of an empty optional.
unfoldable pub parse_value : (id : ℕ) → Bytes → Result (Property × Bytes)
unfolding n_bytes string_property binary_property parse_subscription_identifier parse_user_property
parse_value id buf =
    if id == PropertyId.payload_format_indicator
    then n_bytes 1 (at_most_one malformed_packet) Property.payload_format_indicator buf
    else if id == PropertyId.message_expiry_interval
    then n_bytes 4 any_value Property.message_expiry_interval buf
    else if id == PropertyId.content_type
    then string_property Property.content_type buf
    else if id == PropertyId.response_topic
    then string_property Property.response_topic buf
    else if id == PropertyId.correlation_data
    then binary_property Property.correlation_data buf
    else if id == PropertyId.subscription_identifier
    then parse_subscription_identifier buf
    else if id == PropertyId.session_expiry_interval
    then n_bytes 4 any_value Property.session_expiry_interval buf
    else if id == PropertyId.assigned_client_identifier
    then string_property Property.assigned_client_identifier buf
    else if id == PropertyId.server_keep_alive
    then n_bytes 2 any_value Property.server_keep_alive buf
    else if id == PropertyId.authentication_method
    then string_property Property.authentication_method buf
    else if id == PropertyId.authentication_data
    then binary_property Property.authentication_data buf
    else if id == PropertyId.request_problem_information
    then n_bytes 1 any_value Property.request_problem_information buf
    else if id == PropertyId.will_delay_interval
    then n_bytes 4 any_value Property.will_delay_interval buf
    else if id == PropertyId.request_response_information
    then n_bytes 1 any_value Property.request_response_information buf
    else if id == PropertyId.response_information
    then string_property Property.response_information buf
    else if id == PropertyId.server_reference
    then string_property Property.server_reference buf
    else if id == PropertyId.reason_string
    then string_property Property.reason_string buf
    else if id == PropertyId.receive_maximum
    then n_bytes 2 positive Property.receive_maximum buf
    else if id == PropertyId.topic_alias_maximum
    then n_bytes 2 any_value Property.topic_alias_maximum buf
    else if id == PropertyId.topic_alias
    then n_bytes 2 any_value Property.topic_alias buf
    else if id == PropertyId.maximum_qos
    then n_bytes 1 (at_most_one protocol_error) Property.maximum_qos buf
    else if id == PropertyId.retain_available
    then n_bytes 1 any_value Property.retain_available buf
    else if id == PropertyId.user_property
    then parse_user_property buf
    else if id == PropertyId.maximum_packet_size
    then n_bytes 4 positive Property.maximum_packet_size buf
    else if id == PropertyId.wildcard_subscription_available
    then n_bytes 1 any_value Property.wildcard_subscription_available buf
    else if id == PropertyId.subscription_identifier_available
    then n_bytes 1 any_value Property.subscription_identifier_available buf
    else if id == PropertyId.shared_subscription_available
    then n_bytes 1 any_value Property.shared_subscription_available buf
    else fault

unfoldable pub make_property_variant : PropertyLocation → Bytes → Result (Property × Bytes)
unfolding parse_value validate_property
make_property_variant loc [] = err malformed_packet
make_property_variant loc (id ∷ buf) = do
  unless (validate_property loc id) malformed_packet
  parse_value id buf

-- The loop, on fuel. Every round takes bytes.
unfoldable pub properties_loop : (fuel : ℕ) → PropertyLocation → Bytes → Result Properties
unfolding make_property_variant
properties_loop fuel loc [] = ok []
properties_loop zero loc (b ∷ buf) = err malformed_packet
properties_loop (suc n) loc (b ∷ buf) = do
  (p, buf) ← make_property_variant loc (b ∷ buf)
  ps ← properties_loop n loc buf
  ok (p ∷ ps)

unfoldable pub make_properties : PropertyLocation → Bytes → Result Properties
unfolding properties_loop
make_properties loc buf = properties_loop (length buf) loc buf

-- const_buffer_sequence(props)
unfoldable pub print_properties : Properties → Bytes
unfolding print_property
print_properties [] = []
print_properties (p ∷ ps) = print_property p ++ print_properties ps
