-- ===== src/Protocol/Codec/Property/RoundTrip.antt =====
-- A property and a list of properties are parsed as they were printed.
use async_mqtt_cpp.Prelude.{
  ℕ, zero, suc, ◌^◌, ◌≤◌, ◌<◌, ◌≡◌, refl, true, [], ◌∷◌, ◌++◌, length, length-append, append_assoc,
  arith,
}
use async_mqtt_cpp.Util.EndianConvert.{endian_store, endian_load-endian_store}
use async_mqtt_cpp.Util.VariableBytes.{val_to_variable_bytes}
use async_mqtt_cpp.Util.Utf8.{utf8string_check}
use async_mqtt_cpp.Protocol.Packet.{Bytes, Property, Properties}
use async_mqtt_cpp.Protocol.Codec.Result.{Result, ok, malformed_packet, protocol_error}
use async_mqtt_cpp.Protocol.Codec.Fields.{
  length_prefixed, insert_advance-endian_store, binary-length_prefixed, text-length_prefixed,
  insert_advance_variable_length-val_to_variable_bytes,
}
use async_mqtt_cpp.Protocol.Codec.PropertyLocation.{PropertyLocation, validate_property}
use async_mqtt_cpp.Protocol.Codec.Property.{
  property_id, print_value, print_property, print_properties, n_bytes, string_property,
  binary_property, parse_subscription_identifier, parse_user_property, parse_value, any_value,
  at_most_one, positive, make_property_variant, properties_loop, make_properties,
}

unfoldable pub IsText : Bytes → Type 0
IsText str = (length str ≤ 0xffff) × (utf8string_check str ≡ true)

-- The values that the parser takes: numbers of the right size and range, valid texts of at most 65535
-- bytes; the two texts of a user property of at most 65533 bytes, valid or not.
unfoldable pub IsProperty : Property → Type 0
unfolding IsText
IsProperty (Property.payload_format_indicator v) = v ≤ 1
IsProperty (Property.message_expiry_interval v) = v < 0x100000000
IsProperty (Property.content_type v) = IsText v
IsProperty (Property.response_topic v) = IsText v
IsProperty (Property.correlation_data v) = length v ≤ 0xffff
IsProperty (Property.subscription_identifier v) = (0 < v) × (v ≤ 0xfffffff)
IsProperty (Property.session_expiry_interval v) = v < 0x100000000
IsProperty (Property.assigned_client_identifier v) = IsText v
IsProperty (Property.server_keep_alive v) = v < 0x10000
IsProperty (Property.authentication_method v) = IsText v
IsProperty (Property.authentication_data v) = length v ≤ 0xffff
IsProperty (Property.request_problem_information v) = v < 256
IsProperty (Property.will_delay_interval v) = v < 0x100000000
IsProperty (Property.request_response_information v) = v < 256
IsProperty (Property.response_information v) = IsText v
IsProperty (Property.server_reference v) = IsText v
IsProperty (Property.reason_string v) = IsText v
IsProperty (Property.receive_maximum v) = (0 < v) × (v < 0x10000)
IsProperty (Property.topic_alias_maximum v) = v < 0x10000
IsProperty (Property.topic_alias v) = v < 0x10000
IsProperty (Property.maximum_qos v) = v ≤ 1
IsProperty (Property.retain_available v) = v < 256
IsProperty (Property.user_property k v) = (length k ≤ 0xfffd) × (length v ≤ 0xfffd)
IsProperty (Property.maximum_packet_size v) = (0 < v) × (v < 0x100000000)
IsProperty (Property.wildcard_subscription_available v) = v < 256
IsProperty (Property.subscription_identifier_available v) = v < 256
IsProperty (Property.shared_subscription_available v) = v < 256

n_bytes-endian_store :
    (n v : ℕ) (test : ℕ → Result (Unit {0})) (make : ℕ → Property) (buf : Bytes)
    → test v ≡ ok tt
    → v < 256 ^ n
    → n_bytes n test make (endian_store n v ++ buf) ≡ ok (make v, buf)
unfolding n_bytes
n_bytes-endian_store n v test make buf t h =
    ground (arith, t, insert_advance-endian_store n v buf, endian_load-endian_store n v h)

string_property-length_prefixed :
    (make : Bytes → Property) (str buf : Bytes)
    → IsText str
    → string_property make (length_prefixed str ++ buf) ≡ ok (make str, buf)
unfolding string_property IsText
string_property-length_prefixed make str buf h =
    ground (arith, text-length_prefixed str buf h.0 h.1)

binary_property-length_prefixed :
    (make : Bytes → Property) (str buf : Bytes)
    → length str ≤ 0xffff
    → binary_property make (length_prefixed str ++ buf) ≡ ok (make str, buf)
unfolding binary_property
binary_property-length_prefixed make str buf h = ground (arith, binary-length_prefixed str buf h)

parse_user_property-print :
    (k v buf : Bytes)
    → length k ≤ 0xfffd
    → length v ≤ 0xfffd
    → parse_user_property (length_prefixed k ++ length_prefixed v ++ buf)
      ≡ ok (Property.user_property k v, buf)
unfolding parse_user_property
parse_user_property-print k v buf hk hv = ground (
  arith,
  append_assoc (length_prefixed k) (length_prefixed v) buf,
  binary-length_prefixed k (length_prefixed v ++ buf),
  binary-length_prefixed v buf,
)

subscription_identifier-print :
    (v : ℕ) (buf : Bytes)
    → 0 < v
    → v ≤ 0xfffffff
    → parse_subscription_identifier (val_to_variable_bytes v ++ buf)
      ≡ ok (Property.subscription_identifier v, buf)
unfolding parse_subscription_identifier
subscription_identifier-print v buf h l =
    ground (arith, insert_advance_variable_length-val_to_variable_bytes v buf l)

parse_value-print_value :
    (p : Property) (buf : Bytes)
    → IsProperty p
    → parse_value (property_id p) (print_value p ++ buf) ≡ ok (p, buf)
unfolding parse_value print_value property_id IsProperty
parse_value-print_value (Property.payload_format_indicator v) buf h =
    n_bytes-endian_store 1 v (at_most_one malformed_packet) Property.payload_format_indicator buf
      (ground arith) (ground arith)
parse_value-print_value (Property.message_expiry_interval v) buf h =
    n_bytes-endian_store 4 v any_value Property.message_expiry_interval buf (refl) (ground arith)
parse_value-print_value (Property.content_type v) buf h =
    string_property-length_prefixed Property.content_type v buf h
parse_value-print_value (Property.response_topic v) buf h =
    string_property-length_prefixed Property.response_topic v buf h
parse_value-print_value (Property.correlation_data v) buf h =
    binary_property-length_prefixed Property.correlation_data v buf h
parse_value-print_value (Property.subscription_identifier v) buf h =
    subscription_identifier-print v buf h.0 h.1
parse_value-print_value (Property.session_expiry_interval v) buf h =
    n_bytes-endian_store 4 v any_value Property.session_expiry_interval buf (refl) (ground arith)
parse_value-print_value (Property.assigned_client_identifier v) buf h =
    string_property-length_prefixed Property.assigned_client_identifier v buf h
parse_value-print_value (Property.server_keep_alive v) buf h =
    n_bytes-endian_store 2 v any_value Property.server_keep_alive buf (refl) (ground arith)
parse_value-print_value (Property.authentication_method v) buf h =
    string_property-length_prefixed Property.authentication_method v buf h
parse_value-print_value (Property.authentication_data v) buf h =
    binary_property-length_prefixed Property.authentication_data v buf h
parse_value-print_value (Property.request_problem_information v) buf h =
    n_bytes-endian_store 1 v any_value Property.request_problem_information buf (refl)
      (ground arith)
parse_value-print_value (Property.will_delay_interval v) buf h =
    n_bytes-endian_store 4 v any_value Property.will_delay_interval buf (refl) (ground arith)
parse_value-print_value (Property.request_response_information v) buf h =
    n_bytes-endian_store 1 v any_value Property.request_response_information buf (refl)
      (ground arith)
parse_value-print_value (Property.response_information v) buf h =
    string_property-length_prefixed Property.response_information v buf h
parse_value-print_value (Property.server_reference v) buf h =
    string_property-length_prefixed Property.server_reference v buf h
parse_value-print_value (Property.reason_string v) buf h =
    string_property-length_prefixed Property.reason_string v buf h
parse_value-print_value (Property.receive_maximum v) buf h =
    n_bytes-endian_store 2 v positive Property.receive_maximum buf (ground arith) (ground arith)
parse_value-print_value (Property.topic_alias_maximum v) buf h =
    n_bytes-endian_store 2 v any_value Property.topic_alias_maximum buf (refl) (ground arith)
parse_value-print_value (Property.topic_alias v) buf h =
    n_bytes-endian_store 2 v any_value Property.topic_alias buf (refl) (ground arith)
parse_value-print_value (Property.maximum_qos v) buf h =
    n_bytes-endian_store 1 v (at_most_one protocol_error) Property.maximum_qos buf (ground arith)
      (ground arith)
parse_value-print_value (Property.retain_available v) buf h =
    n_bytes-endian_store 1 v any_value Property.retain_available buf (refl) (ground arith)
parse_value-print_value (Property.user_property k v) buf h =
    parse_user_property-print k v buf h.0 h.1
parse_value-print_value (Property.maximum_packet_size v) buf h =
    n_bytes-endian_store 4 v positive Property.maximum_packet_size buf (ground arith) (ground arith)
parse_value-print_value (Property.wildcard_subscription_available v) buf h =
    n_bytes-endian_store 1 v any_value Property.wildcard_subscription_available buf (refl)
      (ground arith)
parse_value-print_value (Property.subscription_identifier_available v) buf h =
    n_bytes-endian_store 1 v any_value Property.subscription_identifier_available buf (refl)
      (ground arith)
parse_value-print_value (Property.shared_subscription_available v) buf h =
    n_bytes-endian_store 1 v any_value Property.shared_subscription_available buf (refl)
      (ground arith)

unfoldable pub AreProperties : PropertyLocation → Properties → Type 0
unfolding IsProperty
AreProperties loc [] = Unit
AreProperties loc (p ∷ ps) =
    IsProperty p × (validate_property loc (property_id p) ≡ true) × AreProperties loc ps

properties_loop-print_properties :
    (fuel : ℕ) (loc : PropertyLocation) (ps : Properties)
    → AreProperties loc ps
    → length (print_properties ps) ≤ fuel
    → properties_loop fuel loc (print_properties ps) ≡ ok ps
unfolding properties_loop print_properties print_property make_property_variant AreProperties
properties_loop-print_properties fuel loc [] h l = refl
properties_loop-print_properties zero loc (p ∷ ps) h l = ground arith
properties_loop-print_properties (suc n) loc (p ∷ ps) h l =
    let len = length-append (print_value p) (print_properties ps) in
    ground (
      arith,
      h.1,
      parse_value-print_value p (print_properties ps) h.0,
      properties_loop-print_properties n loc ps h.2 (omega (arith, len, l)),
    )

-- Properties that the packet may carry, with values that the parser takes, are parsed as they were
-- printed, in order.
pub make_properties-print_properties :
    (loc : PropertyLocation) (ps : Properties)
    → AreProperties loc ps
    → make_properties loc (print_properties ps) ≡ ok ps
unfolding make_properties
make_properties-print_properties loc ps h =
    properties_loop-print_properties (length (print_properties ps)) loc ps h (omega arith)
