-- ===== src/Protocol/Codec/PropertyId.antt =====
-- protocol/packet/property_id.hpp: the bytes that name the properties.
use async_mqtt_cpp.Prelude.{ℕ}

abbrev pub payload_format_indicator : ℕ
payload_format_indicator = 1

abbrev pub message_expiry_interval : ℕ
message_expiry_interval = 2

abbrev pub content_type : ℕ
content_type = 3

abbrev pub response_topic : ℕ
response_topic = 8

abbrev pub correlation_data : ℕ
correlation_data = 9

abbrev pub subscription_identifier : ℕ
subscription_identifier = 11

abbrev pub session_expiry_interval : ℕ
session_expiry_interval = 17

abbrev pub assigned_client_identifier : ℕ
assigned_client_identifier = 18

abbrev pub server_keep_alive : ℕ
server_keep_alive = 19

abbrev pub authentication_method : ℕ
authentication_method = 21

abbrev pub authentication_data : ℕ
authentication_data = 22

abbrev pub request_problem_information : ℕ
request_problem_information = 23

abbrev pub will_delay_interval : ℕ
will_delay_interval = 24

abbrev pub request_response_information : ℕ
request_response_information = 25

abbrev pub response_information : ℕ
response_information = 26

abbrev pub server_reference : ℕ
server_reference = 28

abbrev pub reason_string : ℕ
reason_string = 31

abbrev pub receive_maximum : ℕ
receive_maximum = 33

abbrev pub topic_alias_maximum : ℕ
topic_alias_maximum = 34

abbrev pub topic_alias : ℕ
topic_alias = 35

abbrev pub maximum_qos : ℕ
maximum_qos = 36

abbrev pub retain_available : ℕ
retain_available = 37

abbrev pub user_property : ℕ
user_property = 38

abbrev pub maximum_packet_size : ℕ
maximum_packet_size = 39

abbrev pub wildcard_subscription_available : ℕ
wildcard_subscription_available = 40

abbrev pub subscription_identifier_available : ℕ
subscription_identifier_available = 41

abbrev pub shared_subscription_available : ℕ
shared_subscription_available = 42
