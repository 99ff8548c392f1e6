-- ===== src/Tests/Codec.antt =====
-- Concrete packets and texts for the packet codec under protocol/packet/impl and for
-- util/utf8validate.hpp.
use async_mqtt_cpp.Prelude.{◌≡◌, ◌↔◌, refl, true, false, some, List, [], ◌∷◌, ◌++◌, length, arith}
use async_mqtt_cpp.Util.VariableBytes.{val_to_variable_bytes, to_bytes}
use async_mqtt_cpp.Util.EndianConvert.{endian_store}
use async_mqtt_cpp.Protocol.Codec.Fields.{length_prefixed}
use async_mqtt_cpp.Util.Utf8.{utf8string_check}
use async_mqtt_cpp.Util.Utf8.CodePoints.{IsUtf8, utf8string_check_lem}
use async_mqtt_cpp.Protocol.Packet.{
  Bytes, Property, Publish, v5_publish, at_least_once, v5, undetermined, packet_version,
}
use async_mqtt_cpp.Protocol.Builder.{recv_bytes, fresh}
use async_mqtt_cpp.Protocol.Builder.RoundTrip.{holding}
use async_mqtt_cpp.Protocol.Codec.Result.{ok, err, fault, malformed_packet}
use async_mqtt_cpp.Protocol.Codec.FixedHeader.{ControlPacketType, get_control_packet_type}
use async_mqtt_cpp.Protocol.Codec.PropertyLocation.{PropertyLocation, validate_property}
use async_mqtt_cpp.Protocol.Codec.Property.{
  property_id, print_property, print_value, make_properties, print_properties,
}
use async_mqtt_cpp.Protocol.Codec.Property.RoundTrip.{IsProperty, IsText, AreProperties}
use async_mqtt_cpp.Protocol.Codec.V5
use async_mqtt_cpp.Protocol.Codec.V311
use async_mqtt_cpp.Protocol.Codec.Progress.Entries.{entry_bytes, all_topics, loops-rounds}
use async_mqtt_cpp.Protocol.Codec.Progress.{Leaves}
use async_mqtt_cpp.Protocol.Codec.Fields.{front, text}
use async_mqtt_cpp.Protocol.Codec.Result.{◌>>=◌, ◌>>◌, unless, or_malformed}
use async_mqtt_cpp.Protocol.Codec.Property.{make_property_variant}
use async_mqtt_cpp.Prelude.{◌/◌, ◌%◌, ◌==◌, not}
use async_mqtt_cpp.Protocol.Codec.V5.Acks.{
  receipt_codes, print_ack, parse_ack, parse_ack-four_bytes,
}
use async_mqtt_cpp.Protocol.Codec.Variant.{buffer_to_packet_variant, print_packet}
use async_mqtt_cpp.Protocol.Codec.Variant.Packets.{IsPacket}
use async_mqtt_cpp.Protocol.Codec.Variant.Wire.{recv_bytes-print_packet}
use async_mqtt_cpp.Protocol.Codec.Safety.{IsInside}
use async_mqtt_cpp.Protocol.Codec.Safety.Dispatch.{
  IsReadable, buffer_to_packet_variant-IsInside, buffer_to_packet_variant-fault,
}

-- A control character among letters.
utf8string_check_lem_example : (utf8string_check (0x61 ∷ 7 ∷ []) ≡ true) ↔ IsUtf8 (0x61 ∷ 7 ∷ [])
utf8string_check_lem_example = utf8string_check_lem (0x61 ∷ 7 ∷ [])

abbrev two_properties : List Property
two_properties =
    Property.message_expiry_interval 70000 ∷ Property.content_type (0x61 ∷ 0x62 ∷ []) ∷ []

two_properties-AreProperties : AreProperties PropertyLocation.publish two_properties
unfolding AreProperties IsProperty IsText utf8string_check validate_property property_id
two_properties-AreProperties = (omega arith, refl, ((omega arith, refl), refl, tt))

-- A round on the topic "a" and one more byte.
loops-rounds_example :
    Leaves 3 (make_property_variant PropertyLocation.publish (0 ∷ 1 ∷ 0x61 ∷ 0 ∷ []))
    × Leaves 3 (entry_bytes (0 ∷ 1 ∷ 0x61 ∷ 0 ∷ []))
    × Leaves 3 (text (0 ∷ 1 ∷ 0x61 ∷ 0 ∷ []))
    × (make_properties PropertyLocation.publish (0 ∷ 1 ∷ 0x61 ∷ 0 ∷ []) ≡ (do
      (p, rest) ← make_property_variant PropertyLocation.publish (0 ∷ 1 ∷ 0x61 ∷ 0 ∷ [])
      ps ← make_properties PropertyLocation.publish rest
      ok (p ∷ ps)))
    × (V311.Subscribe.parse_entries 4 (0 ∷ 1 ∷ 0x61 ∷ 0 ∷ []) ≡ (do
      (topic, rest) ← text (0 ∷ 1 ∷ 0x61 ∷ 0 ∷ [])
      (opts, rest) ← or_malformed (front rest)
      unless (opts / 4 == 0) malformed_packet
      unless (not (opts % 4 == 3)) malformed_packet
      es ← V311.Subscribe.parse_entries (length rest) rest
      ok (record { all_topic = topic; opts = opts } ∷ es)))
    × (V5.Subscribe.parse_entries 4 (0 ∷ 1 ∷ 0x61 ∷ 0 ∷ []) ≡ (do
      (topic, rest) ← text (0 ∷ 1 ∷ 0x61 ∷ 0 ∷ [])
      (opts, rest) ← or_malformed (front rest)
      V5.Subscribe.check_opts (record { all_topic = topic; opts = opts })
      es ← V5.Subscribe.parse_entries (length rest) rest
      ok (record { all_topic = topic; opts = opts } ∷ es)))
    × (all_topics (0 ∷ 1 ∷ 0x61 ∷ 0 ∷ [])
        ≡ (do (t, rest) ← text (0 ∷ 1 ∷ 0x61 ∷ 0 ∷ []); ts ← all_topics rest; ok (t ∷ ts)))
loops-rounds_example = loops-rounds PropertyLocation.publish 0 (1 ∷ 0x61 ∷ 0 ∷ [])

-- A QoS 1 packet on the topic "t" with properties.
abbrev published : Publish
published = record {
  packet_id = 300;
  topic = 0x74 ∷ [];
  payload = 1 ∷ 2 ∷ 3 ∷ [];
  qos = at_least_once;
  retain = false;
  dup = true;
  props = two_properties;
}

published-IsPacket : IsPacket 2 (v5_publish published)
unfolding IsPacket V5.Publish.make_publish utf8string_check validate_property property_id
    V5.Section.property_length V5.Section.print_section V5.Publish.remaining_length print_properties
    print_property print_value length_prefixed endian_store val_to_variable_bytes to_bytes
published-IsPacket = (refl, two_properties-AreProperties, omega arith, omega arith, omega arith)

recv_bytes-print_packet_example :
    (recv_bytes fresh (print_packet 2 (v5_publish published) ++ 0xc0 ∷ 0 ∷ [])
      ≡ (holding (print_packet 2 (v5_publish published)), 0xc0 ∷ 0 ∷ []))
    × (buffer_to_packet_variant 2
          (print_packet 2 (v5_publish published))
          (packet_version (v5_publish published))
        ≡ ok (v5_publish published))
recv_bytes-print_packet_example =
    recv_bytes-print_packet 2 (v5_publish published) (0xc0 ∷ 0 ∷ []) (omega arith)
      published-IsPacket

-- A v5 CONNACK cut off behind its reason code.
abbrev short_connack : Bytes
short_connack = 0 ∷ 0 ∷ []

short_connack-IsReadable :
    (t : ControlPacketType)
    → get_control_packet_type 0x20 ≡ some t
    → IsReadable t v5 (length short_connack)
unfolding IsReadable get_control_packet_type
short_connack-IsReadable ControlPacketType.connack e = omega arith
short_connack-IsReadable ControlPacketType.connect e = tt
short_connack-IsReadable ControlPacketType.publish e = tt
short_connack-IsReadable ControlPacketType.puback e = tt
short_connack-IsReadable ControlPacketType.pubrec e = tt
short_connack-IsReadable ControlPacketType.pubrel e = tt
short_connack-IsReadable ControlPacketType.pubcomp e = tt
short_connack-IsReadable ControlPacketType.subscribe e = tt
short_connack-IsReadable ControlPacketType.suback e = tt
short_connack-IsReadable ControlPacketType.unsubscribe e = tt
short_connack-IsReadable ControlPacketType.unsuback e = tt
short_connack-IsReadable ControlPacketType.pingreq e = tt
short_connack-IsReadable ControlPacketType.pingresp e = tt
short_connack-IsReadable ControlPacketType.disconnect e = tt
short_connack-IsReadable ControlPacketType.auth e = tt

buffer_to_packet_variant-IsInside_example : IsInside (
    buffer_to_packet_variant 2
      (0x20 ∷ (val_to_variable_bytes (length short_connack) ++ short_connack))
      v5)
buffer_to_packet_variant-IsInside_example =
    buffer_to_packet_variant-IsInside 2 0x20 short_connack v5 (omega arith) short_connack-IsReadable

buffer_to_packet_variant-fault_example :
    (buffer_to_packet_variant 2 (0x10 ∷ 6 ∷ 0 ∷ 4 ∷ 0x4d ∷ 0x51 ∷ 0x54 ∷ 0x54 ∷ []) undetermined
      ≡ fault)
    × (buffer_to_packet_variant 2 (0x20 ∷ 1 ∷ 1 ∷ []) v5 ≡ fault)
buffer_to_packet_variant-fault_example =
    buffer_to_packet_variant-fault 2 0 4 0x4d 0x51 0x54 0x54 1 (omega arith)

parse_ack-four_bytes_example :
    parse_ack 4 PropertyLocation.puback receipt_codes
      (print_ack 4 ControlPacketType.puback 0 70000 (some 0x10) [])
    ≡ err malformed_packet
parse_ack-four_bytes_example =
    parse_ack-four_bytes ControlPacketType.puback 0 70000 PropertyLocation.puback receipt_codes 0x10
