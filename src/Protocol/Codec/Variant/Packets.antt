-- ===== src/Protocol/Codec/Variant/Packets.antt =====
-- The packets that a printer and the parser of the same packet agree on, and the dispatch on a printed
-- first byte.
use async_mqtt_cpp.Prelude.{
  ℕ, ◌+◌, ◌^◌, ◌≤◌, ◌<◌, ◌≡◌, true, some, [], ◌∷◌, ◌++◌, length, length-append, arith,
}
use async_mqtt_cpp.Util.VariableBytes.{val_to_variable_bytes, length-val_to_variable_bytes}
use async_mqtt_cpp.Protocol.Packet.{
  Bytes, Packet, ProtocolVersion, v3_1_1_connect, v3_1_1_connack, v3_1_1_publish, v3_1_1_puback,
  v3_1_1_pubrec, v3_1_1_pubrel, v3_1_1_pubcomp, v3_1_1_subscribe, v3_1_1_suback, v3_1_1_unsubscribe,
  v3_1_1_unsuback, v3_1_1_pingreq, v3_1_1_pingresp, v3_1_1_disconnect, v5_connect, v5_connack,
  v5_publish, v5_puback, v5_pubrec, v5_pubrel, v5_pubcomp, v5_subscribe, v5_suback, v5_unsubscribe,
  v5_unsuback, v5_pingreq, v5_pingresp, v5_disconnect, v5_auth,
}
use async_mqtt_cpp.Protocol.Codec.Result.{ok}
use async_mqtt_cpp.Protocol.Codec.FixedHeader.{
  ControlPacketType, get_control_packet_type, make_fixed_header, upper_bits,
}
use async_mqtt_cpp.Protocol.Codec.PropertyLocation.{PropertyLocation, is_in}
use async_mqtt_cpp.Protocol.Codec.Property.RoundTrip.{AreProperties}
use async_mqtt_cpp.Protocol.Codec.V311
use async_mqtt_cpp.Protocol.Codec.V5
use async_mqtt_cpp.Protocol.Codec.V5.Section.{property_length}
use async_mqtt_cpp.Protocol.Codec.Variant.{parse_type, buffer_to_packet_variant}

-- What a printer and the parser of the same packet agree on: the checks of the constructor, an
-- identifier that fits into its `n` bytes, lengths that can be encoded, and what only the parser
-- checks: entries in a list, codes of the enumeration, the values of properties, and the length of an
-- acknowledgement without properties.
unfoldable pub IsPacket : (n : ℕ) → Packet → Type 0
IsPacket n (v3_1_1_connect k c l) =
    (V311.Connect.is_login l ≡ true)
    × (V311.Connect.no_will_props l.will ≡ true)
    × (k ≤ 0xffff)
    × (V311.Connect.remaining_length l ≤ 0xfffffff)
IsPacket n (v3_1_1_connack s c) = c ≤ 5
IsPacket n (v3_1_1_publish p) =
    (V311.Publish.make_publish p ≡ ok p)
    × (p.packet_id < 256 ^ n)
    × (V311.Publish.remaining_length n p ≤ 0xfffffff)
IsPacket n (v3_1_1_puback i) = i < 256 ^ n
IsPacket n (v3_1_1_pubrec i) = i < 256 ^ n
IsPacket n (v3_1_1_pubrel i) = i < 256 ^ n
IsPacket n (v3_1_1_pubcomp i) = i < 256 ^ n
IsPacket n (v3_1_1_subscribe i es) =
    (V311.Subscribe.make_subscribe es ≡ ok es)
    × (i < 256 ^ n)
    × (V311.Subscribe.remaining_length n es ≤ 0xfffffff)
IsPacket n (v3_1_1_suback i es) =
    (V311.Unsubscribe.are_return_codes es ≡ true)
    × (0 < length es)
    × (i < 256 ^ n)
    × (n + length es ≤ 0xfffffff)
IsPacket n (v3_1_1_unsubscribe i es) =
    (V311.Unsubscribe.make_unsubscribe es ≡ ok es)
    × (0 < V311.Unsubscribe.topics_size es)
    × (i < 256 ^ n)
    × (n + V311.Unsubscribe.topics_size es ≤ 0xfffffff)
IsPacket n (v3_1_1_unsuback i) = i < 256 ^ n
IsPacket n (v5_connect k c ps l) =
    (V311.Connect.is_login l ≡ true)
    × V5.Connect.AreSection PropertyLocation.connect ps
    × V5.Connect.IsWillSection l.will
    × (k ≤ 0xffff)
    × (V5.Connect.remaining_length ps l ≤ 0xfffffff)
IsPacket n (v5_connack s c ps) =
    (is_in c V5.Plain.connect_codes ≡ true)
    × AreProperties PropertyLocation.connack ps
    × (property_length ps ≤ 0xfffffff)
    × (V5.Plain.remaining_length ps ≤ 0xfffffff)
IsPacket n (v5_publish p) =
    (V5.Publish.make_publish p ≡ ok p)
    × AreProperties PropertyLocation.publish p.props
    × (p.packet_id < 256 ^ n)
    × (property_length p.props ≤ 0xfffffff)
    × (V5.Publish.remaining_length n p ≤ 0xfffffff)
IsPacket n (v5_puback i c ps) = V5.Acks.IsAck n PropertyLocation.puback V5.Acks.receipt_codes i c ps
IsPacket n (v5_pubrec i c ps) = V5.Acks.IsAck n PropertyLocation.pubrec V5.Acks.receipt_codes i c ps
IsPacket n (v5_pubrel i c ps) = V5.Acks.IsAck n PropertyLocation.pubrel V5.Acks.release_codes i c ps
IsPacket n (v5_pubcomp i c ps) =
    V5.Acks.IsAck n PropertyLocation.pubcomp V5.Acks.release_codes i c ps
IsPacket n (v5_subscribe i b) =
    (V5.Subscribe.make_subscribe b.entries ≡ ok b.entries)
    × (0 < V311.Subscribe.entries_size b.entries)
    × AreProperties PropertyLocation.subscribe b.props
    × (i < 256 ^ n)
    × (property_length b.props ≤ 0xfffffff)
    × (V5.Subscribe.remaining_length n b ≤ 0xfffffff)
IsPacket n (v5_suback i b) =
    V5.Lists.IsListed n PropertyLocation.suback i b.props b.entries
    × (V5.Lists.are_in V5.Lists.suback_codes b.entries ≡ true)
IsPacket n (v5_unsuback i b) =
    V5.Lists.IsListed n PropertyLocation.unsuback i b.props b.entries
    × (V5.Lists.are_in V5.Lists.unsuback_codes b.entries ≡ true)
IsPacket n (v5_unsubscribe i b) =
    V5.Lists.IsListed n PropertyLocation.unsubscribe i b.props
      (V311.Unsubscribe.print_topics b.entries)
    × (V311.Unsubscribe.make_unsubscribe b.entries ≡ ok b.entries)
IsPacket n (v5_disconnect c ps) =
    V5.Ending.IsEnding PropertyLocation.disconnect V5.Ending.disconnect_codes c ps
IsPacket n (v5_auth c ps) = V5.Ending.IsEnding PropertyLocation.auth V5.Ending.auth_codes c ps
IsPacket n v3_1_1_pingreq = Unit
IsPacket n v3_1_1_pingresp = Unit
IsPacket n v3_1_1_disconnect = Unit
IsPacket n v5_pingreq = Unit
IsPacket n v5_pingresp = Unit

get_control_packet_type-make_fixed_header :
    (t : ControlPacketType) (flags : ℕ)
    → flags < 16
    → get_control_packet_type (make_fixed_header t flags) ≡ some t
unfolding get_control_packet_type make_fixed_header upper_bits
get_control_packet_type-make_fixed_header t flags h = ground arith

pub buffer_to_packet_variant-type :
    (n : ℕ) (t : ControlPacketType) (flags : ℕ) (rest : Bytes) (ver : ProtocolVersion)
    → flags < 16
    → 0 < length rest
    → buffer_to_packet_variant n (make_fixed_header t flags ∷ rest) ver
      ≡ parse_type n t ver (make_fixed_header t flags ∷ rest)
unfolding buffer_to_packet_variant
buffer_to_packet_variant-type n t flags [] ver h l = ground arith
buffer_to_packet_variant-type n t flags (b ∷ rest) ver h l =
    ground (arith, get_control_packet_type-make_fixed_header t flags h)

pub length-sized :
    (size : ℕ) (body : Bytes) → size ≤ 0xfffffff → 0 < length (val_to_variable_bytes size ++ body)
length-sized size body h =
    ground
      (arith, length-append (val_to_variable_bytes size) body, length-val_to_variable_bytes size)
