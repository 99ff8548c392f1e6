-- ===== src/Protocol/Codec/Variant.antt =====
-- protocol/impl/buffer_to_packet_variant.ipp, packet/impl/get_protocol_version.hpp and
-- packet/impl/packet_variant.ipp: the parser and the printer of a packet by its type and version.
pub mod Packets
pub mod RoundTrip
pub mod Wire
use async_mqtt_cpp.Prelude.{
  ℕ, ◌≡◌, Bool, true, false, if◌then◌else◌, ◌==◌, ltb, leb, Option, none, some, List, [], ◌∷◌,
  length, get_elem?, drop,
}
use async_mqtt_cpp.Protocol.Packet.{
  Bytes, Packet, ProtocolVersion, undetermined, v3_1_1, v5, v3_1_1_connect, v3_1_1_connack,
  v3_1_1_publish, v3_1_1_puback, v3_1_1_pubrec, v3_1_1_pubrel, v3_1_1_pubcomp, v3_1_1_subscribe,
  v3_1_1_suback, v3_1_1_unsubscribe, v3_1_1_unsuback, v3_1_1_pingreq, v3_1_1_pingresp,
  v3_1_1_disconnect, v5_connect, v5_connack, v5_publish, v5_puback, v5_pubrec, v5_pubrel,
  v5_pubcomp, v5_subscribe, v5_suback, v5_unsubscribe, v5_unsuback, v5_pingreq, v5_pingresp,
  v5_disconnect, v5_auth,
}
use async_mqtt_cpp.Protocol.Codec.Result.{
  Result, ok, err, ◌>>=◌, malformed_packet, protocol_error, or_fault,
}
use async_mqtt_cpp.Protocol.Codec.FixedHeader.{ControlPacketType, get_control_packet_type}
use async_mqtt_cpp.Protocol.Codec.Fields.{insert_advance_variable_length}
use async_mqtt_cpp.Protocol.Codec.V311.Connect.{unsupported_protocol_version}
use async_mqtt_cpp.Protocol.Codec.V311
use async_mqtt_cpp.Protocol.Codec.V5

-- The byte as a protocol_version; every other value takes the default branch of the switch on it.
unfoldable pub version_of : ℕ → ProtocolVersion
version_of b = if b == 4 then v3_1_1 else if b == 5 then v5 else undetermined

-- The test is for six bytes, the byte that is read is the seventh.
unfoldable pub get_protocol_version : Bytes → Result ProtocolVersion
unfolding insert_advance_variable_length version_of
get_protocol_version buf = elim (insert_advance_variable_length (drop 1 buf)) [
  | none ↦ ok undetermined
  | some r ↦
      if leb 6 (length r.1)
      then (do b ← or_fault (get_elem? r.1 6); ok (version_of b))
      else ok undetermined
]

-- A parser for each of the two versions that a connection can have agreed on.
abbrev pub by_version : ProtocolVersion → Result Packet → Result Packet → Result Packet
by_version v3_1_1 p q = p
by_version v5 p q = q
by_version undetermined p q = err protocol_error

module _ (n : ℕ) where
  unfoldable pub parse_v3_1_1 : ControlPacketType → Bytes → Result Packet
  parse_v3_1_1 ControlPacketType.connect buf = V311.Connect.parse_connect buf
  parse_v3_1_1 ControlPacketType.connack buf = V311.Plain.parse_connack buf
  parse_v3_1_1 ControlPacketType.publish buf = V311.Publish.parse_publish n buf
  parse_v3_1_1 ControlPacketType.puback buf = V311.Acks.parse_puback n buf
  parse_v3_1_1 ControlPacketType.pubrec buf = V311.Acks.parse_pubrec n buf
  parse_v3_1_1 ControlPacketType.pubrel buf = V311.Acks.parse_pubrel n buf
  parse_v3_1_1 ControlPacketType.pubcomp buf = V311.Acks.parse_pubcomp n buf
  parse_v3_1_1 ControlPacketType.subscribe buf = V311.Subscribe.parse_subscribe n buf
  parse_v3_1_1 ControlPacketType.suback buf = V311.Unsubscribe.parse_suback n buf
  parse_v3_1_1 ControlPacketType.unsubscribe buf = V311.Unsubscribe.parse_unsubscribe n buf
  parse_v3_1_1 ControlPacketType.unsuback buf = V311.Acks.parse_unsuback n buf
  parse_v3_1_1 ControlPacketType.pingreq buf = V311.Plain.parse_pingreq buf
  parse_v3_1_1 ControlPacketType.pingresp buf = V311.Plain.parse_pingresp buf
  parse_v3_1_1 ControlPacketType.disconnect buf = V311.Plain.parse_disconnect buf
  parse_v3_1_1 ControlPacketType.auth buf = err protocol_error

  unfoldable pub parse_v5 : ControlPacketType → Bytes → Result Packet
  parse_v5 ControlPacketType.connect buf = V5.Connect.parse_connect buf
  parse_v5 ControlPacketType.connack buf = V5.Plain.parse_connack buf
  parse_v5 ControlPacketType.publish buf = V5.Publish.parse_publish n buf
  parse_v5 ControlPacketType.puback buf = V5.Acks.parse_puback n buf
  parse_v5 ControlPacketType.pubrec buf = V5.Acks.parse_pubrec n buf
  parse_v5 ControlPacketType.pubrel buf = V5.Acks.parse_pubrel n buf
  parse_v5 ControlPacketType.pubcomp buf = V5.Acks.parse_pubcomp n buf
  parse_v5 ControlPacketType.subscribe buf = V5.Subscribe.parse_subscribe n buf
  parse_v5 ControlPacketType.suback buf = V5.Lists.parse_suback n buf
  parse_v5 ControlPacketType.unsubscribe buf = V5.Lists.parse_unsubscribe n buf
  parse_v5 ControlPacketType.unsuback buf = V5.Lists.parse_unsuback n buf
  parse_v5 ControlPacketType.pingreq buf = V5.Plain.parse_pingreq buf
  parse_v5 ControlPacketType.pingresp buf = V5.Plain.parse_pingresp buf
  parse_v5 ControlPacketType.disconnect buf = V5.Ending.parse_disconnect buf
  parse_v5 ControlPacketType.auth buf = V5.Ending.parse_auth buf

  unfoldable pub parse_connect : ProtocolVersion → Bytes → Result Packet
  parse_connect undetermined buf = do
    ver ← get_protocol_version buf
    elim ver [
      | v3_1_1 ↦ V311.Connect.parse_connect buf
      | v5 ↦ V5.Connect.parse_connect buf
      | undetermined ↦ err unsupported_protocol_version
    ]
  parse_connect v3_1_1 buf = V311.Connect.parse_connect buf
  parse_connect v5 buf = V5.Connect.parse_connect buf

  unfoldable pub parse_type : ControlPacketType → ProtocolVersion → Bytes → Result Packet
  unfolding parse_connect
  parse_type ControlPacketType.connect ver buf = parse_connect ver buf
  parse_type t ver buf = by_version ver (parse_v3_1_1 t buf) (parse_v5 t buf)

  unfoldable pub buffer_to_packet_variant : Bytes → ProtocolVersion → Result Packet
  unfolding parse_type get_control_packet_type
  buffer_to_packet_variant [] ver = err malformed_packet
  buffer_to_packet_variant (b ∷ []) ver = err malformed_packet
  buffer_to_packet_variant (b ∷ c ∷ buf) ver = elim (get_control_packet_type b) [
    | none ↦ err malformed_packet
    | some t ↦ parse_type t ver (b ∷ c ∷ buf)
  ]

  -- basic_packet_variant::const_buffer_sequence
  unfoldable pub print_packet : Packet → Bytes
  print_packet (v3_1_1_connect k c l) = V311.Connect.print_connect k c l
  print_packet (v3_1_1_connack s c) = V311.Plain.print_connack s c
  print_packet (v3_1_1_publish p) = V311.Publish.print_publish n p
  print_packet (v3_1_1_puback i) = V311.Acks.print_puback n i
  print_packet (v3_1_1_pubrec i) = V311.Acks.print_pubrec n i
  print_packet (v3_1_1_pubrel i) = V311.Acks.print_pubrel n i
  print_packet (v3_1_1_pubcomp i) = V311.Acks.print_pubcomp n i
  print_packet (v3_1_1_subscribe i es) = V311.Subscribe.print_subscribe n i es
  print_packet (v3_1_1_suback i es) = V311.Unsubscribe.print_suback n i es
  print_packet (v3_1_1_unsubscribe i es) = V311.Unsubscribe.print_unsubscribe n i es
  print_packet (v3_1_1_unsuback i) = V311.Acks.print_unsuback n i
  print_packet v3_1_1_pingreq = V311.Plain.print_pingreq
  print_packet v3_1_1_pingresp = V311.Plain.print_pingresp
  print_packet v3_1_1_disconnect = V311.Plain.print_disconnect
  print_packet (v5_connect k c ps l) = V5.Connect.print_connect k c ps l
  print_packet (v5_connack s c ps) = V5.Plain.print_connack s c ps
  print_packet (v5_publish p) = V5.Publish.print_publish n p
  print_packet (v5_puback i c ps) = V5.Acks.print_puback n i c ps
  print_packet (v5_pubrec i c ps) = V5.Acks.print_pubrec n i c ps
  print_packet (v5_pubrel i c ps) = V5.Acks.print_pubrel n i c ps
  print_packet (v5_pubcomp i c ps) = V5.Acks.print_pubcomp n i c ps
  print_packet (v5_subscribe i b) = V5.Subscribe.print_subscribe n i b
  print_packet (v5_suback i b) = V5.Lists.print_suback n i b
  print_packet (v5_unsubscribe i b) = V5.Lists.print_unsubscribe n i b
  print_packet (v5_unsuback i b) = V5.Lists.print_unsuback n i b
  print_packet v5_pingreq = V5.Plain.print_pingreq
  print_packet v5_pingresp = V5.Plain.print_pingresp
  print_packet (v5_disconnect c ps) = V5.Ending.print_disconnect c ps
  print_packet (v5_auth c ps) = V5.Ending.print_auth c ps
