-- ===== src/Protocol/Codec/V5/Publish.antt =====
-- packet/impl/v5_publish.ipp: the constructors, the parser and the bytes.
use async_mqtt_cpp.Prelude.{
  ℕ, ◌+◌, ◌^◌, ◌≤◌, ◌<◌, ◌≡◌, Bool, true, false, leb, [], ◌∷◌, ◌++◌, length, arith,
}
use async_mqtt_cpp.Util.VariableBytes.{val_to_variable_bytes}
use async_mqtt_cpp.Util.Utf8.{utf8string_check}
use async_mqtt_cpp.Protocol.Packet.{Bytes, Packet, Publish, Properties, v5_publish}
use async_mqtt_cpp.Protocol.Codec.Result.{
  Result, ok, ◌>>=◌, ◌>>◌, malformed_packet, protocol_error, unless, or_malformed,
}
use async_mqtt_cpp.Protocol.Codec.PublishHeader.{
  publish_header, is_dup, get_qos, is_retain, is_dup-publish_header, get_qos-publish_header,
  is_retain-publish_header,
}
use async_mqtt_cpp.Protocol.Codec.Fields.{
  front, insert_advance_variable_length, text, length_prefixed,
  insert_advance_variable_length-val_to_variable_bytes, text-length_prefixed,
}
use async_mqtt_cpp.Protocol.Codec.PropertyLocation.{PropertyLocation, validate_property}
use async_mqtt_cpp.Protocol.Codec.Property.{property_id}
use async_mqtt_cpp.Protocol.Codec.Property.RoundTrip.{AreProperties}
use async_mqtt_cpp.Protocol.Codec.V311.Publish.{
  fits_qos, identifier_size, print_packet_id, parse_packet_id, parse_packet_id-print_packet_id,
}
use async_mqtt_cpp.Protocol.Codec.V5.Section.{
  property_length, print_section, parse_section, parse_section-print_section,
}

unfoldable pub are_valid_ids : PropertyLocation → Properties → Bool
are_valid_ids loc [] = true
are_valid_ids loc (p ∷ ps) = elim (validate_property loc (property_id p)) [
  | true ↦ are_valid_ids loc ps
  | false ↦ false
]

-- The constructor from the fields, which throws where this reports an error.
unfoldable pub make_publish : Publish → Result Publish
unfolding are_valid_ids
make_publish p = do
  unless (leb (length p.topic) 0xffff) malformed_packet
  unless (utf8string_check p.topic) malformed_packet
  unless (are_valid_ids PropertyLocation.publish p.props) malformed_packet
  unless (fits_qos p.qos p.packet_id) protocol_error
  ok p

module _ (packet_id_bytes : ℕ) where
  unfoldable pub remaining_length : Publish → ℕ
  remaining_length p =
      2
      + length p.topic
      + identifier_size packet_id_bytes p.qos
      + length p.payload
      + length (print_section p.props)

  unfoldable pub print_publish : Publish → Bytes
  unfolding remaining_length
  print_publish p =
      publish_header p.dup p.qos p.retain
      ∷ (val_to_variable_bytes (remaining_length p)
          ++ (length_prefixed p.topic
              ++ (print_packet_id packet_id_bytes p.packet_id
                  ++ (print_section p.props ++ p.payload))))

  -- Neither the type in the first byte nor the remaining length is looked at.
  unfoldable pub parse_publish : Bytes → Result Packet
  unfolding front
  parse_publish buf = do
    (h, buf) ← or_malformed (front buf)
    (_, buf) ← or_malformed (insert_advance_variable_length buf)
    (topic, buf) ← text buf
    (q, packet_id, buf) ← parse_packet_id packet_id_bytes (get_qos h) buf
    (props, buf) ← parse_section PropertyLocation.publish buf
    ok (
        v5_publish (record {
          packet_id = packet_id;
          topic = topic;
          payload = buf;
          qos = q;
          retain = is_retain h;
          dup = is_dup h;
          props = props;
        }))

pub make_publish_ok :
    (p : Publish)
    → make_publish p ≡ ok p
    → (fits_qos p.qos p.packet_id ≡ true)
      × (length p.topic ≤ 0xffff)
      × (utf8string_check p.topic ≡ true)
unfolding make_publish
make_publish_ok p e = ground (arith, e)

-- A packet that the constructor accepts, whose properties have values that the parser takes, whose
-- identifier fits into its bytes and whose lengths can be encoded, is parsed as it was printed.
pub parse_publish-print_publish :
    (packet_id_bytes : ℕ) (p : Publish)
    → make_publish p ≡ ok p
    → AreProperties PropertyLocation.publish p.props
    → p.packet_id < 256 ^ packet_id_bytes
    → property_length p.props ≤ 0xfffffff
    → remaining_length packet_id_bytes p ≤ 0xfffffff
    → parse_publish packet_id_bytes (print_publish packet_id_bytes p) ≡ ok (v5_publish p)
unfolding parse_publish print_publish front
parse_publish-print_publish n p e a l t s =
    let (fits, short, valid) = make_publish_ok p e in
    let rest = print_section p.props ++ p.payload in
    let identified = print_packet_id n p.packet_id ++ rest in
    ground (
      arith,
      fits,
      insert_advance_variable_length-val_to_variable_bytes (remaining_length n p)
          (length_prefixed p.topic ++ identified) s,
      text-length_prefixed p.topic identified short valid,
      get_qos-publish_header p.dup p.qos p.retain,
      parse_packet_id-print_packet_id n p.qos p.packet_id rest fits l,
      parse_section-print_section PropertyLocation.publish p.props p.payload a t,
      is_dup-publish_header p.dup p.qos p.retain,
      is_retain-publish_header p.dup p.qos p.retain,
    )
