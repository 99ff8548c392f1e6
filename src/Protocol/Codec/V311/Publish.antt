-- ===== src/Protocol/Codec/V311/Publish.antt =====
-- packet/impl/v3_1_1_publish.ipp. The payloads of the source, a list of buffers, are their bytes.
use async_mqtt_cpp.Prelude.{
  ℕ, ◌+◌, ◌^◌, ◌≤◌, ◌<◌, ◌≡◌, Bool, true, not, if◌then◌else◌, ◌==◌, leb, Option, none, some, [],
  ◌∷◌, ◌++◌, length, length-append, arith,
}
use async_mqtt_cpp.Util.EndianConvert.{
  endian_store, endian_load, length-endian_store, endian_load-endian_store,
}
use async_mqtt_cpp.Util.VariableBytes.{val_to_variable_bytes}
use async_mqtt_cpp.Util.Utf8.{utf8string_check}
use async_mqtt_cpp.Protocol.Packet.{
  Bytes, Packet, Publish, Qos, at_most_once, at_least_once, exactly_once, v3_1_1_publish,
}
use async_mqtt_cpp.Protocol.Codec.Result.{
  Result, ok, err, ◌>>=◌, ◌>>◌, malformed_packet, unless, or_malformed,
}
use async_mqtt_cpp.Protocol.Codec.FixedHeader.{publish, fixed_header}
use async_mqtt_cpp.Protocol.Codec.PublishHeader.{
  publish_header, is_dup, get_qos, is_retain, fixed_header-publish_header, is_dup-publish_header,
  get_qos-publish_header, is_retain-publish_header,
}
use async_mqtt_cpp.Protocol.Codec.Fields.{
  insert_advance, insert_advance_variable_length, text, length_prefixed, length-length_prefixed,
  insert_advance-endian_store, insert_advance_variable_length-val_to_variable_bytes,
  text-length_prefixed,
}

-- Whether a packet with this identifier and QoS can be made.
abbrev pub fits_qos : Qos → ℕ → Bool
fits_qos at_most_once packet_id = packet_id == 0
fits_qos _ packet_id = not (packet_id == 0)

-- The constructor from the fields, which throws where this reports an error.
unfoldable pub make_publish : Publish → Result Publish
make_publish p = do
  unless (leb (length p.topic) 0xffff) malformed_packet
  unless (utf8string_check p.topic) malformed_packet
  unless (fits_qos p.qos p.packet_id) malformed_packet
  ok (record p { props = [] })

pub make_publish_ok :
    (p : Publish)
    → make_publish p ≡ ok p
    → (fits_qos p.qos p.packet_id ≡ true)
      × (p.props ≡ [])
      × (length p.topic ≤ 0xffff)
      × (utf8string_check p.topic ≡ true)
unfolding make_publish
make_publish_ok p e = ground (arith, e)

module _ (packet_id_bytes : ℕ) where
  abbrev pub identifier_size : Qos → ℕ
  identifier_size at_most_once = 0
  identifier_size _ = packet_id_bytes

  unfoldable pub remaining_length : Publish → ℕ
  remaining_length p = 2 + length p.topic + identifier_size p.qos + length p.payload

  -- packet_id_ in const_buffer_sequence, which leaves out the identifier 0.
  abbrev pub print_packet_id : ℕ → Bytes
  print_packet_id packet_id = if packet_id == 0 then [] else endian_store packet_id_bytes packet_id

  unfoldable pub print_publish : Publish → Bytes
  unfolding remaining_length
  print_publish p =
      publish_header p.dup p.qos p.retain
      ∷ (val_to_variable_bytes (remaining_length p)
          ++ (length_prefixed p.topic ++ (print_packet_id p.packet_id ++ p.payload)))

  -- The switch on qos_value; `none` is the value 3.
  unfoldable pub parse_packet_id : Option Qos → Bytes → Result (Qos × ℕ × Bytes)
  unfolding insert_advance
  parse_packet_id none buf = err malformed_packet
  parse_packet_id (some at_most_once) buf = ok (at_most_once, 0, buf)
  parse_packet_id (some q) buf = do
    (packet_id, buf) ← or_malformed (insert_advance packet_id_bytes buf)
    ok (q, endian_load packet_id, buf)

  unfoldable pub parse_publish : Bytes → Result Packet
  unfolding parse_packet_id
  parse_publish buf = do
    (h, buf) ← fixed_header publish buf
    (remaining, buf) ← or_malformed (insert_advance_variable_length buf)
    unless (remaining == length buf) malformed_packet
    (topic, buf) ← text buf
    (q, packet_id, buf) ← parse_packet_id (get_qos h) buf
    ok (
        v3_1_1_publish (record {
          packet_id = packet_id;
          topic = topic;
          payload = buf;
          qos = q;
          retain = is_retain h;
          dup = is_dup h;
          props = [];
        }))

  pub parse_packet_id-print_packet_id :
      (q : Qos) (packet_id : ℕ) (buf : Bytes)
      → fits_qos q packet_id ≡ true
      → packet_id < 256 ^ packet_id_bytes
      → parse_packet_id (some q) (print_packet_id packet_id ++ buf) ≡ ok (q, packet_id, buf)
  unfolding parse_packet_id
  parse_packet_id-print_packet_id at_most_once packet_id buf e l = ground arith
  parse_packet_id-print_packet_id at_least_once packet_id buf e l = ground (
    arith,
    insert_advance-endian_store packet_id_bytes packet_id buf,
    endian_load-endian_store packet_id_bytes packet_id l,
  )
  parse_packet_id-print_packet_id exactly_once packet_id buf e l = ground (
    arith,
    insert_advance-endian_store packet_id_bytes packet_id buf,
    endian_load-endian_store packet_id_bytes packet_id l,
  )

  pub length-print_packet_id :
      (q : Qos) (packet_id : ℕ)
      → fits_qos q packet_id ≡ true
      → length (print_packet_id packet_id) ≡ identifier_size q
  length-print_packet_id at_most_once packet_id e = ground arith
  length-print_packet_id at_least_once packet_id e =
      ground (arith, length-endian_store packet_id_bytes packet_id)
  length-print_packet_id exactly_once packet_id e =
      ground (arith, length-endian_store packet_id_bytes packet_id)

  pub length-body :
      (p : Publish)
      → fits_qos p.qos p.packet_id ≡ true
      → length (length_prefixed p.topic ++ (print_packet_id p.packet_id ++ p.payload))
        ≡ remaining_length p
  unfolding remaining_length
  length-body p e = omega (
    arith,
    length-append (length_prefixed p.topic) (print_packet_id p.packet_id ++ p.payload),
    length-append (print_packet_id p.packet_id) p.payload,
    length-length_prefixed p.topic,
    length-print_packet_id p.qos p.packet_id e,
  )

  -- A packet that the constructor accepts, whose identifier fits into its bytes and whose remaining
  -- length can be encoded, is parsed as it was printed.
  pub parse_publish-print_publish :
      (p : Publish)
      → make_publish p ≡ ok p
      → p.packet_id < 256 ^ packet_id_bytes
      → remaining_length p ≤ 0xfffffff
      → parse_publish (print_publish p) ≡ ok (v3_1_1_publish p)
  unfolding parse_publish print_publish
  parse_publish-print_publish p e l s =
      let (fits, props, short, valid) = make_publish_ok p e in
      let body = length_prefixed p.topic ++ (print_packet_id p.packet_id ++ p.payload) in
      ground (
        arith,
        fits,
        props,
        fixed_header-publish_header p.dup p.qos p.retain
            (val_to_variable_bytes (remaining_length p) ++ body),
        insert_advance_variable_length-val_to_variable_bytes (remaining_length p) body s,
        length-body p fits,
        text-length_prefixed p.topic (print_packet_id p.packet_id ++ p.payload) short valid,
        get_qos-publish_header p.dup p.qos p.retain,
        parse_packet_id-print_packet_id p.qos p.packet_id p.payload fits l,
        is_dup-publish_header p.dup p.qos p.retain,
        is_retain-publish_header p.dup p.qos p.retain,
      )
