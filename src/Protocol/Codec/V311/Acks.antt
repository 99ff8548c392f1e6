-- ===== src/Protocol/Codec/V311/Acks.antt =====
-- packet/impl/v3_1_1_puback.ipp, v3_1_1_pubrec.ipp, v3_1_1_pubrel.ipp, v3_1_1_pubcomp.ipp and
-- v3_1_1_unsuback.ipp, which differ in the first byte: a packet identifier and nothing else.
use async_mqtt_cpp.Prelude.{ℕ, ◌^◌, ◌<◌, ◌≡◌, true, ◌==◌, ◌∷◌, length, arith}
use async_mqtt_cpp.Util.EndianConvert.{
  endian_store, endian_load, length-endian_store, endian_load-endian_store,
}
use async_mqtt_cpp.Protocol.Packet.{
  Bytes, Packet, v3_1_1_puback, v3_1_1_pubrec, v3_1_1_pubrel, v3_1_1_pubcomp, v3_1_1_unsuback,
}
use async_mqtt_cpp.Protocol.Codec.Result.{
  Result, ok, ◌>>=◌, ◌>>◌, malformed_packet, unless, or_malformed,
}
use async_mqtt_cpp.Protocol.Codec.FixedHeader.{
  ControlPacketType, puback, pubrec, pubrel, pubcomp, unsuback, make_fixed_header, fixed_header,
  are_flags, fixed_header-make_fixed_header,
}
use async_mqtt_cpp.Protocol.Codec.Fields.{front}

module _ (packet_id_bytes : ℕ) where
  unfoldable pub print_ack : ControlPacketType → (flags packet_id : ℕ) → Bytes
  print_ack t flags packet_id =
      make_fixed_header t flags ∷ packet_id_bytes ∷ endian_store packet_id_bytes packet_id

  unfoldable pub parse_ack : ControlPacketType → Bytes → Result ℕ
  unfolding front
  parse_ack t buf = do
    (_, buf) ← fixed_header t buf
    (remaining_length, buf) ← or_malformed (front buf)
    unless (remaining_length == packet_id_bytes) malformed_packet
    unless (length buf == packet_id_bytes) malformed_packet
    ok (endian_load buf)

  unfoldable pub print_puback : ℕ → Bytes
  unfolding print_ack
  print_puback packet_id = print_ack puback 0 packet_id

  unfoldable pub parse_puback : Bytes → Result Packet
  unfolding parse_ack
  parse_puback buf = do packet_id ← parse_ack puback buf; ok (v3_1_1_puback packet_id)

  unfoldable pub print_pubrec : ℕ → Bytes
  unfolding print_ack
  print_pubrec packet_id = print_ack pubrec 0 packet_id

  unfoldable pub parse_pubrec : Bytes → Result Packet
  unfolding parse_ack
  parse_pubrec buf = do packet_id ← parse_ack pubrec buf; ok (v3_1_1_pubrec packet_id)

  unfoldable pub print_pubrel : ℕ → Bytes
  unfolding print_ack
  print_pubrel packet_id = print_ack pubrel 2 packet_id

  unfoldable pub parse_pubrel : Bytes → Result Packet
  unfolding parse_ack
  parse_pubrel buf = do packet_id ← parse_ack pubrel buf; ok (v3_1_1_pubrel packet_id)

  unfoldable pub print_pubcomp : ℕ → Bytes
  unfolding print_ack
  print_pubcomp packet_id = print_ack pubcomp 0 packet_id

  unfoldable pub parse_pubcomp : Bytes → Result Packet
  unfolding parse_ack
  parse_pubcomp buf = do packet_id ← parse_ack pubcomp buf; ok (v3_1_1_pubcomp packet_id)

  unfoldable pub print_unsuback : ℕ → Bytes
  unfolding print_ack
  print_unsuback packet_id = print_ack unsuback 0 packet_id

  unfoldable pub parse_unsuback : Bytes → Result Packet
  unfolding parse_ack
  parse_unsuback buf = do packet_id ← parse_ack unsuback buf; ok (v3_1_1_unsuback packet_id)

  pub parse_ack-print_ack :
      (t : ControlPacketType) (flags packet_id : ℕ)
      → flags < 16
      → are_flags t flags ≡ true
      → packet_id < 256 ^ packet_id_bytes
      → parse_ack t (print_ack t flags packet_id) ≡ ok packet_id
  unfolding parse_ack print_ack
  parse_ack-print_ack t flags packet_id h e l = ground (
    arith,
    fixed_header-make_fixed_header t flags
        (packet_id_bytes ∷ endian_store packet_id_bytes packet_id) h e,
    length-endian_store packet_id_bytes packet_id,
    endian_load-endian_store packet_id_bytes packet_id l,
  )
