-- ===== src/Protocol/Codec/Safety/Dispatch.antt =====
-- protocol/impl/buffer_to_packet_variant.ipp on a buffer as the packet builder frames it.
use async_mqtt_cpp.Prelude.{
  ℕ, zero, suc, ◌≤◌, ◌<◌, ◌≡◌, ◌≢◌, if◌then◌else◌, [], ◌∷◌, ◌++◌, Option, none, some, leb, length,
  get_elem?, arith, refl,
}
use async_mqtt_cpp.Util.VariableBytes.{val_to_variable_bytes, variable_bytes_to_val, read_bytes}
use async_mqtt_cpp.Protocol.Packet.{Bytes, ProtocolVersion, v3_1_1, v5, undetermined}
use async_mqtt_cpp.Protocol.Codec.Result.{
  ok, err, fault, ◌>>=◌, or_fault, malformed_packet, protocol_error,
}
use async_mqtt_cpp.Protocol.Codec.FixedHeader.{
  ControlPacketType, connect, connack, publish, puback, pubrec, pubrel, pubcomp, subscribe, suback,
  unsubscribe, unsuback, pingreq, pingresp, disconnect, auth, get_control_packet_type, fixed_header,
  is_type, get_control_packet_type_with_check, reserved_bits,
}
use async_mqtt_cpp.Protocol.Codec.Fields.{
  front, insert_advance_variable_length, insert_advance_variable_length-val_to_variable_bytes,
}
use async_mqtt_cpp.Protocol.Codec.V311
use async_mqtt_cpp.Protocol.Codec.V5
use async_mqtt_cpp.Protocol.Codec.V311.Connect.{unsupported_protocol_version}
use async_mqtt_cpp.Protocol.Codec.Variant.{
  by_version, version_of, get_protocol_version, parse_v3_1_1, parse_v5, parse_connect, parse_type,
  buffer_to_packet_variant,
}
use async_mqtt_cpp.Protocol.Codec.Variant.Packets.{length-sized}
use async_mqtt_cpp.Protocol.Codec.Safety.{
  IsInside, ok_inside, err_inside, bind-IsInside, if_IsInside,
}
use async_mqtt_cpp.Protocol.Codec.Safety

-- A type, version and remaining length at which every parser looks before it reads.
unfoldable pub IsReadable : ControlPacketType → ProtocolVersion → ℕ → Type 0
IsReadable connect undetermined size = size ≢ 6
IsReadable connack v5 size = size ≢ 1
IsReadable t ver size = Unit

parse_v3_1_1-IsInside :
    (n : ℕ) (t : ControlPacketType) (buf : Bytes) → IsInside (parse_v3_1_1 n t buf)
unfolding parse_v3_1_1 V311.Acks.parse_puback V311.Acks.parse_pubrec V311.Acks.parse_pubrel
    V311.Acks.parse_pubcomp V311.Acks.parse_unsuback V311.Plain.parse_pingreq
    V311.Plain.parse_pingresp V311.Plain.parse_disconnect
parse_v3_1_1-IsInside n connect buf = Safety.V311.parse_connect-IsInside buf
parse_v3_1_1-IsInside n connack buf = Safety.V311.parse_connack-IsInside buf
parse_v3_1_1-IsInside n publish buf = Safety.V311.parse_publish-IsInside n buf
parse_v3_1_1-IsInside n puback buf =
    search (bind-IsInside, ok_inside, Safety.V311.parse_ack-IsInside)
parse_v3_1_1-IsInside n pubrec buf =
    search (bind-IsInside, ok_inside, Safety.V311.parse_ack-IsInside)
parse_v3_1_1-IsInside n pubrel buf =
    search (bind-IsInside, ok_inside, Safety.V311.parse_ack-IsInside)
parse_v3_1_1-IsInside n pubcomp buf =
    search (bind-IsInside, ok_inside, Safety.V311.parse_ack-IsInside)
parse_v3_1_1-IsInside n subscribe buf = Safety.V311.parse_subscribe-IsInside n buf
parse_v3_1_1-IsInside n suback buf = Safety.V311.parse_suback-IsInside n buf
parse_v3_1_1-IsInside n unsubscribe buf = Safety.V311.parse_unsubscribe-IsInside n buf
parse_v3_1_1-IsInside n unsuback buf =
    search (bind-IsInside, ok_inside, Safety.V311.parse_ack-IsInside)
parse_v3_1_1-IsInside n pingreq buf =
    search (bind-IsInside, ok_inside, Safety.V311.parse_empty-IsInside)
parse_v3_1_1-IsInside n pingresp buf =
    search (bind-IsInside, ok_inside, Safety.V311.parse_empty-IsInside)
parse_v3_1_1-IsInside n disconnect buf =
    search (bind-IsInside, ok_inside, Safety.V311.parse_empty-IsInside)
parse_v3_1_1-IsInside n auth buf = err_inside protocol_error

module _ (n h : ℕ) (body : Bytes) (l : length body ≤ 0xfffffff) where
  parse_v5-IsInside :
      (t : ControlPacketType)
      → IsReadable t v5 (length body)
      → IsInside (parse_v5 n t (h ∷ (val_to_variable_bytes (length body) ++ body)))
  unfolding parse_v5 IsReadable V5.Acks.parse_puback V5.Acks.parse_pubrec V5.Acks.parse_pubrel
      V5.Acks.parse_pubcomp V5.Plain.parse_pingreq V5.Plain.parse_pingresp
      V5.Ending.parse_disconnect V5.Ending.parse_auth
  parse_v5-IsInside connect r = Safety.V5.parse_connect-IsInside _
  parse_v5-IsInside connack r = Safety.V5.parse_connack-IsInside h body l r
  parse_v5-IsInside publish r = Safety.V5.parse_publish-IsInside n _
  parse_v5-IsInside puback r = search (bind-IsInside, ok_inside, Safety.V5.parse_ack-IsInside, l)
  parse_v5-IsInside pubrec r = search (bind-IsInside, ok_inside, Safety.V5.parse_ack-IsInside, l)
  parse_v5-IsInside pubrel r = search (bind-IsInside, ok_inside, Safety.V5.parse_ack-IsInside, l)
  parse_v5-IsInside pubcomp r = search (bind-IsInside, ok_inside, Safety.V5.parse_ack-IsInside, l)
  parse_v5-IsInside subscribe r = Safety.V5.parse_subscribe-IsInside n _
  parse_v5-IsInside suback r = Safety.V5.parse_suback-IsInside n _
  parse_v5-IsInside unsubscribe r = Safety.V5.parse_unsubscribe-IsInside n _
  parse_v5-IsInside unsuback r = Safety.V5.parse_unsuback-IsInside n _
  parse_v5-IsInside pingreq r = search (bind-IsInside, ok_inside, Safety.V311.parse_empty-IsInside)
  parse_v5-IsInside pingresp r = search (bind-IsInside, ok_inside, Safety.V311.parse_empty-IsInside)
  parse_v5-IsInside disconnect r =
      search (bind-IsInside, ok_inside, Safety.V5.parse_ending-IsInside, l)
  parse_v5-IsInside auth r = search (bind-IsInside, ok_inside, Safety.V5.parse_ending-IsInside, l)

  seventh-IsInside :
      (buf : Bytes)
      → length buf ≢ 6
      → IsInside (
          if leb 6 (length buf)
          then (do b ← or_fault (get_elem? buf 6); ok (version_of b))
          else ok undetermined)
  seventh-IsInside [] r = ok_inside _
  seventh-IsInside (b0 ∷ []) r = ok_inside _
  seventh-IsInside (b0 ∷ b1 ∷ []) r = ok_inside _
  seventh-IsInside (b0 ∷ b1 ∷ b2 ∷ []) r = ok_inside _
  seventh-IsInside (b0 ∷ b1 ∷ b2 ∷ b3 ∷ []) r = ok_inside _
  seventh-IsInside (b0 ∷ b1 ∷ b2 ∷ b3 ∷ b4 ∷ []) r = ok_inside _
  seventh-IsInside (b0 ∷ b1 ∷ b2 ∷ b3 ∷ b4 ∷ b5 ∷ []) r = absurd (r refl)
  seventh-IsInside (b0 ∷ b1 ∷ b2 ∷ b3 ∷ b4 ∷ b5 ∷ b6 ∷ buf) r =
      if_IsInside _ _ _ (ok_inside _) (ok_inside _)

  get_protocol_version-IsInside :
      length body ≢ 6
      → IsInside (get_protocol_version (h ∷ (val_to_variable_bytes (length body) ++ body)))
  unfolding get_protocol_version
  get_protocol_version-IsInside r =
      rw
        (
          insert_advance_variable_length-val_to_variable_bytes (length body) body l,
          get_protocol_version,
        )
        (seventh-IsInside body r)

  of_version-IsInside :
      (buf : Bytes) (ver : ProtocolVersion)
      → IsInside (elim ver [
        | v3_1_1 ↦ V311.Connect.parse_connect buf
        | v5 ↦ V5.Connect.parse_connect buf
        | undetermined ↦ err unsupported_protocol_version
      ])
  of_version-IsInside buf v3_1_1 = Safety.V311.parse_connect-IsInside buf
  of_version-IsInside buf v5 = Safety.V5.parse_connect-IsInside buf
  of_version-IsInside buf undetermined = err_inside _

  parse_connect-IsInside :
      (ver : ProtocolVersion)
      → IsReadable connect ver (length body)
      → IsInside (parse_connect n ver (h ∷ (val_to_variable_bytes (length body) ++ body)))
  unfolding parse_connect IsReadable
  parse_connect-IsInside undetermined r =
      bind-IsInside _ _ (get_protocol_version-IsInside r) (of_version-IsInside _)
  parse_connect-IsInside v3_1_1 r = Safety.V311.parse_connect-IsInside _
  parse_connect-IsInside v5 r = Safety.V5.parse_connect-IsInside _

module _ (n h : ℕ) (body : Bytes) (l : length body ≤ 0xfffffff) where
  by_version-IsInside :
      (t : ControlPacketType) (ver : ProtocolVersion)
      → IsReadable t v5 (length body)
      → IsInside (
          by_version ver
            (parse_v3_1_1 n t (h ∷ (val_to_variable_bytes (length body) ++ body)))
            (parse_v5 n t (h ∷ (val_to_variable_bytes (length body) ++ body))))
  by_version-IsInside t v3_1_1 r = parse_v3_1_1-IsInside n t _
  by_version-IsInside t v5 r = parse_v5-IsInside n h body l t r
  by_version-IsInside t undetermined r = err_inside protocol_error

  parse_type-IsInside :
      (t : ControlPacketType) (ver : ProtocolVersion)
      → IsReadable t ver (length body)
      → IsInside (parse_type n t ver (h ∷ (val_to_variable_bytes (length body) ++ body)))
  unfolding parse_type IsReadable
  parse_type-IsInside connect ver r = parse_connect-IsInside n h body l ver r
  parse_type-IsInside connack v3_1_1 r = parse_v3_1_1-IsInside n connack _
  parse_type-IsInside connack v5 r = parse_v5-IsInside n h body l connack r
  parse_type-IsInside connack undetermined r = err_inside protocol_error
  parse_type-IsInside publish ver r = by_version-IsInside publish ver tt
  parse_type-IsInside puback ver r = by_version-IsInside puback ver tt
  parse_type-IsInside pubrec ver r = by_version-IsInside pubrec ver tt
  parse_type-IsInside pubrel ver r = by_version-IsInside pubrel ver tt
  parse_type-IsInside pubcomp ver r = by_version-IsInside pubcomp ver tt
  parse_type-IsInside subscribe ver r = by_version-IsInside subscribe ver tt
  parse_type-IsInside suback ver r = by_version-IsInside suback ver tt
  parse_type-IsInside unsubscribe ver r = by_version-IsInside unsubscribe ver tt
  parse_type-IsInside unsuback ver r = by_version-IsInside unsuback ver tt
  parse_type-IsInside pingreq ver r = by_version-IsInside pingreq ver tt
  parse_type-IsInside pingresp ver r = by_version-IsInside pingresp ver tt
  parse_type-IsInside disconnect ver r = by_version-IsInside disconnect ver tt
  parse_type-IsInside auth ver r = by_version-IsInside auth ver tt

of_type-IsInside :
    (n b c : ℕ) (buf : Bytes) (ver : ProtocolVersion) (o : Option ControlPacketType)
    → ((t : ControlPacketType) → o ≡ some t → IsInside (parse_type n t ver (b ∷ c ∷ buf)))
    → IsInside (elim o [ none ↦ err malformed_packet | some t ↦ parse_type n t ver (b ∷ c ∷ buf) ])
of_type-IsInside n b c buf ver none h = err_inside malformed_packet
of_type-IsInside n b c buf ver (some t) h = h t refl

nonempty-IsInside :
    (n h : ℕ) (buf : Bytes) (ver : ProtocolVersion)
    → 0 < length buf
    → ((t : ControlPacketType)
        → get_control_packet_type h ≡ some t
        → IsInside (parse_type n t ver (h ∷ buf)))
    → IsInside (buffer_to_packet_variant n (h ∷ buf) ver)
unfolding buffer_to_packet_variant
nonempty-IsInside n h [] ver l r = absurd (omega arith)
nonempty-IsInside n h (c ∷ buf) ver l r =
    of_type-IsInside n h c buf ver (get_control_packet_type h) r

-- A packet that the builder has framed, with a body of at most 0xfffffff bytes behind its remaining
-- length, is parsed without a read outside of its bytes, whatever the bytes are, the agreed version
-- and the width of the packet identifiers: but a CONNECT before a version is agreed on must not
-- have six bytes of body, and a v5 CONNACK must not have one.
pub buffer_to_packet_variant-IsInside :
    (n h : ℕ) (body : Bytes) (ver : ProtocolVersion)
    → length body ≤ 0xfffffff
    → ((t : ControlPacketType)
        → get_control_packet_type h ≡ some t
        → IsReadable t ver (length body))
    → IsInside (buffer_to_packet_variant n (h ∷ (val_to_variable_bytes (length body) ++ body)) ver)
buffer_to_packet_variant-IsInside n h body ver l r =
    nonempty-IsInside n h _ ver (length-sized (length body) body l)
      (λ t e. parse_type-IsInside n h body l t ver (r t e))

seventh_fault :
    (n b0 b1 b2 b3 b4 b5 : ℕ)
    → buffer_to_packet_variant n (0x10 ∷ 6 ∷ b0 ∷ b1 ∷ b2 ∷ b3 ∷ b4 ∷ b5 ∷ []) undetermined ≡ fault
unfolding buffer_to_packet_variant parse_connect get_protocol_version get_control_packet_type
    insert_advance_variable_length variable_bytes_to_val read_bytes
seventh_fault n b0 b1 b2 b3 b4 b5 = refl

connack_fault :
    (n flags : ℕ) → flags < 2 → buffer_to_packet_variant n (0x20 ∷ 1 ∷ flags ∷ []) v5 ≡ fault
unfolding buffer_to_packet_variant parse_v5 get_control_packet_type V5.Plain.parse_connack
    V5.Plain.parse_connack_body fixed_header is_type get_control_packet_type_with_check
    reserved_bits front insert_advance_variable_length variable_bytes_to_val read_bytes
connack_fault n zero h = refl
connack_fault n (suc zero) h = refl
connack_fault n (suc (suc flags)) h = absurd (omega (arith, h))

-- Before a version is agreed on, a CONNECT whose body is six bytes makes the parser read a seventh,
-- and a v5 CONNACK whose body is only a flags byte that is 0 or 1 makes it read a second.
pub buffer_to_packet_variant-fault :
    (n b0 b1 b2 b3 b4 b5 flags : ℕ)
    → flags < 2
    → (buffer_to_packet_variant n (0x10 ∷ 6 ∷ b0 ∷ b1 ∷ b2 ∷ b3 ∷ b4 ∷ b5 ∷ []) undetermined
        ≡ fault)
      × (buffer_to_packet_variant n (0x20 ∷ 1 ∷ flags ∷ []) v5 ≡ fault)
buffer_to_packet_variant-fault n b0 b1 b2 b3 b4 b5 flags h =
    (seventh_fault n b0 b1 b2 b3 b4 b5, connack_fault n flags h)
