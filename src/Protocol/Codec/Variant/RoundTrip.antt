-- ===== src/Protocol/Codec/Variant/RoundTrip.antt =====
-- Printing and parsing by type and version, protocol/impl/buffer_to_packet_variant.ipp.
use async_mqtt_cpp.Prelude.{
  ℕ, ◌+◌, ◌≤◌, ◌<◌, ◌≡◌, refl, ◌∙◌, Bool, true, if◌then◌else◌, Option, [], ◌∷◌, ◌++◌, length, arith,
}
use async_mqtt_cpp.Util.VariableBytes.{val_to_variable_bytes}
use async_mqtt_cpp.Util.EndianConvert.{endian_store}
use async_mqtt_cpp.Protocol.Packet.{
  Bytes, Packet, Properties, Qos, ProtocolVersion, v3_1_1, v5, packet_version, v3_1_1_connect,
  v3_1_1_connack, v3_1_1_publish, v3_1_1_puback, v3_1_1_pubrec, v3_1_1_pubrel, v3_1_1_pubcomp,
  v3_1_1_subscribe, v3_1_1_suback, v3_1_1_unsubscribe, v3_1_1_unsuback, v3_1_1_pingreq,
  v3_1_1_pingresp, v3_1_1_disconnect, v5_connect, v5_connack, v5_publish, v5_puback, v5_pubrec,
  v5_pubrel, v5_pubcomp, v5_subscribe, v5_suback, v5_unsubscribe, v5_unsuback, v5_pingreq,
  v5_pingresp, v5_disconnect, v5_auth,
}
use async_mqtt_cpp.Protocol.Codec.Result.{ok}
use async_mqtt_cpp.Protocol.Codec.FixedHeader.{
  ControlPacketType, connect, connack, publish, puback, pubrec, pubrel, pubcomp, subscribe, suback,
  unsubscribe, unsuback, pingreq, pingresp, disconnect, auth, make_fixed_header, are_flags,
  fixed_header-make_fixed_header,
}
use async_mqtt_cpp.Protocol.Codec.PublishHeader.{
  publish_header, pubopts, pubopts-lt, publish_header-eq,
}
use async_mqtt_cpp.Protocol.Codec.PropertyLocation.{PropertyLocation}
use async_mqtt_cpp.Protocol.Codec.V311
use async_mqtt_cpp.Protocol.Codec.V5
use async_mqtt_cpp.Protocol.Codec.V5.Section.{print_section}
use async_mqtt_cpp.Protocol.Codec.V5.Reason.{print_reason}
use async_mqtt_cpp.Protocol.Codec.Variant.{
  parse_v3_1_1, parse_v5, parse_connect, parse_type, buffer_to_packet_variant, print_packet,
}
use async_mqtt_cpp.Protocol.Codec.Variant.Packets.{
  IsPacket, buffer_to_packet_variant-type, length-sized,
}

sized :
    (n : ℕ) (t : ControlPacketType) (flags size : ℕ) (body : Bytes) (ver : ProtocolVersion)
    (p : Packet)
    → flags < 16
    → size ≤ 0xfffffff
    → parse_type n t ver (make_fixed_header t flags ∷ (val_to_variable_bytes size ++ body)) ≡ ok p
    → buffer_to_packet_variant n
        (make_fixed_header t flags ∷ (val_to_variable_bytes size ++ body))
        ver
      ≡ ok p
sized n t flags size body ver p f s e =
    buffer_to_packet_variant-type n t flags (val_to_variable_bytes size ++ body) ver f
      (length-sized size body s)
    ∙ e

published :
    (n : ℕ) (dup : Bool) (q : Qos) (retain : Bool) (size : ℕ) (body : Bytes) (ver : ProtocolVersion)
    (p : Packet)
    → size ≤ 0xfffffff
    → parse_type n publish ver (publish_header dup q retain ∷ (val_to_variable_bytes size ++ body))
      ≡ ok p
    → buffer_to_packet_variant n
        (publish_header dup q retain ∷ (val_to_variable_bytes size ++ body))
        ver
      ≡ ok p
published n dup q retain size body ver p s e = rw (publish_header-eq dup q retain) (
    sized n publish (pubopts dup q retain) size body ver p (pubopts-lt dup q retain) s
      (rw (← publish_header-eq dup q retain) e))

acknowledged :
    (n : ℕ) (t : ControlPacketType) (flags i : ℕ) (p : Packet)
    → flags < 16
    → parse_type n t v3_1_1 (V311.Acks.print_ack n t flags i) ≡ ok p
    → buffer_to_packet_variant n (V311.Acks.print_ack n t flags i) v3_1_1 ≡ ok p
unfolding V311.Acks.print_ack
acknowledged n t flags i p f e =
    buffer_to_packet_variant-type n t flags (n ∷ endian_store n i) v3_1_1 f (omega arith) ∙ e

parse_empty-lem :
    (t : ControlPacketType)
    → are_flags t 0 ≡ true
    → V311.Plain.parse_empty t (make_fixed_header t 0 ∷ 0 ∷ []) ≡ ok tt
unfolding V311.Plain.parse_empty
parse_empty-lem t e = ground (arith, fixed_header-make_fixed_header t 0 (0 ∷ []) (omega arith) e)

ended :
    (n : ℕ) (t : ControlPacketType) (c : Option ℕ) (ps : Properties) (p : Packet)
    → length (print_reason c ps) ≤ 0xfffffff
    → parse_type n t v5 (V5.Ending.print_ending t c ps) ≡ ok p
    → buffer_to_packet_variant n (V5.Ending.print_ending t c ps) v5 ≡ ok p
unfolding V5.Ending.print_ending
ended n t c ps p s e =
    sized n t 0 (length (print_reason c ps)) (print_reason c ps) v5 p (omega arith) s e

acknowledged_v5 :
    (n : ℕ) (t : ControlPacketType) (flags i : ℕ) (c : Option ℕ) (ps : Properties) (p : Packet)
    → flags < 16
    → V5.Acks.remaining_length n c ps ≤ 0xfffffff
    → parse_type n t v5 (V5.Acks.print_ack n t flags i c ps) ≡ ok p
    → buffer_to_packet_variant n (V5.Acks.print_ack n t flags i c ps) v5 ≡ ok p
unfolding V5.Acks.print_ack
acknowledged_v5 n t flags i c ps p f s e =
    sized n t flags (V5.Acks.remaining_length n c ps) (endian_store n i ++ print_reason c ps) v5 p f
      s e

listed :
    (n : ℕ) (t : ControlPacketType) (flags i : ℕ) (ps : Properties) (payload : Bytes) (p : Packet)
    → flags < 16
    → n + length (print_section ps) + length payload ≤ 0xfffffff
    → parse_type n t v5 (V5.Lists.print_list n t flags i ps payload) ≡ ok p
    → buffer_to_packet_variant n (V5.Lists.print_list n t flags i ps payload) v5 ≡ ok p
unfolding V5.Lists.print_list
listed n t flags i ps payload p f s e =
    sized n t flags (n + length (print_section ps) + length payload)
      (endian_store n i ++ (print_section ps ++ payload)) v5 p f s e

-- A packet that meets IsPacket is parsed as it was printed, in its version. A v5 acknowledgement with a
-- reason code and without properties is one of them only for identifiers of two bytes.
pub buffer_to_packet_variant-print_packet :
    (n : ℕ) (p : Packet)
    → IsPacket n p
    → buffer_to_packet_variant n (print_packet n p) (packet_version p) ≡ ok p
unfolding print_packet parse_type parse_v3_1_1 parse_v5 parse_connect IsPacket packet_version
    are_flags V311.Connect.print_connect V311.Plain.print_connack V311.Publish.print_publish
    V311.Acks.print_puback V311.Acks.parse_puback V311.Acks.print_pubrec V311.Acks.parse_pubrec
    V311.Acks.print_pubrel V311.Acks.parse_pubrel V311.Acks.print_pubcomp V311.Acks.parse_pubcomp
    V311.Subscribe.print_subscribe V311.Unsubscribe.print_suback V311.Unsubscribe.print_unsubscribe
    V311.Acks.print_unsuback V311.Acks.parse_unsuback V311.Plain.print_pingreq
    V311.Plain.parse_pingreq V311.Plain.print_pingresp V311.Plain.parse_pingresp
    V311.Plain.print_disconnect V311.Plain.parse_disconnect V5.Connect.print_connect
    V5.Plain.print_connack V5.Publish.print_publish V5.Acks.print_puback V5.Acks.parse_puback
    V5.Acks.print_pubrec V5.Acks.parse_pubrec V5.Acks.print_pubrel V5.Acks.parse_pubrel
    V5.Acks.print_pubcomp V5.Acks.parse_pubcomp V5.Subscribe.print_subscribe V5.Lists.print_suback
    V5.Lists.print_unsubscribe V5.Lists.print_unsuback V5.Plain.print_pingreq V5.Plain.parse_pingreq
    V5.Plain.print_pingresp V5.Plain.parse_pingresp V5.Ending.print_disconnect
    V5.Ending.parse_disconnect V5.Ending.print_auth V5.Ending.parse_auth
buffer_to_packet_variant-print_packet n (v3_1_1_connect k c l) h =
    sized n connect 0 (V311.Connect.remaining_length l) _ v3_1_1 _ (omega arith) h.3
      (V311.Connect.parse_connect-print_connect k c l h.0 h.1 h.2 h.3)
buffer_to_packet_variant-print_packet n (v3_1_1_connack b c) h =
    buffer_to_packet_variant-type n connack 0 (2 ∷ (if b then 1 else 0) ∷ c ∷ []) v3_1_1
      (omega arith) (omega arith)
    ∙ V311.Plain.parse_connack-print_connack b c h
buffer_to_packet_variant-print_packet n (v3_1_1_publish p) h =
    published n p.dup p.qos p.retain (V311.Publish.remaining_length n p) _ v3_1_1 _ h.2
      (V311.Publish.parse_publish-print_publish n p h.0 h.1 h.2)
buffer_to_packet_variant-print_packet n (v3_1_1_puback i) h =
    acknowledged n puback 0 i _ (omega arith)
      (rw (V311.Acks.parse_ack-print_ack n puback 0 i (omega arith) refl h) refl)
buffer_to_packet_variant-print_packet n (v3_1_1_pubrec i) h =
    acknowledged n pubrec 0 i _ (omega arith)
      (rw (V311.Acks.parse_ack-print_ack n pubrec 0 i (omega arith) refl h) refl)
buffer_to_packet_variant-print_packet n (v3_1_1_pubrel i) h =
    acknowledged n pubrel 2 i _ (omega arith)
      (rw (V311.Acks.parse_ack-print_ack n pubrel 2 i (omega arith) refl h) refl)
buffer_to_packet_variant-print_packet n (v3_1_1_pubcomp i) h =
    acknowledged n pubcomp 0 i _ (omega arith)
      (rw (V311.Acks.parse_ack-print_ack n pubcomp 0 i (omega arith) refl h) refl)
buffer_to_packet_variant-print_packet n (v3_1_1_subscribe i es) h =
    sized n subscribe 2 (V311.Subscribe.remaining_length n es) _ v3_1_1 _ (omega arith) h.2
      (V311.Subscribe.parse_subscribe-print_subscribe n i es h.0 h.1 h.2)
buffer_to_packet_variant-print_packet n (v3_1_1_suback i es) h =
    sized n suback 0 (n + length es) _ v3_1_1 _ (omega arith) h.3
      (V311.Unsubscribe.parse_suback-print_suback n i es h.0 h.1 h.2 h.3)
buffer_to_packet_variant-print_packet n (v3_1_1_unsubscribe i es) h =
    sized n unsubscribe 2 (n + V311.Unsubscribe.topics_size es) _ v3_1_1 _ (omega arith) h.3
      (V311.Unsubscribe.parse_unsubscribe-print_unsubscribe n i es h.0 h.1 h.2 h.3)
buffer_to_packet_variant-print_packet n (v3_1_1_unsuback i) h =
    acknowledged n unsuback 0 i _ (omega arith)
      (rw (V311.Acks.parse_ack-print_ack n unsuback 0 i (omega arith) refl h) refl)
buffer_to_packet_variant-print_packet n v3_1_1_pingreq h =
    buffer_to_packet_variant-type n pingreq 0 (0 ∷ []) v3_1_1 (omega arith) (omega arith)
    ∙ rw (parse_empty-lem pingreq refl) refl
buffer_to_packet_variant-print_packet n v3_1_1_pingresp h =
    buffer_to_packet_variant-type n pingresp 0 (0 ∷ []) v3_1_1 (omega arith) (omega arith)
    ∙ rw (parse_empty-lem pingresp refl) refl
buffer_to_packet_variant-print_packet n v3_1_1_disconnect h =
    buffer_to_packet_variant-type n disconnect 0 (0 ∷ []) v3_1_1 (omega arith) (omega arith)
    ∙ rw (parse_empty-lem disconnect refl) refl
buffer_to_packet_variant-print_packet n (v5_connect k c ps l) h =
    sized n connect 0 (V5.Connect.remaining_length ps l) _ v5 _ (omega arith) h.4
      (V5.Connect.parse_connect-print_connect k c ps l h.0 h.1 h.2 h.3 h.4)
buffer_to_packet_variant-print_packet n (v5_connack b c ps) h =
    sized n connack 0 (V5.Plain.remaining_length ps) _ v5 _ (omega arith) h.3
      (V5.Plain.parse_connack-print_connack b c ps h.0 h.1 h.2 h.3)
buffer_to_packet_variant-print_packet n (v5_publish p) h =
    published n p.dup p.qos p.retain (V5.Publish.remaining_length n p) _ v5 _ h.4
      (V5.Publish.parse_publish-print_publish n p h.0 h.1 h.2 h.3 h.4)
buffer_to_packet_variant-print_packet n (v5_puback i c ps) h =
    acknowledged_v5 n puback 0 i c ps _ (omega arith) h.size (
      rw
        (V5.Acks.parse_ack-print_ack n puback 0 i PropertyLocation.puback V5.Acks.receipt_codes c ps
          h)
        refl)
buffer_to_packet_variant-print_packet n (v5_pubrec i c ps) h =
    acknowledged_v5 n pubrec 0 i c ps _ (omega arith) h.size (
      rw
        (V5.Acks.parse_ack-print_ack n pubrec 0 i PropertyLocation.pubrec V5.Acks.receipt_codes c ps
          h)
        refl)
buffer_to_packet_variant-print_packet n (v5_pubrel i c ps) h =
    acknowledged_v5 n pubrel 2 i c ps _ (omega arith) h.size (
      rw
        (V5.Acks.parse_ack-print_ack n pubrel 2 i PropertyLocation.pubrel V5.Acks.release_codes c ps
          h)
        refl)
buffer_to_packet_variant-print_packet n (v5_pubcomp i c ps) h =
    acknowledged_v5 n pubcomp 0 i c ps _ (omega arith) h.size (
      rw
        (V5.Acks.parse_ack-print_ack n pubcomp 0 i PropertyLocation.pubcomp V5.Acks.release_codes c
          ps h)
        refl)
buffer_to_packet_variant-print_packet n (v5_subscribe i b) h =
    sized n subscribe 2 (V5.Subscribe.remaining_length n b) _ v5 _ (omega arith) h.5
      (V5.Subscribe.parse_subscribe-print_subscribe n i b h.0 h.1 h.2 h.3 h.4 h.5)
buffer_to_packet_variant-print_packet n (v5_suback i b) h =
    listed n suback 0 i b.props b.entries _ (omega arith) h.0.size
      (V5.Lists.parse_suback-print_suback n i b h.0 h.1)
buffer_to_packet_variant-print_packet n (v5_unsubscribe i b) h =
    listed n unsubscribe 2 i b.props (V311.Unsubscribe.print_topics b.entries) _ (omega arith)
      h.0.size (V5.Lists.parse_unsubscribe-print_unsubscribe n i b h.0 h.1)
buffer_to_packet_variant-print_packet n (v5_unsuback i b) h =
    listed n unsuback 0 i b.props b.entries _ (omega arith) h.0.size
      (V5.Lists.parse_unsuback-print_unsuback n i b h.0 h.1)
buffer_to_packet_variant-print_packet n v5_pingreq h =
    buffer_to_packet_variant-type n pingreq 0 (0 ∷ []) v5 (omega arith) (omega arith)
    ∙ rw (parse_empty-lem pingreq refl) refl
buffer_to_packet_variant-print_packet n v5_pingresp h =
    buffer_to_packet_variant-type n pingresp 0 (0 ∷ []) v5 (omega arith) (omega arith)
    ∙ rw (parse_empty-lem pingresp refl) refl
buffer_to_packet_variant-print_packet n (v5_disconnect c ps) h = ended n disconnect c ps _ h.size (
    rw
      (V5.Ending.parse_ending-print_ending disconnect PropertyLocation.disconnect
        V5.Ending.disconnect_codes c ps h)
      refl)
buffer_to_packet_variant-print_packet n (v5_auth c ps) h = ended n auth c ps _ h.size (
    rw (V5.Ending.parse_ending-print_ending auth PropertyLocation.auth V5.Ending.auth_codes c ps h)
      refl)
