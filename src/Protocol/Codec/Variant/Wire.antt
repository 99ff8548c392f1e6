-- ===== src/Protocol/Codec/Variant/Wire.antt =====
-- What a printed packet is on the wire: a first byte, the length of the rest and the rest, which is
-- what the packet builder of the other side cuts out of its input and the decoder parses.
use async_mqtt_cpp.Prelude.{
  ℕ, ◌+◌, ◌≤◌, ◌<◌, ◌≡◌, Option, [], ◌∷◌, ◌++◌, length, length-append, append_assoc, subst, arith,
}
use async_mqtt_cpp.Util.VariableBytes.{val_to_variable_bytes, to_bytes}
use async_mqtt_cpp.Util.EndianConvert.{endian_store, length-endian_store}
use async_mqtt_cpp.Protocol.Packet.{
  Bytes, Packet, Publish, Properties, v3_1_1_connect, v3_1_1_connack, packet_version,
  v3_1_1_publish, v3_1_1_puback, v3_1_1_pubrec, v3_1_1_pubrel, v3_1_1_pubcomp, v3_1_1_subscribe,
  v3_1_1_suback, v3_1_1_unsubscribe, v3_1_1_unsuback, v3_1_1_pingreq, v3_1_1_pingresp,
  v3_1_1_disconnect, v5_connect, v5_connack, v5_publish, v5_puback, v5_pubrec, v5_pubrel,
  v5_pubcomp, v5_subscribe, v5_suback, v5_unsubscribe, v5_unsuback, v5_pingreq, v5_pingresp,
  v5_disconnect, v5_auth,
}
use async_mqtt_cpp.Protocol.Builder.{recv_bytes, fresh}
use async_mqtt_cpp.Protocol.Builder.RoundTrip.{holding, recv_bytes-packet}
use async_mqtt_cpp.Protocol.Codec.Result.{ok}
use async_mqtt_cpp.Protocol.Codec.Fields.{length_prefixed, length-length_prefixed}
use async_mqtt_cpp.Protocol.Codec.FixedHeader.{ControlPacketType, make_fixed_header}
use async_mqtt_cpp.Protocol.Codec.V311
use async_mqtt_cpp.Protocol.Codec.V5
use async_mqtt_cpp.Protocol.Codec.V5.Section.{print_section}
use async_mqtt_cpp.Protocol.Codec.V5.Reason.{print_reason}
use async_mqtt_cpp.Protocol.Codec.Variant.{buffer_to_packet_variant, print_packet}
use async_mqtt_cpp.Protocol.Codec.Variant.Packets.{IsPacket}
use async_mqtt_cpp.Protocol.Codec.Variant.RoundTrip.{buffer_to_packet_variant-print_packet}

pub data IsFramed : Bytes → Type 0 where
  framed :
      (header : ℕ) (body : Bytes)
      → length body ≤ 0xfffffff
      → IsFramed (header ∷ (val_to_variable_bytes (length body) ++ body))

framed_of :
    (header size : ℕ) (body : Bytes)
    → size ≤ 0xfffffff
    → length body ≡ size
    → IsFramed (header ∷ (val_to_variable_bytes size ++ body))
framed_of header size body s e = rw (← e) (framed header body (omega (arith, e, s)))

small : (n : ℕ) → n < 128 → val_to_variable_bytes n ≡ n ∷ []
unfolding val_to_variable_bytes to_bytes
small n h = ground (arith, h)

acknowledged :
    (n : ℕ) (t : ControlPacketType) (flags i : ℕ)
    → n ≤ 4
    → IsFramed (V311.Acks.print_ack n t flags i)
unfolding V311.Acks.print_ack
acknowledged n t flags i h =
    subst (λ size. IsFramed (make_fixed_header t flags ∷ (size ++ endian_store n i)))
      (small n (omega (arith, h))) (framed_of _ n _ (omega (arith, h)) (length-endian_store n i))

acknowledged_v5 :
    (n : ℕ) (t : ControlPacketType) (flags i : ℕ) (c : Option ℕ) (ps : Properties)
    → V5.Acks.remaining_length n c ps ≤ 0xfffffff
    → IsFramed (V5.Acks.print_ack n t flags i c ps)
unfolding V5.Acks.print_ack V5.Acks.remaining_length
acknowledged_v5 n t flags i c ps s =
    framed_of _ (n + length (print_reason c ps)) _ s
      (omega (arith, length-append (endian_store n i) (print_reason c ps), length-endian_store n i))

listed :
    (n : ℕ) (t : ControlPacketType) (flags i : ℕ) (ps : Properties) (payload : Bytes)
    → n + length (print_section ps) + length payload ≤ 0xfffffff
    → IsFramed (V5.Lists.print_list n t flags i ps payload)
unfolding V5.Lists.print_list
listed n t flags i ps payload s = framed_of _ (n + length (print_section ps) + length payload) _ s (
    omega (
      arith,
      length-append (endian_store n i) (print_section ps ++ payload),
      length-endian_store n i,
      length-append (print_section ps) payload,
    ))

ended :
    (t : ControlPacketType) (c : Option ℕ) (ps : Properties)
    → length (print_reason c ps) ≤ 0xfffffff
    → IsFramed (V5.Ending.print_ending t c ps)
unfolding V5.Ending.print_ending
ended t c ps s = framed _ (print_reason c ps) s

unframed : (t : ControlPacketType) → IsFramed (make_fixed_header t 0 ∷ 0 ∷ [])
unfolding val_to_variable_bytes to_bytes
unframed t = framed _ [] (omega arith)

two_bytes : (header b c : ℕ) → IsFramed (header ∷ 2 ∷ b ∷ c ∷ [])
unfolding val_to_variable_bytes to_bytes
two_bytes header b c = framed header (b ∷ c ∷ []) (omega arith)

packet_id_or_none :
    (n : ℕ) (p : Publish)
    → V5.Publish.make_publish p ≡ ok p
    → length (V311.Publish.print_packet_id n p.packet_id) ≡ V311.Publish.identifier_size n p.qos
packet_id_or_none n p e =
    V311.Publish.length-print_packet_id n p.qos p.packet_id (V5.Publish.make_publish_ok p e).0

print_packet-IsFramed : (n : ℕ) (p : Packet) → n ≤ 4 → IsPacket n p → IsFramed (print_packet n p)
unfolding print_packet IsPacket V311.Connect.print_connect V311.Plain.print_connack
    V311.Publish.print_publish V311.Acks.print_puback V311.Acks.print_pubrec V311.Acks.print_pubrel
    V311.Acks.print_pubcomp V311.Subscribe.print_subscribe V311.Subscribe.remaining_length
    V311.Unsubscribe.print_suback V311.Unsubscribe.print_unsubscribe V311.Acks.print_unsuback
    V311.Plain.print_pingreq V311.Plain.print_pingresp V311.Plain.print_disconnect
    V5.Connect.print_connect V5.Plain.print_connack V5.Plain.remaining_length
    V5.Publish.print_publish V5.Publish.remaining_length V5.Acks.print_puback V5.Acks.print_pubrec
    V5.Acks.print_pubrel V5.Acks.print_pubcomp V5.Subscribe.print_subscribe
    V5.Subscribe.remaining_length V5.Lists.print_suback V5.Lists.print_unsubscribe
    V5.Lists.print_unsuback V5.Plain.print_pingreq V5.Plain.print_pingresp
    V5.Ending.print_disconnect V5.Ending.print_auth
print_packet-IsFramed n (v3_1_1_connect k c l) b h =
    framed_of _ (V311.Connect.remaining_length l) _ h.3 (
      omega (
        arith,
        length-append (endian_store 2 k) (V311.Connect.print_login l),
        length-endian_store 2 k,
        V311.Connect.length-print_login l,
      ))
print_packet-IsFramed n (v3_1_1_connack s c) b h = two_bytes _ _ c
print_packet-IsFramed n (v3_1_1_publish p) b h =
    framed_of _ (V311.Publish.remaining_length n p) _ h.2
      (V311.Publish.length-body n p (V311.Publish.make_publish_ok p h.0).0)
print_packet-IsFramed n (v3_1_1_puback i) b h = acknowledged n _ _ i b
print_packet-IsFramed n (v3_1_1_pubrec i) b h = acknowledged n _ _ i b
print_packet-IsFramed n (v3_1_1_pubrel i) b h = acknowledged n _ _ i b
print_packet-IsFramed n (v3_1_1_pubcomp i) b h = acknowledged n _ _ i b
print_packet-IsFramed n (v3_1_1_subscribe i es) b h =
    framed_of _ (V311.Subscribe.remaining_length n es) _ h.2 (
      omega (
        arith,
        length-append (endian_store n i) (V311.Subscribe.print_entries es),
        length-endian_store n i,
        V311.Subscribe.length-print_entries es,
      ))
print_packet-IsFramed n (v3_1_1_suback i es) b h =
    framed_of _ (n + length es) _ h.3
      (omega (arith, length-append (endian_store n i) es, length-endian_store n i))
print_packet-IsFramed n (v3_1_1_unsubscribe i es) b h =
    framed_of _ (n + V311.Unsubscribe.topics_size es) _ h.3 (
      omega (
        arith,
        length-append (endian_store n i) (V311.Unsubscribe.print_topics es),
        length-endian_store n i,
        V311.Unsubscribe.length-print_topics es,
      ))
print_packet-IsFramed n (v3_1_1_unsuback i) b h = acknowledged n _ _ i b
print_packet-IsFramed n v3_1_1_pingreq b h = unframed _
print_packet-IsFramed n v3_1_1_pingresp b h = unframed _
print_packet-IsFramed n v3_1_1_disconnect b h = unframed _
print_packet-IsFramed n (v5_connect k c ps l) b h =
    framed_of _ (V5.Connect.remaining_length ps l) _ h.4 (
      omega (
        arith,
        length-append (endian_store 2 k) (print_section ps ++ V5.Connect.print_login l),
        length-endian_store 2 k,
        length-append (print_section ps) (V5.Connect.print_login l),
        V5.Connect.length-print_login ps l,
      ))
print_packet-IsFramed n (v5_connack s c ps) b h =
    framed_of _ (V5.Plain.remaining_length ps) _ h.3 (omega arith)
print_packet-IsFramed n (v5_publish p) b h = framed_of _ (V5.Publish.remaining_length n p) _ h.4 (
    omega (
      arith,
      length-append (length_prefixed p.topic)
          (V311.Publish.print_packet_id n p.packet_id ++ (print_section p.props ++ p.payload)),
      length-length_prefixed p.topic,
      length-append (V311.Publish.print_packet_id n p.packet_id)
          (print_section p.props ++ p.payload),
      packet_id_or_none n p h.0,
      length-append (print_section p.props) p.payload,
    ))
print_packet-IsFramed n (v5_puback i c ps) b h = acknowledged_v5 n _ _ i c ps h.size
print_packet-IsFramed n (v5_pubrec i c ps) b h = acknowledged_v5 n _ _ i c ps h.size
print_packet-IsFramed n (v5_pubrel i c ps) b h = acknowledged_v5 n _ _ i c ps h.size
print_packet-IsFramed n (v5_pubcomp i c ps) b h = acknowledged_v5 n _ _ i c ps h.size
print_packet-IsFramed n (v5_subscribe i es) b h =
    framed_of _ (V5.Subscribe.remaining_length n es) _ h.5 (
      omega (
        arith,
        length-append (endian_store n i)
            (print_section es.props ++ V311.Subscribe.print_entries es.entries),
        length-endian_store n i,
        length-append (print_section es.props) (V311.Subscribe.print_entries es.entries),
        V311.Subscribe.length-print_entries es.entries,
      ))
print_packet-IsFramed n (v5_suback i es) b h = listed n _ _ i es.props es.entries h.0.size
print_packet-IsFramed n (v5_unsubscribe i es) b h =
    listed n _ _ i es.props (V311.Unsubscribe.print_topics es.entries) h.0.size
print_packet-IsFramed n (v5_unsuback i es) b h = listed n _ _ i es.props es.entries h.0.size
print_packet-IsFramed n v5_pingreq b h = unframed _
print_packet-IsFramed n v5_pingresp b h = unframed _
print_packet-IsFramed n (v5_disconnect c ps) b h = ended _ c ps h.size
print_packet-IsFramed n (v5_auth c ps) b h = ended _ c ps h.size

recv_bytes-framed :
    (bytes rest : Bytes) → IsFramed bytes → recv_bytes fresh (bytes ++ rest) ≡ (holding bytes, rest)
recv_bytes-framed bytes rest (framed header body s) =
    rw (append_assoc (val_to_variable_bytes (length body)) body rest)
      (recv_bytes-packet header body rest s)

-- What one side prints for a packet that meets IsPacket, with identifiers of at most four bytes,
-- arrives at the other: a fresh builder cuts exactly these bytes out of its input, whatever follows
-- them, and leaves the rest unread, and the decoder parses them back to the packet. IsPacket asks for
-- the checks of the packet's constructor, for an identifier that fits into its bytes, for lengths that
-- can be encoded, and for more than the constructors check: SUBACK, UNSUBSCRIBE, UNSUBACK and
-- SUBSCRIBE have an entry where the version's packet has a list, codes are of the packet's
-- enumeration, property values are ones that the parser takes, where a text of a user property has at
-- most 65533 bytes, and a v5 PUBACK, PUBREC, PUBREL or PUBCOMP with a reason code and no properties
-- has an identifier of two bytes.
pub recv_bytes-print_packet :
    (n : ℕ) (p : Packet) (rest : Bytes)
    → n ≤ 4
    → IsPacket n p
    → (recv_bytes fresh (print_packet n p ++ rest) ≡ (holding (print_packet n p), rest))
      × (buffer_to_packet_variant n (print_packet n p) (packet_version p) ≡ ok p)
recv_bytes-print_packet n p rest b h = (
  recv_bytes-framed (print_packet n p) rest (print_packet-IsFramed n p b h),
  buffer_to_packet_variant-print_packet n p h,
)
