-- ===== src/Protocol/Codec/V5/Acks.antt =====
-- packet/impl/v5_puback.ipp, v5_pubrec.ipp, v5_pubrel.ipp and v5_pubcomp.ipp, which differ in the
-- first byte and in the reason codes.
use async_mqtt_cpp.Prelude.{
  ℕ, ◌+◌, ◌^◌, ◌≤◌, ◌<◌, ◌≡◌, Option, some, List, [], ◌∷◌, ◌++◌, length, arith,
}
use async_mqtt_cpp.Util.EndianConvert.{endian_store, endian_load, endian_load-endian_store}
use async_mqtt_cpp.Util.VariableBytes.{val_to_variable_bytes}
use async_mqtt_cpp.Protocol.Packet.{
  Bytes, Packet, Properties, v5_puback, v5_pubrec, v5_pubrel, v5_pubcomp,
}
use async_mqtt_cpp.Protocol.Codec.Result.{Result, ok, err, ◌>>=◌, malformed_packet, or_malformed}
use async_mqtt_cpp.Protocol.Codec.FixedHeader.{
  ControlPacketType, puback, pubrec, pubrel, pubcomp, make_fixed_header,
}
use async_mqtt_cpp.Protocol.Codec.Fields.{
  front, insert_advance, insert_advance_variable_length, insert_advance-endian_store,
  insert_advance_variable_length-val_to_variable_bytes,
}
use async_mqtt_cpp.Protocol.Codec.PropertyLocation.{PropertyLocation}
use async_mqtt_cpp.Protocol.Codec.Property.RoundTrip.{AreProperties}
use async_mqtt_cpp.Protocol.Codec.V5.Reason.{
  print_reason, parse_reason, IsReason, parse_section-nil, parse_reason-print_reason, section_size,
}

-- puback_reason_code and pubrec_reason_code
abbrev pub receipt_codes : List ℕ
receipt_codes = 0x00 ∷ 0x10 ∷ 0x80 ∷ 0x83 ∷ 0x87 ∷ 0x90 ∷ 0x91 ∷ 0x97 ∷ 0x99 ∷ []

-- pubrel_reason_code and pubcomp_reason_code
abbrev pub release_codes : List ℕ
release_codes = 0x00 ∷ 0x92 ∷ []

module _ (packet_id_bytes : ℕ) where
  unfoldable pub remaining_length : Option ℕ → Properties → ℕ
  remaining_length code ps = packet_id_bytes + length (print_reason code ps)

  unfoldable pub print_ack :
      ControlPacketType → (flags packet_id : ℕ) → Option ℕ → Properties → Bytes
  unfolding remaining_length
  print_ack t flags packet_id code ps =
      make_fixed_header t flags
      ∷ (val_to_variable_bytes (remaining_length code ps)
          ++ (endian_store packet_id_bytes packet_id ++ print_reason code ps))

  -- The type and the flags in the first byte are not looked at. The size 3 is the one of a packet
  -- without properties for two bytes of identifier.
  unfoldable pub parse_ack :
      PropertyLocation → (codes : List ℕ) → Bytes → Result (ℕ × Option ℕ × Properties)
  unfolding parse_reason insert_advance
  parse_ack loc codes buf = do
    (_, buf) ← or_malformed (front buf)
    (remaining, buf) ← or_malformed (insert_advance_variable_length buf)
    (packet_id, buf) ← or_malformed (insert_advance packet_id_bytes buf)
    (code, props) ← parse_reason packet_id_bytes 3 loc codes remaining buf
    ok (endian_load packet_id, code, props)

  unfoldable pub print_puback : (packet_id : ℕ) → Option ℕ → Properties → Bytes
  unfolding print_ack
  print_puback packet_id code ps = print_ack puback 0 packet_id code ps

  unfoldable pub parse_puback : Bytes → Result Packet
  unfolding parse_ack
  parse_puback buf = do
    (packet_id, code, props) ← parse_ack PropertyLocation.puback receipt_codes buf
    ok (v5_puback packet_id code props)

  unfoldable pub print_pubrec : (packet_id : ℕ) → Option ℕ → Properties → Bytes
  unfolding print_ack
  print_pubrec packet_id code ps = print_ack pubrec 0 packet_id code ps

  unfoldable pub parse_pubrec : Bytes → Result Packet
  unfolding parse_ack
  parse_pubrec buf = do
    (packet_id, code, props) ← parse_ack PropertyLocation.pubrec receipt_codes buf
    ok (v5_pubrec packet_id code props)

  unfoldable pub print_pubrel : (packet_id : ℕ) → Option ℕ → Properties → Bytes
  unfolding print_ack
  print_pubrel packet_id code ps = print_ack pubrel 2 packet_id code ps

  unfoldable pub parse_pubrel : Bytes → Result Packet
  unfolding parse_ack
  parse_pubrel buf = do
    (packet_id, code, props) ← parse_ack PropertyLocation.pubrel release_codes buf
    ok (v5_pubrel packet_id code props)

  unfoldable pub print_pubcomp : (packet_id : ℕ) → Option ℕ → Properties → Bytes
  unfolding print_ack
  print_pubcomp packet_id code ps = print_ack pubcomp 0 packet_id code ps

  unfoldable pub parse_pubcomp : Bytes → Result Packet
  unfolding parse_ack
  parse_pubcomp buf = do
    (packet_id, code, props) ← parse_ack PropertyLocation.pubcomp release_codes buf
    ok (v5_pubcomp packet_id code props)

  -- What the constructors and the parsers agree on.
  pub record IsAck (loc : PropertyLocation) (codes : List ℕ) (packet_id : ℕ) (code : Option ℕ)
      (ps : Properties) : Type 0 where
    pub identifier : packet_id < 256 ^ packet_id_bytes
    pub size : remaining_length code ps ≤ 0xfffffff
    pub properties : AreProperties loc ps
    pub reason : IsReason packet_id_bytes 3 codes code ps

  pub parse_ack-print_ack :
      (t : ControlPacketType) (flags packet_id : ℕ) (loc : PropertyLocation) (codes : List ℕ)
      (code : Option ℕ) (ps : Properties)
      → IsAck loc codes packet_id code ps
      → parse_ack loc codes (print_ack t flags packet_id code ps) ≡ ok (packet_id, code, ps)
  unfolding parse_ack print_ack front
  parse_ack-print_ack t flags packet_id loc codes code ps a =
      let reason = print_reason code ps in
      let body = endian_store packet_id_bytes packet_id ++ reason in
      ground (
        arith,
        insert_advance_variable_length-val_to_variable_bytes (remaining_length code ps) body a.size,
        insert_advance-endian_store packet_id_bytes packet_id reason,
        endian_load-endian_store packet_id_bytes packet_id a.identifier,
        parse_reason-print_reason packet_id_bytes 3 loc codes code ps a.reason a.properties
            (section_size packet_id_bytes 3 codes code ps a.reason a.size),
      )

-- An acknowledgement with a reason code and without properties, as the constructor prints it, is
-- malformed for the parser where an identifier has four bytes.
pub parse_ack-four_bytes :
    (t : ControlPacketType) (flags packet_id : ℕ) (loc : PropertyLocation) (codes : List ℕ)
    (code : ℕ)
    → parse_ack 4 loc codes (print_ack 4 t flags packet_id (some code) []) ≡ err malformed_packet
unfolding parse_ack print_ack front remaining_length parse_reason
parse_ack-four_bytes t flags packet_id loc codes code = ground (
  arith,
  insert_advance_variable_length-val_to_variable_bytes 5 (endian_store 4 packet_id ++ code ∷ [])
      (omega arith),
  insert_advance-endian_store 4 packet_id (code ∷ []),
  parse_section-nil loc,
)
