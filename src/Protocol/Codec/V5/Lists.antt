-- ===== src/Protocol/Codec/V5/Lists.antt =====
-- packet/impl/v5_unsubscribe.ipp, v5_suback.ipp and v5_unsuback.ipp.
use async_mqtt_cpp.Prelude.{
  ℕ, ◌+◌, ◌^◌, ◌≤◌, ◌<◌, ◌≡◌, refl, Bool, true, not, ◌&&◌, ◌==◌, List, [], ◌∷◌, ◌++◌, length,
  length-append, arith,
}
use async_mqtt_cpp.Util.EndianConvert.{
  endian_store, endian_load, length-endian_store, endian_load-endian_store,
}
use async_mqtt_cpp.Util.VariableBytes.{val_to_variable_bytes}
use async_mqtt_cpp.Protocol.Packet.{
  Bytes, Packet, Properties, Entries, v5_unsubscribe, v5_suback, v5_unsuback,
}
use async_mqtt_cpp.Protocol.Codec.Result.{
  Result, ok, ◌>>=◌, ◌>>◌, malformed_packet, protocol_error, unless, or_malformed,
}
use async_mqtt_cpp.Protocol.Codec.FixedHeader.{
  ControlPacketType, unsubscribe, suback, unsuback, make_fixed_header, fixed_header, are_flags,
  fixed_header-make_fixed_header,
}
use async_mqtt_cpp.Protocol.Codec.Fields.{
  insert_advance, insert_advance_variable_length, insert_advance-endian_store,
  insert_advance_variable_length-val_to_variable_bytes,
}
use async_mqtt_cpp.Protocol.Codec.PropertyLocation.{PropertyLocation, is_in}
use async_mqtt_cpp.Protocol.Codec.Property.RoundTrip.{AreProperties}
use async_mqtt_cpp.Protocol.Codec.V311.Unsubscribe.{
  make_unsubscribe, print_topics, parse_topics, length-print_topics, parse_topics-print_topics,
  make_unsubscribe_ok,
}
use async_mqtt_cpp.Protocol.Codec.V5.Section.{
  property_length, print_section, parse_section, parse_section-print_section,
}

-- suback_reason_code
abbrev pub suback_codes : List ℕ
suback_codes =
    0x00 ∷ 0x01 ∷ 0x02 ∷ 0x80 ∷ 0x83 ∷ 0x87 ∷ 0x8f ∷ 0x91 ∷ 0x97 ∷ 0x9e ∷ 0xa1 ∷ 0xa2 ∷ []

-- unsuback_reason_code
abbrev pub unsuback_codes : List ℕ
unsuback_codes = 0x00 ∷ 0x11 ∷ 0x80 ∷ 0x83 ∷ 0x87 ∷ 0x8f ∷ 0x91 ∷ []

unfoldable pub are_in : List ℕ → Bytes → Bool
are_in codes [] = true
are_in codes (rc ∷ rest) = is_in rc codes && are_in codes rest

unfoldable pub parse_codes : List ℕ → Bytes → Result Bytes
parse_codes codes [] = ok []
parse_codes codes (rc ∷ buf) = do
  unless (is_in rc codes) malformed_packet
  rest ← parse_codes codes buf
  ok (rc ∷ rest)

module _ (packet_id_bytes : ℕ) where
  -- The identifier, the properties and `payload`, behind the fixed header.
  unfoldable pub print_list : ControlPacketType → (flags packet_id : ℕ) → Properties → Bytes → Bytes
  print_list t flags packet_id ps payload =
      make_fixed_header t flags
      ∷ (val_to_variable_bytes (packet_id_bytes + length (print_section ps) + length payload)
          ++ (endian_store packet_id_bytes packet_id ++ (print_section ps ++ payload)))

  -- What stands behind the properties is not empty.
  unfoldable pub parse_list :
      ControlPacketType → PropertyLocation → Bytes → Result (ℕ × Properties × Bytes)
  unfolding insert_advance insert_advance_variable_length
  parse_list t loc buf = do
    (_, buf) ← fixed_header t buf
    (remaining, buf) ← or_malformed (insert_advance_variable_length buf)
    unless (remaining == length buf) malformed_packet
    (packet_id, buf) ← or_malformed (insert_advance packet_id_bytes buf)
    (props, buf) ← parse_section loc buf
    unless (not (length buf == 0)) protocol_error
    ok (endian_load packet_id, props, buf)

  unfoldable pub print_unsubscribe : (packet_id : ℕ) → Entries (List Bytes) → Bytes
  unfolding print_list
  print_unsubscribe packet_id b =
      print_list unsubscribe 2 packet_id b.props (print_topics b.entries)

  unfoldable pub parse_unsubscribe : Bytes → Result Packet
  unfolding parse_list
  parse_unsubscribe buf = do
    (packet_id, props, buf) ← parse_list unsubscribe PropertyLocation.unsubscribe buf
    ts ← parse_topics (length buf) buf
    ok (v5_unsubscribe packet_id (record { props = props; entries = ts }))

  unfoldable pub print_suback : (packet_id : ℕ) → Entries Bytes → Bytes
  unfolding print_list
  print_suback packet_id b = print_list suback 0 packet_id b.props b.entries

  unfoldable pub parse_suback : Bytes → Result Packet
  unfolding parse_list parse_codes
  parse_suback buf = do
    (packet_id, props, buf) ← parse_list suback PropertyLocation.suback buf
    codes ← parse_codes suback_codes buf
    ok (v5_suback packet_id (record { props = props; entries = codes }))

  unfoldable pub print_unsuback : (packet_id : ℕ) → Entries Bytes → Bytes
  unfolding print_list
  print_unsuback packet_id b = print_list unsuback 0 packet_id b.props b.entries

  unfoldable pub parse_unsuback : Bytes → Result Packet
  unfolding parse_list parse_codes
  parse_unsuback buf = do
    (packet_id, props, buf) ← parse_list unsuback PropertyLocation.unsuback buf
    codes ← parse_codes unsuback_codes buf
    ok (v5_unsuback packet_id (record { props = props; entries = codes }))

  -- What the constructors and the parsers agree on.
  pub record IsListed (loc : PropertyLocation) (packet_id : ℕ) (ps : Properties) (payload : Bytes)
      : Type 0 where
    pub identifier : packet_id < 256 ^ packet_id_bytes
    pub size : packet_id_bytes + length (print_section ps) + length payload ≤ 0xfffffff
    pub property_size : property_length ps ≤ 0xfffffff
    pub properties : AreProperties loc ps
    pub some_entry : 0 < length payload

  parse_list-print_list :
      (t : ControlPacketType) (flags packet_id : ℕ) (loc : PropertyLocation) (ps : Properties)
      (payload : Bytes)
      → flags < 16
      → are_flags t flags ≡ true
      → IsListed loc packet_id ps payload
      → parse_list t loc (print_list t flags packet_id ps payload) ≡ ok (packet_id, ps, payload)
  unfolding parse_list print_list
  parse_list-print_list t flags packet_id loc ps payload f g i =
      let rest = print_section ps ++ payload in
      let body = endian_store packet_id_bytes packet_id ++ rest in
      let size = packet_id_bytes + length (print_section ps) + length payload in
      ground (
        arith,
        i.some_entry,
        fixed_header-make_fixed_header t flags (val_to_variable_bytes size ++ body) f g,
        insert_advance_variable_length-val_to_variable_bytes size body i.size,
        length-append (endian_store packet_id_bytes packet_id) rest,
        length-endian_store packet_id_bytes packet_id,
        length-append (print_section ps) payload,
        insert_advance-endian_store packet_id_bytes packet_id rest,
        endian_load-endian_store packet_id_bytes packet_id i.identifier,
        parse_section-print_section loc ps payload i.properties i.property_size,
      )

parse_codes_lem :
    (codes : List ℕ) (rcs : Bytes) → are_in codes rcs ≡ true → parse_codes codes rcs ≡ ok rcs
unfolding parse_codes are_in
parse_codes_lem codes [] h = refl
parse_codes_lem codes (rc ∷ rcs) h = ground (arith, parse_codes_lem codes rcs)

pub parse_unsubscribe-print_unsubscribe :
    (n packet_id : ℕ) (b : Entries (List Bytes))
    → IsListed n PropertyLocation.unsubscribe packet_id b.props (print_topics b.entries)
    → make_unsubscribe b.entries ≡ ok b.entries
    → parse_unsubscribe n (print_unsubscribe n packet_id b) ≡ ok (v5_unsubscribe packet_id b)
unfolding parse_unsubscribe print_unsubscribe are_flags
parse_unsubscribe-print_unsubscribe n packet_id b i e = ground (
  arith,
  parse_list-print_list n unsubscribe 2 packet_id PropertyLocation.unsubscribe b.props
      (print_topics b.entries) (omega arith) refl i,
  length-print_topics b.entries,
  parse_topics-print_topics (length (print_topics b.entries)) b.entries
      (make_unsubscribe_ok b.entries e),
)

pub parse_suback-print_suback :
    (n packet_id : ℕ) (b : Entries Bytes)
    → IsListed n PropertyLocation.suback packet_id b.props b.entries
    → are_in suback_codes b.entries ≡ true
    → parse_suback n (print_suback n packet_id b) ≡ ok (v5_suback packet_id b)
unfolding parse_suback print_suback are_flags
parse_suback-print_suback n packet_id b i e = ground (
  arith,
  parse_list-print_list n suback 0 packet_id PropertyLocation.suback b.props b.entries (omega arith)
      refl i,
  parse_codes_lem suback_codes b.entries e,
)

pub parse_unsuback-print_unsuback :
    (n packet_id : ℕ) (b : Entries Bytes)
    → IsListed n PropertyLocation.unsuback packet_id b.props b.entries
    → are_in unsuback_codes b.entries ≡ true
    → parse_unsuback n (print_unsuback n packet_id b) ≡ ok (v5_unsuback packet_id b)
unfolding parse_unsuback print_unsuback are_flags
parse_unsuback-print_unsuback n packet_id b i e = ground (
  arith,
  parse_list-print_list n unsuback 0 packet_id PropertyLocation.unsuback b.props b.entries
      (omega arith) refl i,
  parse_codes_lem unsuback_codes b.entries e,
)
