-- ===== src/Protocol/Codec/V5/Subscribe.antt =====
-- packet/impl/v5_subscribe.ipp.
use async_mqtt_cpp.Prelude.{
  ℕ, zero, suc, ◌+◌, ◌/◌, ◌%◌, ◌^◌, ◌≤◌, ◌<◌, ◌≡◌, refl, ◌∙◌, true, not, ◌&&◌, ◌==◌, leb, List, [],
  ◌∷◌, ◌++◌, length, length-append, arith,
}
use async_mqtt_cpp.Util.EndianConvert.{
  endian_store, endian_load, length-endian_store, endian_load-endian_store,
}
use async_mqtt_cpp.Util.VariableBytes.{val_to_variable_bytes}
use async_mqtt_cpp.Util.Utf8.{utf8string_check}
use async_mqtt_cpp.Protocol.Packet.{Bytes, is_empty, Packet, Entries, TopicSubopts, v5_subscribe}
use async_mqtt_cpp.Protocol.TopicSharename.{topic_sharename}
use async_mqtt_cpp.Protocol.Codec.Result.{
  Result, ok, err, ◌>>=◌, ◌>>◌, malformed_packet, protocol_error, unless, or_malformed,
}
use async_mqtt_cpp.Protocol.Codec.FixedHeader.{
  subscribe, make_fixed_header, fixed_header, are_flags, fixed_header-make_fixed_header,
}
use async_mqtt_cpp.Protocol.Codec.Fields.{
  front, insert_advance, insert_advance_variable_length, text, binary, insert_advance-endian_store,
  insert_advance_variable_length-val_to_variable_bytes, text-length_prefixed,
}
use async_mqtt_cpp.Protocol.Codec.PropertyLocation.{PropertyLocation}
use async_mqtt_cpp.Protocol.Codec.Property.RoundTrip.{AreProperties}
use async_mqtt_cpp.Protocol.Codec.V311.Subscribe.{print_entries, entries_size, length-print_entries}
use async_mqtt_cpp.Protocol.Codec.V5.Section.{
  property_length, print_section, parse_section, parse_section-print_section,
}

-- The tests of the options, by the constructor and by the parser: no reserved bit, a QoS, a retain
-- handling, and no shared subscription with No Local.
unfoldable pub check_opts : TopicSubopts → Result (Unit {0})
unfolding topic_sharename
check_opts e = do
  unless (e.opts / 64 == 0) malformed_packet
  unless (not (e.opts % 4 == 3)) malformed_packet
  unless (not (e.opts / 16 % 4 == 3)) malformed_packet
  unless (not (e.opts / 4 % 2 == 1 && not (is_empty (topic_sharename e.all_topic).sharename)))
      protocol_error
  ok tt

-- The constructor from the fields, which throws where this reports an error. It takes an empty list.
unfoldable pub make_subscribe : List TopicSubopts → Result (List TopicSubopts)
make_subscribe [] = ok []
make_subscribe (e ∷ es) = do
  unless (leb (length e.all_topic) 0xffff) malformed_packet
  check_opts e
  unless (utf8string_check e.all_topic) malformed_packet
  rest ← make_subscribe es
  ok (e ∷ rest)

-- The loop over the entries, on fuel. Every round takes bytes.
unfoldable pub parse_entries : (fuel : ℕ) → Bytes → Result (List TopicSubopts)
unfolding front
parse_entries fuel [] = ok []
parse_entries zero (b ∷ buf) = err malformed_packet
parse_entries (suc n) (b ∷ buf) = do
  (topic, buf) ← text (b ∷ buf)
  (opts, buf) ← or_malformed (front buf)
  check_opts (record { all_topic = topic; opts = opts })
  es ← parse_entries n buf
  ok (record { all_topic = topic; opts = opts } ∷ es)

module _ (packet_id_bytes : ℕ) where
  unfoldable pub remaining_length : Entries (List TopicSubopts) → ℕ
  remaining_length b = packet_id_bytes + length (print_section b.props) + entries_size b.entries

  unfoldable pub print_subscribe : (packet_id : ℕ) → Entries (List TopicSubopts) → Bytes
  unfolding remaining_length print_entries
  print_subscribe packet_id b =
      make_fixed_header subscribe 2
      ∷ (val_to_variable_bytes (remaining_length b)
          ++ (endian_store packet_id_bytes packet_id
              ++ (print_section b.props ++ print_entries b.entries)))

  unfoldable pub parse_subscribe : Bytes → Result Packet
  unfolding parse_entries
  parse_subscribe buf = do
    (_, buf) ← fixed_header subscribe buf
    (remaining, buf) ← or_malformed (insert_advance_variable_length buf)
    unless (remaining == length buf) malformed_packet
    (packet_id, buf) ← or_malformed (insert_advance packet_id_bytes buf)
    (props, buf) ← parse_section PropertyLocation.subscribe buf
    unless (not (length buf == 0)) protocol_error
    es ← parse_entries (length buf) buf
    ok (v5_subscribe (endian_load packet_id) (record { props = props; entries = es }))

parse_entries-step :
    (n : ℕ) (bytes topic rest : Bytes) (opts : ℕ)
    → text bytes ≡ ok (topic, opts ∷ rest)
    → check_opts (record { all_topic = topic; opts = opts }) ≡ ok tt
    → parse_entries (suc n) bytes
      ≡ (parse_entries n rest >>= λ es. ok (record { all_topic = topic; opts = opts } ∷ es))
unfolding parse_entries text binary insert_advance
parse_entries-step n [] topic rest opts e h = ground arith
parse_entries-step n (b ∷ bytes) topic rest opts e h = ground (arith, e, h)

make_subscribe_cons :
    (e : TopicSubopts) (es : List TopicSubopts)
    → make_subscribe (e ∷ es) ≡ ok (e ∷ es)
    → (length e.all_topic ≤ 0xffff)
      × (check_opts e ≡ ok tt)
      × (utf8string_check e.all_topic ≡ true)
      × (make_subscribe es ≡ ok es)
unfolding make_subscribe
make_subscribe_cons e es h = ground (arith, h)

parse_entries-print_entries :
    (fuel : ℕ) (es : List TopicSubopts)
    → make_subscribe es ≡ ok es
    → entries_size es ≤ fuel
    → parse_entries fuel (print_entries es) ≡ ok es
unfolding parse_entries print_entries
parse_entries-print_entries fuel [] h l = refl
parse_entries-print_entries zero (e ∷ es) h l = ground arith
parse_entries-print_entries (suc n) (e ∷ es) h l =
    let (short, opts, valid, all_valid) = make_subscribe_cons e es h in
    parse_entries-step n (print_entries (e ∷ es)) e.all_topic (print_entries es) e.opts
      (text-length_prefixed e.all_topic (e.opts ∷ print_entries es) short valid) opts
    ∙ rw (parse_entries-print_entries n es all_valid (omega arith)) refl

-- Entries that the constructor accepts, at least one, with properties that the packet may carry, an
-- identifier that fits into its bytes and lengths that can be encoded, are parsed as they were
-- printed.
pub parse_subscribe-print_subscribe :
    (packet_id_bytes packet_id : ℕ) (b : Entries (List TopicSubopts))
    → make_subscribe b.entries ≡ ok b.entries
    → 0 < entries_size b.entries
    → AreProperties PropertyLocation.subscribe b.props
    → packet_id < 256 ^ packet_id_bytes
    → property_length b.props ≤ 0xfffffff
    → remaining_length packet_id_bytes b ≤ 0xfffffff
    → parse_subscribe packet_id_bytes (print_subscribe packet_id_bytes packet_id b)
      ≡ ok (v5_subscribe packet_id b)
unfolding parse_subscribe print_subscribe remaining_length are_flags
parse_subscribe-print_subscribe n packet_id b e some_entry a l t s =
    let rest = print_section b.props ++ print_entries b.entries in
    let body = endian_store n packet_id ++ rest in
    ground (
      arith,
      fixed_header-make_fixed_header subscribe 2
          (val_to_variable_bytes (remaining_length n b) ++ body) (omega arith) refl,
      insert_advance_variable_length-val_to_variable_bytes (remaining_length n b) body s,
      length-append (endian_store n packet_id) rest,
      length-endian_store n packet_id,
      length-append (print_section b.props) (print_entries b.entries),
      length-print_entries b.entries,
      insert_advance-endian_store n packet_id rest,
      endian_load-endian_store n packet_id l,
      parse_section-print_section PropertyLocation.subscribe b.props (print_entries b.entries) a t,
      parse_entries-print_entries (length (print_entries b.entries)) b.entries e,
    )
