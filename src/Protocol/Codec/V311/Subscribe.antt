-- ===== src/Protocol/Codec/V311/Subscribe.antt =====
-- packet/impl/v3_1_1_subscribe.ipp.
use async_mqtt_cpp.Prelude.{
  ℕ, zero, suc, ◌+◌, ◌/◌, ◌%◌, ◌^◌, ◌≤◌, ◌<◌, ◌≡◌, refl, ◌∙◌, Bool, true, not, ◌&&◌, ◌==◌, leb,
  List, [], ◌∷◌, ◌++◌, length, length-append, arith,
}
use async_mqtt_cpp.Util.EndianConvert.{
  endian_store, endian_load, length-endian_store, endian_load-endian_store,
}
use async_mqtt_cpp.Util.VariableBytes.{val_to_variable_bytes}
use async_mqtt_cpp.Util.Utf8.{utf8string_check}
use async_mqtt_cpp.Protocol.Packet.{Bytes, Packet, TopicSubopts, v3_1_1_subscribe}
use async_mqtt_cpp.Protocol.Codec.Result.{
  Result, ok, err, ◌>>=◌, ◌>>◌, malformed_packet, protocol_error, unless, or_malformed,
}
use async_mqtt_cpp.Protocol.Codec.FixedHeader.{
  subscribe, make_fixed_header, fixed_header, are_flags, fixed_header-make_fixed_header,
}
use async_mqtt_cpp.Protocol.Codec.Fields.{
  front, insert_advance, insert_advance_variable_length, text, binary, length_prefixed,
  length-length_prefixed, insert_advance-endian_store,
  insert_advance_variable_length-val_to_variable_bytes, text-length_prefixed,
}

-- The tests of an entry in the constructor from the fields: no reserved bit, and a QoS.
abbrev pub is_entry : TopicSubopts → Bool
is_entry e =
    leb (length e.all_topic) 0xffff
    && e.opts / 4 == 0
    && not (e.opts % 4 == 3)
    && utf8string_check e.all_topic

unfoldable pub are_entries : List TopicSubopts → Bool
are_entries [] = true
are_entries (e ∷ es) = is_entry e && are_entries es

-- The constructor from the fields, which throws where this reports an error.
unfoldable pub make_subscribe : List TopicSubopts → Result (List TopicSubopts)
unfolding are_entries
make_subscribe [] = err protocol_error
make_subscribe (e ∷ es) = do unless (are_entries (e ∷ es)) malformed_packet; ok (e ∷ es)

unfoldable pub print_entries : List TopicSubopts → Bytes
print_entries [] = []
print_entries (e ∷ es) = length_prefixed e.all_topic ++ (e.opts ∷ print_entries es)

-- The loop over the entries, on fuel. Every round takes bytes.
unfoldable pub parse_entries : (fuel : ℕ) → Bytes → Result (List TopicSubopts)
unfolding front
parse_entries fuel [] = ok []
parse_entries zero (b ∷ buf) = err malformed_packet
parse_entries (suc n) (b ∷ buf) = do
  (topic, buf) ← text (b ∷ buf)
  (opts, buf) ← or_malformed (front buf)
  unless (opts / 4 == 0) malformed_packet
  unless (not (opts % 4 == 3)) malformed_packet
  es ← parse_entries n buf
  ok (record { all_topic = topic; opts = opts } ∷ es)

abbrev pub entries_size : List TopicSubopts → ℕ
entries_size [] = 0
entries_size (e ∷ es) = 2 + length e.all_topic + 1 + entries_size es

module _ (packet_id_bytes : ℕ) where
  unfoldable pub remaining_length : List TopicSubopts → ℕ
  remaining_length es = packet_id_bytes + entries_size es

  unfoldable pub print_subscribe : (packet_id : ℕ) → List TopicSubopts → Bytes
  unfolding remaining_length print_entries
  print_subscribe packet_id es =
      make_fixed_header subscribe 2
      ∷ (val_to_variable_bytes (remaining_length es)
          ++ (endian_store packet_id_bytes packet_id ++ print_entries es))

  unfoldable pub parse_subscribe : Bytes → Result Packet
  unfolding parse_entries
  parse_subscribe buf = do
    (_, buf) ← fixed_header subscribe buf
    (remaining, buf) ← or_malformed (insert_advance_variable_length buf)
    unless (remaining == length buf) malformed_packet
    (packet_id, buf) ← or_malformed (insert_advance packet_id_bytes buf)
    unless (not (length buf == 0)) protocol_error
    es ← parse_entries (length buf) buf
    ok (v3_1_1_subscribe (endian_load packet_id) es)

pub length-print_entries : (es : List TopicSubopts) → length (print_entries es) ≡ entries_size es
unfolding print_entries
length-print_entries [] = refl
length-print_entries (e ∷ es) = omega (
  arith,
  length-append (length_prefixed e.all_topic) (e.opts ∷ print_entries es),
  length-length_prefixed e.all_topic,
  length-print_entries es,
)

parse_entries-step :
    (n : ℕ) (bytes topic rest : Bytes) (opts : ℕ)
    → text bytes ≡ ok (topic, opts ∷ rest)
    → opts / 4 == 0 ≡ true
    → not (opts % 4 == 3) ≡ true
    → parse_entries (suc n) bytes
      ≡ (parse_entries n rest >>= λ es. ok (record { all_topic = topic; opts = opts } ∷ es))
unfolding parse_entries text binary insert_advance
parse_entries-step n [] topic rest opts e h h' = ground arith
parse_entries-step n (b ∷ bytes) topic rest opts e h h' = ground (arith, e)

are_entries_cons :
    (e : TopicSubopts) (es : List TopicSubopts)
    → are_entries (e ∷ es) ≡ true
    → (length e.all_topic ≤ 0xffff)
      × (e.opts / 4 == 0 ≡ true)
      × (not (e.opts % 4 == 3) ≡ true)
      × (utf8string_check e.all_topic ≡ true)
      × (are_entries es ≡ true)
unfolding are_entries
are_entries_cons e es h = ground arith

parse_entries-print_entries :
    (fuel : ℕ) (es : List TopicSubopts)
    → are_entries es ≡ true
    → entries_size es ≤ fuel
    → parse_entries fuel (print_entries es) ≡ ok es
unfolding parse_entries print_entries are_entries
parse_entries-print_entries fuel [] h l = refl
parse_entries-print_entries zero (e ∷ es) h l = ground arith
parse_entries-print_entries (suc n) (e ∷ es) h l =
    let (short, no_reserved, has_qos, valid, all_valid) = are_entries_cons e es h in
    parse_entries-step n (print_entries (e ∷ es)) e.all_topic (print_entries es) e.opts
      (text-length_prefixed e.all_topic (e.opts ∷ print_entries es) short valid) no_reserved has_qos
    ∙ rw (parse_entries-print_entries n es all_valid (omega arith)) refl

make_subscribe_ok :
    (es : List TopicSubopts)
    → make_subscribe es ≡ ok es
    → (are_entries es ≡ true) × (0 < entries_size es)
unfolding make_subscribe
make_subscribe_ok [] h = ground arith
make_subscribe_ok (e ∷ es) h = ground (arith, h)

-- Entries that the constructor accepts, with an identifier that fits into its bytes and a remaining
-- length that can be encoded, are parsed as they were printed.
pub parse_subscribe-print_subscribe :
    (packet_id_bytes packet_id : ℕ) (es : List TopicSubopts)
    → make_subscribe es ≡ ok es
    → packet_id < 256 ^ packet_id_bytes
    → remaining_length packet_id_bytes es ≤ 0xfffffff
    → parse_subscribe packet_id_bytes (print_subscribe packet_id_bytes packet_id es)
      ≡ ok (v3_1_1_subscribe packet_id es)
unfolding parse_subscribe print_subscribe remaining_length are_flags
parse_subscribe-print_subscribe n packet_id es e l s =
    let (valid, some_entry) = make_subscribe_ok es e in
    let body = endian_store n packet_id ++ print_entries es in
    ground (
      arith,
      fixed_header-make_fixed_header subscribe 2
          (val_to_variable_bytes (remaining_length n es) ++ body) (omega arith) refl,
      insert_advance_variable_length-val_to_variable_bytes (remaining_length n es) body s,
      length-append (endian_store n packet_id) (print_entries es),
      length-endian_store n packet_id,
      length-print_entries es,
      insert_advance-endian_store n packet_id (print_entries es),
      endian_load-endian_store n packet_id l,
      parse_entries-print_entries (length (print_entries es)) es valid,
    )
