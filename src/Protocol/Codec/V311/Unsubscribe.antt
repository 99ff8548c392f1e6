-- ===== src/Protocol/Codec/V311/Unsubscribe.antt =====
-- packet/impl/v3_1_1_unsubscribe.ipp and v3_1_1_suback.ipp.
use async_mqtt_cpp.Prelude.{
  ℕ, zero, suc, ◌+◌, ◌^◌, ◌≤◌, ◌<◌, ◌≡◌, refl, ◌∙◌, Bool, true, not, ◌&&◌, ◌||◌, ◌==◌, leb, List,
  [], ◌∷◌, ◌++◌, length, length-append, arith,
}
use async_mqtt_cpp.Util.EndianConvert.{
  endian_store, endian_load, length-endian_store, endian_load-endian_store,
}
use async_mqtt_cpp.Util.VariableBytes.{val_to_variable_bytes}
use async_mqtt_cpp.Util.Utf8.{utf8string_check}
use async_mqtt_cpp.Protocol.Packet.{Bytes, Packet, v3_1_1_unsubscribe, v3_1_1_suback}
use async_mqtt_cpp.Protocol.Codec.Result.{
  Result, ok, err, ◌>>=◌, ◌>>◌, malformed_packet, protocol_error, unless, or_malformed,
}
use async_mqtt_cpp.Protocol.Codec.FixedHeader.{
  unsubscribe, suback, make_fixed_header, fixed_header, are_flags, fixed_header-make_fixed_header,
}
use async_mqtt_cpp.Protocol.Codec.Fields.{
  insert_advance, insert_advance_variable_length, text, binary, length_prefixed,
  length-length_prefixed, insert_advance-endian_store,
  insert_advance_variable_length-val_to_variable_bytes, text-length_prefixed,
}

unfoldable pub are_topics : List Bytes → Bool
are_topics [] = true
are_topics (t ∷ ts) = leb (length t) 0xffff && utf8string_check t && are_topics ts

-- The constructor from the fields, which throws where this reports an error. It takes an empty list.
unfoldable pub make_unsubscribe : List Bytes → Result (List Bytes)
unfolding are_topics
make_unsubscribe ts = do unless (are_topics ts) malformed_packet; ok ts

unfoldable pub print_topics : List Bytes → Bytes
print_topics [] = []
print_topics (t ∷ ts) = length_prefixed t ++ print_topics ts

-- The loop over the entries, on fuel. Every round takes bytes.
unfoldable pub parse_topics : (fuel : ℕ) → Bytes → Result (List Bytes)
parse_topics fuel [] = ok []
parse_topics zero (b ∷ buf) = err malformed_packet
parse_topics (suc n) (b ∷ buf) = do
  (topic, buf) ← text (b ∷ buf)
  ts ← parse_topics n buf
  ok (topic ∷ ts)

abbrev pub topics_size : List Bytes → ℕ
topics_size [] = 0
topics_size (t ∷ ts) = 2 + length t + topics_size ts

-- suback_return_code
abbrev pub is_return_code : ℕ → Bool
is_return_code rc = rc == 0 || rc == 1 || rc == 2 || rc == 0x80

unfoldable pub parse_return_codes : Bytes → Result Bytes
parse_return_codes [] = ok []
parse_return_codes (rc ∷ buf) = do
  unless (is_return_code rc) malformed_packet
  codes ← parse_return_codes buf
  ok (rc ∷ codes)

module _ (packet_id_bytes : ℕ) where
  unfoldable pub print_unsubscribe : (packet_id : ℕ) → List Bytes → Bytes
  unfolding print_topics
  print_unsubscribe packet_id ts =
      make_fixed_header unsubscribe 2
      ∷ (val_to_variable_bytes (packet_id_bytes + topics_size ts)
          ++ (endian_store packet_id_bytes packet_id ++ print_topics ts))

  unfoldable pub parse_unsubscribe : Bytes → Result Packet
  unfolding parse_topics
  parse_unsubscribe buf = do
    (_, buf) ← fixed_header unsubscribe buf
    (remaining, buf) ← or_malformed (insert_advance_variable_length buf)
    unless (remaining == length buf) malformed_packet
    (packet_id, buf) ← or_malformed (insert_advance packet_id_bytes buf)
    unless (not (length buf == 0)) protocol_error
    ts ← parse_topics (length buf) buf
    ok (v3_1_1_unsubscribe (endian_load packet_id) ts)

  unfoldable pub print_suback : (packet_id : ℕ) → Bytes → Bytes
  print_suback packet_id codes =
      make_fixed_header suback 0
      ∷ (val_to_variable_bytes (packet_id_bytes + length codes)
          ++ (endian_store packet_id_bytes packet_id ++ codes))

  unfoldable pub parse_suback : Bytes → Result Packet
  unfolding parse_return_codes
  parse_suback buf = do
    (_, buf) ← fixed_header suback buf
    (remaining, buf) ← or_malformed (insert_advance_variable_length buf)
    unless (remaining == length buf) malformed_packet
    (packet_id, buf) ← or_malformed (insert_advance packet_id_bytes buf)
    unless (not (length buf == 0)) protocol_error
    codes ← parse_return_codes buf
    ok (v3_1_1_suback (endian_load packet_id) codes)

pub length-print_topics : (ts : List Bytes) → length (print_topics ts) ≡ topics_size ts
unfolding print_topics
length-print_topics [] = refl
length-print_topics (t ∷ ts) = omega (
  arith,
  length-append (length_prefixed t) (print_topics ts),
  length-length_prefixed t,
  length-print_topics ts,
)

parse_topics-step :
    (n : ℕ) (bytes topic rest : Bytes)
    → text bytes ≡ ok (topic, rest)
    → parse_topics (suc n) bytes ≡ (parse_topics n rest >>= λ ts. ok (topic ∷ ts))
unfolding parse_topics text binary insert_advance
parse_topics-step n [] topic rest e = ground arith
parse_topics-step n (b ∷ bytes) topic rest e = ground (arith, e)

pub parse_topics-print_topics :
    (fuel : ℕ) (ts : List Bytes)
    → are_topics ts ≡ true
    → topics_size ts ≤ fuel
    → parse_topics fuel (print_topics ts) ≡ ok ts
unfolding parse_topics print_topics are_topics
parse_topics-print_topics fuel [] h l = refl
parse_topics-print_topics zero (t ∷ ts) h l = ground arith
parse_topics-print_topics (suc n) (t ∷ ts) h l =
    parse_topics-step n (print_topics (t ∷ ts)) t (print_topics ts)
      (text-length_prefixed t (print_topics ts) (ground arith) (ground arith))
    ∙ rw (parse_topics-print_topics n ts (ground arith) (omega arith)) refl

pub make_unsubscribe_ok : (ts : List Bytes) → make_unsubscribe ts ≡ ok ts → are_topics ts ≡ true
unfolding make_unsubscribe
make_unsubscribe_ok ts h = ground (arith, h)

-- A list of topics that is not empty and that the constructor accepts, with an identifier that fits
-- into its bytes and a remaining length that can be encoded, is parsed as it was printed.
pub parse_unsubscribe-print_unsubscribe :
    (packet_id_bytes packet_id : ℕ) (ts : List Bytes)
    → make_unsubscribe ts ≡ ok ts
    → 0 < topics_size ts
    → packet_id < 256 ^ packet_id_bytes
    → packet_id_bytes + topics_size ts ≤ 0xfffffff
    → parse_unsubscribe packet_id_bytes (print_unsubscribe packet_id_bytes packet_id ts)
      ≡ ok (v3_1_1_unsubscribe packet_id ts)
unfolding parse_unsubscribe print_unsubscribe are_flags
parse_unsubscribe-print_unsubscribe n packet_id ts e some_topic l s =
    let body = endian_store n packet_id ++ print_topics ts in
    ground (
      arith,
      fixed_header-make_fixed_header unsubscribe 2
          (val_to_variable_bytes (n + topics_size ts) ++ body) (omega arith) refl,
      insert_advance_variable_length-val_to_variable_bytes (n + topics_size ts) body s,
      length-append (endian_store n packet_id) (print_topics ts),
      length-endian_store n packet_id,
      length-print_topics ts,
      insert_advance-endian_store n packet_id (print_topics ts),
      endian_load-endian_store n packet_id l,
      parse_topics-print_topics (length (print_topics ts)) ts (make_unsubscribe_ok ts e),
    )

unfoldable pub are_return_codes : Bytes → Bool
are_return_codes [] = true
are_return_codes (rc ∷ codes) = is_return_code rc && are_return_codes codes

pub parse_return_codes_lem :
    (codes : Bytes) → are_return_codes codes ≡ true → parse_return_codes codes ≡ ok codes
unfolding parse_return_codes are_return_codes
parse_return_codes_lem [] h = refl
parse_return_codes_lem (rc ∷ codes) h = ground (arith, parse_return_codes_lem codes)

pub parse_suback-print_suback :
    (packet_id_bytes packet_id : ℕ) (codes : Bytes)
    → are_return_codes codes ≡ true
    → 0 < length codes
    → packet_id < 256 ^ packet_id_bytes
    → packet_id_bytes + length codes ≤ 0xfffffff
    → parse_suback packet_id_bytes (print_suback packet_id_bytes packet_id codes)
      ≡ ok (v3_1_1_suback packet_id codes)
unfolding parse_suback print_suback are_flags
parse_suback-print_suback n packet_id codes e some_code l s =
    let body = endian_store n packet_id ++ codes in
    ground (
      arith,
      fixed_header-make_fixed_header suback 0 (val_to_variable_bytes (n + length codes) ++ body)
          (omega arith) refl,
      insert_advance_variable_length-val_to_variable_bytes (n + length codes) body s,
      length-append (endian_store n packet_id) codes,
      length-endian_store n packet_id,
      insert_advance-endian_store n packet_id codes,
      endian_load-endian_store n packet_id l,
      parse_return_codes_lem codes e,
    )
