-- ===== src/Protocol/Codec/Fields.antt =====
-- The fields of a packet: packet/impl/copy_to_static_vector.hpp, and the texts with their lengths.
use async_mqtt_cpp.Prelude.{
  ℕ, ◌+◌, ◌≤◌, ◌≡◌, true, if◌then◌else◌, ltb, Option, none, some, [], ◌∷◌, ◌++◌, length, take, drop,
  length-append, take-append, drop-append, append_nil, append_assoc, arith,
}
use async_mqtt_cpp.Util.VariableBytes.{
  variable_bytes_to_val, read_bytes, val_to_variable_bytes,
  variable_bytes_to_val-val_to_variable_bytes,
}
use async_mqtt_cpp.Util.EndianConvert.{
  endian_store, endian_load, length-endian_store, endian_load-endian_store,
}
use async_mqtt_cpp.Util.Utf8.{utf8string_check}
use async_mqtt_cpp.Protocol.Packet.{Bytes}
use async_mqtt_cpp.Protocol.Codec.Result.{
  Result, ok, ◌>>=◌, ◌>>◌, malformed_packet, unless, or_malformed,
}

-- copy_advance and insert_advance into a vector of `n` bytes; also `substr(0, n)` and
-- `remove_prefix(n)` behind a test of the size.
unfoldable pub insert_advance : ℕ → Bytes → Option (Bytes × Bytes)
insert_advance n buf = if ltb (length buf) n then none else some (take n buf, drop n buf)

unfoldable pub insert_advance_variable_length : Bytes → Option (ℕ × Bytes)
insert_advance_variable_length [] = none
insert_advance_variable_length (b ∷ buf) =
    let (val, rest) = variable_bytes_to_val (b ∷ buf) in
    elim val [ none ↦ none | some v ↦ some (v, rest) ]

-- One byte, which a parser takes from a buffer that it found not empty.
unfoldable pub front : Bytes → Option (ℕ × Bytes)
front [] = none
front (b ∷ buf) = some (b, buf)

-- A length of two bytes and so many bytes.
unfoldable pub binary : Bytes → Result (Bytes × Bytes)
unfolding insert_advance
binary buf = do
  (length_buf, buf) ← or_malformed (insert_advance 2 buf)
  or_malformed (insert_advance (endian_load length_buf) buf)

-- The same for a text, which has to be valid.
unfoldable pub text : Bytes → Result (Bytes × Bytes)
unfolding binary
text buf = do (str, buf) ← binary buf; unless (utf8string_check str) malformed_packet; ok (str, buf)

unfoldable pub length_prefixed : Bytes → Bytes
length_prefixed str = endian_store 2 (length str) ++ str

pub insert_advance-append :
    (n : ℕ) (field buf : Bytes)
    → length field ≡ n
    → insert_advance n (field ++ buf) ≡ some (field, buf)
unfolding insert_advance
insert_advance-append n field buf h = ground (
  arith,
  length-append field buf,
  take-append n field buf,
  drop-append n field buf,
  append_nil field,
)

pub insert_advance-endian_store :
    (n val : ℕ) (buf : Bytes)
    → insert_advance n (endian_store n val ++ buf) ≡ some (endian_store n val, buf)
insert_advance-endian_store n val buf =
    insert_advance-append n (endian_store n val) buf (length-endian_store n val)

insert_advance_variable_length-some :
    (bytes rest : Bytes) (val : ℕ)
    → variable_bytes_to_val bytes ≡ (some val, rest)
    → insert_advance_variable_length bytes ≡ some (val, rest)
unfolding insert_advance_variable_length variable_bytes_to_val read_bytes
insert_advance_variable_length-some [] rest val e = ground (arith, e)
insert_advance_variable_length-some (b ∷ bytes) rest val e = ground (arith, e)

pub insert_advance_variable_length-val_to_variable_bytes :
    (val : ℕ) (buf : Bytes)
    → val ≤ 0xfffffff
    → insert_advance_variable_length (val_to_variable_bytes val ++ buf) ≡ some (val, buf)
insert_advance_variable_length-val_to_variable_bytes val buf h =
    insert_advance_variable_length-some (val_to_variable_bytes val ++ buf) buf val
      (variable_bytes_to_val-val_to_variable_bytes val buf h)

pub length-length_prefixed : (str : Bytes) → length (length_prefixed str) ≡ 2 + length str
unfolding length_prefixed
length-length_prefixed str =
    omega
      (arith, length-append (endian_store 2 (length str)) str, length-endian_store 2 (length str))

pub binary-length_prefixed :
    (str buf : Bytes) → length str ≤ 0xffff → binary (length_prefixed str ++ buf) ≡ ok (str, buf)
unfolding binary length_prefixed
binary-length_prefixed str buf h = ground (
  arith,
  append_assoc (endian_store 2 (length str)) str buf,
  insert_advance-endian_store 2 (length str) (str ++ buf),
  endian_load-endian_store 2 (length str),
  insert_advance-append (length str) str buf,
)

pub text-length_prefixed :
    (str buf : Bytes)
    → length str ≤ 0xffff
    → utf8string_check str ≡ true
    → text (length_prefixed str ++ buf) ≡ ok (str, buf)
unfolding text
text-length_prefixed str buf h e = ground (arith, e, binary-length_prefixed str buf)
