-- ===== src/Protocol/Codec/V5/Connect.antt =====
-- packet/impl/v5_connect.ipp.
use async_mqtt_cpp.Prelude.{
  ℕ, ◌+◌, ◌%◌, ◌≤◌, ◌≡◌, refl, Bool, true, not, if◌then◌else◌, ◌==◌, Option, none, some, [], ◌∷◌,
  ◌++◌, length, length-append, append_assoc, arith,
}
use async_mqtt_cpp.Util.EndianConvert.{
  endian_store, endian_load, length-endian_store, endian_load-endian_store,
}
use async_mqtt_cpp.Util.VariableBytes.{val_to_variable_bytes}
use async_mqtt_cpp.Protocol.Packet.{Bytes, same_bytes, Packet, Properties, Will, Login, v5_connect}
use async_mqtt_cpp.Protocol.Codec.Result.{Result, ok, ◌>>=◌, ◌>>◌, unless, or_malformed}
use async_mqtt_cpp.Protocol.Codec.FixedHeader.{
  connect, make_fixed_header, fixed_header, are_flags, fixed_header-make_fixed_header,
}
use async_mqtt_cpp.Protocol.Codec.ConnectFlags.{
  has_clean_session, has_will_flag, will_qos, will_retain, connect_flags, is_some, Flags, WillFlags,
  connect_flags-Flags, connect_flags-WillFlags,
}
use async_mqtt_cpp.Protocol.Codec.Fields.{
  front, insert_advance, insert_advance_variable_length, text, binary, length_prefixed,
  length-length_prefixed, insert_advance-append, insert_advance-endian_store,
  insert_advance_variable_length-val_to_variable_bytes, binary-length_prefixed,
  text-length_prefixed,
}
use async_mqtt_cpp.Protocol.Codec.PropertyLocation.{PropertyLocation}
use async_mqtt_cpp.Protocol.Codec.Property.{make_properties, print_properties}
use async_mqtt_cpp.Protocol.Codec.Property.RoundTrip.{
  AreProperties, make_properties-print_properties,
}
use async_mqtt_cpp.Protocol.Codec.V311.Connect.{
  malformed_connect, unsupported_protocol_version, in_connect, is_will, is_login,
  protocol_name_and_level, print_optional, optional_size, is_qos_0, parse_user_name, parse_password,
  parse_user_name-print_optional, parse_password-print_optional, is_login_parts,
  length-print_optional,
}
use async_mqtt_cpp.Protocol.Codec.V5.Section.{property_length, print_section}

abbrev pub print_will : Option Will → Bytes
print_will none = []
print_will (some w) =
    print_section w.props ++ (length_prefixed w.topic ++ length_prefixed w.message)

abbrev pub will_size : Option Will → ℕ
will_size none = 0
will_size (some w) = length (print_section w.props) + 2 + length w.topic + 2 + length w.message

unfoldable pub remaining_length : Properties → Login → ℕ
remaining_length ps l =
    2
    + 4
    + 1
    + 1
    + 2
    + 2
    + length l.client_id
    + optional_size l.user_name
    + optional_size l.password
    + length (print_section ps)
    + will_size l.will

unfoldable pub print_login : Login → Bytes
print_login l =
    length_prefixed l.client_id
    ++ (print_will l.will ++ (print_optional l.user_name ++ print_optional l.password))

unfoldable pub print_connect : (keep_alive : ℕ) (clean_start : Bool) → Properties → Login → Bytes
unfolding remaining_length print_login
print_connect keep_alive clean_start ps l =
    make_fixed_header connect 0
    ∷ (val_to_variable_bytes (remaining_length ps l)
        ++ (protocol_name_and_level 5
            ++ (connect_flags clean_start l
                ∷ (endian_store 2 keep_alive ++ (print_section ps ++ print_login l)))))

-- The lengths are reported in the category of CONNECT, the properties as make_properties does.
unfoldable pub parse_section : PropertyLocation → Bytes → Result (Properties × Bytes)
unfolding insert_advance insert_advance_variable_length
parse_section loc buf = do
  (property_length, buf) ← in_connect (or_malformed (insert_advance_variable_length buf))
  (prop_buf, buf) ← in_connect (or_malformed (insert_advance property_length buf))
  props ← make_properties loc prop_buf
  ok (props, buf)

unfoldable pub parse_will : (flags : ℕ) → Bytes → Result (Option Will × Bytes)
unfolding parse_section text binary will_qos will_retain
parse_will flags buf =
    if has_will_flag flags
    then (do
      q ← in_connect (or_malformed (will_qos flags))
      (props, buf) ← parse_section PropertyLocation.will buf
      (topic, buf) ← in_connect (text buf)
      (message, buf) ← in_connect (binary buf)
      ok (
        some (record {
          topic = topic;
          message = message;
          retain = will_retain flags;
          qos = q;
          props = props;
        }),
        buf,
      ))
    else do
      unless (not (will_retain flags)) malformed_connect
      unless (is_qos_0 (will_qos flags)) malformed_connect
      ok (none, buf)

unfoldable pub parse_login : (flags : ℕ) → Bytes → Result Login
unfolding parse_will parse_user_name parse_password
parse_login flags buf = do
  (client_id, buf) ← in_connect (text buf)
  (will, buf) ← parse_will flags buf
  (user_name, buf) ← parse_user_name flags buf
  password ← parse_password flags buf
  ok (record { client_id = client_id; will = will; user_name = user_name; password = password })

unfoldable pub parse_connect : Bytes → Result Packet
unfolding front parse_login
parse_connect buf = do
  (_, buf) ← in_connect (fixed_header connect buf)
  (remaining, buf) ← in_connect (or_malformed (insert_advance_variable_length buf))
  unless (remaining == length buf) malformed_connect
  (name, buf) ← in_connect (or_malformed (insert_advance 7 buf))
  unless (same_bytes name (protocol_name_and_level 5)) unsupported_protocol_version
  (flags, buf) ← in_connect (or_malformed (front buf))
  unless (flags % 2 == 0) malformed_connect
  (keep_alive, buf) ← in_connect (or_malformed (insert_advance 2 buf))
  (props, buf) ← parse_section PropertyLocation.connect buf
  login ← parse_login flags buf
  ok (v5_connect (endian_load keep_alive) (has_clean_session flags) props login)

abbrev pub AreSection : PropertyLocation → Properties → Type 0
AreSection loc ps = AreProperties loc ps × (property_length ps ≤ 0xfffffff)

abbrev pub IsWillSection : Option Will → Type 0
IsWillSection none = Unit
IsWillSection (some w) = AreSection PropertyLocation.will w.props

parse_section-print_section :
    (loc : PropertyLocation) (ps : Properties) (buf : Bytes)
    → AreSection loc ps
    → parse_section loc (print_section ps ++ buf) ≡ ok (ps, buf)
unfolding parse_section print_section property_length
parse_section-print_section loc ps buf h = ground (
  arith,
  append_assoc (val_to_variable_bytes (property_length ps)) (print_properties ps) buf,
  insert_advance_variable_length-val_to_variable_bytes (property_length ps)
      (print_properties ps ++ buf) h.1,
  insert_advance-append (length (print_properties ps)) (print_properties ps) buf,
  make_properties-print_properties loc ps h.0,
)

parse_will-print_will :
    (flags : ℕ) (w : Option Will) (buf : Bytes)
    → is_will w ≡ true
    → IsWillSection w
    → has_will_flag flags ≡ is_some w
    → WillFlags flags w
    → parse_will flags (print_will w ++ buf) ≡ ok (w, buf)
unfolding parse_will
parse_will-print_will flags none buf h p e f = ground (arith, e, f)
parse_will-print_will flags (some w) buf h p e f =
    let payload = length_prefixed w.topic ++ length_prefixed w.message in
    ground (
      arith,
      e,
      f,
      append_assoc (print_section w.props) payload buf,
      parse_section-print_section PropertyLocation.will w.props (payload ++ buf) p,
      append_assoc (length_prefixed w.topic) (length_prefixed w.message) buf,
      text-length_prefixed w.topic (length_prefixed w.message ++ buf) (ground arith) (ground arith),
      binary-length_prefixed w.message buf (ground arith),
    )

parse_login-print_login :
    (flags : ℕ) (clean : Bool) (l : Login)
    → is_login l ≡ true
    → IsWillSection l.will
    → Flags flags clean l
    → WillFlags flags l.will
    → parse_login flags (print_login l) ≡ ok l
unfolding parse_login print_login
parse_login-print_login flags clean l h p f wf =
    let (short, valid, will_valid, name_valid, password_valid) = is_login_parts l h in
    let rest = print_optional l.user_name ++ print_optional l.password in
    ground (
      arith,
      text-length_prefixed l.client_id (print_will l.will ++ rest) short valid,
      parse_will-print_will flags l.will rest will_valid p f.will_flag wf,
      parse_user_name-print_optional flags l.user_name (print_optional l.password) name_valid
          f.user_name_flag,
      parse_password-print_optional flags l.password password_valid f.password_flag,
    )

length-print_will : (w : Option Will) → length (print_will w) ≡ will_size w
length-print_will none = refl
length-print_will (some w) = omega (
  arith,
  length-append (print_section w.props) (length_prefixed w.topic ++ length_prefixed w.message),
  length-append (length_prefixed w.topic) (length_prefixed w.message),
  length-length_prefixed w.topic,
  length-length_prefixed w.message,
)

pub length-print_login :
    (ps : Properties) (l : Login)
    → 10 + (length (print_section ps) + length (print_login l)) ≡ remaining_length ps l
unfolding print_login remaining_length
length-print_login ps l =
    let rest = print_optional l.user_name ++ print_optional l.password in
    omega (
      arith,
      length-append (length_prefixed l.client_id) (print_will l.will ++ rest),
      length-append (print_will l.will) rest,
      length-append (print_optional l.user_name) (print_optional l.password),
      length-length_prefixed l.client_id,
      length-print_will l.will,
      length-print_optional l.user_name,
      length-print_optional l.password,
    )

-- A login that the constructor accepts, with properties that the packet and its will may carry, a
-- keep alive of 16 bits and lengths that can be encoded, is parsed as it was printed.
pub parse_connect-print_connect :
    (keep_alive : ℕ) (clean_start : Bool) (ps : Properties) (l : Login)
    → is_login l ≡ true
    → AreSection PropertyLocation.connect ps
    → IsWillSection l.will
    → keep_alive ≤ 0xffff
    → remaining_length ps l ≤ 0xfffffff
    → parse_connect (print_connect keep_alive clean_start ps l)
      ≡ ok (v5_connect keep_alive clean_start ps l)
unfolding parse_connect print_connect are_flags front
parse_connect-print_connect keep_alive clean_start ps l h a p k s =
    let flags = connect_flags clean_start l in
    let f = connect_flags-Flags clean_start l in
    let rest = print_section ps ++ print_login l in
    let tail = endian_store 2 keep_alive ++ rest in
    let body = protocol_name_and_level 5 ++ (flags ∷ tail) in
    ground (
      arith,
      fixed_header-make_fixed_header connect 0
          (val_to_variable_bytes (remaining_length ps l) ++ body) (omega arith) refl,
      insert_advance_variable_length-val_to_variable_bytes (remaining_length ps l) body s,
      length-append (endian_store 2 keep_alive) rest,
      length-endian_store 2 keep_alive,
      length-append (print_section ps) (print_login l),
      length-print_login ps l,
      insert_advance-append 7 (protocol_name_and_level 5) (flags ∷ tail) refl,
      f.reserved,
      f.clean_session,
      insert_advance-endian_store 2 keep_alive rest,
      endian_load-endian_store 2 keep_alive,
      parse_section-print_section PropertyLocation.connect ps (print_login l) a,
      parse_login-print_login flags clean_start l h p f (connect_flags-WillFlags clean_start l),
    )
