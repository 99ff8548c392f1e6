-- ===== src/Protocol/Codec/V311/Connect.antt =====
-- packet/impl/v3_1_1_connect.ipp.
use async_mqtt_cpp.Prelude.{
  ℕ, ◌+◌, ◌%◌, ◌≤◌, ◌≡◌, refl, Bool, true, false, not, ◌&&◌, if◌then◌else◌, ◌==◌, leb, Option, none,
  some, [], ◌∷◌, ◌++◌, length, length-append, append_assoc, arith,
}
use async_mqtt_cpp.Util.EndianConvert.{
  endian_store, endian_load, length-endian_store, endian_load-endian_store,
}
use async_mqtt_cpp.Util.VariableBytes.{val_to_variable_bytes}
use async_mqtt_cpp.Util.Utf8.{utf8string_check}
use async_mqtt_cpp.Protocol.Event.{ErrorCode, connect_reason_code}
use async_mqtt_cpp.Protocol.Packet.{
  Bytes, same_bytes, Packet, Properties, Qos, at_most_once, Will, Login, v3_1_1_connect,
}
use async_mqtt_cpp.Protocol.Codec.Result.{Result, ok, err, fault, ◌>>=◌, ◌>>◌, unless, or_malformed}
use async_mqtt_cpp.Protocol.Codec.FixedHeader.{
  connect, make_fixed_header, fixed_header, are_flags, fixed_header-make_fixed_header,
}
use async_mqtt_cpp.Protocol.Codec.ConnectFlags.{
  has_clean_session, has_will_flag, will_qos, will_retain, has_password_flag, has_user_name_flag,
  connect_flags, is_some, Flags, WillFlags, connect_flags-Flags, connect_flags-WillFlags,
}
use async_mqtt_cpp.Protocol.Codec.Fields.{
  front, insert_advance, insert_advance_variable_length, text, binary, length_prefixed,
  length-length_prefixed, insert_advance-append, insert_advance-endian_store,
  insert_advance_variable_length-val_to_variable_bytes, binary-length_prefixed,
  text-length_prefixed,
}

-- The reason codes of CONNECT.
abbrev pub malformed_connect : ErrorCode
malformed_connect = connect_reason_code 0x81

abbrev pub unsupported_protocol_version : ErrorCode
unsupported_protocol_version = connect_reason_code 0x84

-- The same tests as for the other packets, reported in the category of CONNECT.
abbrev pub in_connect {ℓ} : {A : Type ℓ} → Result A → Result A
in_connect (ok a) = ok a
in_connect (err e) = err malformed_connect
in_connect fault = fault

-- The length of a string that a 16-bit number holds; numeric_cast throws for any other.
abbrev pub is_short : Bytes → Bool
is_short str = leb (length str) 0xffff

abbrev pub is_text : Bytes → Bool
is_text str = is_short str && utf8string_check str

abbrev pub is_will : Option Will → Bool
is_will none = true
is_will (some w) = is_text w.topic && is_short w.message

abbrev pub each {ℓ} : {A : Type ℓ} → (A → Bool) → Option A → Bool
each p none = true
each p (some a) = p a

-- What the constructor from the fields takes: it throws for any other.
unfoldable pub is_login : Login → Bool
is_login l =
    is_text l.client_id && is_will l.will && each is_text l.user_name && each is_short l.password

abbrev pub protocol_name_and_level : ℕ → Bytes
protocol_name_and_level level = 0 ∷ 4 ∷ 77 ∷ 81 ∷ 84 ∷ 84 ∷ level ∷ []

abbrev pub print_optional : Option Bytes → Bytes
print_optional none = []
print_optional (some str) = length_prefixed str

abbrev pub print_will : Option Will → Bytes
print_will none = []
print_will (some w) = length_prefixed w.topic ++ length_prefixed w.message

abbrev pub optional_size : Option Bytes → ℕ
optional_size none = 0
optional_size (some str) = 2 + length str

abbrev pub will_size : Option Will → ℕ
will_size none = 0
will_size (some w) = 2 + length w.topic + 2 + length w.message

unfoldable pub remaining_length : Login → ℕ
remaining_length l =
    2
    + 4
    + 1
    + 1
    + 2
    + 2
    + length l.client_id
    + optional_size l.user_name
    + optional_size l.password
    + will_size l.will

unfoldable pub print_login : Login → Bytes
print_login l =
    length_prefixed l.client_id
    ++ (print_will l.will ++ (print_optional l.user_name ++ print_optional l.password))

unfoldable pub print_connect : (keep_alive : ℕ) (clean_session : Bool) → Login → Bytes
unfolding remaining_length print_login
print_connect keep_alive clean_session l =
    make_fixed_header connect 0
    ∷ (val_to_variable_bytes (remaining_length l)
        ++ (protocol_name_and_level 4
            ++ (connect_flags clean_session l ∷ (endian_store 2 keep_alive ++ print_login l))))

abbrev pub is_qos_0 : Option Qos → Bool
is_qos_0 (some at_most_once) = true
is_qos_0 _ = false

unfoldable pub parse_will : (flags : ℕ) → Bytes → Result (Option Will × Bytes)
unfolding text binary will_qos will_retain
parse_will flags buf =
    if has_will_flag flags
    then (do
      q ← in_connect (or_malformed (will_qos flags))
      (topic, buf) ← in_connect (text buf)
      (message, buf) ← in_connect (binary buf)
      ok (
        some (record {
          topic = topic;
          message = message;
          retain = will_retain flags;
          qos = q;
          props = [];
        }),
        buf,
      ))
    else do
      unless (not (will_retain flags)) malformed_connect
      unless (is_qos_0 (will_qos flags)) malformed_connect
      ok (none, buf)

unfoldable pub parse_user_name : (flags : ℕ) → Bytes → Result (Option Bytes × Bytes)
unfolding text
parse_user_name flags buf =
    if has_user_name_flag flags
    then (do (user_name, buf) ← in_connect (text buf); ok (some user_name, buf))
    else ok (none, buf)

-- The password takes all that is left. Without one, what is left is not looked at.
unfoldable pub parse_password : (flags : ℕ) → Bytes → Result (Option Bytes)
unfolding insert_advance
parse_password flags buf =
    if has_password_flag flags
    then (do
      (length_buf, buf) ← in_connect (or_malformed (insert_advance 2 buf))
      unless (length buf == endian_load length_buf) malformed_connect
      ok (some buf))
    else ok none

unfoldable pub parse_login : (flags : ℕ) → Bytes → Result Login
unfolding parse_will parse_user_name parse_password
parse_login flags buf = do
  (client_id, buf) ← in_connect (text buf)
  (will, buf) ← parse_will flags buf
  (user_name, buf) ← parse_user_name flags buf
  password ← parse_password flags buf
  ok (record { client_id = client_id; will = will; user_name = user_name; password = password })

unfoldable pub parse_connect : Bytes → Result Packet
unfolding front parse_login
parse_connect buf = do
  (_, buf) ← in_connect (fixed_header connect buf)
  (remaining, buf) ← in_connect (or_malformed (insert_advance_variable_length buf))
  unless (remaining == length buf) malformed_connect
  (name, buf) ← in_connect (or_malformed (insert_advance 7 buf))
  unless (same_bytes name (protocol_name_and_level 4)) unsupported_protocol_version
  (flags, buf) ← in_connect (or_malformed (front buf))
  unless (flags % 2 == 0) malformed_connect
  (keep_alive, buf) ← in_connect (or_malformed (insert_advance 2 buf))
  login ← parse_login flags buf
  ok (v3_1_1_connect (endian_load keep_alive) (has_clean_session flags) login)

abbrev is_none : Properties → Bool
is_none [] = true
is_none (p ∷ ps) = false

-- A v3.1.1 packet has no will properties.
abbrev pub no_will_props : Option Will → Bool
no_will_props none = true
no_will_props (some w) = is_none w.props

parse_will-print_will :
    (flags : ℕ) (w : Option Will) (buf : Bytes)
    → is_will w ≡ true
    → no_will_props w ≡ true
    → has_will_flag flags ≡ is_some w
    → WillFlags flags w
    → parse_will flags (print_will w ++ buf) ≡ ok (w, buf)
unfolding parse_will
parse_will-print_will flags none buf h p e f = ground (arith, e, f)
parse_will-print_will flags (some w) buf h p e f = ground (
  arith,
  e,
  f,
  p,
  append_assoc (length_prefixed w.topic) (length_prefixed w.message) buf,
  text-length_prefixed w.topic (length_prefixed w.message ++ buf) (ground arith) (ground arith),
  binary-length_prefixed w.message buf (ground arith),
)

pub parse_user_name-print_optional :
    (flags : ℕ) (name : Option Bytes) (buf : Bytes)
    → each is_text name ≡ true
    → has_user_name_flag flags ≡ is_some name
    → parse_user_name flags (print_optional name ++ buf) ≡ ok (name, buf)
unfolding parse_user_name
parse_user_name-print_optional flags none buf h e = ground (arith, e)
parse_user_name-print_optional flags (some name) buf h e =
    ground (arith, e, text-length_prefixed name buf (ground arith) (ground arith))

pub parse_password-print_optional :
    (flags : ℕ) (password : Option Bytes)
    → each is_short password ≡ true
    → has_password_flag flags ≡ is_some password
    → parse_password flags (print_optional password) ≡ ok password
unfolding parse_password length_prefixed
parse_password-print_optional flags none h e = ground (arith, e)
parse_password-print_optional flags (some password) h e = ground (
  arith,
  e,
  insert_advance-endian_store 2 (length password) password,
  endian_load-endian_store 2 (length password),
)

pub is_login_parts :
    (l : Login)
    → is_login l ≡ true
    → (length l.client_id ≤ 0xffff)
      × (utf8string_check l.client_id ≡ true)
      × (is_will l.will ≡ true)
      × (each is_text l.user_name ≡ true)
      × (each is_short l.password ≡ true)
unfolding is_login
is_login_parts l h = ground (arith, h)

parse_login-print_login :
    (flags : ℕ) (clean : Bool) (l : Login)
    → is_login l ≡ true
    → no_will_props l.will ≡ true
    → Flags flags clean l
    → WillFlags flags l.will
    → parse_login flags (print_login l) ≡ ok l
unfolding parse_login print_login
parse_login-print_login flags clean l h p f wf =
    let (short, valid, will_valid, name_valid, password_valid) = is_login_parts l h in
    let rest = print_optional l.user_name ++ print_optional l.password in
    ground (
      arith,
      text-length_prefixed l.client_id (print_will l.will ++ rest) short valid,
      parse_will-print_will flags l.will rest will_valid p f.will_flag wf,
      parse_user_name-print_optional flags l.user_name (print_optional l.password) name_valid
          f.user_name_flag,
      parse_password-print_optional flags l.password password_valid f.password_flag,
    )

pub length-print_optional : (o : Option Bytes) → length (print_optional o) ≡ optional_size o
length-print_optional none = refl
length-print_optional (some str) = length-length_prefixed str

length-print_will : (w : Option Will) → length (print_will w) ≡ will_size w
length-print_will none = refl
length-print_will (some w) = omega (
  arith,
  length-append (length_prefixed w.topic) (length_prefixed w.message),
  length-length_prefixed w.topic,
  length-length_prefixed w.message,
)

pub length-print_login : (l : Login) → 10 + length (print_login l) ≡ remaining_length l
unfolding print_login remaining_length
length-print_login l =
    let rest = print_optional l.user_name ++ print_optional l.password in
    omega (
      arith,
      length-append (length_prefixed l.client_id) (print_will l.will ++ rest),
      length-append (print_will l.will) rest,
      length-append (print_optional l.user_name) (print_optional l.password),
      length-length_prefixed l.client_id,
      length-print_will l.will,
      length-print_optional l.user_name,
      length-print_optional l.password,
    )

-- A login that the constructor accepts, without will properties, with a keep alive of 16 bits and a
-- remaining length that can be encoded, is parsed as it was printed.
pub parse_connect-print_connect :
    (keep_alive : ℕ) (clean_session : Bool) (l : Login)
    → is_login l ≡ true
    → no_will_props l.will ≡ true
    → keep_alive ≤ 0xffff
    → remaining_length l ≤ 0xfffffff
    → parse_connect (print_connect keep_alive clean_session l)
      ≡ ok (v3_1_1_connect keep_alive clean_session l)
unfolding parse_connect print_connect are_flags front
parse_connect-print_connect keep_alive clean_session l h p k s =
    let flags = connect_flags clean_session l in
    let f = connect_flags-Flags clean_session l in
    let rest = endian_store 2 keep_alive ++ print_login l in
    let body = protocol_name_and_level 4 ++ (flags ∷ rest) in
    ground (
      arith,
      fixed_header-make_fixed_header connect 0 (val_to_variable_bytes (remaining_length l) ++ body)
          (omega arith) refl,
      insert_advance_variable_length-val_to_variable_bytes (remaining_length l) body s,
      length-append (endian_store 2 keep_alive) (print_login l),
      length-endian_store 2 keep_alive,
      length-print_login l,
      insert_advance-append 7 (protocol_name_and_level 4) (flags ∷ rest) refl,
      f.reserved,
      f.clean_session,
      insert_advance-endian_store 2 keep_alive (print_login l),
      endian_load-endian_store 2 keep_alive,
      parse_login-print_login flags clean_session l h p f (connect_flags-WillFlags clean_session l),
    )
