-- ===== src/Protocol/Codec/Safety/V5.antt =====
-- The reads of the v5 parsers, packet/impl/v5_*.ipp.
use async_mqtt_cpp.Prelude.{
  ℕ, zero, suc, ◌+◌, ◌/◌, ◌≤◌, ◌≡◌, ◌≢◌, refl, Bool, true, false, if◌then◌else◌, List, [], ◌∷◌,
  ◌++◌, none, some, ◌==◌, ltb, length, take, drop, arith,
}
use async_mqtt_cpp.Util.VariableBytes.{val_to_variable_bytes}
use async_mqtt_cpp.Protocol.Packet.{Bytes, TopicSubopts}
use async_mqtt_cpp.Protocol.Codec.Result.{Result, ok, err, ◌>>=◌, malformed_packet, or_malformed}
use async_mqtt_cpp.Protocol.Codec.FixedHeader.{
  ControlPacketType, connack, fixed_header, is_type, get_control_packet_type_with_check,
}
use async_mqtt_cpp.Protocol.Codec.Fields.{
  front, insert_advance, insert_advance_variable_length-val_to_variable_bytes,
}
use async_mqtt_cpp.Protocol.Codec.PropertyLocation.{PropertyLocation, is_in}
use async_mqtt_cpp.Protocol.Codec.V5
use async_mqtt_cpp.Protocol.Codec.Safety.{
  IsInside, ok_inside, err_inside, bind-IsInside, if_IsInside, unless-IsInside,
  or_malformed-IsInside, in_connect-IsInside, fixed_header-IsInside, text-IsInside, binary-IsInside,
  parse_packet_id-IsInside,
}
use async_mqtt_cpp.Protocol.Codec.Safety.Properties.{make_properties-IsInside}
use async_mqtt_cpp.Protocol.Codec.Safety.V311.{
  parse_topics-IsInside, parse_user_name-IsInside, parse_password-IsInside,
}

pub parse_section-IsInside :
    (loc : PropertyLocation) (buf : Bytes) → IsInside (V5.Section.parse_section loc buf)
unfolding V5.Section.parse_section
parse_section-IsInside loc buf =
    search (bind-IsInside, ok_inside, or_malformed-IsInside, make_properties-IsInside) depth 14

pub parse_publish-IsInside : (n : ℕ) (buf : Bytes) → IsInside (V5.Publish.parse_publish n buf)
unfolding V5.Publish.parse_publish
parse_publish-IsInside n buf =
    search
      (
        bind-IsInside, ok_inside, or_malformed-IsInside, text-IsInside, parse_packet_id-IsInside,
        parse_section-IsInside,
      )
      depth 14

check_opts-IsInside : (e : TopicSubopts) → IsInside (V5.Subscribe.check_opts e)
unfolding V5.Subscribe.check_opts
check_opts-IsInside e = search (bind-IsInside, ok_inside, unless-IsInside) depth 14

parse_entries-IsInside : (fuel : ℕ) (buf : Bytes) → IsInside (V5.Subscribe.parse_entries fuel buf)
unfolding V5.Subscribe.parse_entries
parse_entries-IsInside fuel [] = ok_inside []
parse_entries-IsInside zero (b ∷ buf) = err_inside malformed_packet
parse_entries-IsInside (suc n) (b ∷ buf) =
    search
      (
        bind-IsInside,
        ok_inside,
        or_malformed-IsInside,
        text-IsInside,
        check_opts-IsInside,
        parse_entries-IsInside n,
      )
      depth 14

pub parse_subscribe-IsInside : (n : ℕ) (buf : Bytes) → IsInside (V5.Subscribe.parse_subscribe n buf)
unfolding V5.Subscribe.parse_subscribe
parse_subscribe-IsInside n buf =
    search
      (
        bind-IsInside, ok_inside, unless-IsInside, or_malformed-IsInside, fixed_header-IsInside,
        parse_section-IsInside, parse_entries-IsInside,
      )
      depth 20

parse_codes-IsInside : (codes : List ℕ) (buf : Bytes) → IsInside (V5.Lists.parse_codes codes buf)
unfolding V5.Lists.parse_codes
parse_codes-IsInside codes [] = ok_inside []
parse_codes-IsInside codes (rc ∷ buf) =
    search (bind-IsInside, ok_inside, unless-IsInside, parse_codes-IsInside codes buf) depth 14

parse_list-IsInside :
    (n : ℕ) (t : ControlPacketType) (loc : PropertyLocation) (buf : Bytes)
    → IsInside (V5.Lists.parse_list n t loc buf)
unfolding V5.Lists.parse_list
parse_list-IsInside n t loc buf =
    search
      (
        bind-IsInside, ok_inside, unless-IsInside, or_malformed-IsInside, fixed_header-IsInside,
        parse_section-IsInside,
      )
      depth 20

pub parse_unsubscribe-IsInside : (n : ℕ) (buf : Bytes) → IsInside (V5.Lists.parse_unsubscribe n buf)
unfolding V5.Lists.parse_unsubscribe
parse_unsubscribe-IsInside n buf =
    search (bind-IsInside, ok_inside, parse_list-IsInside, parse_topics-IsInside) depth 14

pub parse_suback-IsInside : (n : ℕ) (buf : Bytes) → IsInside (V5.Lists.parse_suback n buf)
unfolding V5.Lists.parse_suback
parse_suback-IsInside n buf =
    search (bind-IsInside, ok_inside, parse_list-IsInside, parse_codes-IsInside) depth 14

pub parse_unsuback-IsInside : (n : ℕ) (buf : Bytes) → IsInside (V5.Lists.parse_unsuback n buf)
unfolding V5.Lists.parse_unsuback
parse_unsuback-IsInside n buf =
    search (bind-IsInside, ok_inside, parse_list-IsInside, parse_codes-IsInside) depth 14

connect_section-IsInside :
    (loc : PropertyLocation) (buf : Bytes) → IsInside (V5.Connect.parse_section loc buf)
unfolding V5.Connect.parse_section
connect_section-IsInside loc buf =
    search
      (
        bind-IsInside, ok_inside, in_connect-IsInside, or_malformed-IsInside,
        make_properties-IsInside,
      )
      depth 14

parse_will-IsInside : (flags : ℕ) (buf : Bytes) → IsInside (V5.Connect.parse_will flags buf)
unfolding V5.Connect.parse_will
parse_will-IsInside flags buf =
    search
      (
        if_IsInside, bind-IsInside, ok_inside, unless-IsInside, in_connect-IsInside,
        or_malformed-IsInside, text-IsInside, binary-IsInside, connect_section-IsInside,
      )
      depth 14

parse_login-IsInside : (flags : ℕ) (buf : Bytes) → IsInside (V5.Connect.parse_login flags buf)
unfolding V5.Connect.parse_login
parse_login-IsInside flags buf =
    search
      (
        bind-IsInside, ok_inside, in_connect-IsInside, text-IsInside, parse_will-IsInside,
        parse_user_name-IsInside, parse_password-IsInside,
      )
      depth 14

pub parse_connect-IsInside : (buf : Bytes) → IsInside (V5.Connect.parse_connect buf)
unfolding V5.Connect.parse_connect
parse_connect-IsInside buf =
    search
      (
        bind-IsInside, ok_inside, unless-IsInside, in_connect-IsInside, or_malformed-IsInside,
        fixed_header-IsInside, connect_section-IsInside, parse_login-IsInside,
      )
      depth 24

if_true-IsInside {ℓ} :
    {A : Type ℓ} (b : Bool) (x y : Result A) → b ≡ true → IsInside x → IsInside (if b then x else y)
if_true-IsInside true x y e h = h
if_true-IsInside false x y e h = absurd (ground (arith, e))

length-drop : (n : ℕ) (buf : Bytes) → n ≤ length buf → n + length (drop n buf) ≡ length buf
length-drop zero buf h = omega arith
length-drop (suc n) [] h = absurd (omega arith)
length-drop (suc n) (b ∷ buf) h = omega (arith, length-drop n buf)

if_advance {ℓ} :
    {A : Type ℓ} {B : Type 0} (short : Bool) (b : B) (f : B → Result A)
    → (short ≡ false → IsInside (f b))
    → IsInside (or_malformed (if short then none else some b) >>= f)
if_advance true b f h = err_inside malformed_packet
if_advance false b f h = h refl

not_short : (size n : ℕ) → ltb size n ≡ false → n ≤ size
not_short size n e = ground (arith, e)

-- A step behind a field of `n` bytes knows how many bytes are left.
advance-IsInside {ℓ} :
    {A : Type ℓ} (n : ℕ) (buf : Bytes) (f : Bytes × Bytes → Result A)
    → ((field rest : Bytes) → n + length rest ≡ length buf → IsInside (f (field, rest)))
    → IsInside (or_malformed (insert_advance n buf) >>= f)
unfolding insert_advance
advance-IsInside n buf f h =
    if_advance (ltb (length buf) n) (take n buf, drop n buf) f
      (λ e. h (take n buf) (drop n buf) (length-drop n buf (not_short (length buf) n e)))

-- What stands before the reason code ends where the remaining length says that it does.
parse_reason-IsInside :
    (n m : ℕ) (loc : PropertyLocation) (codes : List ℕ) (remaining : ℕ) (buf : Bytes)
    → remaining ≡ n + length buf
    → IsInside (V5.Reason.parse_reason n m loc codes remaining buf)
unfolding V5.Reason.parse_reason front
parse_reason-IsInside n m loc codes remaining [] e =
    if_true-IsInside (remaining == n) _ _ (ground (arith, e)) (ok_inside _)
parse_reason-IsInside n m loc codes remaining (b ∷ buf) e =
    search (bind-IsInside, ok_inside, if_IsInside, unless-IsInside, parse_section-IsInside) depth 14

pub parse_ack-IsInside :
    (n : ℕ) (loc : PropertyLocation) (codes : List ℕ) (h : ℕ) (body : Bytes)
    → length body ≤ 0xfffffff
    → IsInside (V5.Acks.parse_ack n loc codes (h ∷ (val_to_variable_bytes (length body) ++ body)))
unfolding V5.Acks.parse_ack front
parse_ack-IsInside n loc codes h body l =
    rw (insert_advance_variable_length-val_to_variable_bytes (length body) body l) (
      advance-IsInside n body _ (λ field rest e.
        bind-IsInside _ _
          (parse_reason-IsInside n 3 loc codes (length body) rest (omega (arith, e)))
          (λ r. ok_inside _)))

pub parse_ending-IsInside :
    (loc : PropertyLocation) (codes : List ℕ) (h : ℕ) (body : Bytes)
    → length body ≤ 0xfffffff
    → IsInside
        (V5.Ending.parse_ending loc codes (h ∷ (val_to_variable_bytes (length body) ++ body)))
unfolding V5.Ending.parse_ending front
parse_ending-IsInside loc codes h body l =
    rw (insert_advance_variable_length-val_to_variable_bytes (length body) body l)
      (parse_reason-IsInside 0 1 loc codes (length body) body (omega arith))

connack_body-IsInside :
    (body : Bytes) → length body ≢ 1 → IsInside (V5.Plain.parse_connack_body body)
unfolding V5.Plain.parse_connack_body front
connack_body-IsInside [] h = err_inside malformed_packet
connack_body-IsInside (flags ∷ []) h = absurd (h refl)
connack_body-IsInside (flags ∷ code ∷ body) h =
    bind-IsInside _ _ (unless-IsInside (flags / 2 == 0) malformed_packet) (λ _.
      bind-IsInside _ _ (unless-IsInside (is_in code V5.Plain.connect_codes) malformed_packet) (λ _.
        bind-IsInside _ _ (parse_section-IsInside PropertyLocation.connack body) (λ r.
          bind-IsInside _ _ (unless-IsInside (length r.1 == 0) malformed_packet)
            (λ _. ok_inside _))))

if_ok-IsInside {ℓ} :
    {A : Type ℓ} {B : Type 0} (b : Bool) (x : B) (f : B → Result A)
    → IsInside (f x)
    → IsInside ((if b then ok x else err malformed_packet) >>= f)
if_ok-IsInside true x f h = h
if_ok-IsInside false x f h = err_inside malformed_packet

header-IsInside {ℓ} :
    {A : Type ℓ} (t : ControlPacketType) (h : ℕ) (buf : Bytes) (f : ℕ × Bytes → Result A)
    → IsInside (f (h, buf))
    → IsInside (fixed_header t (h ∷ buf) >>= f)
unfolding fixed_header
header-IsInside t h buf f k =
    if_ok-IsInside (is_type t (get_control_packet_type_with_check h)) (h, buf) f k

pub parse_connack-IsInside :
    (h : ℕ) (body : Bytes)
    → length body ≤ 0xfffffff
    → length body ≢ 1
    → IsInside (V5.Plain.parse_connack (h ∷ (val_to_variable_bytes (length body) ++ body)))
unfolding V5.Plain.parse_connack
parse_connack-IsInside h body l e =
    let sized = val_to_variable_bytes (length body) ++ body in
    header-IsInside connack h sized _ (
      rw (insert_advance_variable_length-val_to_variable_bytes (length body) body l) (
        bind-IsInside _ _ (unless-IsInside (length body == length body) malformed_packet)
          (λ _. connack_body-IsInside body e)))
