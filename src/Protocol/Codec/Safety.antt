-- ===== src/Protocol/Codec/Safety.antt =====
-- What it is for a parser to read inside its buffer, and the steps of the parsers that do.
pub mod Properties
pub mod V311
pub mod V5
pub mod Dispatch
use async_mqtt_cpp.Prelude.{
  ℕ, ◌≡◌, refl, Bool, true, false, if◌then◌else◌, Option, none, some, List, [], ◌∷◌, arith,
}
use async_mqtt_cpp.Protocol.Event.{ErrorCode}
use async_mqtt_cpp.Protocol.Packet.{Bytes, Qos, at_most_once, at_least_once, exactly_once}
use async_mqtt_cpp.Protocol.Codec.Result.{
  Result, ok, err, fault, ◌>>=◌, ◌>>◌, unless, or_malformed, malformed_packet,
}
use async_mqtt_cpp.Protocol.Codec.FixedHeader.{
  ControlPacketType, fixed_header, is_type, get_control_packet_type_with_check,
}
use async_mqtt_cpp.Protocol.Codec.Fields.{text, binary}
use async_mqtt_cpp.Protocol.Codec.V311.Publish.{parse_packet_id}
use async_mqtt_cpp.Protocol.Codec.V311.Connect.{in_connect, malformed_connect}

-- The buffer is not read outside of its bytes.
pub data IsInside {ℓ} {A : Type ℓ} : Result A → Type ℓ where
  ok_inside : (a : A) → IsInside (ok a)
  err_inside : (e : ErrorCode) → IsInside (err e)

pub bind-IsInside {ℓ κ} :
    {A : Type ℓ} {B : Type κ} (m : Result A) (f : A → Result B)
    → IsInside m
    → ((a : A) → IsInside (f a))
    → IsInside (m >>= f)
bind-IsInside (ok a) f h k = k a
bind-IsInside (err e) f h k = err_inside e
bind-IsInside fault f h k = elim h [ ]

pub unless-IsInside : (b : Bool) (e : ErrorCode) → IsInside (unless b e)
unless-IsInside true e = ok_inside tt
unless-IsInside false e = err_inside e

pub or_malformed-IsInside {ℓ} : {A : Type ℓ} (o : Option A) → IsInside (or_malformed o)
or_malformed-IsInside none = err_inside malformed_packet
or_malformed-IsInside (some a) = ok_inside a

pub in_connect-IsInside {ℓ} : {A : Type ℓ} (r : Result A) → IsInside r → IsInside (in_connect r)
in_connect-IsInside (ok a) h = ok_inside a
in_connect-IsInside (err e) h = err_inside malformed_connect
in_connect-IsInside fault h = h

pub if_IsInside {ℓ} :
    {A : Type ℓ} (b : Bool) (x y : Result A)
    → IsInside x
    → IsInside y
    → IsInside (if b then x else y)
if_IsInside true x y h k = h
if_IsInside false x y h k = k

pub fixed_header-IsInside : (t : ControlPacketType) (buf : Bytes) → IsInside (fixed_header t buf)
unfolding fixed_header
fixed_header-IsInside t [] = err_inside malformed_packet
fixed_header-IsInside t (h ∷ buf) =
    if_IsInside (is_type t (get_control_packet_type_with_check h)) _ _ (ok_inside _) (err_inside _)

pub text-IsInside : (buf : Bytes) → IsInside (text buf)
unfolding text binary
text-IsInside buf = search (bind-IsInside, ok_inside, unless-IsInside, or_malformed-IsInside)

pub parse_packet_id-IsInside :
    (n : ℕ) (q : Option Qos) (buf : Bytes) → IsInside (parse_packet_id n q buf)
unfolding parse_packet_id
parse_packet_id-IsInside n none buf = err_inside malformed_packet
parse_packet_id-IsInside n (some at_most_once) buf = search (ok_inside)
parse_packet_id-IsInside n (some at_least_once) buf =
    search (bind-IsInside, ok_inside, or_malformed-IsInside)
parse_packet_id-IsInside n (some exactly_once) buf =
    search (bind-IsInside, ok_inside, or_malformed-IsInside)

pub binary-IsInside : (buf : Bytes) → IsInside (binary buf)
unfolding binary
binary-IsInside buf = search (bind-IsInside, or_malformed-IsInside)

-- A step behind a test is taken where the test holds.
pub when-IsInside {ℓ} :
    {A : Type ℓ} (b : Bool) (r : Result A)
    → (b ≡ true → IsInside r)
    → IsInside (unless b malformed_packet >> r)
when-IsInside true r h = h refl
when-IsInside false r h = err_inside malformed_packet
