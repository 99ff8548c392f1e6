-- ===== src/Protocol/Codec/FixedHeader.antt =====
-- The first byte of a packet: protocol/packet/control_packet_type.hpp and detail/fixed_header.hpp.
use async_mqtt_cpp.Prelude.{
  ℕ, ◌+◌, ◌*◌, ◌/◌, ◌%◌, ◌<◌, ◌≡◌, Bool, true, false, if◌then◌else◌, ◌==◌, Option, none, some, [],
  ◌∷◌, arith,
}
use async_mqtt_cpp.Protocol.Packet.{Bytes}
use async_mqtt_cpp.Protocol.Codec.Result.{Result, ok, err, malformed_packet}

pub data ControlPacketType : Type 0 where
  connect connack publish puback pubrec pubrel pubcomp subscribe suback : ControlPacketType
  unsubscribe unsuback pingreq pingresp disconnect auth : ControlPacketType

-- The enumerator's four upper bits.
unfoldable pub upper_bits : ControlPacketType → ℕ
upper_bits connect = 1
upper_bits connack = 2
upper_bits publish = 3
upper_bits puback = 4
upper_bits pubrec = 5
upper_bits pubrel = 6
upper_bits pubcomp = 7
upper_bits subscribe = 8
upper_bits suback = 9
upper_bits unsubscribe = 10
upper_bits unsuback = 11
upper_bits pingreq = 12
upper_bits pingresp = 13
upper_bits disconnect = 14
upper_bits auth = 15

-- `none` is the reserved value 0.
unfoldable pub get_control_packet_type : ℕ → Option ControlPacketType
get_control_packet_type v =
    let n = v / 16 in
    if n == 1
    then some connect
    else if n == 2
    then some connack
    else if n == 3
    then some publish
    else if n == 4
    then some puback
    else if n == 5
    then some pubrec
    else if n == 6
    then some pubrel
    else if n == 7
    then some pubcomp
    else if n == 8
    then some subscribe
    else if n == 9
    then some suback
    else if n == 10
    then some unsubscribe
    else if n == 11
    then some unsuback
    else if n == 12
    then some pingreq
    else if n == 13
    then some pingresp
    else if n == 14
    then some disconnect
    else if n == 15
    then some auth
    else none

-- control_packet_reserved_bits; `none` where the lower bits carry the publish options.
unfoldable pub reserved_bits : ControlPacketType → Option ℕ
reserved_bits publish = none
reserved_bits pubrel = some 2
reserved_bits subscribe = some 2
reserved_bits unsubscribe = some 2
reserved_bits t = some 0

unfoldable pub get_control_packet_type_with_check : ℕ → Option ControlPacketType
unfolding get_control_packet_type reserved_bits
get_control_packet_type_with_check v = elim (get_control_packet_type v) [
  | none ↦ none
  | some t ↦ elim (reserved_bits t) [
    | none ↦ some t
    | some rsv ↦ if v % 16 == rsv then some t else none
  ]
]

unfoldable pub make_fixed_header : ControlPacketType → (flags : ℕ) → ℕ
unfolding upper_bits
make_fixed_header type flags = upper_bits type * 16 + flags % 16

-- `!cpt_opt || *cpt_opt != t`, the other way round.
unfoldable pub is_type : ControlPacketType → Option ControlPacketType → Bool
unfolding upper_bits
is_type t none = false
is_type t (some u) = upper_bits u == upper_bits t

-- How a parser starts: the first byte and what stands behind it.
unfoldable pub fixed_header : ControlPacketType → Bytes → Result (ℕ × Bytes)
unfolding is_type get_control_packet_type_with_check
fixed_header t [] = err malformed_packet
fixed_header t (h ∷ buf) =
    if is_type t (get_control_packet_type_with_check h) then ok (h, buf) else err malformed_packet

-- The flags that a packet of a type may have.
unfoldable pub are_flags : ControlPacketType → ℕ → Bool
unfolding reserved_bits
are_flags t flags = elim (reserved_bits t) [ none ↦ true | some rsv ↦ flags == rsv ]

pub fixed_header-make_fixed_header :
    (t : ControlPacketType) (flags : ℕ) (buf : Bytes)
    → flags < 16
    → are_flags t flags ≡ true
    → fixed_header t (make_fixed_header t flags ∷ buf) ≡ ok (make_fixed_header t flags, buf)
unfolding fixed_header make_fixed_header are_flags
fixed_header-make_fixed_header connect flags buf h e = ground arith
fixed_header-make_fixed_header connack flags buf h e = ground arith
fixed_header-make_fixed_header publish flags buf h e = ground arith
fixed_header-make_fixed_header puback flags buf h e = ground arith
fixed_header-make_fixed_header pubrec flags buf h e = ground arith
fixed_header-make_fixed_header pubrel flags buf h e = ground arith
fixed_header-make_fixed_header pubcomp flags buf h e = ground arith
fixed_header-make_fixed_header subscribe flags buf h e = ground arith
fixed_header-make_fixed_header suback flags buf h e = ground arith
fixed_header-make_fixed_header unsubscribe flags buf h e = ground arith
fixed_header-make_fixed_header unsuback flags buf h e = ground arith
fixed_header-make_fixed_header pingreq flags buf h e = ground arith
fixed_header-make_fixed_header pingresp flags buf h e = ground arith
fixed_header-make_fixed_header disconnect flags buf h e = ground arith
fixed_header-make_fixed_header auth flags buf h e = ground arith
