-- ===== src/Protocol/Codec/V311/Plain.antt =====
-- packet/impl/v3_1_1_connack.ipp, v3_1_1_pingreq.ipp, v3_1_1_pingresp.ipp and
-- v3_1_1_disconnect.ipp: packets of a fixed size without an identifier.
use async_mqtt_cpp.Prelude.{
  ℕ, ◌/◌, ◌%◌, ◌≤◌, ◌≡◌, refl, Bool, true, false, if◌then◌else◌, ◌==◌, leb, [], ◌∷◌, length, arith,
}
use async_mqtt_cpp.Protocol.Packet.{
  Bytes, Packet, v3_1_1_connack, v3_1_1_pingreq, v3_1_1_pingresp, v3_1_1_disconnect,
}
use async_mqtt_cpp.Protocol.Codec.Result.{
  Result, ok, ◌>>=◌, ◌>>◌, malformed_packet, unless, or_malformed,
}
use async_mqtt_cpp.Protocol.Codec.FixedHeader.{
  ControlPacketType, connack, pingreq, pingresp, disconnect, make_fixed_header, fixed_header,
  are_flags, fixed_header-make_fixed_header,
}
use async_mqtt_cpp.Protocol.Codec.Fields.{front}

unfoldable pub print_connack : (session_present : Bool) (code : ℕ) → Bytes
print_connack session_present code =
    make_fixed_header connack 0 ∷ 2 ∷ (if session_present then 1 else 0) ∷ code ∷ []

unfoldable pub parse_connack : Bytes → Result Packet
unfolding front
parse_connack buf = do
  (_, buf) ← fixed_header connack buf
  (remaining_length, buf) ← or_malformed (front buf)
  unless (remaining_length == 2) malformed_packet
  unless (length buf == 2) malformed_packet
  (flags, buf) ← or_malformed (front buf)
  unless (flags / 2 == 0) malformed_packet
  (code, buf) ← or_malformed (front buf)
  unless (leb code 5) malformed_packet
  ok (v3_1_1_connack (flags % 2 == 1) code)

-- What stands behind the remaining length is not looked at.
unfoldable pub parse_empty : ControlPacketType → Bytes → Result (Unit {0})
unfolding front
parse_empty t buf = do
  (_, buf) ← fixed_header t buf
  (remaining_length, buf) ← or_malformed (front buf)
  unless (remaining_length == 0) malformed_packet
  ok tt

unfoldable pub print_pingreq : Bytes
print_pingreq = make_fixed_header pingreq 0 ∷ 0 ∷ []

unfoldable pub parse_pingreq : Bytes → Result Packet
unfolding parse_empty
parse_pingreq buf = do parse_empty pingreq buf; ok v3_1_1_pingreq

unfoldable pub print_pingresp : Bytes
print_pingresp = make_fixed_header pingresp 0 ∷ 0 ∷ []

unfoldable pub parse_pingresp : Bytes → Result Packet
unfolding parse_empty
parse_pingresp buf = do parse_empty pingresp buf; ok v3_1_1_pingresp

unfoldable pub print_disconnect : Bytes
print_disconnect = make_fixed_header disconnect 0 ∷ 0 ∷ []

unfoldable pub parse_disconnect : Bytes → Result Packet
unfolding parse_empty
parse_disconnect buf = do parse_empty disconnect buf; ok v3_1_1_disconnect

pub parse_connack-print_connack :
    (session_present : Bool) (code : ℕ)
    → code ≤ 5
    → parse_connack (print_connack session_present code) ≡ ok (v3_1_1_connack session_present code)
unfolding parse_connack print_connack are_flags
parse_connack-print_connack true code h =
    ground (arith, fixed_header-make_fixed_header connack 0 (2 ∷ 1 ∷ code ∷ []) (omega arith) refl)
parse_connack-print_connack false code h =
    ground (arith, fixed_header-make_fixed_header connack 0 (2 ∷ 0 ∷ code ∷ []) (omega arith) refl)
