-- ===== src/Protocol/Codec/V5/Plain.antt =====
-- packet/impl/v5_connack.ipp, v5_pingreq.ipp and v5_pingresp.ipp.
use async_mqtt_cpp.Prelude.{
  ℕ, ◌+◌, ◌/◌, ◌%◌, ◌≤◌, ◌≡◌, refl, Bool, true, if◌then◌else◌, ◌==◌, List, [], ◌∷◌, ◌++◌, length,
  append_nil, arith,
}
use async_mqtt_cpp.Util.VariableBytes.{val_to_variable_bytes}
use async_mqtt_cpp.Protocol.Packet.{Bytes, Packet, Properties, v5_connack, v5_pingreq, v5_pingresp}
use async_mqtt_cpp.Protocol.Codec.Result.{
  Result, ok, ◌>>=◌, ◌>>◌, malformed_packet, unless, or_malformed, or_fault,
}
use async_mqtt_cpp.Protocol.Codec.FixedHeader.{
  connack, pingreq, pingresp, make_fixed_header, fixed_header, are_flags,
  fixed_header-make_fixed_header,
}
use async_mqtt_cpp.Protocol.Codec.Fields.{
  front, insert_advance_variable_length, insert_advance_variable_length-val_to_variable_bytes,
}
use async_mqtt_cpp.Protocol.Codec.PropertyLocation.{PropertyLocation, is_in}
use async_mqtt_cpp.Protocol.Codec.Property.RoundTrip.{AreProperties}
use async_mqtt_cpp.Protocol.Codec.V311.Plain.{parse_empty}
use async_mqtt_cpp.Protocol.Codec.V5.Section.{
  property_length, print_section, parse_section, parse_section-print_section,
}

-- connect_reason_code
abbrev pub connect_codes : List ℕ
connect_codes =
    0x00 ∷ 0x80 ∷ 0x81 ∷ 0x82 ∷ 0x83 ∷ 0x84 ∷ 0x85 ∷ 0x86 ∷ 0x87 ∷ 0x88 ∷ 0x89 ∷ 0x8a ∷ 0x8c ∷ 0x90
    ∷ 0x95 ∷ 0x97 ∷ 0x99 ∷ 0x9a ∷ 0x9b ∷ 0x9c ∷ 0x9d ∷ 0x9f ∷ []

unfoldable pub remaining_length : Properties → ℕ
remaining_length ps = 1 + 1 + length (print_section ps)

unfoldable pub print_connack : (session_present : Bool) (code : ℕ) → Properties → Bytes
unfolding remaining_length
print_connack session_present code ps =
    make_fixed_header connack 0
    ∷ (val_to_variable_bytes (remaining_length ps)
        ++ ((if session_present then 1 else 0) ∷ code ∷ print_section ps))

-- What stands behind the remaining length. The reason code is read with no test that there is one.
unfoldable pub parse_connack_body : Bytes → Result Packet
unfolding front
parse_connack_body buf = do
  (flags, buf) ← or_malformed (front buf)
  unless (flags / 2 == 0) malformed_packet
  (code, buf) ← or_fault (front buf)
  unless (is_in code connect_codes) malformed_packet
  (props, buf) ← parse_section PropertyLocation.connack buf
  unless (length buf == 0) malformed_packet
  ok (v5_connack (flags % 2 == 1) code props)

unfoldable pub parse_connack : Bytes → Result Packet
parse_connack buf = do
  (_, buf) ← fixed_header connack buf
  (remaining, buf) ← or_malformed (insert_advance_variable_length buf)
  unless (remaining == length buf) malformed_packet
  parse_connack_body buf

unfoldable pub print_pingreq : Bytes
print_pingreq = make_fixed_header pingreq 0 ∷ 0 ∷ []

unfoldable pub parse_pingreq : Bytes → Result Packet
unfolding parse_empty
parse_pingreq buf = do parse_empty pingreq buf; ok v5_pingreq

unfoldable pub print_pingresp : Bytes
print_pingresp = make_fixed_header pingresp 0 ∷ 0 ∷ []

unfoldable pub parse_pingresp : Bytes → Result Packet
unfolding parse_empty
parse_pingresp buf = do parse_empty pingresp buf; ok v5_pingresp

pub parse_connack-print_connack :
    (session_present : Bool) (code : ℕ) (ps : Properties)
    → is_in code connect_codes ≡ true
    → AreProperties PropertyLocation.connack ps
    → property_length ps ≤ 0xfffffff
    → remaining_length ps ≤ 0xfffffff
    → parse_connack (print_connack session_present code ps)
      ≡ ok (v5_connack session_present code ps)
unfolding parse_connack parse_connack_body print_connack remaining_length are_flags front
parse_connack-print_connack session_present code ps h a l s =
    let flags : ℕ = if session_present then 1 else 0 in
    let body : Bytes = flags ∷ code ∷ print_section ps in
    ground (
      arith,
      h,
      fixed_header-make_fixed_header connack 0 (val_to_variable_bytes (remaining_length ps) ++ body)
          (omega arith) refl,
      insert_advance_variable_length-val_to_variable_bytes (remaining_length ps) body s,
      append_nil (print_section ps),
      parse_section-print_section PropertyLocation.connack ps [] a l,
    )
