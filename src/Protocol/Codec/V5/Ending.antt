-- ===== src/Protocol/Codec/V5/Ending.antt =====
-- packet/impl/v5_disconnect.ipp and v5_auth.ipp.
use async_mqtt_cpp.Prelude.{ℕ, ◌≤◌, ◌≡◌, Option, List, [], ◌∷◌, ◌++◌, length, arith}
use async_mqtt_cpp.Util.VariableBytes.{val_to_variable_bytes}
use async_mqtt_cpp.Protocol.Packet.{Bytes, Packet, Properties, v5_disconnect, v5_auth}
use async_mqtt_cpp.Protocol.Codec.Result.{Result, ok, ◌>>=◌, or_malformed}
use async_mqtt_cpp.Protocol.Codec.FixedHeader.{
  ControlPacketType, disconnect, auth, make_fixed_header,
}
use async_mqtt_cpp.Protocol.Codec.Fields.{
  front, insert_advance_variable_length, insert_advance_variable_length-val_to_variable_bytes,
}
use async_mqtt_cpp.Protocol.Codec.PropertyLocation.{PropertyLocation}
use async_mqtt_cpp.Protocol.Codec.Property.RoundTrip.{AreProperties}
use async_mqtt_cpp.Protocol.Codec.V5.Reason.{
  print_reason, parse_reason, IsReason, parse_reason-print_reason, section_size,
}

-- disconnect_reason_code
abbrev pub disconnect_codes : List ℕ
disconnect_codes =
    0x00 ∷ 0x04 ∷ 0x80 ∷ 0x81 ∷ 0x82 ∷ 0x83 ∷ 0x87 ∷ 0x89 ∷ 0x8b ∷ 0x8d ∷ 0x8e ∷ 0x8f ∷ 0x90 ∷ 0x93
    ∷ 0x94 ∷ 0x95 ∷ 0x96 ∷ 0x97 ∷ 0x98 ∷ 0x99 ∷ 0x9a ∷ 0x9b ∷ 0x9c ∷ 0x9d ∷ 0x9e ∷ 0x9f ∷ 0xa0
    ∷ 0xa1 ∷ 0xa2 ∷ []

-- auth_reason_code
abbrev pub auth_codes : List ℕ
auth_codes = 0x00 ∷ 0x18 ∷ 0x19 ∷ []

unfoldable pub print_ending : ControlPacketType → Option ℕ → Properties → Bytes
print_ending t code ps =
    make_fixed_header t 0
    ∷ (val_to_variable_bytes (length (print_reason code ps)) ++ print_reason code ps)

-- The type and the flags in the first byte are not looked at.
unfoldable pub parse_ending :
    PropertyLocation → (codes : List ℕ) → Bytes → Result (Option ℕ × Properties)
unfolding front
parse_ending loc codes buf = do
  (_, buf) ← or_malformed (front buf)
  (remaining, buf) ← or_malformed (insert_advance_variable_length buf)
  parse_reason 0 1 loc codes remaining buf

unfoldable pub print_disconnect : Option ℕ → Properties → Bytes
unfolding print_ending
print_disconnect code ps = print_ending disconnect code ps

unfoldable pub parse_disconnect : Bytes → Result Packet
unfolding parse_ending
parse_disconnect buf = do
  (code, props) ← parse_ending PropertyLocation.disconnect disconnect_codes buf
  ok (v5_disconnect code props)

unfoldable pub print_auth : Option ℕ → Properties → Bytes
unfolding print_ending
print_auth code ps = print_ending auth code ps

unfoldable pub parse_auth : Bytes → Result Packet
unfolding parse_ending
parse_auth buf = do
  (code, props) ← parse_ending PropertyLocation.auth auth_codes buf
  ok (v5_auth code props)

-- What the constructors and the parsers agree on.
pub record IsEnding (loc : PropertyLocation) (codes : List ℕ) (code : Option ℕ) (ps : Properties)
    : Type 0 where
  pub size : length (print_reason code ps) ≤ 0xfffffff
  pub properties : AreProperties loc ps
  pub reason : IsReason 0 1 codes code ps

pub parse_ending-print_ending :
    (t : ControlPacketType) (loc : PropertyLocation) (codes : List ℕ) (code : Option ℕ)
    (ps : Properties)
    → IsEnding loc codes code ps
    → parse_ending loc codes (print_ending t code ps) ≡ ok (code, ps)
unfolding parse_ending print_ending front
parse_ending-print_ending t loc codes code ps e = ground (
  arith,
  insert_advance_variable_length-val_to_variable_bytes (length (print_reason code ps))
      (print_reason code ps) e.size,
  parse_reason-print_reason 0 1 loc codes code ps e.reason e.properties
      (section_size 0 1 codes code ps e.reason (omega (arith, e.size))),
)
