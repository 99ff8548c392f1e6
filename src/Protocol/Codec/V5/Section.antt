-- ===== src/Protocol/Codec/V5/Section.antt =====
-- The properties of a v5 packet with their length, as every constructor and every parser of
-- packet/impl/v5_*.ipp has them.
use async_mqtt_cpp.Prelude.{ℕ, ◌≤◌, ◌≡◌, ◌++◌, length, length-append, append_assoc, arith}
use async_mqtt_cpp.Util.VariableBytes.{val_to_variable_bytes}
use async_mqtt_cpp.Protocol.Packet.{Bytes, Properties}
use async_mqtt_cpp.Protocol.Codec.Result.{Result, ok, ◌>>=◌, or_malformed}
use async_mqtt_cpp.Protocol.Codec.Fields.{
  insert_advance, insert_advance_variable_length, insert_advance-append,
  insert_advance_variable_length-val_to_variable_bytes,
}
use async_mqtt_cpp.Protocol.Codec.PropertyLocation.{PropertyLocation}
use async_mqtt_cpp.Protocol.Codec.Property.{make_properties, print_properties}
use async_mqtt_cpp.Protocol.Codec.Property.RoundTrip.{
  AreProperties, make_properties-print_properties,
}

-- property_length_: size(props), the sum of the sizes.
unfoldable pub property_length : Properties → ℕ
property_length ps = length (print_properties ps)

-- property_length_buf_ and the properties behind it.
unfoldable pub print_section : Properties → Bytes
unfolding property_length
print_section ps = val_to_variable_bytes (property_length ps) ++ print_properties ps

unfoldable pub parse_section : PropertyLocation → Bytes → Result (Properties × Bytes)
unfolding insert_advance insert_advance_variable_length
parse_section loc buf = do
  (property_length, buf) ← or_malformed (insert_advance_variable_length buf)
  (prop_buf, buf) ← or_malformed (insert_advance property_length buf)
  props ← make_properties loc prop_buf
  ok (props, buf)

pub parse_section-print_section :
    (loc : PropertyLocation) (ps : Properties) (buf : Bytes)
    → AreProperties loc ps
    → property_length ps ≤ 0xfffffff
    → parse_section loc (print_section ps ++ buf) ≡ ok (ps, buf)
unfolding parse_section print_section property_length
parse_section-print_section loc ps buf h l = ground (
  arith,
  append_assoc (val_to_variable_bytes (property_length ps)) (print_properties ps) buf,
  insert_advance_variable_length-val_to_variable_bytes (property_length ps)
      (print_properties ps ++ buf) l,
  insert_advance-append (length (print_properties ps)) (print_properties ps) buf,
  make_properties-print_properties loc ps h,
)

pub property_length-le : (ps : Properties) → property_length ps ≤ length (print_section ps)
unfolding print_section property_length
property_length-le ps =
    omega (arith, length-append (val_to_variable_bytes (property_length ps)) (print_properties ps))
