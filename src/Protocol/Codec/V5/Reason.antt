-- ===== src/Protocol/Codec/V5/Reason.antt =====
-- The optional reason code with the optional properties, as packet/impl/v5_puback.ipp,
-- v5_pubrec.ipp, v5_pubrel.ipp, v5_pubcomp.ipp, v5_disconnect.ipp and v5_auth.ipp all have them.
use async_mqtt_cpp.Prelude.{
  ℕ, suc, ◌+◌, ◌≤◌, ◌<◌, ◌≡◌, refl, true, if◌then◌else◌, ◌==◌, Option, none, some, List, [], ◌∷◌,
  length, length-append, append_nil, arith,
}
use async_mqtt_cpp.Util.VariableBytes.{val_to_variable_bytes, length-val_to_variable_bytes}
use async_mqtt_cpp.Protocol.Packet.{Bytes, Property, Properties}
use async_mqtt_cpp.Protocol.Codec.Result.{
  Result, ok, err, ◌>>=◌, ◌>>◌, malformed_packet, unless, or_fault,
}
use async_mqtt_cpp.Protocol.Codec.Fields.{front, insert_advance_variable_length}
use async_mqtt_cpp.Protocol.Codec.PropertyLocation.{PropertyLocation, is_in}
use async_mqtt_cpp.Protocol.Codec.Property.{print_property, print_properties}
use async_mqtt_cpp.Protocol.Codec.Property.RoundTrip.{AreProperties}
use async_mqtt_cpp.Protocol.Codec.V5.Section.{
  property_length, print_section, parse_section, parse_section-print_section, property_length-le,
}

-- Behind the reason code: nothing where there are no properties.
abbrev pub print_props : Properties → Bytes
print_props [] = []
print_props (p ∷ ps) = print_section (p ∷ ps)

abbrev pub print_reason : Option ℕ → Properties → Bytes
print_reason none ps = []
print_reason (some code) ps = code ∷ print_props ps

property_length-pos : (p : Property) (ps : Properties) → 0 < property_length (p ∷ ps)
unfolding property_length print_properties print_property
property_length-pos p ps = omega arith

-- The length and at least the identifier of the first property.
length-print_section : (p : Property) (ps : Properties) → 2 ≤ length (print_section (p ∷ ps))
unfolding print_section property_length
length-print_section p ps =
    let size = property_length (p ∷ ps) in
    ground (
      arith,
      length-append (val_to_variable_bytes size) (print_properties (p ∷ ps)),
      length-val_to_variable_bytes size,
      property_length-pos p ps,
    )

-- What the constructors and the parsers agree on: a reason code of the packet, no properties without
-- one, and sizes that tell the cases apart.
abbrev pub IsReason :
    (without_code without_props : ℕ) (codes : List ℕ) → Option ℕ → Properties → Type 0
IsReason n m codes none [] = Unit
IsReason n m codes none (p ∷ ps) = ⊥
IsReason n m codes (some code) [] = (is_in code codes ≡ true) × (m ≡ suc n)
IsReason n m codes (some code) (p ∷ ps) = (is_in code codes ≡ true) × (m < n + 3)

pub parse_section-nil : (loc : PropertyLocation) → parse_section loc [] ≡ err malformed_packet
unfolding parse_section insert_advance_variable_length
parse_section-nil loc = refl

-- A remaining length of `without_code` ends the packet behind what stands before the reason code, and
-- one of `without_props` behind the reason code.
module _ (without_code without_props : ℕ) where
  unfoldable pub parse_reason :
      PropertyLocation → (codes : List ℕ) → (remaining : ℕ) → Bytes → Result (Option ℕ × Properties)
  unfolding front
  parse_reason loc codes remaining buf =
      if remaining == without_code
      then (do unless (length buf == 0) malformed_packet; ok (none, []))
      else do
        (code, buf) ← or_fault (front buf)
        unless (is_in code codes) malformed_packet
        if remaining == without_props
            then (do unless (length buf == 0) malformed_packet; ok (some code, []))
            else do
              (props, buf) ← parse_section loc buf
              unless (length buf == 0) malformed_packet
              ok (some code, props)

  pub parse_reason-print_reason :
      (loc : PropertyLocation) (codes : List ℕ) (code : Option ℕ) (ps : Properties)
      → IsReason without_code without_props codes code ps
      → AreProperties loc ps
      → property_length ps ≤ 0xfffffff
      → parse_reason loc codes (without_code + length (print_reason code ps)) (print_reason code ps)
        ≡ ok (code, ps)
  unfolding parse_reason
  parse_reason-print_reason loc codes none [] h a l = ground (arith, h)
  parse_reason-print_reason loc codes none (p ∷ ps) h a l = absurd h
  parse_reason-print_reason loc codes (some code) [] h a l = ground (arith, h)
  parse_reason-print_reason loc codes (some code) (p ∷ ps) h a l = ground (
    arith,
    h,
    parse_section-print_section loc (p ∷ ps) [] a l,
    append_nil (print_section (p ∷ ps)),
    length-print_section p ps,
  )

  pub section_size :
      (codes : List ℕ) (code : Option ℕ) (ps : Properties)
      → IsReason without_code without_props codes code ps
      → without_code + length (print_reason code ps) ≤ 0xfffffff
      → property_length ps ≤ 0xfffffff
  unfolding property_length print_properties
  section_size codes none [] h l = ground arith
  section_size codes none (p ∷ ps) h l = absurd h
  section_size codes (some code) [] h l = ground arith
  section_size codes (some code) (p ∷ ps) h l = omega (arith, property_length-le (p ∷ ps))
