-- ===== src/Protocol/Codec/Safety/Properties.antt =====
-- The reads of make_properties and of the switch of make_property_variant,
-- packet/impl/property_variant.ipp.
use async_mqtt_cpp.Prelude.{
  ℕ, zero, suc, ◌≡◌, ◌≢◌, refl, Bool, true, ◌&&◌, ltb, leb, List, [], ◌∷◌, length, arith,
}
use native.Mathlib.Decide.{ℕ_discrete}
use async_mqtt_cpp.Protocol.Packet.{Bytes, Property}
use async_mqtt_cpp.Protocol.Codec.Result.{Result, malformed_packet, protocol_error}
use async_mqtt_cpp.Protocol.Codec.PropertyLocation.{
  PropertyLocation, allowed, validate_property, is_in, connect, will, connack, publish, puback,
  pubrec, pubrel, pubcomp, subscribe, suback, unsubscribe, unsuback, disconnect, auth,
}
use async_mqtt_cpp.Protocol.Codec.Property.{
  n_bytes, any_value, at_most_one, positive, string_property, binary_property,
  parse_subscription_identifier, parse_user_property, parse_value, make_property_variant,
  properties_loop, make_properties,
}
use async_mqtt_cpp.Protocol.Codec.Safety.{
  IsInside, ok_inside, err_inside, bind-IsInside, when-IsInside, unless-IsInside,
  or_malformed-IsInside, text-IsInside, binary-IsInside,
}

n_bytes-IsInside :
    (n : ℕ) (test : ℕ → Result (Unit {0})) (make : ℕ → Property) (buf : Bytes)
    → ((v : ℕ) → IsInside (test v))
    → IsInside (n_bytes n test make buf)
unfolding n_bytes
n_bytes-IsInside n test make buf h =
    search (bind-IsInside, ok_inside, or_malformed-IsInside, h) depth 8

string_property-IsInside :
    (make : Bytes → Property) (buf : Bytes) → IsInside (string_property make buf)
unfolding string_property
string_property-IsInside make buf = search (bind-IsInside, ok_inside, text-IsInside) depth 8

binary_property-IsInside :
    (make : Bytes → Property) (buf : Bytes) → IsInside (binary_property make buf)
unfolding binary_property
binary_property-IsInside make buf = search (bind-IsInside, ok_inside, binary-IsInside) depth 8

parse_subscription_identifier-IsInside :
    (buf : Bytes) → IsInside (parse_subscription_identifier buf)
unfolding parse_subscription_identifier
parse_subscription_identifier-IsInside buf =
    search (bind-IsInside, ok_inside, unless-IsInside, or_malformed-IsInside) depth 8

parse_user_property-IsInside : (buf : Bytes) → IsInside (parse_user_property buf)
unfolding parse_user_property
parse_user_property-IsInside buf =
    search (bind-IsInside, ok_inside, unless-IsInside, binary-IsInside) depth 12

any-IsInside : (v : ℕ) → IsInside (any_value v)
any-IsInside v = ok_inside tt

-- The identifiers of the switch.
abbrev known : List ℕ
known =
    1 ∷ 2 ∷ 3 ∷ 8 ∷ 9 ∷ 11 ∷ 17 ∷ 18 ∷ 19 ∷ 21 ∷ 22 ∷ 23 ∷ 24 ∷ 25 ∷ 26 ∷ 28 ∷ 31 ∷ 33 ∷ 34 ∷ 35
    ∷ 36 ∷ 37 ∷ 38 ∷ 39 ∷ 40 ∷ 41 ∷ 42 ∷ []

not_here : (id x : ℕ) (xs : List ℕ) → id ≢ x → is_in id (x ∷ xs) ≡ true → is_in id xs ≡ true
not_here id x xs p e = ground (arith, p, e)

-- What holds for each number of a list holds for a number in the list.
infixr 5 ◌&◌
data Each (P : ℕ → Type 0) : List ℕ → Type 0 where
  end : Each P []
  ◌&◌ : {x : ℕ} {xs : List ℕ} → P x → Each P xs → Each P (x ∷ xs)

each_in : (P : ℕ → Type 0) (id : ℕ) (xs : List ℕ) → Each P xs → is_in id xs ≡ true → P id
each_in P id [] h e = absurd (ground arith)
each_in P id (x ∷ xs) (h & hs) e = elim (ℕ_discrete id x) [
  | yes p ↦ rw p h
  | no p ↦ each_in P id xs hs (not_here id x xs p e)
]

abbrev all_known : List ℕ → Bool
all_known [] = true
all_known (x ∷ xs) = is_in x known && all_known xs

and_left : (a b : Bool) → a && b ≡ true → a ≡ true
and_left a b h = ground (arith, h)

and_right : (a b : Bool) → a && b ≡ true → b ≡ true
and_right a b h = ground (arith, h)

all_known_lem :
    (id : ℕ) (xs : List ℕ) → all_known xs ≡ true → is_in id xs ≡ true → is_in id known ≡ true
all_known_lem id [] h e = absurd (ground arith)
all_known_lem id (x ∷ xs) h e = elim (ℕ_discrete id x) [
  | yes p ↦ rw p (and_left (is_in x known) (all_known xs) h)
  | no p ↦ all_known_lem id xs (and_right (is_in x known) (all_known xs) h) (not_here id x xs p e)
]

validate_property-known :
    (loc : PropertyLocation) (id : ℕ) → validate_property loc id ≡ true → is_in id known ≡ true
unfolding validate_property
validate_property-known connect id h = all_known_lem id (allowed connect) refl h
validate_property-known will id h = all_known_lem id (allowed will) refl h
validate_property-known connack id h = all_known_lem id (allowed connack) refl h
validate_property-known publish id h = all_known_lem id (allowed publish) refl h
validate_property-known puback id h = all_known_lem id (allowed puback) refl h
validate_property-known pubrec id h = all_known_lem id (allowed pubrec) refl h
validate_property-known pubrel id h = all_known_lem id (allowed pubrel) refl h
validate_property-known pubcomp id h = all_known_lem id (allowed pubcomp) refl h
validate_property-known subscribe id h = all_known_lem id (allowed subscribe) refl h
validate_property-known suback id h = all_known_lem id (allowed suback) refl h
validate_property-known unsubscribe id h = all_known_lem id (allowed unsubscribe) refl h
validate_property-known unsuback id h = all_known_lem id (allowed unsuback) refl h
validate_property-known disconnect id h = all_known_lem id (allowed disconnect) refl h
validate_property-known auth id h = all_known_lem id (allowed auth) refl h

parse_value-IsInside :
    (id : ℕ) (buf : Bytes) → is_in id known ≡ true → IsInside (parse_value id buf)
unfolding parse_value
parse_value-IsInside id buf h =
    each_in (λ (i : ℕ). IsInside (parse_value i buf)) id known
      (n_bytes-IsInside 1 (at_most_one malformed_packet) Property.payload_format_indicator buf
          (λ v. unless-IsInside (leb v 1) malformed_packet)
        & n_bytes-IsInside 4 any_value Property.message_expiry_interval buf any-IsInside
        & string_property-IsInside Property.content_type buf
        & string_property-IsInside Property.response_topic buf
        & binary_property-IsInside Property.correlation_data buf
        & parse_subscription_identifier-IsInside buf
        & n_bytes-IsInside 4 any_value Property.session_expiry_interval buf any-IsInside
        & string_property-IsInside Property.assigned_client_identifier buf
        & n_bytes-IsInside 2 any_value Property.server_keep_alive buf any-IsInside
        & string_property-IsInside Property.authentication_method buf
        & binary_property-IsInside Property.authentication_data buf
        & n_bytes-IsInside 1 any_value Property.request_problem_information buf any-IsInside
        & n_bytes-IsInside 4 any_value Property.will_delay_interval buf any-IsInside
        & n_bytes-IsInside 1 any_value Property.request_response_information buf any-IsInside
        & string_property-IsInside Property.response_information buf
        & string_property-IsInside Property.server_reference buf
        & string_property-IsInside Property.reason_string buf
        & n_bytes-IsInside 2 positive Property.receive_maximum buf
            (λ v. unless-IsInside (ltb 0 v) protocol_error)
        & n_bytes-IsInside 2 any_value Property.topic_alias_maximum buf any-IsInside
        & n_bytes-IsInside 2 any_value Property.topic_alias buf any-IsInside
        & n_bytes-IsInside 1 (at_most_one protocol_error) Property.maximum_qos buf
            (λ v. unless-IsInside (leb v 1) protocol_error)
        & n_bytes-IsInside 1 any_value Property.retain_available buf any-IsInside
        & parse_user_property-IsInside buf
        & n_bytes-IsInside 4 positive Property.maximum_packet_size buf
            (λ v. unless-IsInside (ltb 0 v) protocol_error)
        & n_bytes-IsInside 1 any_value Property.wildcard_subscription_available buf any-IsInside
        & n_bytes-IsInside 1 any_value Property.subscription_identifier_available buf any-IsInside
        & n_bytes-IsInside 1 any_value Property.shared_subscription_available buf any-IsInside
        & end)
      h

make_property_variant-IsInside :
    (loc : PropertyLocation) (buf : Bytes) → IsInside (make_property_variant loc buf)
unfolding make_property_variant
make_property_variant-IsInside loc [] = err_inside malformed_packet
make_property_variant-IsInside loc (id ∷ buf) =
    when-IsInside (validate_property loc id) (parse_value id buf)
      (λ e. parse_value-IsInside id buf (validate_property-known loc id e))

properties_loop-IsInside :
    (fuel : ℕ) (loc : PropertyLocation) (buf : Bytes) → IsInside (properties_loop fuel loc buf)
unfolding properties_loop
properties_loop-IsInside fuel loc [] = ok_inside []
properties_loop-IsInside zero loc (b ∷ buf) = err_inside malformed_packet
properties_loop-IsInside (suc n) loc (b ∷ buf) =
    bind-IsInside (make_property_variant loc (b ∷ buf)) _
      (make_property_variant-IsInside loc (b ∷ buf))
      (λ p.
        bind-IsInside (properties_loop n loc p.1) _ (properties_loop-IsInside n loc p.1)
          (λ ps. ok_inside _))

pub make_properties-IsInside :
    (loc : PropertyLocation) (buf : Bytes) → IsInside (make_properties loc buf)
unfolding make_properties
make_properties-IsInside loc buf = properties_loop-IsInside (length buf) loc buf
