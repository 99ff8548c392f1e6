-- ===== src/Protocol/Codec/Progress.antt =====
-- What the fields and properties of packet/impl leave of a buffer.
pub mod Entries
use async_mqtt_cpp.Prelude.{
  ℕ, zero, suc, ◌+◌, ◌*◌, ◌≤◌, ◌≡◌, refl, ap, Bool, true, false, if◌then◌else◌, ltb, leb, Option,
  none, some, List, [], ◌∷◌, length, take, drop, arith, ◌%◌, ◌^◌, ◌==◌,
}
use async_mqtt_cpp.Util.VariableBytes.{read_bytes, variable_bytes_to_val}
use async_mqtt_cpp.Protocol.Event.{ErrorCode}
use async_mqtt_cpp.Protocol.Packet.{Bytes, Property, TopicSubopts}
use async_mqtt_cpp.Protocol.Codec.Result.{
  Result, ok, err, fault, ◌>>=◌, ◌>>◌, unless, or_malformed, malformed_packet,
}
use async_mqtt_cpp.Protocol.Codec.Fields.{
  insert_advance, insert_advance_variable_length, front, binary, text,
}
use async_mqtt_cpp.Protocol.Codec.PropertyLocation.{PropertyLocation}
use async_mqtt_cpp.Protocol.Codec.Property.{
  n_bytes, string_property, binary_property, parse_subscription_identifier, parse_user_property,
  parse_value, make_property_variant, properties_loop, make_properties,
}

-- What is left behind a field is at most `n` bytes.
pub data Leaves {ℓ} {A : Type ℓ} (n : ℕ) : Result (A × Bytes) → Type ℓ where
  ok_leaves : (a : A) (rest : Bytes) → length rest ≤ n → Leaves n (ok (a, rest))
  err_leaves : (e : ErrorCode) → Leaves n (err e)
  fault_leaves : Leaves n fault

pub bind-Leaves {ℓ κ} :
    {A : Type ℓ} {B : Type κ} (n : ℕ) (m : Result (A × Bytes)) (f : A × Bytes → Result (B × Bytes))
    → Leaves n m
    → ((a : A) (rest : Bytes) → length rest ≤ n → Leaves n (f (a, rest)))
    → Leaves n (m >>= f)
bind-Leaves n _ f (ok_leaves a rest l) k = k a rest l
bind-Leaves n _ f (err_leaves e) k = err_leaves e
bind-Leaves n _ f fault_leaves k = fault_leaves

pub tested-Leaves {ℓ κ} :
    {A : Type ℓ} {B : Type κ} (n : ℕ) (test : Result B) (f : B → Result (A × Bytes))
    → ((b : B) → Leaves n (f b))
    → Leaves n (test >>= f)
tested-Leaves n (ok b) f h = h b
tested-Leaves n (err e) f h = err_leaves e
tested-Leaves n fault f h = fault_leaves

pub after_test {ℓ} :
    {A : Type ℓ} (n : ℕ) (test : Result (Unit {0})) (r : Result (A × Bytes))
    → Leaves n r
    → Leaves n (test >> r)
after_test n (ok b) r h = h
after_test n (err e) r h = err_leaves e
after_test n fault r h = fault_leaves

-- Two ways to go on that agree on what is left agree.
pub bind-Leaves-eq {ℓ κ} :
    {A : Type ℓ} {B : Type κ} (n : ℕ) (m : Result (A × Bytes)) (f g : A × Bytes → Result B)
    → Leaves n m
    → ((a : A) (rest : Bytes) → length rest ≤ n → f (a, rest) ≡ g (a, rest))
    → (m >>= f) ≡ (m >>= g)
bind-Leaves-eq n _ f g (ok_leaves a rest l) k = k a rest l
bind-Leaves-eq n _ f g (err_leaves e) k = refl
bind-Leaves-eq n _ f g fault_leaves k = refl

if_Leaves {ℓ} :
    {A : Type ℓ} (n : ℕ) (b : Bool) (x y : Result (A × Bytes))
    → Leaves n x
    → Leaves n y
    → Leaves n (if b then x else y)
if_Leaves n true x y h k = h
if_Leaves n false x y h k = k

length-drop_le : (n : ℕ) (buf : Bytes) → length (drop n buf) ≤ length buf
length-drop_le zero buf = omega arith
length-drop_le (suc n) [] = omega arith
length-drop_le (suc n) (b ∷ buf) = omega (arith, length-drop_le n buf)

pub advance_or_none :
    (n : ℕ) (short : Bool) (field rest : Bytes)
    → length rest ≤ n
    → Leaves n (or_malformed (if short then none else some (field, rest)))
advance_or_none n true field rest l = err_leaves malformed_packet
advance_or_none n false field rest l = ok_leaves field rest l

pub insert_advance-Leaves :
    (n k : ℕ) (buf : Bytes) → length buf ≤ n → Leaves n (or_malformed (insert_advance k buf))
unfolding insert_advance
insert_advance-Leaves n k buf l =
    advance_or_none n (ltb (length buf) k) (take k buf) (drop k buf)
      (omega (arith, l, length-drop_le k buf))

length-read_bytes : (val mul : ℕ) (buf : List ℕ) → length (read_bytes val mul buf).1 ≤ length buf
unfolding read_bytes
length-read_bytes val mul [] = omega arith
length-read_bytes val mul (c ∷ cs) =
    ground (arith, length-read_bytes (val + c % 128 * mul) (mul * 128) cs)

value-Leaves :
    (n : ℕ) (val : Option ℕ) (rest : Bytes)
    → length rest ≤ n
    → Leaves n (or_malformed (elim val [ none ↦ none | some v ↦ some (v, rest) ]))
value-Leaves n none rest l = err_leaves malformed_packet
value-Leaves n (some v) rest l = ok_leaves v rest l

pub insert_advance_variable_length-Leaves :
    (n : ℕ) (buf : Bytes)
    → length buf ≤ n
    → Leaves n (or_malformed (insert_advance_variable_length buf))
unfolding insert_advance_variable_length variable_bytes_to_val
insert_advance_variable_length-Leaves n [] l = err_leaves malformed_packet
insert_advance_variable_length-Leaves n (b ∷ buf) l =
    value-Leaves n (read_bytes 0 1 (b ∷ buf)).0 (read_bytes 0 1 (b ∷ buf)).1
      (omega (arith, l, length-read_bytes 0 1 (b ∷ buf)))

pub front-Leaves : (n : ℕ) (buf : Bytes) → length buf ≤ n → Leaves n (or_malformed (front buf))
unfolding front
front-Leaves n [] l = err_leaves malformed_packet
front-Leaves n (b ∷ buf) l = ok_leaves b buf (omega (arith, l))

pub binary-Leaves : (n : ℕ) (buf : Bytes) → length buf ≤ n → Leaves n (binary buf)
unfolding binary
binary-Leaves n buf l =
    bind-Leaves n _ _ (insert_advance-Leaves n 2 buf l)
      (λ a rest r. insert_advance-Leaves n _ rest r)

pub text-Leaves : (n : ℕ) (buf : Bytes) → length buf ≤ n → Leaves n (text buf)
unfolding text
text-Leaves n buf l =
    bind-Leaves n _ _ (binary-Leaves n buf l)
      (λ str rest r. tested-Leaves n _ _ (λ _. ok_leaves str rest r))

n_bytes-Leaves :
    (n k : ℕ) (test : ℕ → Result (Unit {0})) (make : ℕ → Property) (buf : Bytes)
    → length buf ≤ n
    → Leaves n (n_bytes k test make buf)
unfolding n_bytes
n_bytes-Leaves n k test make buf l =
    bind-Leaves n _ _ (insert_advance-Leaves n k buf l)
      (λ a rest r. tested-Leaves n _ _ (λ _. ok_leaves _ rest r))

string_property-Leaves :
    (n : ℕ) (make : Bytes → Property) (buf : Bytes)
    → length buf ≤ n
    → Leaves n (string_property make buf)
unfolding string_property
string_property-Leaves n make buf l =
    bind-Leaves n _ _ (text-Leaves n buf l) (λ str rest r. ok_leaves _ rest r)

binary_property-Leaves :
    (n : ℕ) (make : Bytes → Property) (buf : Bytes)
    → length buf ≤ n
    → Leaves n (binary_property make buf)
unfolding binary_property
binary_property-Leaves n make buf l =
    bind-Leaves n _ _ (binary-Leaves n buf l) (λ str rest r. ok_leaves _ rest r)

parse_subscription_identifier-Leaves :
    (n : ℕ) (buf : Bytes) → length buf ≤ n → Leaves n (parse_subscription_identifier buf)
unfolding parse_subscription_identifier
parse_subscription_identifier-Leaves n buf l =
    bind-Leaves n _ _ (insert_advance_variable_length-Leaves n buf l)
      (λ v rest r. tested-Leaves n _ _ (λ _. ok_leaves _ rest r))

parse_user_property-Leaves :
    (n : ℕ) (buf : Bytes) → length buf ≤ n → Leaves n (parse_user_property buf)
unfolding parse_user_property
parse_user_property-Leaves n buf l = bind-Leaves n _ _ (binary-Leaves n buf l) (λ k rest r.
    bind-Leaves n _ _ (binary-Leaves n rest r)
      (λ v last s. after_test n _ _ (after_test n _ _ (ok_leaves _ last s))))

parse_value-Leaves : (n id : ℕ) (buf : Bytes) → length buf ≤ n → Leaves n (parse_value id buf)
unfolding parse_value
parse_value-Leaves n id buf l =
    search
      (
        if_Leaves, n_bytes-Leaves, string_property-Leaves, binary_property-Leaves,
        parse_subscription_identifier-Leaves, parse_user_property-Leaves, fault_leaves, l,
      )
      depth 40

pub make_property_variant-Leaves :
    (n : ℕ) (loc : PropertyLocation) (b : ℕ) (buf : Bytes)
    → length buf ≤ n
    → Leaves n (make_property_variant loc (b ∷ buf))
unfolding make_property_variant
make_property_variant-Leaves n loc b buf l = tested-Leaves n _ _ (λ _. parse_value-Leaves n b buf l)

pub properties_loop-fuel :
    (n m : ℕ) (loc : PropertyLocation) (buf : Bytes)
    → length buf ≤ n
    → length buf ≤ m
    → properties_loop n loc buf ≡ properties_loop m loc buf
unfolding properties_loop
properties_loop-fuel n m loc [] l k = refl
properties_loop-fuel zero m loc (b ∷ buf) l k = absurd (omega arith)
properties_loop-fuel (suc n) zero loc (b ∷ buf) l k = absurd (omega arith)
properties_loop-fuel (suc n) (suc m) loc (b ∷ buf) l k =
    bind-Leaves-eq (length buf) _ _ _
      (make_property_variant-Leaves (length buf) loc b buf (omega arith))
      (λ p rest r.
        ap (λ (ps : Result (List Property)). do qs ← ps; ok (p ∷ qs))
          (properties_loop-fuel n m loc rest (omega (arith, l, r)) (omega (arith, k, r))))
