-- ===== src/Protocol/Codec/ConnectFlags.antt =====
-- packet/impl/connect_flags.hpp: the byte of CONNECT that says what follows.
use async_mqtt_cpp.Prelude.{
  ℕ, ◌+◌, ◌*◌, ◌/◌, ◌%◌, ◌≤◌, ◌≡◌, Bool, true, false, ◌==◌, Option, none, some, arith,
}
use async_mqtt_cpp.Protocol.Packet.{Qos, Will, Login, at_most_once}
use async_mqtt_cpp.Protocol.Codec.PublishHeader.{bit, qos_bits, of_qos_bits}

unfoldable pub has_clean_session : ℕ → Bool
has_clean_session v = v / 2 % 2 == 1

unfoldable pub has_will_flag : ℕ → Bool
has_will_flag v = v / 4 % 2 == 1

unfoldable pub will_qos : ℕ → Option Qos
unfolding of_qos_bits
will_qos v = of_qos_bits (v / 8 % 4)

unfoldable pub will_retain : ℕ → Bool
will_retain v = v / 32 % 2 == 1

unfoldable pub has_password_flag : ℕ → Bool
has_password_flag v = v / 64 % 2 == 1

unfoldable pub has_user_name_flag : ℕ → Bool
has_user_name_flag v = v / 128 % 2 == 1

abbrev pub is_some {ℓ} : {A : Type ℓ} → Option A → Bool
is_some none = false
is_some (some a) = true

abbrev pub will_bits : Option Will → ℕ
will_bits none = 0
will_bits (some w) = 4 + qos_bits w.qos * 8 + bit w.retain * 32

-- connect_flags_ as the constructor from the fields sets it.
unfoldable pub connect_flags : (clean : Bool) → Login → ℕ
unfolding qos_bits
connect_flags clean login =
    bit clean * 2
    + will_bits login.will
    + bit (is_some login.password) * 64
    + bit (is_some login.user_name) * 128

-- All that a parser reads of the flags.
pub record Flags (v : ℕ) (clean : Bool) (login : Login) : Type 0 where
  pub reserved : v % 2 ≡ 0
  pub clean_session : has_clean_session v ≡ clean
  pub will_flag : has_will_flag v ≡ is_some login.will
  pub password_flag : has_password_flag v ≡ is_some login.password
  pub user_name_flag : has_user_name_flag v ≡ is_some login.user_name

abbrev pub WillFlags : ℕ → Option Will → Type 0
WillFlags v none = (will_qos v ≡ some at_most_once) × (will_retain v ≡ false)
WillFlags v (some w) = (will_qos v ≡ some w.qos) × (will_retain v ≡ w.retain)

qos_bits-lt : (q : Qos) → qos_bits q ≤ 2
unfolding qos_bits
qos_bits-lt q = ground arith

pub connect_flags-Flags :
    (clean : Bool) (login : Login) → Flags (connect_flags clean login) clean login
unfolding connect_flags has_clean_session has_will_flag has_password_flag has_user_name_flag
connect_flags-Flags clean login = ground (arith)

pub connect_flags-WillFlags :
    (clean : Bool) (login : Login) → WillFlags (connect_flags clean login) login.will
unfolding connect_flags will_qos will_retain qos_bits
connect_flags-WillFlags clean login = ground (arith)
