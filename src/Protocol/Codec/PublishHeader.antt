-- ===== src/Protocol/Codec/PublishHeader.antt =====
-- packet/pubopts.hpp: the publish options in the first byte of a PUBLISH packet.
use async_mqtt_cpp.Prelude.{
  ℕ, ◌+◌, ◌*◌, ◌/◌, ◌%◌, ◌<◌, ◌≡◌, refl, Bool, true, false, if◌then◌else◌, ◌==◌, Option, none, some,
  ◌∷◌, arith,
}
use async_mqtt_cpp.Protocol.Packet.{Bytes, Qos, at_most_once, at_least_once, exactly_once}
use async_mqtt_cpp.Protocol.Codec.Result.{ok}
use async_mqtt_cpp.Protocol.Codec.FixedHeader.{
  publish, make_fixed_header, are_flags, fixed_header, fixed_header-make_fixed_header,
  reserved_bits,
}

unfoldable pub qos_bits : Qos → ℕ
qos_bits at_most_once = 0
qos_bits at_least_once = 1
qos_bits exactly_once = 2

-- The value 3 is no qos: every switch on it takes its default branch.
unfoldable pub of_qos_bits : ℕ → Option Qos
of_qos_bits b =
    if b == 0
    then some at_most_once
    else if b == 1
    then some at_least_once
    else if b == 2
    then some exactly_once
    else none

unfoldable pub is_dup : ℕ → Bool
is_dup v = v / 8 % 2 == 1

unfoldable pub get_qos : ℕ → Option Qos
unfolding of_qos_bits
get_qos v = of_qos_bits (v / 2 % 4)

unfoldable pub is_retain : ℕ → Bool
is_retain v = v % 2 == 1

abbrev pub bit : Bool → ℕ
bit true = 1
bit false = 0

-- opts::operator std::uint8_t
unfoldable pub pubopts : (dup : Bool) → Qos → (retain : Bool) → ℕ
unfolding qos_bits
pubopts dup q retain = bit dup * 8 + qos_bits q * 2 + bit retain

unfoldable pub publish_header : (dup : Bool) → Qos → (retain : Bool) → ℕ
unfolding pubopts make_fixed_header
publish_header dup q retain = make_fixed_header publish 0 + pubopts dup q retain

pub pubopts-lt : (dup : Bool) (q : Qos) (retain : Bool) → pubopts dup q retain < 16
unfolding pubopts qos_bits
pubopts-lt dup q retain = ground arith

pub publish_header-eq :
    (dup : Bool) (q : Qos) (retain : Bool)
    → publish_header dup q retain ≡ make_fixed_header publish (pubopts dup q retain)
unfolding publish_header make_fixed_header
publish_header-eq dup q retain = ground (arith, pubopts-lt dup q retain)

pub publish_flags : (flags : ℕ) → are_flags publish flags ≡ true
unfolding are_flags reserved_bits
publish_flags flags = refl

pub fixed_header-publish_header :
    (dup : Bool) (q : Qos) (retain : Bool) (buf : Bytes)
    → fixed_header publish (publish_header dup q retain ∷ buf)
      ≡ ok (publish_header dup q retain, buf)
fixed_header-publish_header dup q retain buf = rw (publish_header-eq dup q retain) (
    fixed_header-make_fixed_header publish (pubopts dup q retain) buf (pubopts-lt dup q retain)
      (publish_flags (pubopts dup q retain)))

pub is_dup-publish_header :
    (dup : Bool) (q : Qos) (retain : Bool) → is_dup (publish_header dup q retain) ≡ dup
unfolding is_dup publish_header qos_bits
is_dup-publish_header dup q retain = ground arith

pub get_qos-publish_header :
    (dup : Bool) (q : Qos) (retain : Bool) → get_qos (publish_header dup q retain) ≡ some q
unfolding get_qos publish_header qos_bits
get_qos-publish_header dup q retain = ground arith

pub is_retain-publish_header :
    (dup : Bool) (q : Qos) (retain : Bool) → is_retain (publish_header dup q retain) ≡ retain
unfolding is_retain publish_header qos_bits
is_retain-publish_header dup q retain = ground arith
