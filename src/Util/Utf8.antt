-- ===== src/Util/Utf8.antt =====
-- include/async_mqtt/util/utf8validate.hpp: the check of MQTT strings. A byte is a number below 256,
-- and a mask of its upper bits is a quotient: `b & 0b1110'0000 == 0b1100'0000` is `b / 32 == 6`.
pub mod CodePoints
use async_mqtt_cpp.Prelude.{
  ℕ, zero, suc, ◌/◌, ◌%◌, Bool, true, false, not, ◌&&◌, ◌||◌, if◌then◌else◌, ◌==◌, ltb, leb, Option,
  none, some, List, [], ◌∷◌, length,
}

-- 10xxxxxx
abbrev pub is_continuation : ℕ → Bool
is_continuation b = b / 64 == 2

-- The branches of the loop's body: the bytes left, or `none` where the result is false.
unfoldable pub one_byte : ℕ → List ℕ → Option (List ℕ)
one_byte a rest =
    if a == 0 then none else if leb 1 a && leb a 0x1f || a == 0x7f then none else some rest

unfoldable pub two_bytes : ℕ → List ℕ → Option (List ℕ)
two_bytes a (b ∷ rest) =
    if not (is_continuation b) || a / 2 == 0x60
    then none
    else if a == 0xc2 && leb 0x80 b && leb b 0x9f
    then none
    else some rest
two_bytes a _ = none

-- The mask 0b1110'0000 of the second byte excludes overlong forms and surrogates.
unfoldable pub three_bytes : ℕ → List ℕ → Option (List ℕ)
three_bytes a (b ∷ c ∷ rest) =
    if not (is_continuation b)
      || not (is_continuation c)
      || a == 0xe0 && b / 32 == 4
      || a == 0xed && b / 32 == 5
    then none
    else if a == 0xef && b == 0xbf && c / 2 == 0x5f
    then none
    else some rest
three_bytes a _ = none

-- `b & 0b1100'1111 == 0b1000'1111` is a test of the two upper and of the four lower bits.
unfoldable pub four_bytes : ℕ → List ℕ → Option (List ℕ)
four_bytes a (b ∷ c ∷ d ∷ rest) =
    if not (is_continuation b)
      || not (is_continuation c)
      || not (is_continuation d)
      || a == 0xf0 && b / 16 == 8
      || a == 0xf4 && ltb 0x8f b
      || ltb 0xf4 a
    then none
    else if b / 64 == 2 && b % 16 == 15 && c == 0xbf && d / 2 == 0x5f
    then none
    else some rest
four_bytes a _ = none

unfoldable pub next_character : List ℕ → Option (List ℕ)
unfolding one_byte two_bytes three_bytes four_bytes
next_character [] = none
next_character (a ∷ rest) =
    if ltb a 0x80
    then one_byte a rest
    else if a / 32 == 6
    then two_bytes a rest
    else if a / 16 == 14
    then three_bytes a rest
    else if a / 8 == 30
    then four_bytes a rest
    else none

-- The loop, on fuel. A round takes at least one byte, so the length is enough.
unfoldable pub check_loop : (fuel : ℕ) → List ℕ → Bool
unfolding next_character
check_loop n [] = true
check_loop zero (a ∷ rest) = false
check_loop (suc n) (a ∷ rest) = elim (next_character (a ∷ rest)) [
  | none ↦ false
  | some bytes ↦ check_loop n bytes
]

unfoldable pub utf8string_check : List ℕ → Bool
unfolding check_loop
utf8string_check str = check_loop (length str) str
