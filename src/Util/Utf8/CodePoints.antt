-- ===== src/Util/Utf8/CodePoints.antt =====
-- include/async_mqtt/util/utf8validate.hpp: what the check accepts, told by code points.
use async_mqtt_cpp.Prelude.{
  ℕ, zero, suc, ◌+◌, ◌*◌, ◌/◌, ◌%◌, ◌≤◌, ◌<◌, ◌≡◌, ◌↔◌, ◌⊎◌, inl, inr, refl, ap, sym, true,
  if◌then◌else◌, ltb, Option, none, some, List, [], ◌∷◌, ◌++◌, length, length-append, ◌∙◌, arith,
}
use native.Mathlib.Decide.{dec_lt, ℕ_discrete}
use async_mqtt_cpp.Util.Utf8.{
  one_byte, two_bytes, three_bytes, four_bytes, next_character, check_loop, utf8string_check,
}

-- The encoding of a code point, as RFC 3629 has it.
unfoldable pub encode : ℕ → List ℕ
encode c =
    if ltb c 0x80
    then c ∷ []
    else if ltb c 0x800
    then (0xc0 + c / 64) ∷ (0x80 + c % 64) ∷ []
    else if ltb c 0x10000
    then (0xe0 + c / 4096) ∷ (0x80 + c / 64 % 64) ∷ (0x80 + c % 64) ∷ []
    else (0xf0 + c / 262144) ∷ (0x80 + c / 4096 % 64) ∷ (0x80 + c / 64 % 64) ∷ (0x80 + c % 64) ∷ []

-- No control character, no surrogate, nothing above U+10FFFF, and neither U+nFFFE nor U+nFFFF.
unfoldable pub IsAllowed : ℕ → Type 0
IsAllowed c =
    (0x20 ≤ c)
    × ((c < 0x7f) ⊎ (0x9f < c))
    × ((c < 0xd800) ⊎ (0xdfff < c))
    × (c ≤ 0x10ffff)
    × (c % 0x10000 < 0xfffe)

unfoldable pub AllAllowed : List ℕ → Type 0
unfolding IsAllowed
AllAllowed [] = Unit
AllAllowed (c ∷ cs) = IsAllowed c × AllAllowed cs

unfoldable pub encode_all : List ℕ → List ℕ
unfolding encode
encode_all [] = []
encode_all (c ∷ cs) = encode c ++ encode_all cs

next_character-encode :
    (c : ℕ) (rest : List ℕ) → IsAllowed c → next_character (encode c ++ rest) ≡ some rest
unfolding next_character encode IsAllowed one_byte two_bytes three_bytes four_bytes
next_character-encode c rest h = ground arith

IsCharacter : (bytes rest : List ℕ) → Type 0
unfolding IsAllowed encode
IsCharacter bytes rest = (c : ℕ) × IsAllowed c × (bytes ≡ encode c ++ rest)

one_byte-IsCharacter :
    (a : ℕ) (bytes rest : List ℕ)
    → a < 0x80
    → one_byte a bytes ≡ some rest
    → IsCharacter (a ∷ bytes) rest
unfolding one_byte encode IsAllowed IsCharacter
one_byte-IsCharacter a bytes rest h e = (a, ground arith, ground arith)

two_bytes-IsCharacter :
    (a : ℕ) (bytes rest : List ℕ)
    → a / 32 ≡ 6
    → two_bytes a bytes ≡ some rest
    → IsCharacter (a ∷ bytes) rest
unfolding two_bytes encode IsAllowed IsCharacter
two_bytes-IsCharacter a [] rest h e = ground arith
two_bytes-IsCharacter a (b ∷ bytes) rest h e = (a % 32 * 64 + b % 64, ground arith, ground arith)

three_bytes-IsCharacter :
    (a : ℕ) (bytes rest : List ℕ)
    → a / 16 ≡ 14
    → three_bytes a bytes ≡ some rest
    → IsCharacter (a ∷ bytes) rest
unfolding three_bytes encode IsAllowed IsCharacter
three_bytes-IsCharacter a [] rest h e = ground arith
three_bytes-IsCharacter a (b ∷ []) rest h e = ground arith
three_bytes-IsCharacter a (b ∷ c ∷ bytes) rest h e =
    (a % 16 * 4096 + b % 64 * 64 + c % 64, ground arith, ground arith)

four_bytes-IsCharacter :
    (a : ℕ) (bytes rest : List ℕ)
    → a / 8 ≡ 30
    → four_bytes a bytes ≡ some rest
    → IsCharacter (a ∷ bytes) rest
unfolding four_bytes encode IsAllowed IsCharacter
four_bytes-IsCharacter a [] rest h e = ground arith
four_bytes-IsCharacter a (b ∷ []) rest h e = ground arith
four_bytes-IsCharacter a (b ∷ c ∷ []) rest h e = ground arith
four_bytes-IsCharacter a (b ∷ c ∷ d ∷ bytes) rest h e =
    (a % 8 * 262144 + b % 64 * 4096 + c % 64 * 64 + d % 64, ground arith, ground arith)

next_character-IsCharacter :
    (bytes rest : List ℕ) → next_character bytes ≡ some rest → IsCharacter bytes rest
unfolding next_character IsCharacter
next_character-IsCharacter [] rest e = ground arith
next_character-IsCharacter (a ∷ bytes) rest e = elim (dec_lt a 0x80) [
  | yes h ↦ one_byte-IsCharacter a bytes rest h (ground arith)
  | no h ↦ elim (ℕ_discrete (a / 32) 6) [
    | yes h2 ↦ two_bytes-IsCharacter a bytes rest h2 (ground arith)
    | no h2 ↦ elim (ℕ_discrete (a / 16) 14) [
      | yes h3 ↦ three_bytes-IsCharacter a bytes rest h3 (ground arith)
      | no h3 ↦ elim (ℕ_discrete (a / 8) 30) [
        | yes h4 ↦ four_bytes-IsCharacter a bytes rest h4 (ground arith)
        | no h4 ↦ ground arith
      ]
    ]
  ]
]

length-encode : (c : ℕ) → 0 < length (encode c)
unfolding encode
length-encode c = ground arith

next_character-nil : next_character [] ≡ none
unfolding next_character
next_character-nil = refl

-- The bytes are the encoding of some list of allowed code points.
unfoldable pub IsUtf8 : List ℕ → Type 0
unfolding AllAllowed encode_all
IsUtf8 bytes = (cs : List ℕ) × AllAllowed cs × (encode_all cs ≡ bytes)

check_loop-next :
    (n : ℕ) (bytes rest : List ℕ)
    → next_character bytes ≡ some rest
    → check_loop (suc n) bytes ≡ check_loop n rest
unfolding check_loop
check_loop-next n [] rest e = ground (arith, next_character-nil)
check_loop-next n (a ∷ bytes) rest e = ground (arith, e)

check_loop-encode_all :
    (n : ℕ) (cs : List ℕ)
    → AllAllowed cs
    → length (encode_all cs) ≤ n
    → check_loop n (encode_all cs) ≡ true
unfolding check_loop AllAllowed encode_all
check_loop-encode_all n [] h l = refl
check_loop-encode_all zero (c ∷ cs) h l =
    ground (arith, length-encode c, length-append (encode c) (encode_all cs))
check_loop-encode_all (suc n) (c ∷ cs) h l =
    check_loop-next n (encode c ++ encode_all cs) (encode_all cs)
      (next_character-encode c (encode_all cs) h.0)
    ∙ check_loop-encode_all n cs h.1
        (ground (arith, length-encode c, length-append (encode c) (encode_all cs)))

option_cases {ℓ} : {A : Type ℓ} (o : Option A) → (o ≡ none) ⊎ ((a : A) × (o ≡ some a))
option_cases none = inl refl
option_cases (some a) = inr (a, refl)

IsUtf8-prepend : (bytes rest : List ℕ) → IsCharacter bytes rest → IsUtf8 rest → IsUtf8 bytes
unfolding IsCharacter IsUtf8
IsUtf8-prepend bytes rest p u =
    (p.0 ∷ u.0, (p.1, u.1), ap (λ (l : List ℕ). encode p.0 ++ l) u.2 ∙ sym p.2)

check_loop-IsUtf8 : (n : ℕ) (bytes : List ℕ) → check_loop n bytes ≡ true → IsUtf8 bytes
unfolding check_loop IsUtf8
check_loop-IsUtf8 n [] e = ([], tt, refl)
check_loop-IsUtf8 zero (a ∷ bytes) e = ground arith
check_loop-IsUtf8 (suc n) (a ∷ bytes) e = elim (option_cases (next_character (a ∷ bytes))) [
  | inl h ↦ ground (arith, h, e)
  | inr p ↦
      IsUtf8-prepend (a ∷ bytes) p.0 (next_character-IsCharacter (a ∷ bytes) p.0 p.1)
        (check_loop-IsUtf8 n p.0 (sym (check_loop-next n (a ∷ bytes) p.0 p.1) ∙ e))
]

-- A string passes the check just when it is the encoding of code points that are no control
-- characters, no surrogates, at most U+10FFFF, and neither U+nFFFE nor U+nFFFF.
pub utf8string_check_lem : (str : List ℕ) → (utf8string_check str ≡ true) ↔ IsUtf8 str
unfolding utf8string_check IsUtf8
utf8string_check_lem str = (
  check_loop-IsUtf8 (length str) str,
  λ u. rw (← u.2) (check_loop-encode_all (length (encode_all u.0)) u.0 u.1 (omega arith)),
)
