-- ===== src/Util/ValueAllocator/Intervals.antt =====
-- The pool of value_allocator.hpp as a list of intervals: which values it covers, and its shape.
use async_mqtt_cpp.Prelude.{
  ℕ, ◌+◌, ◌≤◌, ◌<◌, ◌≡◌, refl, Bool, false, ◌&&◌, ◌||◌, leb, List, [], ◌∷◌, arith,
}
use async_mqtt_cpp.MultiIndex.{IsAscending}
use async_mqtt_cpp.Util.ValueAllocator.{ValueInterval, before}

-- Some interval holds the value.
abbrev pub covers : ℕ → List ValueInterval → Bool
covers v [] = false
covers v (x ∷ xs) = leb x.low v && leb v x.high || covers v xs

-- Intervals between `b` and `top`, in ascending order, with a gap before each next one.
abbrev pub Separated : ℕ → ℕ → List ValueInterval → Type 0
Separated b top [] = Unit
Separated b top (x ∷ xs) =
    (b ≤ x.low) × (x.low ≤ x.high) × (x.high ≤ top) × Separated (x.high + 2) top xs

pub Separated-mono :
    (a b top : ℕ) (xs : List ValueInterval) → a ≤ b → Separated b top xs → Separated a top xs
Separated-mono a b top [] h s = tt
Separated-mono a b top (x ∷ xs) h (lo, p, q, rest) = (omega arith, p, q, rest)

pub Separated-IsAscending :
    (b top : ℕ) (xs : List ValueInterval) → Separated b top xs → IsAscending before xs
Separated-IsAscending b top [] s = tt
Separated-IsAscending b top (x ∷ []) s = tt
Separated-IsAscending b top (x ∷ y ∷ ys) s =
    (ground arith, Separated-IsAscending (x.high + 2) top (y ∷ ys) s.3)

-- Nothing below the bound is covered.
pub covers_below :
    (v b top : ℕ) (xs : List ValueInterval) → Separated b top xs → v < b → covers v xs ≡ false
covers_below v b top [] s h = refl
covers_below v b top (x ∷ xs) s h =
    ground (arith, covers_below v (x.high + 2) top xs s.3 (omega arith))

pub covers_above :
    (v b top : ℕ) (xs : List ValueInterval) → Separated b top xs → top < v → covers v xs ≡ false
covers_above v b top [] s h = refl
covers_above v b top (x ∷ xs) s h = ground (arith, covers_above v (x.high + 2) top xs s.3 h)
