-- ===== src/Util/ValueAllocator/Wrap.antt =====
-- util/value_allocator.hpp at the end of the 32-bit range, where `low + 1` wraps around, and the
-- assertion of `allocate` there.
use async_mqtt_cpp.Prelude.{
  ℕ, ◌+◌, ◌-◌, ◌<◌, ◌^◌, ◌≡◌, refl, Bool, true, false, not, ◌&&◌, if◌then◌else◌, ◌==◌, ltb, leb,
  Option, none, some, List, [], ◌∷◌, arith,
}
use async_mqtt_cpp.MultiIndex.{OrderedUnique, IsAscending}
use async_mqtt_cpp.Util.ValueAllocator.{
  ValueInterval, interval, before, inc, ValueAllocator, allocate, allocate_asserts,
  checked_allocate,
}
use async_mqtt_cpp.Util.ValueAllocator.Intervals.{
  covers, Separated, covers_below, Separated-IsAscending,
}
use async_mqtt_cpp.Util.ValueAllocator.Vacancy.{is_vacant}

-- The only vacant value is the largest 32-bit number.
abbrev pub is_last : List ValueInterval → Bool
is_last (x ∷ []) = x.low == 2 ^ 32 - 1
is_last xs = false

abbrev pub is_value : ℕ → Option ℕ → Bool
is_value w none = false
is_value w (some v) = w == v

-- The intervals without the first value, where `low + 1` may wrap around.
taken : List ValueInterval → List ValueInterval
taken [] = []
taken (x ∷ xs) = if leb (inc x.low) x.high then interval (inc x.low) x.high ∷ xs else xs

first : List ValueInterval → Option ℕ
first [] = none
first (x ∷ xs) = some x.low

-- The test of the assertion.
asserted : ℕ → List ValueInterval → Bool
asserted highest [] = true
asserted highest (x ∷ xs) = if leb (inc x.low) x.high then ltb x.low highest else true

module _ (lowest highest : ℕ) where
  asserted-is_last :
      (xs : List ValueInterval)
      → Separated lowest highest xs
      → highest < 2 ^ 32
      → asserted highest xs ≡ not (is_last xs)
  unfolding asserted
  asserted-is_last [] s h = refl
  asserted-is_last (x ∷ []) s h = ground (arith, s)
  asserted-is_last (x ∷ y ∷ xs) s h = ground (arith, s)

  covers-taken :
      (w : ℕ) (xs : List ValueInterval)
      → Separated lowest highest xs
      → highest < 2 ^ 32
      → w < 2 ^ 32
      → covers w (taken xs)
        ≡ (if is_last xs then true else covers w xs && not (is_value w (first xs)))
  unfolding taken first
  covers-taken w [] s h l = refl
  covers-taken w (x ∷ []) s h l = ground (arith, s)
  covers-taken w (x ∷ y ∷ xs) s h l =
      ground (arith, s, covers_below w (x.high + 2) highest (y ∷ xs) s.3)

  IsAscending-taken :
      (x : ValueInterval) (xs : List ValueInterval)
      → Separated lowest highest (x ∷ xs)
      → highest < 2 ^ 32
      → IsAscending before (interval (inc x.low) x.high ∷ xs)
  IsAscending-taken x [] s h = tt
  IsAscending-taken x (y ∷ ys) s h =
      (ground (arith, s), Separated-IsAscending (x.high + 2) highest (y ∷ ys) s.3)

module _ (mi : OrderedUnique before) where
  open mi use {elements, elements-modify, elements-erase}

  allocated :
      (va : ValueAllocator mi) (xs : List ValueInterval)
      → elements va.pool ≡ xs
      → Separated va.lowest va.highest xs
      → va.highest < 2 ^ 32
      → (elements (allocate mi va).0.pool ≡ taken xs)
        × ((allocate mi va).1 ≡ first xs)
        × (allocate_asserts mi va ≡ asserted va.highest xs)
  unfolding allocate allocate_asserts taken first asserted
  allocated va [] e s h = (ground (arith, e), ground (arith, e), ground (arith, e))
  allocated va (x ∷ xs) e s h =
      let modified =
        elements-modify 0 (interval (inc x.low) x.high) va.pool
          (rw e (IsAscending-taken va.lowest va.highest x xs s h)) in
      (ground (arith, e, modified, elements-erase 0 va.pool), ground (arith, e), ground (arith, e))

  -- For a pool whose intervals lie apart, up to any highest 32-bit value: where the only vacant value is the
  -- largest 32-bit number, the assertion of allocate stops the program, and with the assertion compiled
  -- out every 32-bit number is vacant afterwards, the one handed out included. In every other case the
  -- assertion holds, and just the value handed out is no longer vacant.
  pub allocate-wraps :
      (w : ℕ) (va : ValueAllocator mi)
      → Separated va.lowest va.highest (elements va.pool)
      → va.highest < 2 ^ 32
      → w < 2 ^ 32
      → (checked_allocate mi va
          ≡ (if is_last (elements va.pool) then none else some (allocate mi va)))
        × (is_vacant mi w (allocate mi va).0 ≡ (
            if is_last (elements va.pool)
            then true
            else is_vacant mi w va && not (is_value w (allocate mi va).1)))
  unfolding checked_allocate
  allocate-wraps w va s h l =
      let (pool, value, test) = allocated va (elements va.pool) refl s h in
      (
        ground (arith, test, asserted-is_last va.lowest va.highest (elements va.pool) s h),
        rw (pool, value) (covers-taken va.lowest va.highest w (elements va.pool) s h l),
      )
