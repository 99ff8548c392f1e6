-- ===== src/Util/ValueAllocator.antt =====
-- include/async_mqtt/util/value_allocator.hpp: the vacant values as disjoint intervals.
pub mod Intervals
pub mod Release
pub mod Removal
pub mod Vacancy
pub mod Allocation
pub mod Wrap
use async_mqtt_cpp.Prelude.{
  ℕ, zero, suc, ◌+◌, ◌-◌, ◌%◌, ◌^◌, Bool, true, false, ◌&&◌, if◌then◌else◌, ltb, leb, ◌==◌, Option,
  none, some, length, get_elem?,
}
use async_mqtt_cpp.MultiIndex.{OrderedUnique}

pub record ValueInterval : Type 0 where
  pub low : ℕ
  pub high : ℕ

abbrev pub interval : ℕ → ℕ → ValueInterval
interval l h = record { low = l; high = h }

-- value_interval{v}
abbrev pub single : ℕ → ValueInterval
single v = interval v v

-- operator<
abbrev pub before : ValueInterval → ValueInterval → Bool
before lhs rhs = ltb lhs.low rhs.low && ltb lhs.high rhs.low

-- `v + 1`. A uint16_t is promoted to int, where this cannot wrap; a uint32_t wraps.
abbrev pub inc : ℕ → ℕ
inc v = (v + 1) % 2 ^ 32

module _ (mi : OrderedUnique before) where
  open mi use {Index, elements, empty, emplace, find, upper_bound, erase, modify}

  pub record ValueAllocator : Type 0 where
    pub pool : Index
    pub lowest : ℕ
    pub highest : ℕ

  -- The constructor.
  unfoldable pub make : ℕ → ℕ → ValueAllocator
  make lowest highest = record {
    pool = emplace (interval lowest highest) empty;
    lowest = lowest;
    highest = highest;
  }

  -- *pool_.begin(), if the pool is not empty.
  abbrev pub front : Index → Option ValueInterval
  front pool = get_elem? (elements pool) 0

  -- The assertion inside `modify`: the first value is below `highest_`. It is not reached, so it
  -- holds, where the pool is empty or the first interval is erased.
  unfoldable pub allocate_asserts : ValueAllocator → Bool
  allocate_asserts va = elim (front va.pool) [
    | none ↦ true
    | some it ↦ if leb (inc it.low) it.high then ltb it.low va.highest else true
  ]

  -- `allocate` with the assertion compiled out.
  unfoldable pub allocate : ValueAllocator → ValueAllocator × Option ℕ
  allocate va = elim (front va.pool) [
    | none ↦ (va, none)
    | some it ↦ (
      if leb (inc it.low) it.high
          then record va { pool = modify 0 (interval (inc it.low) it.high) va.pool }
          else record va { pool = erase 0 va.pool },
      some it.low,
    )
  ]

  -- `allocate` with the assertion compiled in: `none` where it stops the program.
  unfoldable pub checked_allocate : ValueAllocator → Option (ValueAllocator × Option ℕ)
  unfolding allocate_asserts allocate
  checked_allocate va = if allocate_asserts va then some (allocate va) else none

  pub first_vacant : ValueAllocator → Option ℕ
  first_vacant va = elim (front va.pool) [ none ↦ none | some it ↦ some it.low ]

  -- `itl`, the iterator before an upper bound with its value: `none` at begin().
  abbrev pub left_of : Index → ℕ → Option (ℕ × ValueInterval)
  left_of pool zero = none
  left_of pool (suc m) = elim (get_elem? (elements pool) m) [ none ↦ none | some iv ↦ some (m, iv) ]

  -- The four cases of `deallocate`: `itr` is the upper bound at `n`, `none` for end().
  pub deallocate_between : Index → ℕ → ℕ → Option (ℕ × ValueInterval) → Option ValueInterval → Index
  deallocate_between pool value n none none = emplace (single value) pool
  deallocate_between pool value n (some (m, itl)) none =
      if inc itl.high == value
      then modify m (interval itl.low value) pool
      else emplace (single value) pool
  deallocate_between pool value n none (some itr) =
      if inc value == itr.low
      then modify n (interval value itr.high) pool
      else emplace (single value) pool
  deallocate_between pool value n (some (m, itl)) (some itr) =
      if inc itl.high == value
      then (if inc value == itr.low
          then modify m (interval itl.low itr.high) (erase n pool)
          else modify m (interval itl.low value) pool)
      else if inc value == itr.low
      then modify n (interval value itr.high) pool
      else emplace (single value) pool

  pub deallocate_from : Index → ℕ → ℕ → Index
  unfolding deallocate_between
  deallocate_from pool value n =
      deallocate_between pool value n (left_of pool n) (get_elem? (elements pool) n)

  unfoldable pub deallocate : ℕ → ValueAllocator → ValueAllocator
  unfolding deallocate_from
  deallocate value va = record va {
    pool = deallocate_from va.pool value (upper_bound (single value) va.pool);
  }

  -- The pool without the interval `iv` at `n`, but with what is left of it beside `value`.
  pub split_at : Index → ℕ → ℕ → ValueInterval → Index
  split_at pool value n iv =
      let erased = erase n pool in
      let left =
        if ltb iv.low value then emplace (interval iv.low (value - 1)) erased else erased in
      if leb (inc value) iv.high then emplace (interval (inc value) iv.high) left else left

  pub use_at : ValueAllocator → ℕ → Option ℕ → ValueAllocator × Bool
  unfolding split_at
  use_at va value none = (va, false)
  use_at va value (some n) = elim (get_elem? (elements va.pool) n) [
    | none ↦ (va, false)
    | some iv ↦ (record va { pool = split_at va.pool value n iv }, true)
  ]

  -- `use`
  pub use_value : ℕ → ValueAllocator → ValueAllocator × Bool
  unfolding use_at
  use_value value va = use_at va value (find (single value) va.pool)

  pub is_used : ℕ → ValueAllocator → Bool
  is_used value va = elim (find (single value) va.pool) [ none ↦ true | some n ↦ false ]

  unfoldable pub clear : ValueAllocator → ValueAllocator
  clear va = record va { pool = emplace (interval va.lowest va.highest) empty }

  pub interval_count : ValueAllocator → ℕ
  interval_count va = length (elements va.pool)
