-- ===== src/Tests/Allocator.antt =====
-- Concrete allocators of util/value_allocator.hpp and protocol/impl/packet_id_manager.hpp.
use async_mqtt_cpp.Prelude.{
  if◌then◌else◌, none, ℕ, ◌-◌, ◌^◌, ◌≡◌, refl, true, false, not, ◌&&◌, ◌||◌, ◌==◌, some, [], ◌∷◌,
  arith,
}
use async_mqtt_cpp.MultiIndex.{OrderedUnique, list_index}
use async_mqtt_cpp.Util.ValueAllocator.{
  interval, single, before, ValueAllocator, allocate, deallocate, use_value,
}
use async_mqtt_cpp.Util.ValueAllocator.Vacancy.{
  IsValid, is_vacant, deallocate-IsValid, is_vacant-deallocate, use_value-IsValid,
  is_vacant-use_value,
}
use async_mqtt_cpp.Util.ValueAllocator.Allocation.{
  TakesLeast, allocate-IsValid, allocate-TakesLeast,
}
use async_mqtt_cpp.Util.ValueAllocator.Wrap.{is_last, is_value, allocate-wraps}
use async_mqtt_cpp.Util.ValueAllocator.{checked_allocate}
use async_mqtt_cpp.Protocol.PacketIdManager.{acquire_unique_id, register_id, is_used_id}
use async_mqtt_cpp.Protocol.PacketIdManager.Laws.{IsManager, acquire_some_law, register_law}

abbrev index : OrderedUnique before
index = list_index before

-- The vacant values are 2, 5, 6 and 7.
abbrev two_intervals : ValueAllocator index
two_intervals = record { pool = single 2 ∷ interval 5 7 ∷ []; lowest = 1; highest = 9 }

two_intervals-IsValid : IsValid index two_intervals
two_intervals-IsValid = record { separated = ground arith; fits = omega arith }

allocate-IsValid_example : IsValid index (allocate index two_intervals).0
allocate-IsValid_example = allocate-IsValid index two_intervals two_intervals-IsValid

allocate-TakesLeast_example : TakesLeast index two_intervals (allocate index two_intervals)
allocate-TakesLeast_example = allocate-TakesLeast index two_intervals two_intervals-IsValid

-- 4 joins the interval from 5 to 7.
deallocate-IsValid_example : IsValid index (deallocate index 4 two_intervals)
deallocate-IsValid_example =
    deallocate-IsValid index 4 two_intervals two_intervals-IsValid (omega arith) (omega arith)

is_vacant-deallocate_example :
    is_vacant index 6 (deallocate index 4 two_intervals)
    ≡ (6 == 4 || is_vacant index 6 two_intervals)
is_vacant-deallocate_example =
    is_vacant-deallocate index 6 4 two_intervals two_intervals-IsValid (omega arith) (omega arith)

-- 6 splits the interval from 5 to 7.
use_value-IsValid_example : IsValid index (use_value index 6 two_intervals).0
use_value-IsValid_example = use_value-IsValid index 6 two_intervals two_intervals-IsValid

is_vacant-use_value_example :
    ((use_value index 6 two_intervals).1 ≡ is_vacant index 6 two_intervals)
    × (is_vacant index 7 (use_value index 6 two_intervals).0
        ≡ (is_vacant index 7 two_intervals && not (7 == 6)))
is_vacant-use_value_example = is_vacant-use_value index 7 6 two_intervals two_intervals-IsValid

-- All 32-bit numbers but 0, of which only the largest is vacant.
abbrev last_value : ValueAllocator index
last_value = record { pool = single (2 ^ 32 - 1) ∷ []; lowest = 1; highest = 2 ^ 32 - 1 }

allocate-wraps_example :
    (checked_allocate index last_value
      ≡ (if is_last (single (2 ^ 32 - 1) ∷ []) then none else some (allocate index last_value)))
    × (is_vacant index 1 (allocate index last_value).0 ≡ (
        if is_last (single (2 ^ 32 - 1) ∷ [])
        then true
        else is_vacant index 1 last_value && not (is_value 1 (allocate index last_value).1)))
allocate-wraps_example =
    allocate-wraps index 1 last_value (ground arith) (omega arith) (omega arith)

-- The identifiers from 1 to 9, as above; identifier 2 is the next.
abbrev two_ids : ValueAllocator index
two_ids = record { pool = single 2 ∷ interval 5 7 ∷ []; lowest = 1; highest = 65535 }

two_ids-IsValid : IsValid index two_ids
two_ids-IsValid = record { separated = ground arith; fits = omega arith }

ids-IsManager : IsManager index 65535 two_ids
ids-IsManager = record { valid = two_ids-IsValid; from_one = refl; to_largest = refl }

acquire_some_law_example :
    (is_used_id index 2 two_ids ≡ false)
    × ((w : ℕ)
        → is_used_id index w (acquire_unique_id index two_ids).0
          ≡ (w == 2 || is_used_id index w two_ids))
unfolding acquire_unique_id allocate
acquire_some_law_example =
    acquire_some_law index 65535 (omega arith) (omega arith) two_ids 2 ids-IsManager refl

register_law_example :
    ((register_id index 6 two_ids).1 ≡ not (is_used_id index 6 two_ids))
    × (is_used_id index 2 (register_id index 6 two_ids).0 ≡ (2 == 6 || is_used_id index 2 two_ids))
register_law_example =
    register_law index 65535 (omega arith) (omega arith) 2 6 two_ids ids-IsManager
