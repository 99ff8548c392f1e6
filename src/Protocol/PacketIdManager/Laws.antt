-- ===== src/Protocol/PacketIdManager/Laws.antt =====
-- packet_id_manager meets the interface that the connection uses.
use async_mqtt_cpp.Prelude.{
  ℕ, ◌+◌, ◌≤◌, ◌<◌, ◌^◌, ◌≡◌, refl, ◌∙◌, true, false, not, ◌&&◌, ◌||◌, ◌==◌, leb, Option, none,
  some, arith,
}
use async_mqtt_cpp.MultiIndex.{OrderedUnique}
use async_mqtt_cpp.Util.ValueAllocator.{
  before, ValueAllocator, make, allocate, deallocate, use_value, clear,
}
use async_mqtt_cpp.Util.ValueAllocator.Vacancy.{
  is_vacant, IsValid, clear-IsValid, is_vacant-clear, is_used_lem, deallocate-IsValid,
  is_vacant-deallocate, use_value-IsValid, use_value-bounds, is_vacant-use_value,
  is_vacant-in_bounds,
}
use async_mqtt_cpp.Util.ValueAllocator.Allocation.{
  allocate-IsValid, allocate-bounds, TakesLeast, allocate-TakesLeast,
}
use async_mqtt_cpp.Protocol.PidManager.{PidManager}
use async_mqtt_cpp.Protocol.PacketIdManager.{
  initial_manager, acquire_unique_id, register_id, is_used_id, release_id, clear_ids,
}

module _ (mi : OrderedUnique before) where
  -- A valid allocator of the identifiers 1 to `largest`.
  pub record IsManager (largest : ℕ) (va : ValueAllocator mi) : Type 0 where
    pub valid : IsValid mi va
    pub from_one : va.lowest ≡ 1
    pub to_largest : va.highest ≡ largest

  module _ (largest : ℕ) (some_id : 1 ≤ largest) (fits : largest + 1 < 2 ^ 32) where
    pub initial-IsManager : IsManager largest (initial_manager mi largest)
    unfolding initial_manager make clear
    initial-IsManager = record {
      valid = clear-IsValid mi (make mi 1 largest) some_id fits;
      from_one = refl;
      to_largest = refl;
    }

    pub acquire-IsManager :
        (va : ValueAllocator mi)
        → IsManager largest va
        → IsManager largest (acquire_unique_id mi va).0
    unfolding acquire_unique_id
    acquire-IsManager va m =
        let (lo, hi) = allocate-bounds mi va m.valid in
        record {
          valid = allocate-IsValid mi va m.valid;
          from_one = lo ∙ m.from_one;
          to_largest = hi ∙ m.to_largest;
        }

    pub register-IsManager :
        (v : ℕ) (va : ValueAllocator mi)
        → IsManager largest va
        → IsManager largest (register_id mi v va).0
    unfolding register_id
    register-IsManager v va m =
        let (lo, hi) = use_value-bounds mi v va m.valid in
        record {
          valid = use_value-IsValid mi v va m.valid;
          from_one = lo ∙ m.from_one;
          to_largest = hi ∙ m.to_largest;
        }

    pub release-IsManager :
        (v : ℕ) (va : ValueAllocator mi)
        → IsManager largest va
        → 1 ≤ v
        → v ≤ largest
        → IsManager largest (release_id mi v va)
    unfolding release_id deallocate
    release-IsManager v va m h k = record {
      valid =
          unfold deallocate in
          deallocate-IsValid mi v va m.valid (rw m.from_one h) (rw m.to_largest k);
      from_one = m.from_one;
      to_largest = m.to_largest;
    }

    pub clear-IsManager :
        (va : ValueAllocator mi) → IsManager largest va → IsManager largest (clear_ids mi va)
    unfolding clear_ids clear
    clear-IsManager va m = record {
      valid = clear-IsValid mi va (rw (m.from_one, m.to_largest) some_id) (rw m.to_largest fits);
      from_one = m.from_one;
      to_largest = m.to_largest;
    }

    acquire_some_lem :
        (va : ValueAllocator mi) (r : ValueAllocator mi × Option ℕ) (v : ℕ)
        → IsManager largest va
        → IsValid mi r.0
        → TakesLeast mi va r
        → r.1 ≡ some v
        → (is_used_id mi v va ≡ false)
          × ((w : ℕ) → is_used_id mi w r.0 ≡ (w == v || is_used_id mi w va))
    unfolding is_used_id
    acquire_some_lem va (va', none) v m m' t e = cc
    acquire_some_lem va (va', some u) v m m' (vacant, least, rest) e =
        let same : u ≡ v = ground arith in
        (
          ground (arith, is_used_lem mi v va m.valid, vacant),
          λ w. ground (arith, is_used_lem mi w va m.valid, is_used_lem mi w va' m', rest w),
        )

    acquire_none_lem :
        (va : ValueAllocator mi) (r : ValueAllocator mi × Option ℕ)
        → IsManager largest va
        → TakesLeast mi va r
        → r.1 ≡ none
        → (w : ℕ) → is_used_id mi w va ≡ true
    unfolding is_used_id
    acquire_none_lem va (va', none) m (e, none_vacant) k w =
        rw (is_used_lem mi w va m.valid, none_vacant w)
    acquire_none_lem va (va', some u) m t k w = cc

    -- An identifier that a valid manager acquires was free; it is used afterwards, and no other
    -- identifier changes.
    pub acquire_some_law :
        (va : ValueAllocator mi) (v : ℕ)
        → IsManager largest va
        → (acquire_unique_id mi va).1 ≡ some v
        → (is_used_id mi v va ≡ false)
          × ((w : ℕ) → is_used_id mi w (acquire_unique_id mi va).0 ≡ (w == v || is_used_id mi w va))
    unfolding acquire_unique_id
    acquire_some_law va v m e =
        acquire_some_lem va (allocate mi va) v m (allocate-IsValid mi va m.valid)
          (allocate-TakesLeast mi va m.valid) e

    pub acquire_none_law :
        (va : ValueAllocator mi)
        → IsManager largest va
        → (acquire_unique_id mi va).1 ≡ none
        → (w : ℕ) → is_used_id mi w va ≡ true
    unfolding acquire_unique_id
    acquire_none_law va m e =
        acquire_none_lem va (allocate mi va) m (allocate-TakesLeast mi va m.valid) e

    -- Registering answers whether the identifier was free in a valid manager; it is used
    -- afterwards, and no other identifier changes.
    pub register_law :
        (w v : ℕ) (va : ValueAllocator mi)
        → IsManager largest va
        → ((register_id mi v va).1 ≡ not (is_used_id mi v va))
          × (is_used_id mi w (register_id mi v va).0 ≡ (w == v || is_used_id mi w va))
    unfolding register_id is_used_id
    register_law w v va m =
        let (r, e) = is_vacant-use_value mi w v va m.valid in
        (
          ground (arith, r, is_used_lem mi v va m.valid),
          ground (
            arith,
            e,
            is_used_lem mi w va m.valid,
            is_used_lem mi w (use_value mi v va).0 (use_value-IsValid mi v va m.valid),
          ),
        )

    pub release_law :
        (w v : ℕ) (va : ValueAllocator mi)
        → IsManager largest va
        → 1 ≤ v
        → v ≤ largest
        → is_used_id mi w (release_id mi v va) ≡ (is_used_id mi w va && not (w == v))
    unfolding release_id is_used_id
    release_law w v va m h k =
        let lo : va.lowest ≤ v = rw m.from_one h in
        let hi : v ≤ va.highest = rw m.to_largest k in
        ground (
          arith,
          is_vacant-deallocate mi w v va m.valid lo hi,
          is_used_lem mi w va m.valid,
          is_used_lem mi w (deallocate mi v va) (deallocate-IsValid mi v va m.valid lo hi),
        )

    pub clear_law :
        (w : ℕ) (va : ValueAllocator mi)
        → IsManager largest va
        → is_used_id mi w (clear_ids mi va) ≡ not (leb 1 w && leb w largest)
    unfolding clear_ids is_used_id
    clear_law w va m =
        let valid : IsValid mi (clear mi va) =
          clear-IsValid mi va (rw (m.from_one, m.to_largest) some_id) (rw m.to_largest fits) in
        is_used_lem mi w (clear mi va) valid
        ∙ rw (is_vacant-clear mi w va, m.from_one, m.to_largest)

    pub outside_law :
        (w : ℕ) (va : ValueAllocator mi)
        → IsManager largest va
        → is_used_id mi w va ≡ false
        → (1 ≤ w) × (w ≤ largest)
    unfolding is_used_id
    outside_law w va m e =
        let vacant : is_vacant mi w va ≡ true = ground (arith, is_used_lem mi w va m.valid) in
        let (lo, hi) = is_vacant-in_bounds mi w va m.valid vacant in
        (rw m.from_one at lo, rw m.to_largest at hi)

    -- packet_id_manager meets the interface.
    abbrev pub packet_id_manager : PidManager
    packet_id_manager = record {
      State = ValueAllocator mi;
      largest = largest;
      Valid = IsManager largest;
      initial = initial_manager mi largest;
      acquire_unique_id = acquire_unique_id mi;
      register_id = register_id mi;
      is_used_id = is_used_id mi;
      release_id = release_id mi;
      clear_ids = clear_ids mi;
      initial-Valid = initial-IsManager;
      acquire-Valid = acquire-IsManager;
      register-Valid = register-IsManager;
      release-Valid = release-IsManager;
      clear-Valid = clear-IsManager;
      acquire_some = acquire_some_law;
      acquire_none = acquire_none_law;
      register_lem = register_law;
      release_lem = release_law;
      clear_lem = clear_law;
      used_outside = outside_law;
    }
