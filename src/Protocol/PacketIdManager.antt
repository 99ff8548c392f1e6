-- ===== src/Protocol/PacketIdManager.antt =====
-- include/async_mqtt/protocol/impl/packet_id_manager.hpp
pub mod Laws
use async_mqtt_cpp.Prelude.{
  ℕ, ◌+◌, ◌≤◌, ◌<◌, ◌^◌, ◌≡◌, refl, ◌∙◌, ap, Bool, true, false, not, ◌&&◌, ◌||◌, ◌==◌, leb, Option,
  none, some, arith, Bool-cases, inl, inr,
}
use async_mqtt_cpp.MultiIndex.{OrderedUnique}
use async_mqtt_cpp.Util.ValueAllocator.{
  before, ValueAllocator, make, allocate, deallocate, use_value, is_used, clear,
}

module _ (mi : OrderedUnique before) where
  -- va_, for identifiers whose largest value is `largest`: 2 ^ 16 - 1 or 2 ^ 32 - 1.
  pub initial_manager : ℕ → ValueAllocator mi
  initial_manager largest = make mi 1 largest

  unfoldable pub acquire_unique_id : ValueAllocator mi → ValueAllocator mi × Option ℕ
  acquire_unique_id va = allocate mi va

  pub register_id : ℕ → ValueAllocator mi → ValueAllocator mi × Bool
  register_id packet_id va = use_value mi packet_id va

  pub is_used_id : ℕ → ValueAllocator mi → Bool
  is_used_id packet_id va = is_used mi packet_id va

  pub release_id : ℕ → ValueAllocator mi → ValueAllocator mi
  release_id packet_id va = deallocate mi packet_id va

  pub clear_ids : ValueAllocator mi → ValueAllocator mi
  clear_ids va = clear mi va
