-- ===== src/Protocol/PidManager.antt =====
-- The interface of packet_id_manager (protocol/impl/packet_id_manager.hpp) that the connection uses.
use async_mqtt_cpp.Prelude.{
  ℕ, ◌≤◌, ◌≡◌, Bool, true, false, not, ◌&&◌, ◌||◌, ◌==◌, leb, Option, none, some,
}

-- What the connection relies on: identifiers 1 to `largest`, each used or not.
pub record PidManager : Type 1 where
  pub State : Type 0
  pub largest : ℕ
  pub Valid : State → Type 0
  pub initial : State
  pub acquire_unique_id : State → State × Option ℕ
  pub register_id : ℕ → State → State × Bool
  pub is_used_id : ℕ → State → Bool
  pub release_id : ℕ → State → State
  pub clear_ids : State → State
  pub initial-Valid : Valid initial
  pub acquire-Valid : (s : State) → Valid s → Valid (acquire_unique_id s).0
  pub register-Valid : (v : ℕ) (s : State) → Valid s → Valid (register_id v s).0
  pub release-Valid : (v : ℕ) (s : State) → Valid s → 1 ≤ v → v ≤ largest → Valid (release_id v s)
  pub clear-Valid : (s : State) → Valid s → Valid (clear_ids s)
  -- An acquired identifier was free and in range, and only it changes.
  pub acquire_some :
      (s : State) (v : ℕ)
      → Valid s
      → (acquire_unique_id s).1 ≡ some v
      → (is_used_id v s ≡ false)
        × ((w : ℕ) → is_used_id w (acquire_unique_id s).0 ≡ (w == v || is_used_id w s))
  pub acquire_none :
      (s : State) → Valid s → (acquire_unique_id s).1 ≡ none → (w : ℕ) → is_used_id w s ≡ true
  pub register_lem :
      (w v : ℕ) (s : State)
      → Valid s
      → ((register_id v s).1 ≡ not (is_used_id v s))
        × (is_used_id w (register_id v s).0 ≡ (w == v || is_used_id w s))
  pub release_lem :
      (w v : ℕ) (s : State)
      → Valid s
      → 1 ≤ v
      → v ≤ largest
      → is_used_id w (release_id v s) ≡ (is_used_id w s && not (w == v))
  pub clear_lem :
      (w : ℕ) (s : State) → Valid s → is_used_id w (clear_ids s) ≡ not (leb 1 w && leb w largest)
  pub used_outside :
      (w : ℕ) (s : State) → Valid s → is_used_id w s ≡ false → (1 ≤ w) × (w ≤ largest)
