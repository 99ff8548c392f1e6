-- ===== src/Protocol/PidSet.antt =====
-- std::set of packet identifiers: an ascending list without repetitions.
use async_mqtt_cpp.Prelude.{
  ℕ, ◌+◌, ◌≤◌, ◌≡◌, refl, Bool, false, not, ◌&&◌, ◌||◌, if◌then◌else◌, ltb, ◌==◌, List, [], ◌∷◌,
  length, arith,
}

abbrev pub PidSet : Type 0
PidSet = List ℕ

abbrev pub contains : ℕ → PidSet → Bool
contains k [] = false
contains k (x ∷ xs) = k == x || contains k xs

abbrev pub insert : ℕ → PidSet → PidSet
insert k [] = k ∷ []
insert k (x ∷ xs) =
    let rest = insert k xs in if ltb k x then k ∷ x ∷ xs else if k == x then x ∷ xs else x ∷ rest

abbrev pub erase : ℕ → PidSet → PidSet
erase k [] = []
erase k (x ∷ xs) = let rest = erase k xs in if k == x then rest else x ∷ rest

pub contains-insert : (j k : ℕ) (s : PidSet) → contains j (insert k s) ≡ (j == k || contains j s)
contains-insert j k [] = refl
contains-insert j k (x ∷ xs) = ground (arith, contains-insert j k xs)

pub contains-erase :
    (j k : ℕ) (s : PidSet) → contains j (erase k s) ≡ (contains j s && not (j == k))
contains-erase j k [] = refl
contains-erase j k (x ∷ xs) = ground (arith, contains-erase j k xs)

pub length-erase-le : (k : ℕ) (s : PidSet) → length (erase k s) ≤ length s
length-erase-le k [] = omega arith
length-erase-le k (x ∷ xs) = ground (arith, length-erase-le k xs)

pub length-insert-le : (k : ℕ) (s : PidSet) → length (insert k s) ≤ length s + 1
length-insert-le k [] = omega arith
length-insert-le k (x ∷ xs) = ground (arith, length-insert-le k xs)
