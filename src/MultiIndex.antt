-- ===== src/MultiIndex.antt =====
-- boost::multi_index_container with one ordered_unique index, as util/value_allocator.hpp uses it.
-- The container belongs to Boost, so it is a parameter: its operations, each with its documented
-- effect on the sequence that iteration visits. An iterator is the distance from begin(), and
-- end() is the number of elements.
use async_mqtt_cpp.Prelude.{
  ℕ, suc, ◌≡◌, refl, Bool, true, false, if◌then◌else◌, Option, none, some, List, [], ◌∷◌, set,
  erase_idx,
}

module _ {E : Type 0} (less : E → E → Bool) where
  -- Insertion in order; nothing changes where an equivalent element stands.
  abbrev pub emplace_sorted : E → List E → List E
  emplace_sorted e [] = e ∷ []
  emplace_sorted e (x ∷ xs) =
      if less e x then e ∷ x ∷ xs else if less x e then x ∷ emplace_sorted e xs else x ∷ xs

  -- The position of the equivalent element.
  abbrev pub find_position : E → List E → Option ℕ
  find_position e [] = none
  find_position e (x ∷ xs) = elim (less x e) [
    | true ↦ elim (find_position e xs) [ none ↦ none | some n ↦ some (suc n) ]
    | false ↦ if less e x then none else some 0
  ]

  -- The position of the first element that lies behind.
  abbrev pub upper_position : E → List E → ℕ
  upper_position e [] = 0
  upper_position e (x ∷ xs) = if less e x then 0 else suc (upper_position e xs)

  -- The position of the first element that does not lie before.
  abbrev pub lower_position : E → List E → ℕ
  lower_position e [] = 0
  lower_position e (x ∷ xs) = if less x e then suc (lower_position e xs) else 0

  -- Each element lies before the next.
  abbrev pub IsAscending : List E → Type 0
  IsAscending [] = Unit
  IsAscending (x ∷ []) = Unit
  IsAscending (x ∷ y ∷ xs) = (less x y ≡ true) × IsAscending (y ∷ xs)

pub record OrderedUnique {E : Type 0} (less : E → E → Bool) : Type 1 where
  pub Index : Type 0
  pub elements : Index → List E
  pub empty : Index
  pub emplace : E → Index → Index
  pub find : E → Index → Option ℕ
  pub upper_bound : E → Index → ℕ
  pub lower_bound : E → Index → ℕ
  pub erase : ℕ → Index → Index
  pub modify : ℕ → E → Index → Index
  pub elements-empty : elements empty ≡ []
  pub elements-emplace :
      (e : E) (i : Index) → elements (emplace e i) ≡ emplace_sorted less e (elements i)
  pub find_lem : (e : E) (i : Index) → find e i ≡ find_position less e (elements i)
  pub upper_bound_lem : (e : E) (i : Index) → upper_bound e i ≡ upper_position less e (elements i)
  pub lower_bound_lem : (e : E) (i : Index) → lower_bound e i ≡ lower_position less e (elements i)
  pub elements-erase : (n : ℕ) (i : Index) → elements (erase n i) ≡ erase_idx (elements i) n
  -- A modification that keeps the order keeps the position.
  pub elements-modify :
      (n : ℕ) (e : E) (i : Index)
      → IsAscending less (set (elements i) n e)
      → elements (modify n e i) ≡ set (elements i) n e

-- A container that meets the description: a sorted list.
abbrev pub list_index : {E : Type 0} (less : E → E → Bool) → OrderedUnique less
list_index {E} less = record {
  Index = List E;
  elements = λ i. i;
  empty = [];
  emplace = emplace_sorted less;
  find = find_position less;
  upper_bound = upper_position less;
  lower_bound = lower_position less;
  erase = λ n i. erase_idx i n;
  modify = λ n e i. set i n e;
  elements-empty = refl;
  elements-emplace = λ e i. refl;
  find_lem = λ e i. refl;
  upper_bound_lem = λ e i. refl;
  lower_bound_lem = λ e i. refl;
  elements-erase = λ n i. refl;
  elements-modify = λ n e i h. refl;
}
