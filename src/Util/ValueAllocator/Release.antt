-- ===== src/Util/ValueAllocator/Release.antt =====
-- `deallocate` of value_allocator.hpp against a recursion over the intervals.
use async_mqtt_cpp.Prelude.{
  ℕ, suc, ◌+◌, ◌≤◌, ◌<◌, ◌^◌, ◌≡◌, refl, ap, ◌∙◌, Bool, true, false, ◌&&◌, ◌||◌, Bool-cases, inl,
  inr, if◌then◌else◌, ltb, leb, ◌==◌, Option, none, some, List, [], ◌∷◌, arith, set, get_elem?,
  erase_idx,
}
use async_mqtt_cpp.MultiIndex.{
  OrderedUnique, list_index, emplace_sorted, upper_position, IsAscending,
}
use async_mqtt_cpp.Util.ValueAllocator.{
  ValueInterval, interval, single, before, inc, left_of, deallocate_between, deallocate_from,
}
use async_mqtt_cpp.Util.ValueAllocator.Intervals.{
  covers, Separated, Separated-mono, Separated-IsAscending,
}

-- The interval from `l` to `v`, joined to the next one where they touch.
pub join_right : ℕ → ℕ → List ValueInterval → List ValueInterval
join_right l v [] = interval l v ∷ []
join_right l v (y ∷ ys) = if v + 1 == y.low then interval l y.high ∷ ys else interval l v ∷ y ∷ ys

-- The intervals with one more value.
pub release : ℕ → List ValueInterval → List ValueInterval
unfolding join_right
release v [] = single v ∷ []
release v (x ∷ xs) =
    if ltb v x.low
    then (if v + 1 == x.low then interval v x.high ∷ xs else single v ∷ x ∷ xs)
    else if leb v x.high
    then x ∷ xs
    else if x.high + 1 == v
    then join_right x.low v xs
    else x ∷ release v xs

join_right-Separated :
    (l v b top : ℕ) (xs : List ValueInterval)
    → b ≤ l
    → l ≤ v
    → v ≤ top
    → Separated (v + 1) top xs
    → Separated b top (join_right l v xs)
unfolding join_right
join_right-Separated l v b top [] p q r s = omega arith
join_right-Separated l v b top (y ∷ ys) p q r s = ground arith

pub release-Separated :
    (v b top : ℕ) (xs : List ValueInterval)
    → b ≤ v
    → v ≤ top
    → Separated b top xs
    → Separated b top (release v xs)
unfolding release
release-Separated v b top [] p q s = omega arith
release-Separated v b top (x ∷ xs) p q s = ground (
  arith,
  join_right-Separated x.low v b top xs,
  Separated-mono (v + 1) (x.high + 2) top xs,
  release-Separated v (x.high + 2) top xs,
)

covers-join_right :
    (w l v b top : ℕ) (xs : List ValueInterval)
    → l ≤ v
    → Separated b top xs
    → covers w (join_right l v xs) ≡ (leb l w && leb w v || covers w xs)
unfolding join_right
covers-join_right w l v b top [] p s = refl
covers-join_right w l v b top (y ∷ ys) p s = ground arith

pub covers-release :
    (w v b top : ℕ) (xs : List ValueInterval)
    → Separated b top xs
    → covers w (release v xs) ≡ (w == v || covers w xs)
unfolding release
covers-release w v b top [] s = ground arith
covers-release w v b top (x ∷ xs) s =
    ground (
      arith,
      covers-join_right w x.low v (x.high + 2) top xs,
      covers-release w v (x.high + 2) top xs,
    )

abbrev shift_left : Option (ℕ × ValueInterval) → Option (ℕ × ValueInterval)
shift_left none = none
shift_left (some (m, iv)) = some (suc m, iv)

abbrev between :
    List ValueInterval
    → ℕ
    → ℕ
    → Option (ℕ × ValueInterval)
    → Option ValueInterval
    → List ValueInterval
between = deallocate_between (list_index before)

-- Work behind the head leaves the head alone.
between_shift :
    (x : ValueInterval) (xs : List ValueInterval) (v n : ℕ) (l : Option (ℕ × ValueInterval))
    (r : Option ValueInterval)
    → before (single v) x ≡ false
    → before x (single v) ≡ true
    → between (x ∷ xs) v (suc n) (shift_left l) r ≡ x ∷ between xs v n l r
unfolding deallocate_between
between_shift x xs v n none none p q = ground arith
between_shift x xs v n (some (m, itl)) none p q = ground arith
between_shift x xs v n none (some itr) p q = ground arith
between_shift x xs v n (some (m, itl)) (some itr) p q = ground arith

left_of_shift :
    (x y : ValueInterval) (ys : List ValueInterval) (m : ℕ)
    → left_of (list_index before) (x ∷ y ∷ ys) (suc (suc m))
      ≡ shift_left (left_of (list_index before) (y ∷ ys) (suc m))
left_of_shift x y ys m = ground arith

pub from_list : ℕ → List ValueInterval → List ValueInterval
unfolding deallocate_from
from_list v xs = deallocate_from (list_index before) xs v (upper_position before (single v) xs)

from_list_step :
    (v : ℕ) (x y : ValueInterval) (ys : List ValueInterval)
    → before (single v) x ≡ false
    → before (single v) y ≡ false
    → before x (single v) ≡ true
    → from_list v (x ∷ y ∷ ys) ≡ x ∷ from_list v (y ∷ ys)
unfolding from_list
from_list_step v x y ys p q r =
    let u = upper_position before (single v) ys in
    rw (p, q, left_of_shift x y ys u)
      (between_shift x (y ∷ ys) v (suc u) (left_of (list_index before) (y ∷ ys) (suc u))
        (get_elem? ys u) p r)

from_list-release :
    (v b top : ℕ) (xs : List ValueInterval)
    → Separated b top xs
    → b ≤ v
    → v ≤ top
    → top + 1 < 2 ^ 32
    → from_list v xs ≡ release v xs
unfolding from_list release join_right deallocate_between
from_list-release v b top [] s h k w = refl
from_list-release v b top (x ∷ []) s h k w = ground arith
from_list-release v b top (x ∷ y ∷ ys) s h k w = elim (Bool-cases (ltb v y.low)) [
  | inl e ↦ ground arith
  | inr e ↦
      from_list_step v x y ys (ground arith) (ground arith) (ground arith)
      ∙ ap (λ (t : List ValueInterval). x ∷ t)
          (from_list-release v (x.high + 2) top (y ∷ ys) s.3 (ground arith) k w)
      ∙ ground arith
]

module _ (mi : OrderedUnique before) where
  open mi use {
    Index, elements, emplace, erase, modify, elements-emplace, elements-erase, elements-modify,
    upper_bound, upper_bound_lem,
  }

  erase_modify :
      (m n : ℕ) (e : ValueInterval) (pool : Index)
      → IsAscending before (set (erase_idx (elements pool) n) m e)
      → elements (modify m e (erase n pool)) ≡ set (erase_idx (elements pool) n) m e
  erase_modify m n e pool h =
      elements-modify m e (erase n pool) (rw (elements-erase n pool) h) ∙ rw (elements-erase n pool)

  abbrev Realizes : Index → List ValueInterval → Type 0
  Realizes pool xs = IsAscending before xs → elements pool ≡ xs

  if_Realizes :
      (b : Bool) (p q : Index) (xs ys : List ValueInterval)
      → Realizes p xs
      → Realizes q ys
      → Realizes (if b then p else q) (if b then xs else ys)
  if_Realizes true p q xs ys h k = h
  if_Realizes false p q xs ys h k = k

  emplace_Realizes :
      (e : ValueInterval) (pool : Index)
      → Realizes (emplace e pool) (emplace_sorted before e (elements pool))
  emplace_Realizes e pool h = elements-emplace e pool

  -- The container's operations act on its sequence as the list's do.
  elements-between :
      (pool : Index) (v n : ℕ) (l : Option (ℕ × ValueInterval)) (r : Option ValueInterval)
      → Realizes (deallocate_between mi pool v n l r) (between (elements pool) v n l r)
  unfolding deallocate_between
  elements-between pool v n none none = emplace_Realizes (single v) pool
  elements-between pool v n (some (m, itl)) none =
      if_Realizes (inc itl.high == v) _ _ _ _ (elements-modify m (interval itl.low v) pool)
        (emplace_Realizes (single v) pool)
  elements-between pool v n none (some itr) =
      if_Realizes (inc v == itr.low) _ _ _ _ (elements-modify n (interval v itr.high) pool)
        (emplace_Realizes (single v) pool)
  elements-between pool v n (some (m, itl)) (some itr) =
      if_Realizes (inc itl.high == v) _ _ _ _
        (if_Realizes (inc v == itr.low) _ _ _ _ (erase_modify m n (interval itl.low itr.high) pool)
          (elements-modify m (interval itl.low v) pool))
        (if_Realizes (inc v == itr.low) _ _ _ _ (elements-modify n (interval v itr.high) pool)
          (emplace_Realizes (single v) pool))

  -- `deallocate` adds the value to the intervals.
  pub elements-deallocate_from :
      (v b top : ℕ) (pool : Index)
      → Separated b top (elements pool)
      → b ≤ v
      → v ≤ top
      → top + 1 < 2 ^ 32
      → elements (deallocate_from mi pool v (upper_bound (single v) pool))
        ≡ release v (elements pool)
  unfolding deallocate_from from_list
  elements-deallocate_from v b top pool s h k w =
      let e = from_list-release v b top (elements pool) s h k w in
      let n = upper_position before (single v) (elements pool) in
      rw (upper_bound_lem (single v) pool) (
        elements-between pool v n (left_of mi pool n) (get_elem? (elements pool) n)
          (rw e (Separated-IsAscending b top _ (release-Separated v b top (elements pool) h k s)))
        ∙ e)
