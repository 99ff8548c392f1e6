-- ===== src/Util/ValueAllocator/Removal.antt =====
-- `use` and `is_used` of value_allocator.hpp against a recursion over the intervals.
use async_mqtt_cpp.Prelude.{
  ℕ, suc, ◌+◌, ◌-◌, ◌≤◌, ◌<◌, ◌^◌, ◌≡◌, refl, ap, ◌∙◌, true, false, ◌&&◌, not, Bool-cases,
  Option-cases, inl, inr, if◌then◌else◌, ltb, ◌==◌, none, some, List, [], ◌∷◌, arith, get_elem?,
}
use async_mqtt_cpp.MultiIndex.{OrderedUnique, list_index, emplace_sorted, find_position}
use async_mqtt_cpp.Util.ValueAllocator.{ValueInterval, interval, single, before, inc, split_at}
use async_mqtt_cpp.Util.ValueAllocator.Intervals.{covers, Separated, covers_below, Separated-mono}

-- What is left of `x` above `v`, in front of the other intervals.
pub cut_left : ValueInterval → ℕ → List ValueInterval → List ValueInterval
cut_left x v xs = if ltb v x.high then interval (v + 1) x.high ∷ xs else xs

-- The intervals without one value.
unfoldable pub remove : ℕ → List ValueInterval → List ValueInterval
unfolding cut_left
remove v [] = []
remove v (x ∷ xs) =
    if ltb v x.low
    then x ∷ xs
    else if ltb x.high v
    then x ∷ remove v xs
    else if ltb x.low v
    then interval x.low (v - 1) ∷ cut_left x v xs
    else cut_left x v xs

pub remove-Separated :
    (v b top : ℕ) (xs : List ValueInterval) → Separated b top xs → Separated b top (remove v xs)
unfolding remove
remove-Separated v b top [] s = tt
remove-Separated v b top (x ∷ xs) s = ground (
  arith,
  remove-Separated v (x.high + 2) top xs,
  Separated-mono b (x.high + 2) top xs,
  Separated-mono (v - 1 + 2) (x.high + 2) top xs,
)

pub covers-remove :
    (w v b top : ℕ) (xs : List ValueInterval)
    → Separated b top xs
    → covers w (remove v xs) ≡ (covers w xs && not (w == v))
unfolding remove
covers-remove w v b top [] s = refl
covers-remove w v b top (x ∷ xs) s =
    ground (arith, covers_below v (x.high + 2) top xs s.3, covers-remove w v (x.high + 2) top xs)

-- Nothing is taken away from intervals that do not cover the value.
pub remove_absent :
    (v b top : ℕ) (xs : List ValueInterval)
    → Separated b top xs
    → covers v xs ≡ false
    → remove v xs ≡ xs
unfolding remove
remove_absent v b top [] s h = refl
remove_absent v b top (x ∷ xs) s h = ground (arith, remove_absent v (x.high + 2) top xs s.3)

-- A found interval covers the value.
pub find_hit :
    (v b top : ℕ) (xs : List ValueInterval) (n : ℕ)
    → Separated b top xs
    → find_position before (single v) xs ≡ some n
    → (iv : ValueInterval) × (get_elem? xs n ≡ some iv)
      × (b ≤ iv.low)
      × (iv.low ≤ v)
      × (v ≤ iv.high)
      × (iv.high ≤ top)
find_hit v b top [] n s e = cc
find_hit v b top (x ∷ xs) n s e = elim (Bool-cases (ltb x.high v)) [
  | inr h ↦ (x, ground arith, ground arith, ground arith, ground arith, ground arith)
  | inl h ↦ elim (Option-cases (find_position before (single v) xs)) [
    | inl k ↦ absurd (ground arith)
    | inr (m, k) ↦
        let (iv, g, p, q, r, t) = find_hit v (x.high + 2) top xs m s.3 k in
        let z : n ≡ suc m = ground arith in (iv, rw z g, omega arith, q, r, t)
  ]
]

-- Exactly the values that no interval covers are not found.
pub find_position-covers :
    (v b top : ℕ) (xs : List ValueInterval)
    → Separated b top xs
    → (elim (find_position before (single v) xs) [ none ↦ false | some n ↦ true ]) ≡ covers v xs
find_position-covers v b top [] s = refl
find_position-covers v b top (x ∷ xs) s =
    ground (
      arith,
      find_position-covers v (x.high + 2) top xs s.3,
      covers_below v (x.high + 2) top xs s.3,
    )

abbrev split : List ValueInterval → ℕ → ℕ → ValueInterval → List ValueInterval
split = split_at (list_index before)

emplace_front :
    (e : ValueInterval) (b top : ℕ) (xs : List ValueInterval)
    → Separated b top xs
    → e.low ≤ e.high
    → e.high < b
    → emplace_sorted before e xs ≡ e ∷ xs
emplace_front e b top [] s h k = refl
emplace_front e b top (x ∷ xs) s h k = ground arith

split_shift :
    (x : ValueInterval) (xs : List ValueInterval) (v n : ℕ) (iv : ValueInterval)
    → x.low ≤ x.high
    → x.high < iv.low
    → iv.low ≤ v
    → v + 1 < 2 ^ 32
    → split (x ∷ xs) v (suc n) iv ≡ x ∷ split xs v n iv
unfolding split_at
split_shift x xs v n iv h k l w = ground arith

split_head :
    (x : ValueInterval) (xs : List ValueInterval) (v b top : ℕ)
    → Separated b top (x ∷ xs)
    → x.low ≤ v
    → v ≤ x.high
    → x.high + 1 < 2 ^ 32
    → split (x ∷ xs) v 0 x ≡ remove v (x ∷ xs)
unfolding split_at remove
split_head x xs v b top s h k w = ground (
  arith,
  emplace_front (interval x.low (v - 1)) (x.high + 2) top xs s.3,
  emplace_front (interval (inc v) x.high) (x.high + 2) top xs s.3,
)

pub split-remove :
    (v b top n : ℕ) (xs : List ValueInterval) (iv : ValueInterval)
    → Separated b top xs
    → v ≤ top
    → top + 1 < 2 ^ 32
    → find_position before (single v) xs ≡ some n
    → get_elem? xs n ≡ some iv
    → split xs v n iv ≡ remove v xs
unfolding remove
split-remove v b top n [] iv s h w e g = cc
split-remove v b top n (x ∷ xs) iv s h w e g = elim (Bool-cases (ltb x.high v)) [
  | inr t ↦
      let z : n ≡ 0 = ground arith in
      let y : x ≡ iv = ground arith in
      rw (z, ← y) (split_head x xs v b top s (ground arith) (ground arith) (omega arith))
  | inl t ↦ elim (Option-cases (find_position before (single v) xs)) [
    | inl k ↦ absurd (ground arith)
    | inr (m, k) ↦
        let z : n ≡ suc m = ground arith in
        let g' : get_elem? xs m ≡ some iv = rw z at g in
        split_later m z g' (find_hit v (x.high + 2) top xs m s.3 k)
          (split-remove v (x.high + 2) top m xs iv s.3 h w k g')
  ]
]
  where
    split_later :
        (m : ℕ)
        → n ≡ suc m
        → get_elem? xs m ≡ some iv
        → ((i : ValueInterval) × (get_elem? xs m ≡ some i)
            × (x.high + 2 ≤ i.low)
            × (i.low ≤ v)
            × (v ≤ i.high)
            × (i.high ≤ top))
        → split xs v m iv ≡ remove v xs
        → split (x ∷ xs) v n iv ≡ remove v (x ∷ xs)
    split_later m z g' (i, gi, p, q, r, u) ih =
        let j : i ≡ iv = ground arith in
        let jl : i.low ≡ iv.low = rw j in
        rw z (
          split_shift x xs v m iv (omega arith) (omega arith) (omega arith) (omega arith)
          ∙ ap (λ (t : List ValueInterval). x ∷ t) ih
          ∙ ground arith)

module _ (mi : OrderedUnique before) where
  open mi use {Index, elements, erase, emplace, elements-emplace, elements-erase}

  pub elements-split :
      (pool : Index) (v n : ℕ) (iv : ValueInterval)
      → elements (split_at mi pool v n iv) ≡ split (elements pool) v n iv
  unfolding split_at
  elements-split pool v n iv =
      let erased = erase n pool in
      let left = emplace (interval iv.low (v - 1)) erased in
      ground (
        arith,
        elements-erase n pool,
        elements-emplace (interval iv.low (v - 1)) erased,
        elements-emplace (interval (inc v) iv.high) erased,
        elements-emplace (interval (inc v) iv.high) left,
      )
