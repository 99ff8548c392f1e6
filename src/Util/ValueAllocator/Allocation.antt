-- ===== src/Util/ValueAllocator/Allocation.antt =====
-- What `allocate` of value_allocator.hpp promises: it takes the least vacant value.
use async_mqtt_cpp.Prelude.{
  ℕ, ◌+◌, ◌≤◌, ◌<◌, ◌^◌, ◌≡◌, refl, ◌∙◌, true, false, ◌&&◌, not, Bool-cases, inl, inr, leb, ◌==◌,
  Option, none, some, List, [], ◌∷◌, arith, set, get_elem?, erase_idx,
}
use async_mqtt_cpp.MultiIndex.{OrderedUnique}
use async_mqtt_cpp.Util.ValueAllocator.{
  ValueInterval, interval, before, inc, ValueAllocator, allocate, front,
}
use async_mqtt_cpp.Util.ValueAllocator.Intervals.{
  covers, Separated, covers_below, Separated-IsAscending,
}
use async_mqtt_cpp.Util.ValueAllocator.Removal.{remove, remove-Separated, covers-remove}
use async_mqtt_cpp.Util.ValueAllocator.Vacancy.{is_vacant, IsValid}

module _ (mi : OrderedUnique before) where
  open mi use {Index, elements, elements-erase, elements-modify}

  head_covers :
      (b top : ℕ) (xs : List ValueInterval) (it : ValueInterval)
      → Separated b top xs
      → get_elem? xs 0 ≡ some it
      → covers it.low xs ≡ true
  head_covers b top [] it s e = cc
  head_covers b top (x ∷ xs) it s e = ground arith

  -- Every covered value is at least the first interval's low end.
  head_least :
      (w b top : ℕ) (xs : List ValueInterval) (it : ValueInterval)
      → Separated b top xs
      → get_elem? xs 0 ≡ some it
      → covers w xs ≡ true
      → it.low ≤ w
  head_least w b top [] it s e c = cc
  head_least w b top (x ∷ xs) it s e c = ground (arith, covers_below w (x.high + 2) top xs s.3)

  shrink_front :
      (b top : ℕ) (xs : List ValueInterval) (it : ValueInterval)
      → Separated b top xs
      → top + 1 < 2 ^ 32
      → get_elem? xs 0 ≡ some it
      → leb (inc it.low) it.high ≡ true
      → set xs 0 (interval (inc it.low) it.high) ≡ remove it.low xs
  unfolding remove
  shrink_front b top [] it s w e t = cc
  shrink_front b top (x ∷ xs) it s w e t = ground arith

  drop_front :
      (b top : ℕ) (xs : List ValueInterval) (it : ValueInterval)
      → Separated b top xs
      → top + 1 < 2 ^ 32
      → get_elem? xs 0 ≡ some it
      → leb (inc it.low) it.high ≡ false
      → erase_idx xs 0 ≡ remove it.low xs
  unfolding remove
  drop_front b top [] it s w e t = cc
  drop_front b top (x ∷ xs) it s w e t = ground arith

  -- What `allocate` does, by the first interval.
  abbrev Allocates : ValueAllocator mi → ValueAllocator mi × Option ℕ → Type 0
  Allocates va (va', none) = (va' ≡ va) × (elements va.pool ≡ [])
  Allocates va (va', some v) =
      (elements va'.pool ≡ remove v (elements va.pool))
      × (va'.lowest ≡ va.lowest)
      × (va'.highest ≡ va.highest)
      × (is_vacant mi v va ≡ true)
      × ((w : ℕ) → is_vacant mi w va ≡ true → v ≤ w)

  get_front_none : (xs : List ValueInterval) → get_elem? xs 0 ≡ none → xs ≡ []
  get_front_none [] e = refl
  get_front_none (x ∷ xs) e = cc

  allocate-Allocates : (va : ValueAllocator mi) → IsValid mi va → Allocates va (allocate mi va)
  unfolding allocate
  allocate-Allocates va s = go (front mi va.pool) refl
    where
      open s use {separated, fits}

      go : (o : Option ValueInterval) → front mi va.pool ≡ o → Allocates va (allocate mi va)
      go none e = rw (e, allocate) (refl, get_front_none (elements va.pool) e)
      go (some it) e =
          rw (e, allocate)
            (elim (Bool-cases (leb (inc it.low) it.high)) [
              | inl t ↦
                  let shrunk =
                    shrink_front va.lowest va.highest (elements va.pool) it separated fits e t in
                  let apart =
                    remove-Separated it.low va.lowest va.highest (elements va.pool) separated in
                  rw t (
                    elements-modify 0 _ va.pool
                          (rw shrunk (Separated-IsAscending va.lowest va.highest _ apart))
                        ∙ shrunk,
                    refl,
                    refl,
                    vacant,
                    least,
                  )
              | inr t ↦
                  let dropped =
                    drop_front va.lowest va.highest (elements va.pool) it separated fits e t in
                  rw t (elements-erase 0 va.pool ∙ dropped, refl, refl, vacant, least)
            ])
        where
          vacant : is_vacant mi it.low va ≡ true
          vacant = head_covers va.lowest va.highest (elements va.pool) it separated e

          least : (w : ℕ) → is_vacant mi w va ≡ true → it.low ≤ w
          least w = head_least w va.lowest va.highest (elements va.pool) it separated e

  Allocates-IsValid :
      (va : ValueAllocator mi) (r : ValueAllocator mi × Option ℕ)
      → IsValid mi va
      → Allocates va r
      → IsValid mi r.0
  Allocates-IsValid va (va', none) s h = rw h.0 s
  Allocates-IsValid va (va', some v) s (e, lo, hi, vacant, least) = record {
    separated =
        rw (e, lo, hi) (remove-Separated v va.lowest va.highest (elements va.pool) s.separated);
    fits = rw hi s.fits;
  }

  -- `allocate` keeps a valid allocator valid: its intervals stay in order, apart and in bounds.
  pub allocate-IsValid : (va : ValueAllocator mi) → IsValid mi va → IsValid mi (allocate mi va).0
  allocate-IsValid va s = Allocates-IsValid va (allocate mi va) s (allocate-Allocates va s)

  Allocates-bounds :
      (va : ValueAllocator mi) (r : ValueAllocator mi × Option ℕ)
      → Allocates va r
      → (r.0.lowest ≡ va.lowest) × (r.0.highest ≡ va.highest)
  Allocates-bounds va (va', none) (e, k) = (rw e, rw e)
  Allocates-bounds va (va', some v) (e, lo, hi, vacant, least) = (lo, hi)

  pub allocate-bounds :
      (va : ValueAllocator mi)
      → IsValid mi va
      → ((allocate mi va).0.lowest ≡ va.lowest) × ((allocate mi va).0.highest ≡ va.highest)
  allocate-bounds va s = Allocates-bounds va (allocate mi va) (allocate-Allocates va s)

  -- The two outcomes of `allocate`, told by the set of vacant values.
  abbrev pub TakesLeast : ValueAllocator mi → ValueAllocator mi × Option ℕ → Type 0
  TakesLeast va (va', none) = (va' ≡ va) × ((w : ℕ) → is_vacant mi w va ≡ false)
  TakesLeast va (va', some v) =
      (is_vacant mi v va ≡ true)
      × ((w : ℕ) → is_vacant mi w va ≡ (leb v w && is_vacant mi w va))
      × ((w : ℕ) → is_vacant mi w va' ≡ (is_vacant mi w va && not (w == v)))

  Allocates-TakesLeast :
      (va : ValueAllocator mi) (r : ValueAllocator mi × Option ℕ)
      → IsValid mi va
      → Allocates va r
      → TakesLeast va r
  Allocates-TakesLeast va (va', none) s (e, k) = (e, λ w. rw k)
  Allocates-TakesLeast va (va', some v) s (e, lo, hi, vacant, least) = (
    vacant,
    λ w. ground (arith, least w),
    λ w. rw e (covers-remove w v va.lowest va.highest (elements va.pool) s.separated),
  )

  -- In a valid allocator, `allocate` takes the least vacant value and no other; it fails only
  -- when no value is vacant, and then changes nothing.
  pub allocate-TakesLeast :
      (va : ValueAllocator mi) → IsValid mi va → TakesLeast va (allocate mi va)
  allocate-TakesLeast va s = Allocates-TakesLeast va (allocate mi va) s (allocate-Allocates va s)
