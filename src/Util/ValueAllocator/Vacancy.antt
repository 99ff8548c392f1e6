-- ===== src/Util/ValueAllocator/Vacancy.antt =====
-- What value_allocator.hpp promises: the vacant values as a set, and each operation's effect on it.
use async_mqtt_cpp.Prelude.{
  ℕ, ◌+◌, ◌≤◌, ◌<◌, ◌^◌, ◌≡◌, refl, sym, ◌∙◌, Bool, true, false, ◌&&◌, ◌||◌, not, leb, ◌==◌, Option,
  none, some, arith,
}
use async_mqtt_cpp.MultiIndex.{OrderedUnique, find_position}
use async_mqtt_cpp.Util.ValueAllocator.{
  interval, single, before, ValueAllocator, deallocate, use_value, use_at, is_used, clear,
}
use async_mqtt_cpp.Util.ValueAllocator.Intervals.{covers, Separated, covers_below, covers_above}
use async_mqtt_cpp.Util.ValueAllocator.Release.{
  release-Separated, covers-release, elements-deallocate_from,
}
use async_mqtt_cpp.Util.ValueAllocator.Removal.{
  remove, remove_absent, remove-Separated, covers-remove, find_hit, find_position-covers,
  split-remove, elements-split,
}

module _ (mi : OrderedUnique before) where
  open mi use {
    Index, elements, find_lem, elements-empty, elements-emplace, elements-erase, elements-modify,
  }

  -- The value is in the pool.
  abbrev pub is_vacant : ℕ → ValueAllocator mi → Bool
  is_vacant v va = covers v (elements va.pool)

  -- The intervals lie apart, within the bounds. Below the largest 32-bit value `v + 1` cannot wrap.
  pub record IsValid (va : ValueAllocator mi) : Type 0 where
    pub separated : Separated va.lowest va.highest (elements va.pool)
    pub fits : va.highest + 1 < 2 ^ 32

  pub clear-IsValid :
      (va : ValueAllocator mi)
      → va.lowest ≤ va.highest
      → va.highest + 1 < 2 ^ 32
      → IsValid (clear mi va)
  unfolding clear
  clear-IsValid va h k = record {
    separated =
        rw (elements-emplace (interval va.lowest va.highest) mi.empty, elements-empty)
          (omega arith);
    fits = k;
  }

  pub is_vacant-clear :
      (w : ℕ) (va : ValueAllocator mi)
      → is_vacant w (clear mi va) ≡ (leb va.lowest w && leb w va.highest)
  unfolding clear
  is_vacant-clear w va =
      rw (elements-emplace (interval va.lowest va.highest) mi.empty, elements-empty) (ground arith)

  -- `is_used` answers exactly for the values that are not vacant.
  pub is_used_lem :
      (v : ℕ) (va : ValueAllocator mi) → IsValid va → is_used mi v va ≡ not (is_vacant v va)
  unfolding is_used
  is_used_lem v va s =
      rw (find_lem (single v) va.pool, is_used)
        (ground (arith, find_position-covers v va.lowest va.highest (elements va.pool) s.separated))

  -- `deallocate` of a value in bounds keeps a valid allocator valid, also where it joins
  -- intervals.
  pub deallocate-IsValid :
      (v : ℕ) (va : ValueAllocator mi)
      → IsValid va
      → va.lowest ≤ v
      → v ≤ va.highest
      → IsValid (deallocate mi v va)
  unfolding deallocate
  deallocate-IsValid v va s h k = record {
    separated =
        rw (elements-deallocate_from mi v va.lowest va.highest va.pool s.separated h k s.fits)
          (release-Separated v va.lowest va.highest (elements va.pool) h k s.separated);
    fits = s.fits;
  }

  -- In a valid allocator, after `deallocate` of a value in bounds this value is vacant, and no
  -- other value has changed.
  pub is_vacant-deallocate :
      (w v : ℕ) (va : ValueAllocator mi)
      → IsValid va
      → va.lowest ≤ v
      → v ≤ va.highest
      → is_vacant w (deallocate mi v va) ≡ (w == v || is_vacant w va)
  unfolding deallocate
  is_vacant-deallocate w v va s h k =
      rw (elements-deallocate_from mi v va.lowest va.highest va.pool s.separated h k s.fits)
        (covers-release w v va.lowest va.highest (elements va.pool) s.separated)

  -- `use` takes the value away from the intervals.
  elements-use_value :
      (v : ℕ) (va : ValueAllocator mi)
      → IsValid va
      → (elements (use_value mi v va).0.pool ≡ remove v (elements va.pool))
        × ((use_value mi v va).1 ≡ is_vacant v va)
        × ((use_value mi v va).0.lowest ≡ va.lowest)
        × ((use_value mi v va).0.highest ≡ va.highest)
  unfolding use_value use_at
  elements-use_value v va s =
      rw (find_lem (single v) va.pool, use_value)
        (go (find_position before (single v) (elements va.pool)) refl)
    where
      open s use {separated, fits}

      go :
          (o : Option ℕ)
          → find_position before (single v) (elements va.pool) ≡ o
          → (elements (use_at mi va v o).0.pool ≡ remove v (elements va.pool))
            × ((use_at mi va v o).1 ≡ is_vacant v va)
            × ((use_at mi va v o).0.lowest ≡ va.lowest)
            × ((use_at mi va v o).0.highest ≡ va.highest)
      go none e =
          let absent : false ≡ is_vacant v va =
            rw e at (find_position-covers v va.lowest va.highest (elements va.pool) separated) in
          (
            sym (remove_absent v va.lowest va.highest (elements va.pool) separated (sym absent)),
            absent,
            refl,
            refl,
          )
      go (some n) e =
          let present : true ≡ is_vacant v va =
            rw e at (find_position-covers v va.lowest va.highest (elements va.pool) separated) in
          let (iv, g, lo, p, q, hi) =
            find_hit v va.lowest va.highest (elements va.pool) n separated e in
          rw (g, use_at)
            (
              elements-split mi va.pool v n iv
                  ∙ split-remove v va.lowest va.highest n (elements va.pool) iv separated
                      (omega arith) fits e g,
              present,
              refl,
              refl,
            )

  -- `use` keeps a valid allocator valid, for a value in bounds or not.
  pub use_value-IsValid :
      (v : ℕ) (va : ValueAllocator mi) → IsValid va → IsValid (use_value mi v va).0
  use_value-IsValid v va s =
      let (e, r, lo, hi) = elements-use_value v va s in
      record {
        separated =
            rw (e, lo, hi) (remove-Separated v va.lowest va.highest (elements va.pool) s.separated);
        fits = rw hi s.fits;
      }

  pub use_value-bounds :
      (v : ℕ) (va : ValueAllocator mi)
      → IsValid va
      → ((use_value mi v va).0.lowest ≡ va.lowest) × ((use_value mi v va).0.highest ≡ va.highest)
  use_value-bounds v va s = let (e, r, lo, hi) = elements-use_value v va s in (lo, hi)

  -- In a valid allocator, `use` answers whether the value was vacant, and takes just that value.
  pub is_vacant-use_value :
      (w v : ℕ) (va : ValueAllocator mi)
      → IsValid va
      → ((use_value mi v va).1 ≡ is_vacant v va)
        × (is_vacant w (use_value mi v va).0 ≡ (is_vacant w va && not (w == v)))
  is_vacant-use_value w v va s =
      let (e, r, lo, hi) = elements-use_value v va s in
      (r, rw e (covers-remove w v va.lowest va.highest (elements va.pool) s.separated))

  -- Only values within the bounds are vacant.
  pub is_vacant-in_bounds :
      (w : ℕ) (va : ValueAllocator mi)
      → IsValid va
      → is_vacant w va ≡ true
      → (va.lowest ≤ w) × (w ≤ va.highest)
  is_vacant-in_bounds w va s h = (
    ground (arith, covers_below w va.lowest va.highest (elements va.pool) s.separated),
    ground (arith, covers_above w va.lowest va.highest (elements va.pool) s.separated),
  )
