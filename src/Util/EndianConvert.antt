-- ===== src/Util/EndianConvert.antt =====
-- include/async_mqtt/util/endian_convert.hpp: unsigned numbers as big-endian bytes.
use async_mqtt_cpp.Prelude.{
  ℕ, zero, suc, ◌+◌, ◌*◌, ◌/◌, ◌%◌, ◌^◌, ◌<◌, ◌≡◌, refl, List, [], ◌∷◌, ◌++◌, length, length-append,
  arith,
}

-- endian_store and endian_static_vector for a type of `n` bytes.
unfoldable pub endian_store : (n val : ℕ) → List ℕ
endian_store zero val = []
endian_store (suc n) val = endian_store n (val / 256) ++ val % 256 ∷ []

unfoldable pub load_from : (acc : ℕ) → List ℕ → ℕ
load_from acc [] = acc
load_from acc (b ∷ bs) = load_from (acc * 256 + b) bs

unfoldable pub endian_load : List ℕ → ℕ
unfolding load_from
endian_load = load_from 0

pub length-endian_store : (n val : ℕ) → length (endian_store n val) ≡ n
unfolding endian_store
length-endian_store zero val = refl
length-endian_store (suc n) val = omega (
  arith,
  length-append (endian_store n (val / 256)) (val % 256 ∷ []),
  length-endian_store n (val / 256),
)

load_from-snoc :
    (acc b : ℕ) (bs : List ℕ) → load_from acc (bs ++ b ∷ []) ≡ load_from acc bs * 256 + b
unfolding load_from
load_from-snoc acc b [] = refl
load_from-snoc acc b (c ∷ bs) = load_from-snoc (acc * 256 + c) b bs

-- A number that fits into `n` bytes is loaded as it was stored.
pub endian_load-endian_store : (n val : ℕ) → val < 256 ^ n → endian_load (endian_store n val) ≡ val
unfolding endian_load endian_store
endian_load-endian_store zero val h = ground arith
endian_load-endian_store (suc n) val h =
    let e : 256 ^ suc n ≡ 256 * 256 ^ n = grind arith in
    ground (
      arith,
      e,
      load_from-snoc 0 (val % 256) (endian_store n (val / 256)),
      endian_load-endian_store n (val / 256),
    )
