-- ===== src/Util/VariableBytes.antt =====
-- include/async_mqtt/util/variable_bytes.hpp: the variable byte integer of MQTT. A byte is a number
-- below 256.
use async_mqtt_cpp.Prelude.{
  ℕ, zero, suc, ◌+◌, ◌*◌, ◌/◌, ◌%◌, ◌^◌, ◌≤◌, ◌<◌, ◌≡◌, if◌then◌else◌, ◌==◌, ltb, Option, none,
  some, List, [], ◌∷◌, ◌++◌, length, arith,
}

-- The loop of val_to_variable_bytes, on fuel.
unfoldable pub to_bytes : (fuel val : ℕ) → List ℕ
to_bytes zero val = []
to_bytes (suc n) val =
    let rest = to_bytes n (val / 128) in
    if ltb 127 val then (val % 128 + 128) ∷ rest else val % 128 ∷ []

-- A 32-bit value above 0xfffffff has no encoding.
unfoldable pub val_to_variable_bytes : ℕ → List ℕ
unfolding to_bytes
val_to_variable_bytes val = if ltb 0xfffffff val then [] else to_bytes 4 val

-- The loop of variable_bytes_to_val, with the bytes that it leaves.
unfoldable pub read_bytes : (val mul : ℕ) → List ℕ → Option ℕ × List ℕ
read_bytes val mul [] = (none, [])
read_bytes val mul (c ∷ cs) =
    let val' = val + c % 128 * mul in
    let rest = read_bytes val' (mul * 128) cs in
    if mul == 128 * 128 * 128 * 128
    then (none, cs)
    else if ltb c 128
    then (some (val' % 2 ^ 32), cs)
    else rest

unfoldable pub variable_bytes_to_val : List ℕ → Option ℕ × List ℕ
unfolding read_bytes
variable_bytes_to_val = read_bytes 0 1

read_last :
    (acc val n : ℕ) (rest : List ℕ)
    → val < 128
    → read_bytes acc 2097152 (to_bytes (suc n) val ++ rest)
      ≡ (some ((acc + val * 2097152) % 2 ^ 32), rest)
unfolding to_bytes read_bytes
read_last acc val n rest h = ground arith

read_third :
    (acc val n : ℕ) (rest : List ℕ)
    → val < 16384
    → read_bytes acc 16384 (to_bytes (suc (suc n)) val ++ rest)
      ≡ (some ((acc + val * 16384) % 2 ^ 32), rest)
unfolding to_bytes read_bytes
read_third acc val n rest h = ground (arith, read_last (acc + val % 128 * 16384) (val / 128) n rest)

read_second :
    (acc val n : ℕ) (rest : List ℕ)
    → val < 2097152
    → read_bytes acc 128 (to_bytes (suc (suc (suc n))) val ++ rest)
      ≡ (some ((acc + val * 128) % 2 ^ 32), rest)
unfolding to_bytes read_bytes
read_second acc val n rest h = ground (arith, read_third (acc + val % 128 * 128) (val / 128) n rest)

read_first :
    (val : ℕ) (rest : List ℕ)
    → val < 268435456
    → read_bytes 0 1 (to_bytes 4 val ++ rest) ≡ (some val, rest)
unfolding to_bytes read_bytes
read_first val rest h = ground (arith, read_second (val % 128) (val / 128) 0 rest)

-- Decoding an encoded value of at most 0xfffffff gives it back and leaves what stands behind it.
pub variable_bytes_to_val-val_to_variable_bytes :
    (val : ℕ) (rest : List ℕ)
    → val ≤ 0xfffffff
    → variable_bytes_to_val (val_to_variable_bytes val ++ rest) ≡ (some val, rest)
unfolding variable_bytes_to_val val_to_variable_bytes
variable_bytes_to_val-val_to_variable_bytes val rest h = ground (arith, read_first val rest)

-- The encoding of a value of at most 0xfffffff takes as many bytes as MQTT says: one to four, by
-- the value.
pub length-val_to_variable_bytes :
    (val : ℕ)
    → val ≤ 0xfffffff
    → length (val_to_variable_bytes val)
      ≡ (if ltb val 128 then 1 else if ltb val 16384 then 2 else if ltb val 2097152 then 3 else 4)
unfolding val_to_variable_bytes to_bytes
length-val_to_variable_bytes val h = ground arith
