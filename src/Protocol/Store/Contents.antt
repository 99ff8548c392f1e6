-- ===== src/Protocol/Store/Contents.antt =====
-- What store.hpp holds after `for_each`, and which keys it answers to.
use async_mqtt_cpp.Prelude.{
  ℕ, ◌+◌, ◌≡◌, refl, sym, ◌∙◌, Bool, true, false, if◌then◌else◌, some, List, [], ◌∷◌, ◌++◌, length,
  length-append, get_elem?, erase_idx, Bool-cases, inl, inr, arith,
}
use mathlib.Core.List.{append_assoc}
use async_mqtt_cpp.Protocol.Packet.{ResponsePacket}
use async_mqtt_cpp.Protocol.Store.{
  StorePacket, has_key, some_key, without_key, SequencedUnique, for_each_loop, for_each,
}

-- One pass over the packets in order, keeping those for which `func` answers true.
unfoldable pub fold_each :
    {S : Type 0} (func : StorePacket → S → S × Bool) → List StorePacket → S → List StorePacket × S
fold_each func [] s = ([], s)
fold_each func (p ∷ ps) s =
    let (s', keep) = func p s in
    let (rest, s'') = fold_each func ps s' in (if keep then p ∷ rest else rest, s'')

get_elem?-length :
    (pre ps : List StorePacket) (p : StorePacket) → get_elem? (pre ++ p ∷ ps) (length pre) ≡ some p
get_elem?-length [] ps p = refl
get_elem?-length (x ∷ pre) ps p = get_elem?-length pre ps p

erase_idx-length :
    (pre ps : List StorePacket) (p : StorePacket)
    → erase_idx (pre ++ p ∷ ps) (length pre) ≡ pre ++ ps
erase_idx-length [] ps p = refl
erase_idx-length (x ∷ pre) ps p = rw (erase_idx-length pre ps p)

length-snoc : (pre : List StorePacket) (p : StorePacket) → length (pre ++ p ∷ []) ≡ length pre + 1
length-snoc pre p = length-append pre (p ∷ [])

module _ (mi : SequencedUnique) where
  open mi use {Index, elements, elements-erase_at}

  for_each_loop-fold_each :
      {S : Type 0} (func : StorePacket → S → S × Bool) (pre ps : List StorePacket) (elems : Index)
      (s : S)
      → elements elems ≡ pre ++ ps
      → let r = for_each_loop mi func (length ps) (length pre) elems s in
        (elements r.0 ≡ pre ++ (fold_each func ps s).0) × (r.1 ≡ (fold_each func ps s).1)
  unfolding for_each_loop fold_each
  for_each_loop-fold_each func pre [] elems s e = (e, refl)
  for_each_loop-fold_each func pre (p ∷ ps) elems s e =
      rw (e, get_elem?-length pre ps p, for_each_loop)
        (elim (Bool-cases (func p s).1) [
          | inl k ↦ rw k (
              rw (length-snoc pre p, append_assoc pre (p ∷ [])) at
                (for_each_loop-fold_each func (pre ++ p ∷ []) ps elems (func p s).0
                  (e ∙ sym (append_assoc pre (p ∷ []) ps))))
          | inr d ↦ rw d (
              for_each_loop-fold_each func pre ps _ (func p s).0
                (elements-erase_at (length pre) elems ∙ rw (e, erase_idx-length pre ps p)))
        ])

  -- `for_each` visits every stored packet once, in order, and drops those refused by `func`.
  pub for_each-fold_each :
      {S : Type 0} (func : StorePacket → S → S × Bool) (elems : Index) (s : S)
      → let r = for_each mi func elems s in
        (elements r.0 ≡ (fold_each func (elements elems) s).0)
        × (r.1 ≡ (fold_each func (elements elems) s).1)
  unfolding for_each
  for_each-fold_each func elems s = for_each_loop-fold_each func [] (elements elems) elems s refl

pub some_key-without_key :
    (r : ResponsePacket) (i : ℕ) (ps : List StorePacket) → some_key r i (without_key r i ps) ≡ false
some_key-without_key r i [] = refl
some_key-without_key r i (p ∷ ps) = ground (arith, some_key-without_key r i ps)

pub some_key-append :
    (r : ResponsePacket) (i : ℕ) (ps : List StorePacket) (p : StorePacket)
    → has_key r i p ≡ true
    → some_key r i (ps ++ p ∷ []) ≡ true
some_key-append r i [] p h = rw h
some_key-append r i (q ∷ ps) p h = ground (arith, some_key-append r i ps p h)

-- What `func` leaves alone, `for_each` leaves alone.
pub fold_each_keeps :
    {S B : Type 0} (func : StorePacket → S → S × Bool) (f : S → B)
    → ((p : StorePacket) (s : S) → f (func p s).0 ≡ f s)
    → (ps : List StorePacket) (s : S) → f (fold_each func ps s).1 ≡ f s
unfolding fold_each
fold_each_keeps func f keep [] s = refl
fold_each_keeps func f keep (p ∷ ps) s = fold_each_keeps func f keep ps (func p s).0 ∙ keep p s
