-- ===== src/Protocol/Store.antt =====
-- include/async_mqtt/protocol/impl/store.hpp and packet/store_packet_variant.hpp: the packets kept
-- until they are acknowledged, in the order in which they were added.
pub mod Contents
use async_mqtt_cpp.Prelude.{
  ℕ, zero, suc, ◌+◌, ◌-◌, ◌≡◌, Bool, true, false, not, ◌&&◌, if◌then◌else◌, ◌==◌, Option, none,
  some, List, [], ◌∷◌, ◌++◌, length, refl, get_elem?, erase_idx,
}
use async_mqtt_cpp.Protocol.Packet.{
  Packet, Publish, Properties, Qos, ResponsePacket, at_most_once, at_least_once, exactly_once,
}

-- basic_store_packet_variant
pub data StorePacket : Type 0 where
  v3_1_1_publish : Publish → StorePacket
  v3_1_1_pubrel : (packet_id : ℕ) → StorePacket
  v5_publish : Publish → StorePacket
  v5_pubrel : (packet_id : ℕ) (code : Option ℕ) (props : Properties) → StorePacket

abbrev pub packet_id : StorePacket → ℕ
packet_id (v3_1_1_publish p) = p.packet_id
packet_id (v3_1_1_pubrel i) = i
packet_id (v5_publish p) = p.packet_id
packet_id (v5_pubrel i _ _) = i

-- The constructors of the variant throw at QoS 0, which `add` does not let through.
abbrev pub response_packet_type : StorePacket → ResponsePacket
response_packet_type (v3_1_1_publish p) = elim p.qos [
  | exactly_once ↦ ResponsePacket.v3_1_1_pubrec
  | _ ↦ ResponsePacket.v3_1_1_puback
]
response_packet_type (v3_1_1_pubrel _) = ResponsePacket.v3_1_1_pubcomp
response_packet_type (v5_publish p) = elim p.qos [
  | exactly_once ↦ ResponsePacket.v5_pubrec
  | _ ↦ ResponsePacket.v5_puback
]
response_packet_type (v5_pubrel _ _ _) = ResponsePacket.v5_pubcomp

-- The conversion to basic_packet_variant.
abbrev pub to_packet : StorePacket → Packet
to_packet (v3_1_1_publish p) = Packet.v3_1_1_publish p
to_packet (v3_1_1_pubrel i) = Packet.v3_1_1_pubrel i
to_packet (v5_publish p) = Packet.v5_publish p
to_packet (v5_pubrel i c ps) = Packet.v5_pubrel i c ps

abbrev code_of : ResponsePacket → ℕ
code_of ResponsePacket.v3_1_1_puback = 0
code_of ResponsePacket.v3_1_1_pubrec = 1
code_of ResponsePacket.v3_1_1_pubcomp = 2
code_of ResponsePacket.v5_puback = 3
code_of ResponsePacket.v5_pubrec = 4
code_of ResponsePacket.v5_pubcomp = 5

-- Whether a packet is stored under the key of the index tag_res_id.
abbrev pub has_key : ResponsePacket → ℕ → StorePacket → Bool
has_key r i p = code_of (response_packet_type p) == code_of r && packet_id p == i

abbrev pub some_key : ResponsePacket → ℕ → List StorePacket → Bool
some_key r i [] = false
some_key r i (p ∷ ps) = if has_key r i p then true else some_key r i ps

abbrev pub without_key : ResponsePacket → ℕ → List StorePacket → List StorePacket
without_key r i [] = []
without_key r i (p ∷ ps) = let rest = without_key r i ps in if has_key r i p then rest else p ∷ rest

-- elems_ is a Boost container with a sequence and a unique index on the response and the packet
-- identifier. It is a parameter: its operations with their documented effect on the sequence.
pub record SequencedUnique : Type 1 where
  pub Index : Type 0
  pub elements : Index → List StorePacket
  pub empty : Index
  pub emplace_back : StorePacket → Index → Index × Bool
  pub erase_key : ResponsePacket → ℕ → Index → Index × Bool
  pub erase_at : ℕ → Index → Index
  pub elements-empty : elements empty ≡ []
  pub emplace_back_lem :
      (p : StorePacket) (i : Index)
      → (elements (emplace_back p i).0 ≡ (
          if some_key (response_packet_type p) (packet_id p) (elements i)
          then elements i
          else elements i ++ p ∷ []))
        × ((emplace_back p i).1
            ≡ not (some_key (response_packet_type p) (packet_id p) (elements i)))
  pub erase_key_lem :
      (r : ResponsePacket) (k : ℕ) (i : Index)
      → (elements (erase_key r k i).0 ≡ without_key r k (elements i))
        × ((erase_key r k i).1 ≡ some_key r k (elements i))
  pub elements-erase_at : (n : ℕ) (i : Index) → elements (erase_at n i) ≡ erase_idx (elements i) n

module _ (mi : SequencedUnique) where
  open mi use {Index, elements, empty, emplace_back, erase_key, erase_at}

  -- `add`: a publish packet of QoS 1 or 2, or a pubrel packet.
  unfoldable pub add : StorePacket → Index → Index × Bool
  add (v3_1_1_publish p) elems = elim p.qos [
    | at_most_once ↦ (elems, false)
    | _ ↦ emplace_back (v3_1_1_publish p) elems
  ]
  add (v5_publish p) elems = elim p.qos [
    | at_most_once ↦ (elems, false)
    | _ ↦ emplace_back (v5_publish p) elems
  ]
  add (v3_1_1_pubrel i) elems = emplace_back (v3_1_1_pubrel i) elems
  add (v5_pubrel i c ps) elems = emplace_back (v5_pubrel i c ps) elems

  unfoldable pub erase : ResponsePacket → ℕ → Index → Index × Bool
  erase r i elems = erase_key r i elems

  unfoldable pub clear : Index → Index
  clear elems = empty

  -- The loop of `for_each`, at position `n` with `left` elements ahead. `func` acts on a state `S`
  -- and answers whether the packet stays.
  pub for_each_loop :
      {S : Type 0} (func : StorePacket → S → S × Bool) (left n : ℕ) → Index → S → Index × S
  for_each_loop func zero n elems s = (elems, s)
  for_each_loop func (suc left) n elems s = elim (get_elem? (elements elems) n) [
    | none ↦ (elems, s)
    | some p ↦
        let (s', keep) = func p s in
        elim keep [
          | true ↦ for_each_loop func left (n + 1) elems s'
          | false ↦ for_each_loop func left n (erase_at n elems) s'
        ]
  ]

  unfoldable pub for_each : {S : Type 0} (func : StorePacket → S → S × Bool) → Index → S → Index × S
  unfolding for_each_loop
  for_each func elems s = for_each_loop func (length (elements elems)) 0 elems s

  unfoldable pub get_stored : Index → List StorePacket
  get_stored elems = elements elems

-- A container that meets the description: a list.
abbrev pub list_store : SequencedUnique
list_store = record {
  Index = List StorePacket;
  elements = λ i. i;
  empty = [];
  emplace_back = λ p i.
      let taken = some_key (response_packet_type p) (packet_id p) i in
      (if taken then i else i ++ p ∷ [], not taken);
  erase_key = λ r k i. (without_key r k i, some_key r k i);
  erase_at = λ n i. erase_idx i n;
  elements-empty = refl;
  emplace_back_lem = λ p i. (refl, refl);
  erase_key_lem = λ r k i. (refl, refl);
  elements-erase_at = λ n i. refl;
}
