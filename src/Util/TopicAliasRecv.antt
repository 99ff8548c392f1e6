-- ===== src/Util/TopicAliasRecv.antt =====
-- include/async_mqtt/util/topic_alias_recv.hpp: the topics that the peer has given an alias.
use async_mqtt_cpp.Prelude.{
  ℕ, ◌≤◌, ◌≡◌, refl, ap, ◌∙◌, Bool, true, ◌&&◌, if◌then◌else◌, ltb, leb, ◌==◌, Bool-cases, inl, inr,
  Option, none, some, List, [], ◌∷◌, get_elem?, set, arith,
}
use async_mqtt_cpp.MultiIndex.{
  OrderedUnique, IsAscending, find_position, lower_position, emplace_sorted,
}

-- topic_alias_recv::entry
pub record Entry : Type 0 where
  pub topic : List ℕ
  pub alias : ℕ

abbrev entry : List ℕ → ℕ → Entry
entry topic alias = record { topic = topic; alias = alias }

-- The order of the container, and an entry to look for.
abbrev pub by_alias : Entry → Entry → Bool
by_alias x y = ltb x.alias y.alias

abbrev key : ℕ → Entry
key alias = entry [] alias

module _ (mi : OrderedUnique by_alias) where
  open mi use {Index, elements, empty, emplace, modify}

  pub record TopicAliasRecv : Type 0 where
    pub max : ℕ
    pub aliases : Index

  pub make_table : ℕ → TopicAliasRecv
  make_table max = record { max = max; aliases = empty }

  -- The insertion at `n`, the lower bound of the alias.
  abbrev insert_at : Entry → ℕ → Index → Index
  insert_at e n aliases = elim (get_elem? (elements aliases) n) [
    | none ↦ emplace e aliases
    | some x ↦ if x.alias == e.alias then modify n e aliases else emplace e aliases
  ]

  unfoldable pub insert_or_update : List ℕ → ℕ → TopicAliasRecv → TopicAliasRecv
  insert_or_update topic alias t = record t {
    aliases = insert_at (entry topic alias) (mi.lower_bound (key alias) t.aliases) t.aliases;
  }

  abbrev topic_at : Option ℕ → Index → List ℕ
  topic_at none aliases = []
  topic_at (some n) aliases = elim (get_elem? (elements aliases) n) [ none ↦ [] | some x ↦ x.topic ]

  -- The topic, or the empty one.
  unfoldable pub find_topic : ℕ → TopicAliasRecv → List ℕ
  find_topic alias t =
      if leb 1 alias && leb alias t.max
      then topic_at (mi.find (key alias) t.aliases) t.aliases
      else []

  pub clear_aliases : TopicAliasRecv → TopicAliasRecv
  clear_aliases t = record t { aliases = empty }

-- The table as a list in the order of the aliases: an entry in its place.
place : Entry → List Entry → List Entry
place e [] = e ∷ []
place e (x ∷ xs) =
    let rest = place e xs in
    if ltb x.alias e.alias then x ∷ rest else if x.alias == e.alias then e ∷ xs else e ∷ x ∷ xs

lookup : ℕ → List Entry → List ℕ
lookup alias [] = []
lookup alias (x ∷ xs) = let rest = lookup alias xs in if x.alias == alias then x.topic else rest

lookup-place :
    (alias : ℕ) (e : Entry) (xs : List Entry)
    → lookup alias (place e xs) ≡ (if e.alias == alias then e.topic else lookup alias xs)
unfolding lookup place
lookup-place alias e [] = refl
lookup-place alias e (x ∷ xs) = ground (arith, lookup-place alias e xs)

IsAscending-place :
    (e : Entry) (xs : List Entry) → IsAscending by_alias xs → IsAscending by_alias (place e xs)
unfolding place
IsAscending-place e [] s = tt
IsAscending-place e (x ∷ []) s = ground arith
IsAscending-place e (x ∷ y ∷ xs) s = ground (arith, IsAscending-place e (y ∷ xs) s.1)

-- What the lower bound of an alias leads to.
abbrev inserted : Entry → List Entry → List Entry
inserted e xs = elim (get_elem? xs (lower_position by_alias e xs)) [
  | none ↦ emplace_sorted by_alias e xs
  | some x ↦
      if x.alias == e.alias
      then set xs (lower_position by_alias e xs) e
      else emplace_sorted by_alias e xs
]

inserted-place : (e : Entry) (xs : List Entry) → inserted e xs ≡ place e xs
unfolding place
inserted-place e [] = refl
inserted-place e (x ∷ xs) = ground (arith, inserted-place e xs)

lower_position-key :
    (topic : List ℕ) (alias : ℕ) (xs : List Entry)
    → lower_position by_alias (key alias) xs ≡ lower_position by_alias (entry topic alias) xs
lower_position-key topic alias [] = refl
lower_position-key topic alias (x ∷ xs) = ground (arith, lower_position-key topic alias xs)

abbrev listed : Option ℕ → List Entry → List ℕ
listed none xs = []
listed (some n) xs = elim (get_elem? xs n) [ none ↦ [] | some x ↦ x.topic ]

-- An alias before the first entry is not in an ascending table.
lookup_below :
    (alias : ℕ) (x : Entry) (xs : List Entry)
    → IsAscending by_alias (x ∷ xs)
    → ltb alias x.alias ≡ true
    → lookup alias (x ∷ xs) ≡ []
unfolding lookup
lookup_below alias x [] s h = ground arith
lookup_below alias x (y ∷ xs) s h = ground (arith, lookup_below alias y xs s.1)

listed-lookup :
    (alias : ℕ) (xs : List Entry)
    → IsAscending by_alias xs
    → listed (find_position by_alias (key alias) xs) xs ≡ lookup alias xs
unfolding lookup
listed-lookup alias [] s = refl
listed-lookup alias (x ∷ []) s = ground (arith, listed-lookup alias [] tt)
listed-lookup alias (x ∷ y ∷ xs) s =
    ground (arith, listed-lookup alias (y ∷ xs) s.1, lookup_below alias x (y ∷ xs) s)

module _ (mi : OrderedUnique by_alias) where
  open mi use {Index, elements, elements-emplace, elements-modify}

  -- The entries stand in the order of their aliases, each alias once.
  abbrev pub IsTable : TopicAliasRecv mi → Type 0
  IsTable t = IsAscending by_alias (elements t.aliases)

  -- At the lower bound an entry is put in its place.
  elements-insert_at :
      (e : Entry) (aliases : Index)
      → IsAscending by_alias (elements aliases)
      → elements (insert_at mi e (lower_position by_alias e (elements aliases)) aliases)
        ≡ place e (elements aliases)
  elements-insert_at e aliases s =
      go (get_elem? (elements aliases) (lower_position by_alias e (elements aliases))) refl
    where
      go :
          (o : Option Entry)
          → get_elem? (elements aliases) (lower_position by_alias e (elements aliases)) ≡ o
          → elements (insert_at mi e (lower_position by_alias e (elements aliases)) aliases)
            ≡ place e (elements aliases)
      go none h =
          rw (h, insert_at)
            (elements-emplace e aliases ∙ rw (h, inserted) at (inserted-place e (elements aliases)))
      go (some x) h = elim (Bool-cases (x.alias == e.alias)) [
        | inl q ↦
            let same = rw (h, q, inserted) at (inserted-place e (elements aliases)) in
            rw (h, q, insert_at)
              (elements-modify (lower_position by_alias e (elements aliases)) e aliases
                  (rw same (IsAscending-place e (elements aliases) s))
                ∙ same)
        | inr q ↦
            rw (h, q, insert_at)
              (elements-emplace e aliases
                ∙ rw (h, q, inserted) at (inserted-place e (elements aliases)))
      ]

  elements-insert_or_update :
      (topic : List ℕ) (alias : ℕ) (t : TopicAliasRecv mi)
      → IsTable t
      → elements (insert_or_update mi topic alias t).aliases
        ≡ place (entry topic alias) (elements t.aliases)
  unfolding insert_or_update
  elements-insert_or_update topic alias t s =
      ap (λ n. elements (insert_at mi (entry topic alias) n t.aliases))
        (mi.lower_bound_lem (key alias) t.aliases
          ∙ lower_position-key topic alias (elements t.aliases))
      ∙ elements-insert_at (entry topic alias) t.aliases s

  topic_at-listed :
      (o : Option ℕ) (aliases : Index) → topic_at mi o aliases ≡ listed o (elements aliases)
  topic_at-listed none aliases = refl
  topic_at-listed (some n) aliases = refl

  find_topic-lookup :
      (alias : ℕ) (t : TopicAliasRecv mi)
      → IsTable t
      → find_topic mi alias t
        ≡ (if leb 1 alias && leb alias t.max then lookup alias (elements t.aliases) else [])
  unfolding find_topic
  find_topic-lookup alias t s =
      ap (λ (l : List ℕ). if leb 1 alias && leb alias t.max then l else [])
        (topic_at-listed (mi.find (key alias) t.aliases) t.aliases
          ∙ ap (λ o. listed o (elements t.aliases)) (mi.find_lem (key alias) t.aliases)
          ∙ listed-lookup alias (elements t.aliases) s)

  -- An insertion keeps the entries in the order of their aliases, each alias once.
  pub insert_or_update-IsTable :
      (topic : List ℕ) (alias : ℕ) (t : TopicAliasRecv mi)
      → IsTable t
      → IsTable (insert_or_update mi topic alias t)
  insert_or_update-IsTable topic alias t s =
      rw (elements-insert_or_update topic alias t s)
        (IsAscending-place (entry topic alias) (elements t.aliases) s)

  -- In an ordered table, after a topic is inserted under an alias in range, this alias finds it,
  -- also where the alias had another topic, and every other alias finds what it found before.
  pub find_topic-insert_or_update :
      (a : ℕ) (topic : List ℕ) (alias : ℕ) (t : TopicAliasRecv mi)
      → IsTable t
      → 1 ≤ alias
      → alias ≤ t.max
      → find_topic mi a (insert_or_update mi topic alias t)
        ≡ (if a == alias then topic else find_topic mi a t)
  unfolding insert_or_update
  find_topic-insert_or_update a topic alias t s lo hi =
      find_topic-lookup a (insert_or_update mi topic alias t)
        (insert_or_update-IsTable topic alias t s)
      ∙ rw (elements-insert_or_update topic alias t s, find_topic-lookup a t s)
          (ground (arith, lookup-place a (entry topic alias) (elements t.aliases)))
