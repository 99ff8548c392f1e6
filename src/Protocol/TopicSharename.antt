-- ===== src/Protocol/TopicSharename.antt =====
-- packet/topic_sharename.hpp: the share name and the topic of a topic filter.
use async_mqtt_cpp.Prelude.{
  ℕ, zero, suc, ◌+◌, ◌-◌, ◌≡◌, if◌then◌else◌, ◌==◌, Option, none, some, [], ◌∷◌, ◌++◌, length, take,
  drop, length-append, take-append, drop-append, append_nil, arith,
}
use async_mqtt_cpp.Protocol.Packet.{Bytes, same_bytes}

-- "$share/"
abbrev pub shared_prefix : Bytes
shared_prefix = 36 ∷ 115 ∷ 104 ∷ 97 ∷ 114 ∷ 101 ∷ 47 ∷ []

abbrev pub slash : ℕ
slash = 47

-- find_first_of('/'); `none` is npos.
unfoldable pub find_slash : Bytes → Option ℕ
find_slash [] = none
find_slash (c ∷ cs) =
    let rest = find_slash cs in
    if c == slash then some 0 else elim rest [ none ↦ none | some i ↦ some (suc i) ]

pub record TopicSharename : Type 0 where
  pub topic : Bytes
  pub sharename : Bytes

-- Behind the prefix. Without a slash, or with nothing before it, all of it is the share name.
unfoldable pub split_sharename : Bytes → TopicSharename
unfolding find_slash
split_sharename rest = elim (find_slash rest) [
  | none ↦ record { topic = []; sharename = rest }
  | some zero ↦ record { topic = []; sharename = rest }
  | some (suc i) ↦
      let topic = drop (suc i + 1) rest in
      record { topic = topic; sharename = take (length rest - length topic - 1) rest }
]

unfoldable pub topic_sharename : Bytes → TopicSharename
unfolding split_sharename
topic_sharename all_topic =
    if same_bytes (take 7 all_topic) shared_prefix
    then split_sharename (drop 7 all_topic)
    else record { topic = all_topic; sharename = [] }

find_slash-append :
    (name rest : Bytes)
    → find_slash name ≡ none
    → find_slash (name ++ slash ∷ rest) ≡ some (length name)
unfolding find_slash
find_slash-append [] rest h = ground arith
find_slash-append (c ∷ name) rest h = ground (arith, find_slash-append name rest)

-- A share name that is not empty and has no slash comes out of the filter that it is put in, with the
-- topic behind it.
pub topic_sharename-shared :
    (c : ℕ) (name topic : Bytes)
    → find_slash (c ∷ name) ≡ none
    → topic_sharename (shared_prefix ++ (c ∷ name ++ slash ∷ topic))
      ≡ record { topic = topic; sharename = c ∷ name }
unfolding topic_sharename split_sharename
topic_sharename-shared c name topic h = ground (
  arith,
  find_slash-append (c ∷ name) topic h,
  length-append (c ∷ name) (slash ∷ topic),
  drop-append (suc (length name) + 1) (c ∷ name) (slash ∷ topic),
  take-append (suc (length name)) (c ∷ name) (slash ∷ topic),
  append_nil name,
)
