-- ===== src/Tests/Aliases.antt =====
-- A concrete table of util/topic_alias_recv.hpp.
use async_mqtt_cpp.Prelude.{◌≡◌, ◌==◌, if◌then◌else◌, [], ◌∷◌, arith, refl}
use async_mqtt_cpp.MultiIndex.{OrderedUnique, list_index}
use async_mqtt_cpp.Util.TopicAliasRecv.{
  by_alias, TopicAliasRecv, insert_or_update, find_topic, find_topic-insert_or_update,
}

abbrev index : OrderedUnique by_alias
index = list_index by_alias

-- Aliases 2 and 5 of at most 10 have the topics of bytes 97 and 98.
abbrev two_topics : TopicAliasRecv index
two_topics = record {
  max = 10;
  aliases = record { topic = 97 ∷ []; alias = 2 } ∷ record { topic = 98 ∷ []; alias = 5 } ∷ [];
}

find_topic-insert_or_update_example :
    find_topic index 5 (insert_or_update index (99 ∷ []) 5 two_topics)
    ≡ (if 5 == 5 then 99 ∷ [] else find_topic index 5 two_topics)
find_topic-insert_or_update_example =
    find_topic-insert_or_update index 5 (99 ∷ []) 5 two_topics (refl, tt) (omega arith)
      (omega arith)
