-- ===== src/Protocol/TopicAliases.antt =====
-- topic_alias_recv (util/topic_alias_recv.hpp) as the table that the connection is built with.
use async_mqtt_cpp.MultiIndex.{OrderedUnique}
use async_mqtt_cpp.Util.TopicAliasRecv.{
  by_alias, TopicAliasRecv, make_table, insert_or_update, find_topic,
}
use async_mqtt_cpp.Protocol.Env.{AliasRecv}

abbrev pub topic_alias_recv : OrderedUnique by_alias → AliasRecv
topic_alias_recv mi = record {
  State = TopicAliasRecv mi;
  make = make_table mi;
  max = λ t. t.max;
  insert_or_update = insert_or_update mi;
  find = find_topic mi;
}
