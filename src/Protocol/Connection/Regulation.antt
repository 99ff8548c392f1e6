-- ===== src/Protocol/Connection/Regulation.antt =====
-- `regulate_for_store` (connection_impl.ipp): a publish packet that names its topic and no alias.
use async_mqtt_cpp.Prelude.{◌≡◌, refl, false, none, some, [], ◌∷◌, arith}
use async_mqtt_cpp.Protocol.Packet.{
  Publish, Properties, topic_alias, is_empty, get_topic_alias, remove_topic_alias_impl,
  remove_topic_alias, remove_topic_alias_add_topic,
}
use async_mqtt_cpp.Protocol.Env.{Env}
use async_mqtt_cpp.Protocol.Connection.{Conn, regulate_for_store}

-- remove_topic_alias_impl leaves no alias.
get_topic_alias-remove : (ps : Properties) → get_topic_alias (remove_topic_alias_impl ps) ≡ none
unfolding get_topic_alias remove_topic_alias_impl
get_topic_alias-remove [] = refl
get_topic_alias-remove (topic_alias v ∷ ps) = get_topic_alias-remove ps
get_topic_alias-remove (p ∷ ps) = ground (arith, get_topic_alias-remove ps)

module _ (env : Env) where
  -- The packet can stand alone: it names its topic, has no alias, and is otherwise the given one.
  pub record IsRegulated (p p' : Publish) : Type 0 where
    pub names_topic : is_empty p'.topic ≡ false
    pub no_alias : get_topic_alias p'.props ≡ none
    pub same_id : p'.packet_id ≡ p.packet_id
    pub same_payload : p'.payload ≡ p.payload

  -- Where regulate_for_store reports no error, the packet names its topic and has no alias, and
  -- its identifier and payload are the given ones.
  pub regulate_for_store-IsRegulated :
      (p p' : Publish) (s : Conn env)
      → regulate_for_store env p s ≡ some (p', none)
      → IsRegulated p p'
  unfolding regulate_for_store remove_topic_alias remove_topic_alias_add_topic
  regulate_for_store-IsRegulated p p' s h = record {
    names_topic = ground (arith, h);
    no_alias = ground (arith, h, get_topic_alias-remove p.props);
    same_id = ground (arith, h);
    same_payload = ground (arith, h);
  }
