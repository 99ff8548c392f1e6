-- ===== src/Protocol/Codec/Progress/Entries.antt =====
-- The loops over the entries of SUBSCRIBE and UNSUBSCRIBE packets, and what all loops have in common.
use async_mqtt_cpp.Prelude.{
  ℕ, zero, suc, ◌/◌, ◌%◌, ◌≤◌, ◌≡◌, refl, ap, not, ltb, ◌==◌, List, [], ◌∷◌, length, take, drop,
  arith,
}
use async_mqtt_cpp.Protocol.Packet.{Property, Bytes, TopicSubopts}
use async_mqtt_cpp.Protocol.Codec.Result.{
  Result, ok, ◌>>=◌, ◌>>◌, unless, or_malformed, malformed_packet,
}
use async_mqtt_cpp.Protocol.Codec.Fields.{front, insert_advance, binary, text}
use async_mqtt_cpp.Protocol.Codec.PropertyLocation.{PropertyLocation}
use async_mqtt_cpp.Protocol.Codec.Property.{make_property_variant, properties_loop, make_properties}
use async_mqtt_cpp.Protocol.Codec.V311
use async_mqtt_cpp.Protocol.Codec.V5
use async_mqtt_cpp.Protocol.Codec.Progress.{
  Leaves, ok_leaves, bind-Leaves, bind-Leaves-eq, after_test, advance_or_none,
  insert_advance-Leaves, front-Leaves, properties_loop-fuel, make_property_variant-Leaves,
}

length-drop_lt : (n k : ℕ) (buf : Bytes) → length buf ≤ suc n → length (drop (suc k) buf) ≤ n
length-drop_lt n zero [] l = omega arith
length-drop_lt n (suc k) [] l = omega arith
length-drop_lt n zero (b ∷ buf) l = omega (arith, l)
length-drop_lt n (suc k) (b ∷ []) l = omega arith
length-drop_lt zero (suc k) (b ∷ c ∷ buf) l = absurd (omega (arith, l))
length-drop_lt (suc n) (suc k) (b ∷ c ∷ buf) l =
    omega (arith, length-drop_lt n k (c ∷ buf) (omega (arith, l)))

-- The length in front of a text is taken off.
text_shorter : (n : ℕ) (buf : Bytes) → length buf ≤ suc n → Leaves n (text buf)
unfolding text binary insert_advance
text_shorter n buf l =
    bind-Leaves n _ _
      (bind-Leaves n _ _
        (advance_or_none n (ltb (length buf) 2) (take 2 buf) (drop 2 buf)
          (length-drop_lt n 1 buf l))
        (λ a rest r. insert_advance-Leaves n _ rest r))
      (λ str rest r. after_test n _ _ (ok_leaves str rest r))

abbrev pub all_topics : Bytes → Result (List Bytes)
all_topics buf = V311.Unsubscribe.parse_topics (length buf) buf

parse_topics-fuel :
    (n m : ℕ) (buf : Bytes)
    → length buf ≤ n
    → length buf ≤ m
    → V311.Unsubscribe.parse_topics n buf ≡ V311.Unsubscribe.parse_topics m buf
unfolding V311.Unsubscribe.parse_topics
parse_topics-fuel n m [] l k = refl
parse_topics-fuel zero m (b ∷ buf) l k = absurd (omega arith)
parse_topics-fuel (suc n) zero (b ∷ buf) l k = absurd (omega arith)
parse_topics-fuel (suc n) (suc m) (b ∷ buf) l k =
    bind-Leaves-eq (length buf) _ _ _ (text_shorter (length buf) (b ∷ buf) (omega arith))
      (λ t rest r.
        ap (λ (ts : Result (List Bytes)). do us ← ts; ok (t ∷ us))
          (parse_topics-fuel n m rest (omega (arith, l, r)) (omega (arith, k, r))))

parse_entries-fuel :
    (n m : ℕ) (buf : Bytes)
    → length buf ≤ n
    → length buf ≤ m
    → V311.Subscribe.parse_entries n buf ≡ V311.Subscribe.parse_entries m buf
unfolding V311.Subscribe.parse_entries
parse_entries-fuel n m [] l k = refl
parse_entries-fuel zero m (b ∷ buf) l k = absurd (omega arith)
parse_entries-fuel (suc n) zero (b ∷ buf) l k = absurd (omega arith)
parse_entries-fuel (suc n) (suc m) (b ∷ buf) l k =
    bind-Leaves-eq (length buf) _ _ _ (text_shorter (length buf) (b ∷ buf) (omega arith))
      (λ t after a.
        bind-Leaves-eq (length buf) _ _ _ (front-Leaves (length buf) after a) (λ opts rest r.
          ap
            (λ (es : Result (List TopicSubopts)).
              unless (opts / 4 == 0) malformed_packet
              >> (unless (not (opts % 4 == 3)) malformed_packet
                  >> (do fs ← es; ok (record { all_topic = t; opts = opts } ∷ fs))))
            (parse_entries-fuel n m rest (omega (arith, l, r)) (omega (arith, k, r)))))

parse_entries_v5-fuel :
    (n m : ℕ) (buf : Bytes)
    → length buf ≤ n
    → length buf ≤ m
    → V5.Subscribe.parse_entries n buf ≡ V5.Subscribe.parse_entries m buf
unfolding V5.Subscribe.parse_entries
parse_entries_v5-fuel n m [] l k = refl
parse_entries_v5-fuel zero m (b ∷ buf) l k = absurd (omega arith)
parse_entries_v5-fuel (suc n) zero (b ∷ buf) l k = absurd (omega arith)
parse_entries_v5-fuel (suc n) (suc m) (b ∷ buf) l k =
    bind-Leaves-eq (length buf) _ _ _ (text_shorter (length buf) (b ∷ buf) (omega arith))
      (λ t after a.
        bind-Leaves-eq (length buf) _ _ _ (front-Leaves (length buf) after a) (λ opts rest r.
          ap
            (λ (es : Result (List TopicSubopts)).
              V5.Subscribe.check_opts (record { all_topic = t; opts = opts })
              >> (do fs ← es; ok (record { all_topic = t; opts = opts } ∷ fs)))
            (parse_entries_v5-fuel n m rest (omega (arith, l, r)) (omega (arith, k, r)))))

topics-rounds :
    (b : ℕ) (buf : Bytes)
    → all_topics (b ∷ buf) ≡ (do (t, rest) ← text (b ∷ buf); ts ← all_topics rest; ok (t ∷ ts))
unfolding V311.Unsubscribe.parse_topics
topics-rounds b buf =
    bind-Leaves-eq (length buf) _ _ _ (text_shorter (length buf) (b ∷ buf) (omega arith))
      (λ t rest r.
        ap (λ (ts : Result (List Bytes)). do us ← ts; ok (t ∷ us))
          (parse_topics-fuel (length buf) (length rest) rest r (omega arith)))

-- The bytes of one entry of SUBSCRIBE: a topic filter and its options.
abbrev pub entry_bytes : Bytes → Result (TopicSubopts × Bytes)
entry_bytes buf = do
  (topic, buf) ← text buf
  (opts, buf) ← or_malformed (front buf)
  ok (record { all_topic = topic; opts = opts }, buf)

entry_bytes-shorter : (b : ℕ) (buf : Bytes) → Leaves (length buf) (entry_bytes (b ∷ buf))
entry_bytes-shorter b buf =
    bind-Leaves (length buf) _ _ (text_shorter (length buf) (b ∷ buf) (omega arith)) (λ t after a.
      bind-Leaves (length buf) _ _ (front-Leaves (length buf) after a)
        (λ opts rest r. ok_leaves _ rest r))

entries-rounds :
    (b : ℕ) (buf : Bytes)
    → V311.Subscribe.parse_entries (length (b ∷ buf)) (b ∷ buf) ≡ (do
      (topic, rest) ← text (b ∷ buf)
      (opts, rest) ← or_malformed (front rest)
      unless (opts / 4 == 0) malformed_packet
      unless (not (opts % 4 == 3)) malformed_packet
      es ← V311.Subscribe.parse_entries (length rest) rest
      ok (record { all_topic = topic; opts = opts } ∷ es))
unfolding V311.Subscribe.parse_entries
entries-rounds b buf =
    bind-Leaves-eq (length buf) _ _ _ (text_shorter (length buf) (b ∷ buf) (omega arith))
      (λ t after a.
        bind-Leaves-eq (length buf) _ _ _ (front-Leaves (length buf) after a) (λ opts rest r.
          ap
            (λ (es : Result (List TopicSubopts)).
              unless (opts / 4 == 0) malformed_packet
              >> (unless (not (opts % 4 == 3)) malformed_packet
                  >> (do fs ← es; ok (record { all_topic = t; opts = opts } ∷ fs))))
            (parse_entries-fuel (length buf) (length rest) rest r (omega arith))))

entries_v5-rounds :
    (b : ℕ) (buf : Bytes)
    → V5.Subscribe.parse_entries (length (b ∷ buf)) (b ∷ buf) ≡ (do
      (topic, rest) ← text (b ∷ buf)
      (opts, rest) ← or_malformed (front rest)
      V5.Subscribe.check_opts (record { all_topic = topic; opts = opts })
      es ← V5.Subscribe.parse_entries (length rest) rest
      ok (record { all_topic = topic; opts = opts } ∷ es))
unfolding V5.Subscribe.parse_entries
entries_v5-rounds b buf =
    bind-Leaves-eq (length buf) _ _ _ (text_shorter (length buf) (b ∷ buf) (omega arith))
      (λ t after a.
        bind-Leaves-eq (length buf) _ _ _ (front-Leaves (length buf) after a) (λ opts rest r.
          ap
            (λ (es : Result (List TopicSubopts)).
              V5.Subscribe.check_opts (record { all_topic = t; opts = opts })
              >> (do fs ← es; ok (record { all_topic = t; opts = opts } ∷ fs)))
            (parse_entries_v5-fuel (length buf) (length rest) rest r (omega arith))))

properties-rounds :
    (loc : PropertyLocation) (b : ℕ) (buf : Bytes)
    → make_properties loc (b ∷ buf) ≡ (do
      (p, rest) ← make_property_variant loc (b ∷ buf)
      ps ← make_properties loc rest
      ok (p ∷ ps))
unfolding make_properties properties_loop
properties-rounds loc b buf =
    bind-Leaves-eq (length buf) _ _ _
      (make_property_variant-Leaves (length buf) loc b buf (omega arith))
      (λ p rest r.
        ap (λ (ps : Result (List Property)). do qs ← ps; ok (p ∷ qs))
          (properties_loop-fuel (length buf) (length rest) loc rest r (omega arith)))

-- The loops of the parsers end. A round of the loop over properties that goes on, and one over the
-- entries of SUBSCRIBE or the topics of UNSUBSCRIBE, leaves at least one byte fewer than it found.
-- And each loop is its rounds, with no fuel: on a buffer that is not empty it returns what one round
-- and then the same loop on what that round has left return.
pub loops-rounds :
    (loc : PropertyLocation) (b : ℕ) (buf : Bytes)
    → Leaves (length buf) (make_property_variant loc (b ∷ buf))
      × Leaves (length buf) (entry_bytes (b ∷ buf))
      × Leaves (length buf) (text (b ∷ buf))
      × (make_properties loc (b ∷ buf) ≡ (do
        (p, rest) ← make_property_variant loc (b ∷ buf)
        ps ← make_properties loc rest
        ok (p ∷ ps)))
      × (V311.Subscribe.parse_entries (length (b ∷ buf)) (b ∷ buf) ≡ (do
        (topic, rest) ← text (b ∷ buf)
        (opts, rest) ← or_malformed (front rest)
        unless (opts / 4 == 0) malformed_packet
        unless (not (opts % 4 == 3)) malformed_packet
        es ← V311.Subscribe.parse_entries (length rest) rest
        ok (record { all_topic = topic; opts = opts } ∷ es)))
      × (V5.Subscribe.parse_entries (length (b ∷ buf)) (b ∷ buf) ≡ (do
        (topic, rest) ← text (b ∷ buf)
        (opts, rest) ← or_malformed (front rest)
        V5.Subscribe.check_opts (record { all_topic = topic; opts = opts })
        es ← V5.Subscribe.parse_entries (length rest) rest
        ok (record { all_topic = topic; opts = opts } ∷ es)))
      × (all_topics (b ∷ buf) ≡ (do (t, rest) ← text (b ∷ buf); ts ← all_topics rest; ok (t ∷ ts)))
loops-rounds loc b buf = (
  make_property_variant-Leaves (length buf) loc b buf (omega arith),
  entry_bytes-shorter b buf,
  text_shorter (length buf) (b ∷ buf) (omega arith),
  properties-rounds loc b buf,
  entries-rounds b buf,
  entries_v5-rounds b buf,
  topics-rounds b buf,
)
