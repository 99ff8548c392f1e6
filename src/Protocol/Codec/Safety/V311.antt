-- ===== src/Protocol/Codec/Safety/V311.antt =====
-- The reads of the v3.1.1 parsers, packet/impl/v3_1_1_*.ipp.
use async_mqtt_cpp.Prelude.{ℕ, zero, suc, [], ◌∷◌}
use async_mqtt_cpp.Protocol.Packet.{Bytes}
use async_mqtt_cpp.Protocol.Codec.Result.{malformed_packet}
use async_mqtt_cpp.Protocol.Codec.FixedHeader.{ControlPacketType}
use async_mqtt_cpp.Protocol.Codec.V311
use async_mqtt_cpp.Protocol.Codec.V311.Connect.{malformed_connect}
use async_mqtt_cpp.Protocol.Codec.Safety.{
  IsInside, ok_inside, err_inside, bind-IsInside, if_IsInside, unless-IsInside,
  or_malformed-IsInside, in_connect-IsInside, fixed_header-IsInside, text-IsInside, binary-IsInside,
  parse_packet_id-IsInside,
}

pub parse_ack-IsInside :
    (n : ℕ) (t : ControlPacketType) (buf : Bytes) → IsInside (V311.Acks.parse_ack n t buf)
unfolding V311.Acks.parse_ack
parse_ack-IsInside n t buf =
    search (bind-IsInside, ok_inside, unless-IsInside, or_malformed-IsInside, fixed_header-IsInside)
      depth 14

pub parse_empty-IsInside :
    (t : ControlPacketType) (buf : Bytes) → IsInside (V311.Plain.parse_empty t buf)
unfolding V311.Plain.parse_empty
parse_empty-IsInside t buf =
    search (bind-IsInside, ok_inside, unless-IsInside, or_malformed-IsInside, fixed_header-IsInside)
      depth 14

pub parse_connack-IsInside : (buf : Bytes) → IsInside (V311.Plain.parse_connack buf)
unfolding V311.Plain.parse_connack
parse_connack-IsInside buf =
    search (bind-IsInside, ok_inside, unless-IsInside, or_malformed-IsInside, fixed_header-IsInside)
      depth 20

pub parse_publish-IsInside : (n : ℕ) (buf : Bytes) → IsInside (V311.Publish.parse_publish n buf)
unfolding V311.Publish.parse_publish
parse_publish-IsInside n buf =
    search
      (
        bind-IsInside, ok_inside, unless-IsInside, or_malformed-IsInside, fixed_header-IsInside,
        text-IsInside, parse_packet_id-IsInside,
      )
      depth 14

parse_entries-IsInside : (fuel : ℕ) (buf : Bytes) → IsInside (V311.Subscribe.parse_entries fuel buf)
unfolding V311.Subscribe.parse_entries
parse_entries-IsInside fuel [] = ok_inside []
parse_entries-IsInside zero (b ∷ buf) = err_inside malformed_packet
parse_entries-IsInside (suc n) (b ∷ buf) =
    search
      (
        bind-IsInside,
        ok_inside,
        unless-IsInside,
        or_malformed-IsInside,
        text-IsInside,
        parse_entries-IsInside n,
      )
      depth 14

pub parse_subscribe-IsInside :
    (n : ℕ) (buf : Bytes) → IsInside (V311.Subscribe.parse_subscribe n buf)
unfolding V311.Subscribe.parse_subscribe
parse_subscribe-IsInside n buf =
    search
      (
        bind-IsInside, ok_inside, unless-IsInside, or_malformed-IsInside, fixed_header-IsInside,
        parse_entries-IsInside,
      )
      depth 14

pub parse_topics-IsInside :
    (fuel : ℕ) (buf : Bytes) → IsInside (V311.Unsubscribe.parse_topics fuel buf)
unfolding V311.Unsubscribe.parse_topics
parse_topics-IsInside fuel [] = ok_inside []
parse_topics-IsInside zero (b ∷ buf) = err_inside malformed_packet
parse_topics-IsInside (suc n) (b ∷ buf) =
    search (bind-IsInside, ok_inside, text-IsInside, parse_topics-IsInside n) depth 14

pub parse_unsubscribe-IsInside :
    (n : ℕ) (buf : Bytes) → IsInside (V311.Unsubscribe.parse_unsubscribe n buf)
unfolding V311.Unsubscribe.parse_unsubscribe
parse_unsubscribe-IsInside n buf =
    search
      (
        bind-IsInside, ok_inside, unless-IsInside, or_malformed-IsInside, fixed_header-IsInside,
        parse_topics-IsInside,
      )
      depth 14

parse_return_codes-IsInside : (buf : Bytes) → IsInside (V311.Unsubscribe.parse_return_codes buf)
unfolding V311.Unsubscribe.parse_return_codes
parse_return_codes-IsInside [] = ok_inside []
parse_return_codes-IsInside (rc ∷ buf) =
    search (bind-IsInside, ok_inside, unless-IsInside, parse_return_codes-IsInside buf) depth 14

pub parse_suback-IsInside : (n : ℕ) (buf : Bytes) → IsInside (V311.Unsubscribe.parse_suback n buf)
unfolding V311.Unsubscribe.parse_suback
parse_suback-IsInside n buf =
    search
      (
        bind-IsInside, ok_inside, unless-IsInside, or_malformed-IsInside, fixed_header-IsInside,
        parse_return_codes-IsInside,
      )
      depth 14

parse_will-IsInside : (flags : ℕ) (buf : Bytes) → IsInside (V311.Connect.parse_will flags buf)
unfolding V311.Connect.parse_will
parse_will-IsInside flags buf =
    search
      (
        if_IsInside, bind-IsInside, ok_inside, unless-IsInside, in_connect-IsInside,
        or_malformed-IsInside, text-IsInside, binary-IsInside,
      )
      depth 14

pub parse_user_name-IsInside :
    (flags : ℕ) (buf : Bytes) → IsInside (V311.Connect.parse_user_name flags buf)
unfolding V311.Connect.parse_user_name
parse_user_name-IsInside flags buf =
    search (if_IsInside, bind-IsInside, ok_inside, in_connect-IsInside, text-IsInside) depth 14

pub parse_password-IsInside :
    (flags : ℕ) (buf : Bytes) → IsInside (V311.Connect.parse_password flags buf)
unfolding V311.Connect.parse_password
parse_password-IsInside flags buf =
    search
      (
        if_IsInside, bind-IsInside, ok_inside, unless-IsInside, in_connect-IsInside,
        or_malformed-IsInside,
      )
      depth 14

parse_login-IsInside : (flags : ℕ) (buf : Bytes) → IsInside (V311.Connect.parse_login flags buf)
unfolding V311.Connect.parse_login
parse_login-IsInside flags buf =
    search
      (
        bind-IsInside, ok_inside, in_connect-IsInside, text-IsInside, parse_will-IsInside,
        parse_user_name-IsInside, parse_password-IsInside,
      )
      depth 14

pub parse_connect-IsInside : (buf : Bytes) → IsInside (V311.Connect.parse_connect buf)
unfolding V311.Connect.parse_connect
parse_connect-IsInside buf =
    search
      (
        bind-IsInside, ok_inside, unless-IsInside, in_connect-IsInside, or_malformed-IsInside,
        fixed_header-IsInside, parse_login-IsInside,
      )
      depth 24
