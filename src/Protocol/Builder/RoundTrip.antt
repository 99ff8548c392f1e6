-- ===== src/Protocol/Builder/RoundTrip.antt =====
-- recv_packet_builder (protocol/impl/connection_impl.ipp) finds again the packets that were written
-- with the remaining length of util/variable_bytes.hpp.
use async_mqtt_cpp.Prelude.{
  ℕ, suc, ◌+◌, ◌*◌, ◌/◌, ◌%◌, ◌≤◌, ◌<◌, ◌≡◌, refl, some, [], ◌∷◌, ◌++◌, length, take-prefix,
  drop-prefix, take_all, drop_all, append_assoc, length-append, arith,
}
use async_mqtt_cpp.Protocol.Packet.{Bytes}
use async_mqtt_cpp.Protocol.Builder.{
  Builder, remaining_length, complete, fresh, push_length, start_payload, read_payload, recv_bytes,
}
use async_mqtt_cpp.Protocol.Builder.Framing.{recv_bytes-payload}
use async_mqtt_cpp.Util.VariableBytes.{to_bytes, val_to_variable_bytes}

-- The builder after a packet.
abbrev pub holding : Bytes → Builder
holding packet = record fresh { read_packet = some (complete packet) }

-- The payload of a packet that is all there.
read_payload-all :
    (b : Builder) (body rest : Bytes)
    → b.remaining ≡ length body
    → read_payload b (body ++ rest) ≡ (holding (b.raw ++ body), rest)
read_payload-all b body rest h = ground (
  arith,
  h,
  take-prefix b.remaining body rest,
  drop-prefix b.remaining body rest,
  take_all b.remaining body,
  drop_all b.remaining body,
  length-append body rest,
)

-- The last byte of the remaining length.
read_end :
    (b : Builder) (c : ℕ) (body rest : Bytes)
    → b.read_state ≡ remaining_length
    → c < 128
    → b.remaining + c % 128 * b.multiplier ≡ length body
    → recv_bytes b (c ∷ (body ++ rest))
      ≡ (holding (b.header_remaining_length_buf ++ (c ∷ body)), rest)
unfolding recv_bytes
read_end b c [] rest k l h = ground (arith, k, h)
read_end b c (x ∷ body) rest k l h = ground (
  arith,
  k,
  h,
  append_assoc b.header_remaining_length_buf (c ∷ []) (x ∷ body),
  recv_bytes-payload (start_payload (push_length c b)) (x ∷ body ++ rest),
  read_payload-all (start_payload (push_length c b)) (x ∷ body) rest h,
)

read_more :
    (b : Builder) (c : ℕ) (cs : Bytes)
    → b.read_state ≡ remaining_length
    → 128 ≤ c
    → b.multiplier < 2097152
    → recv_bytes b (c ∷ cs) ≡ recv_bytes (push_length c b) cs
unfolding recv_bytes
read_more b c cs k l h = ground (arith, k)

read_fourth :
    (b : Builder) (val n : ℕ) (body rest : Bytes)
    → b.read_state ≡ remaining_length
    → b.multiplier ≡ 2097152
    → val < 128
    → b.remaining + val * 2097152 ≡ length body
    → recv_bytes b (to_bytes (suc n) val ++ (body ++ rest))
      ≡ (holding (b.header_remaining_length_buf ++ (to_bytes (suc n) val ++ body)), rest)
unfolding to_bytes
read_fourth b val n body rest k m l h =
    ground (arith, k, m, l, h, read_end b (val % 128) body rest k)

read_third :
    (b : Builder) (val n : ℕ) (body rest : Bytes)
    → b.read_state ≡ remaining_length
    → b.multiplier ≡ 16384
    → val < 16384
    → b.remaining + val * 16384 ≡ length body
    → recv_bytes b (to_bytes (suc (suc n)) val ++ (body ++ rest))
      ≡ (holding (b.header_remaining_length_buf ++ (to_bytes (suc (suc n)) val ++ body)), rest)
unfolding to_bytes
read_third b val n body rest k m l h = ground (
  arith,
  k,
  m,
  l,
  h,
  read_end b (val % 128) body rest k,
  read_more b (val % 128 + 128) (to_bytes (suc n) (val / 128) ++ (body ++ rest)) k,
  append_assoc b.header_remaining_length_buf ((val % 128 + 128) ∷ [])
      (to_bytes (suc n) (val / 128) ++ body),
  read_fourth (push_length (val % 128 + 128) b) (val / 128) n body rest k,
)

read_second :
    (b : Builder) (val n : ℕ) (body rest : Bytes)
    → b.read_state ≡ remaining_length
    → b.multiplier ≡ 128
    → val < 2097152
    → b.remaining + val * 128 ≡ length body
    → recv_bytes b (to_bytes (suc (suc (suc n))) val ++ (body ++ rest)) ≡ (
      holding (b.header_remaining_length_buf ++ (to_bytes (suc (suc (suc n))) val ++ body)),
      rest,
    )
unfolding to_bytes
read_second b val n body rest k m l h = ground (
  arith,
  k,
  m,
  l,
  h,
  read_end b (val % 128) body rest k,
  read_more b (val % 128 + 128) (to_bytes (suc (suc n)) (val / 128) ++ (body ++ rest)) k,
  append_assoc b.header_remaining_length_buf ((val % 128 + 128) ∷ [])
      (to_bytes (suc (suc n)) (val / 128) ++ body),
  read_third (push_length (val % 128 + 128) b) (val / 128) n body rest k,
)

read_first :
    (b : Builder) (val n : ℕ) (body rest : Bytes)
    → b.read_state ≡ remaining_length
    → b.multiplier ≡ 1
    → val < 268435456
    → b.remaining + val * 1 ≡ length body
    → recv_bytes b (to_bytes (suc (suc (suc (suc n)))) val ++ (body ++ rest)) ≡ (
      holding (b.header_remaining_length_buf ++ (to_bytes (suc (suc (suc (suc n)))) val ++ body)),
      rest,
    )
unfolding to_bytes
read_first b val n body rest k m l h = ground (
  arith,
  k,
  m,
  l,
  h,
  read_end b (val % 128) body rest k,
  read_more b (val % 128 + 128) (to_bytes (suc (suc (suc n))) (val / 128) ++ (body ++ rest)) k,
  append_assoc b.header_remaining_length_buf ((val % 128 + 128) ∷ [])
      (to_bytes (suc (suc (suc n))) (val / 128) ++ body),
  read_second (push_length (val % 128 + 128) b) (val / 128) n body rest k,
)

-- A packet with a body of at most 0xfffffff bytes and a remaining length that is the length of
-- its body comes out of a fresh builder as it was written, and the bytes behind it are left for
-- the next packet.
pub recv_bytes-packet :
    (header : ℕ) (body rest : Bytes)
    → length body ≤ 0xfffffff
    → recv_bytes fresh (header ∷ (val_to_variable_bytes (length body) ++ (body ++ rest)))
      ≡ (holding (header ∷ (val_to_variable_bytes (length body) ++ body)), rest)
unfolding recv_bytes val_to_variable_bytes
recv_bytes-packet header body rest h = ground (
  arith,
  h,
  read_first
      (record fresh { header_remaining_length_buf = header ∷ []; read_state = remaining_length })
      (length body) 0 body rest refl refl,
)
