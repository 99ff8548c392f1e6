-- ===== src/Protocol/Builder.antt =====
-- recv_packet_builder of include/async_mqtt/protocol/impl/connection_impl.ipp: cuts the byte stream
-- into packets. `raw` is what has been written to raw_buf_ so far.
pub mod Framing
pub mod RoundTrip
use async_mqtt_cpp.Prelude.{
  ℕ, zero, suc, ◌+◌, ◌-◌, ◌*◌, ◌%◌, ◌^◌, Bool, true, false, if◌then◌else◌, ◌==◌, ltb, leb, Option,
  none, some, List, [], ◌∷◌, ◌++◌, length, take, drop,
}
use async_mqtt_cpp.Protocol.Packet.{Bytes}
use async_mqtt_cpp.Protocol.Event.{ErrorCode, disconnect_reason_code, packet_too_large}

-- read_state
pub data ReadState : Type 0 where
  fixed_header remaining_length payload : ReadState

-- error_packet
pub data ErrorPacket : Type 0 where
  failed : ErrorCode → ErrorPacket
  complete : Bytes → ErrorPacket

pub record Builder : Type 0 where
  pub read_state : ReadState
  pub remaining : ℕ
  pub multiplier : ℕ
  pub header_remaining_length_buf : Bytes
  pub raw : Bytes
  pub raw_buf_size : ℕ
  pub read_packet : Option ErrorPacket

-- `initialize` leaves read_packet_ alone.
abbrev pub initialize : Builder → Builder
initialize b = record b {
  read_state = fixed_header;
  remaining = 0;
  multiplier = 1;
  header_remaining_length_buf = [];
  raw = [];
  raw_buf_size = 0;
}

abbrev pub fresh : Builder
fresh = record {
  read_state = fixed_header;
  remaining = 0;
  multiplier = 1;
  header_remaining_length_buf = [];
  raw = [];
  raw_buf_size = 0;
  read_packet = none;
}

-- `get` and `clear`
abbrev pub clear_packet : Builder → Builder
clear_packet b = record b { read_packet = none }

abbrev pub finish : ErrorPacket → Builder → Builder
finish p b = initialize (record b { read_packet = some p })

-- The state after one more byte of the remaining length.
abbrev pub push_length : ℕ → Builder → Builder
push_length c b = record b {
  header_remaining_length_buf = b.header_remaining_length_buf ++ c ∷ [];
  remaining = b.remaining + c % 128 * b.multiplier;
  multiplier = b.multiplier * 128;
}

-- The last byte of the remaining length: the header moves to the new buffer.
abbrev pub start_payload : Builder → Builder
start_payload b = record b {
  read_state = payload;
  raw = b.header_remaining_length_buf;
  raw_buf_size = length b.header_remaining_length_buf + b.remaining;
}

-- `readsome` of at most `remaining` bytes.
abbrev pub read_payload : Builder → Bytes → Builder × Bytes
read_payload b cs =
    let raw' = b.raw ++ take b.remaining cs in
    if leb b.remaining (length cs)
    then (finish (complete raw') b, drop b.remaining cs)
    else (record b { raw = raw'; remaining = b.remaining - length cs }, [])

-- `recv`, with the bytes that it leaves in the stream.
unfoldable pub recv_bytes : Builder → Bytes → Builder × Bytes
recv_bytes b [] = (b, [])
recv_bytes b (c ∷ cs) = elim b.read_state [
  | fixed_header ↦
      recv_bytes
        (record b {
          header_remaining_length_buf = b.header_remaining_length_buf ++ c ∷ [];
          read_state = remaining_length;
        })
        cs
  | remaining_length ↦
      let b' = push_length c b in
      elim (ltb c 128) [
        | true ↦ elim (b'.remaining == 0) [
          | true ↦ (finish (complete b'.header_remaining_length_buf) b', cs)
          | false ↦ recv_bytes (start_payload b') cs
        ]
        | false ↦ elim (b'.multiplier == 128 * 128 * 128 * 128) [
          | true ↦ (finish (failed (disconnect_reason_code packet_too_large)) b', cs)
          | false ↦ recv_bytes b' cs
        ]
      ]
  | payload ↦ read_payload b (c ∷ cs)
]
