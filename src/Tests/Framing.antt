-- ===== src/Tests/Framing.antt =====
-- Concrete byte streams for protocol/impl/connection_impl.ipp and util/variable_bytes.hpp.
use async_mqtt_cpp.Prelude.{◌≡◌, refl, if◌then◌else◌, ltb, some, [], ◌∷◌, ◌++◌, length, arith}
use async_mqtt_cpp.Protocol.Packet.{Bytes}
use async_mqtt_cpp.Protocol.Builder.{fresh, recv_bytes}
use async_mqtt_cpp.Protocol.Builder.Framing.{resume, recv_bytes-append}
use async_mqtt_cpp.Protocol.Builder.RoundTrip.{holding, recv_bytes-packet}
use async_mqtt_cpp.Util.VariableBytes.{
  val_to_variable_bytes, variable_bytes_to_val, variable_bytes_to_val-val_to_variable_bytes,
  length-val_to_variable_bytes,
}

abbrev identifier_three : Bytes
identifier_three = 0 ∷ 3 ∷ []

-- A PUBACK packet for identifier 3, and the first byte of the next packet.
recv_bytes-packet_example :
    recv_bytes fresh
      (0x40 ∷ (val_to_variable_bytes (length identifier_three) ++ (identifier_three ++ 0xd0 ∷ [])))
    ≡ (
      holding (0x40 ∷ (val_to_variable_bytes (length identifier_three) ++ identifier_three)),
      0xd0 ∷ [],
    )
recv_bytes-packet_example = recv_bytes-packet 0x40 identifier_three (0xd0 ∷ []) (omega arith)

-- The same packet in two pieces.
recv_bytes-append_example :
    recv_bytes fresh (0x40 ∷ 2 ∷ 0 ∷ [] ++ 3 ∷ 0xd0 ∷ [])
    ≡ resume (recv_bytes fresh (0x40 ∷ 2 ∷ 0 ∷ [])) (3 ∷ 0xd0 ∷ [])
recv_bytes-append_example = recv_bytes-append fresh (0x40 ∷ 2 ∷ 0 ∷ []) (3 ∷ 0xd0 ∷ []) refl

variable_bytes_to_val-val_to_variable_bytes_example :
    variable_bytes_to_val (val_to_variable_bytes 321 ++ 7 ∷ []) ≡ (some 321, 7 ∷ [])
variable_bytes_to_val-val_to_variable_bytes_example =
    variable_bytes_to_val-val_to_variable_bytes 321 (7 ∷ []) (omega arith)

length-val_to_variable_bytes_example : length (val_to_variable_bytes 16384) ≡ (
    if ltb 16384 128 then 1 else if ltb 16384 16384 then 2 else if ltb 16384 2097152 then 3 else 4)
length-val_to_variable_bytes_example = length-val_to_variable_bytes 16384 (omega arith)
