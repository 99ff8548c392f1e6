-- ===== src/Protocol/Codec/Result.antt =====
-- The error_code that a parser sets before it returns, as a result. A `fault` is a read outside of
-- the buffer, which the language leaves undefined.
use async_mqtt_cpp.Prelude.{Bool, true, false, Option, none, some}
use async_mqtt_cpp.Protocol.Event.{ErrorCode, disconnect_reason_code}

pub data Result {ℓ} (A : Type ℓ) : Type ℓ where
  ok : A → Result A
  err : ErrorCode → Result A
  fault : Result A

infixl 5 ◌>>=◌ ◌>>◌
abbrev pub ◌>>=◌ {ℓ κ} : {A : Type ℓ} {B : Type κ} → Result A → (A → Result B) → Result B
ok a >>= f = f a
err e >>= f = err e
fault >>= f = fault

abbrev pub ◌>>◌ {ℓ} : {B : Type ℓ} → Result (Unit {0}) → Result B → Result B
m >> k = m >>= λ _. k

abbrev pub malformed_packet : ErrorCode
malformed_packet = disconnect_reason_code 0x81

abbrev pub protocol_error : ErrorCode
protocol_error = disconnect_reason_code 0x82

abbrev pub unless : Bool → ErrorCode → Result (Unit {0})
unless true e = ok tt
unless false e = err e

abbrev pub or_malformed {ℓ} : {A : Type ℓ} → Option A → Result A
or_malformed none = err malformed_packet
or_malformed (some a) = ok a

-- `buf.front()` of a buffer whose size was not tested.
abbrev pub or_fault {ℓ} : {A : Type ℓ} → Option A → Result A
or_fault none = fault
or_fault (some a) = ok a
