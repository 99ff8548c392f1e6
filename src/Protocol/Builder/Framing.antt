-- ===== src/Protocol/Builder/Framing.antt =====
-- The packets that recv_packet_builder (protocol/impl/connection_impl.ipp) cuts out of the stream.
use async_mqtt_cpp.Prelude.{
  ℕ, ◌-◌, ◌≤◌, ◌≡◌, ◌⊎◌, refl, Bool, true, false, if◌then◌else◌, leb, Bool-cases, inl, inr, none,
  some, [], ◌∷◌, ◌++◌, length, take, take-append, drop-append, take-prefix, drop-prefix, append_nil,
  append_assoc, take_all, length-append, arith,
}
use async_mqtt_cpp.Protocol.Packet.{Bytes}
use async_mqtt_cpp.Protocol.Builder.{
  Builder, ReadState, fixed_header, remaining_length, payload, push_length, start_payload,
  read_payload, recv_bytes,
}

abbrev is_idle : Builder → Bool
is_idle b = elim b.read_packet [ none ↦ true | some p ↦ false ]

leb-false : (a b : ℕ) → leb a b ≡ false → b ≤ a
leb-false a b h = ground arith

-- Reading goes on with the bytes that come later, unless a packet is complete.
abbrev pub resume : Builder × Bytes → Bytes → Builder × Bytes
resume (b, rest) ys = if is_idle b then recv_bytes b ys else (b, rest ++ ys)

abbrev part_of : Builder → Bytes → Builder
part_of b cs = record b { raw = b.raw ++ cs; remaining = b.remaining - length cs }

read_payload-part :
    (b : Builder) (cs ys : Bytes)
    → leb b.remaining (length cs) ≡ false
    → read_payload b (cs ++ ys) ≡ read_payload (part_of b cs) ys
read_payload-part b cs ys t =
    let h = leb-false b.remaining (length cs) t in
    let e = take-append b.remaining cs ys h in
    let d = drop-append b.remaining cs ys h in
    let a = append_assoc b.raw cs (take (b.remaining - length cs) ys) in
    ground (arith, t, e, d, a, length-append cs ys)

read_payload-short :
    (b : Builder) (cs : Bytes)
    → leb b.remaining (length cs) ≡ false
    → read_payload b cs ≡ (part_of b cs, [])
read_payload-short b cs t =
    rw (t, take_all b.remaining cs (leb-false b.remaining (length cs) t)) refl

pub recv_bytes-payload :
    (b : Builder) (ys : Bytes)
    → b.read_state ≡ payload
    → 1 ≤ b.remaining
    → recv_bytes b ys ≡ read_payload b ys
unfolding recv_bytes
recv_bytes-payload b [] k p = ground (arith, p, take_all {A = ℕ} b.remaining [], append_nil b.raw)
recv_bytes-payload b (y ∷ ys) k p = rw k

read_payload-append :
    (b : Builder) (cs ys : Bytes)
    → b.read_packet ≡ none
    → b.read_state ≡ payload
    → read_payload b (cs ++ ys) ≡ resume (read_payload b cs) ys
read_payload-append b cs ys h k = elim (Bool-cases (leb b.remaining (length cs))) [
  | inl t ↦
      ground (
        arith,
        t,
        take-prefix b.remaining cs ys,
        drop-prefix b.remaining cs ys,
        length-append cs ys,
      )
  | inr t ↦ ground (
    arith,
    h,
    k,
    t,
    read_payload-part b cs ys t,
    read_payload-short b cs t,
    recv_bytes-payload (part_of b cs) ys k,
  )
]

state_cases : (r : ReadState) → (r ≡ fixed_header) ⊎ ((r ≡ remaining_length) ⊎ (r ≡ payload))
state_cases fixed_header = inl refl
state_cases remaining_length = inr (inl refl)
state_cases payload = inr (inr refl)

-- A stream that arrives in two pieces is read as if it came at once, from any state in which no
-- packet is waiting to be taken: the second piece goes on where the first one ended, or is left
-- behind a packet that the first one completed.
pub recv_bytes-append :
    (b : Builder) (xs ys : Bytes)
    → b.read_packet ≡ none
    → recv_bytes b (xs ++ ys) ≡ resume (recv_bytes b xs) ys
unfolding recv_bytes
recv_bytes-append b [] ys h = rw h
recv_bytes-append b (c ∷ cs) ys h = elim (state_cases b.read_state) [
  | inl e ↦ ground (
    arith,
    h,
    e,
    recv_bytes-append
        (record b {
          header_remaining_length_buf = b.header_remaining_length_buf ++ c ∷ [];
          read_state = remaining_length;
        })
        cs ys h,
  )
  | inr (inl e) ↦ ground (
    arith,
    h,
    e,
    recv_bytes-append (push_length c b) cs ys h,
    recv_bytes-append (start_payload (push_length c b)) cs ys h,
  )
  | inr (inr e) ↦ ground (arith, h, e, read_payload-append b (c ∷ cs) ys h e)
]
