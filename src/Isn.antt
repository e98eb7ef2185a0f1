-- ===== src/Isn.antt =====
-- tcp-core/src/isn.rs: SipHash-2-4, and the generator of initial sequence numbers over it. Words are
-- those of `u64`.
mod Tests
use ferrumnet.Prelude.{
  ℕ, zero, suc, ◌+◌, ◌*◌, ◌/◌, ◌%◌, ◌^◌, ◌-◌, List, [], ◌∷◌, ◌++◌, length, take, drop, bit_xor, u32,
  u64, u16_bytes, wrapping_add,
}
use ferrumnet.Seq.{SeqNumber}
use ferrumnet.Wire.Checksum.{Ipv4Addr, octets}

abbrev pub rotate_left : ℕ → ℕ → ℕ
rotate_left x k = u64 (x * 2 ^ k) + x / 2 ^ (64 - k)

pub record SipState : Type 0 where
  pub v0 : ℕ
  pub v1 : ℕ
  pub v2 : ℕ
  pub v3 : ℕ

-- The macro `round!`, in its order.
unfoldable pub sip_round : SipState → SipState
sip_round s =
    let a0 = u64 (s.v0 + s.v1) in
    let a1 = bit_xor (rotate_left s.v1 13) a0 in
    let b0 = rotate_left a0 32 in
    let a2 = u64 (s.v2 + s.v3) in
    let a3 = bit_xor (rotate_left s.v3 16) a2 in
    let c0 = u64 (b0 + a3) in
    let c3 = bit_xor (rotate_left a3 21) c0 in
    let c2 = u64 (a2 + a1) in
    let c1 = bit_xor (rotate_left a1 17) c2 in
    record { v0 = c0; v1 = c1; v2 = rotate_left c2 32; v3 = c3 }

-- One block: `v3 ^= m`, two rounds, `v0 ^= m`.
unfoldable pub absorb : SipState → ℕ → SipState
unfolding sip_round
absorb s m =
    let t : SipState = sip_round (sip_round (record s { v3 = bit_xor s.v3 m })) in
    record t { v0 = bit_xor t.v0 m }

-- `u64::from_le_bytes`, and the bytes of the last block.
abbrev pub from_le_bytes : List ℕ → ℕ
from_le_bytes [] = 0
from_le_bytes (byte ∷ rest) = byte + 256 * from_le_bytes rest

-- The blocks of eight bytes, then the last one with the length in its top byte.
unfoldable pub absorb_all : SipState → ℕ → List ℕ → SipState
unfolding absorb
absorb_all s len (a ∷ (b ∷ (c ∷ (d ∷ (e ∷ (f ∷ (g ∷ (h ∷ rest)))))))) =
    absorb_all (absorb s (from_le_bytes (a ∷ (b ∷ (c ∷ (d ∷ (e ∷ (f ∷ (g ∷ (h ∷ [])))))))))) len
      rest
absorb_all s len rest = absorb s (u64 (len * 2 ^ 56) + from_le_bytes rest)

unfoldable pub siphash24 : ℕ → ℕ → List ℕ → ℕ
unfolding absorb_all sip_round
siphash24 k0 k1 bytes =
    let start : SipState = record {
      v0 = bit_xor k0 0x736f6d6570736575;
      v1 = bit_xor k1 0x646f72616e646f6d;
      v2 = bit_xor k0 0x6c7967656e657261;
      v3 = bit_xor k1 0x7465646279746573;
    } in
    let s : SipState = absorb_all start (length bytes) bytes in
    let t : SipState =
      sip_round (sip_round (sip_round (sip_round (record s { v2 = bit_xor s.v2 0xff })))) in
    bit_xor (bit_xor (bit_xor t.v0 t.v1) t.v2) t.v3

pub record IsnGenerator : Type 0 where
  pub k0 : ℕ
  pub k1 : ℕ

unfoldable pub new : List ℕ → IsnGenerator
new secret = record {
  k0 = from_le_bytes (take 8 secret);
  k1 = from_le_bytes (take 8 (drop 8 secret));
}

unfoldable pub generate : IsnGenerator → Ipv4Addr → ℕ → Ipv4Addr → ℕ → ℕ → SeqNumber
unfolding siphash24
generate g local_ip local_port remote_ip remote_port now_micros =
    let tuple =
      octets local_ip ++ (octets remote_ip ++ (u16_bytes local_port ++ u16_bytes remote_port)) in
    wrapping_add (u32 (now_micros / 4)) (u32 (siphash24 g.k0 g.k1 tuple))
