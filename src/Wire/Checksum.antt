-- ===== src/Wire/Checksum.antt =====
-- tcp-core/src/wire/checksum.rs: the Internet checksum. Sums are those of `u64` and `u32`.
pub mod Sum
use ferrumnet.Prelude.{
  ℕ, zero, suc, ◌+◌, ◌-◌, ◌*◌, ◌^◌, Bool, List, [], ◌∷◌, length, be_u16, be_u32, shr, low_bits, u16,
  u32, u64, u16_max, ◌==◌, true, false,
}

abbrev pub ipproto_icmp : ℕ
ipproto_icmp = 1

abbrev pub ipproto_tcp : ℕ
ipproto_tcp = 6

-- `Ipv4Addr`: its four octets.
pub record Ipv4Addr : Type 0 where
  pub a : ℕ
  pub b : ℕ
  pub c : ℕ
  pub d : ℕ

abbrev pub octets : Ipv4Addr → List ℕ
octets ip = ip.a ∷ (ip.b ∷ (ip.c ∷ (ip.d ∷ [])))

-- The tail below 8 bytes: 16-bit words, and a last odd byte as a high byte.
unfoldable pub sum_pairs : ℕ → List ℕ → ℕ
sum_pairs sum [] = sum
sum_pairs sum (last ∷ []) = u64 (sum + last * 256)
sum_pairs sum (a ∷ (b ∷ rest)) = sum_pairs (u64 (sum + be_u16 a b)) rest

-- The loop over 8-byte chunks, then the tail.
unfoldable pub sum_octets : ℕ → List ℕ → ℕ
sum_octets sum (a ∷ (b ∷ (c ∷ (d ∷ (e ∷ (f ∷ (g ∷ (h ∷ rest)))))))) =
    sum_octets (u64 (u64 (sum + be_u32 a b c d) + be_u32 e f g h)) rest
sum_octets sum rest = sum_pairs sum rest

-- `while sum >> 32 != 0`, on fuel: two rounds are enough.
unfoldable pub fold_u64 : ℕ → ℕ → ℕ
fold_u64 zero sum = sum
fold_u64 (suc fuel) sum = elim (shr sum 32 == 0) [
  | true ↦ sum
  | false ↦ fold_u64 fuel (u64 (low_bits sum 32 + shr sum 32))
]

unfoldable pub accumulate : ℕ → List ℕ → ℕ
accumulate acc bytes = u32 (fold_u64 2 (sum_octets acc bytes))

-- `while acc >> 16 != 0`, on fuel: two rounds are enough.
unfoldable pub fold_u32 : ℕ → ℕ → ℕ
fold_u32 zero acc = acc
fold_u32 (suc fuel) acc = elim (shr acc 16 == 0) [
  | true ↦ acc
  | false ↦ fold_u32 fuel (u32 (low_bits acc 16 + shr acc 16))
]

unfoldable pub fold : ℕ → ℕ
fold acc = u16 (fold_u32 2 acc)

-- `!` on a `u16`
abbrev pub complement : ℕ → ℕ
complement n = u16_max - n

unfoldable pub checksum : List ℕ → ℕ
checksum bytes = complement (fold (accumulate 0 bytes))

unfoldable pub pseudo_header : Ipv4Addr → Ipv4Addr → ℕ → ℕ → ℕ
pseudo_header src dst protocol l4_len =
    accumulate (accumulate (accumulate 0 (octets src)) (octets dst))
      (0 ∷ (protocol ∷ (low_bits (shr l4_len 8) 8 ∷ (low_bits l4_len 8 ∷ []))))

unfoldable pub tcp_checksum : Ipv4Addr → Ipv4Addr → List ℕ → ℕ
tcp_checksum src dst segment =
    complement
      (fold (accumulate (pseudo_header src dst ipproto_tcp (u16 (length segment))) segment))

unfoldable pub tcp_checksum_valid : Ipv4Addr → Ipv4Addr → List ℕ → Bool
tcp_checksum_valid src dst segment =
    fold (accumulate (pseudo_header src dst ipproto_tcp (u16 (length segment))) segment) == 0xffff
