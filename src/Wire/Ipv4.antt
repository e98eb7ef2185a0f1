-- ===== src/Wire/Ipv4.antt =====
-- tcp-core/src/wire/ipv4.rs: a checked view of a received datagram, and the header that is emitted.
-- A read outside of the buffer, a panic in the source, reads 0 here; Ipv4/Emit shows where none is.
pub mod Emit
use ferrumnet.Prelude.{
  ℕ, ◌+◌, ◌-◌, ◌*◌, ◌/◌, ◌%◌, Bool, true, false, not, ◌&&◌, ◌||◌, List, [], ◌∷◌, ◌++◌, length,
  get_or, set, take, drop, Option, some, none, be_u16, u16_bytes, shr, low_bits, u16, ltb, leb,
  ◌==◌, if◌then◌else◌, bit_and,
}
use ferrumnet.Wire.Checksum.{Ipv4Addr, octets, checksum, accumulate, fold}

abbrev pub ipv4_min_header_len : ℕ
ipv4_min_header_len = 20

abbrev pub ipv4_max_header_len : ℕ
ipv4_max_header_len = 60

abbrev pub ecn_not_ect : ℕ
ecn_not_ect = 0

abbrev pub ecn_ect1 : ℕ
ecn_ect1 = 1

abbrev pub ecn_ect0 : ℕ
ecn_ect0 = 2

abbrev pub ecn_ce : ℕ
ecn_ce = 3

-- `frame[1] & 0xFC | ecn & 0x03` on bytes: the two low bits are replaced. The checksum bytes are
-- zeroed before the sum and filled after it.
unfoldable pub set_ecn : List ℕ → ℕ → List ℕ
set_ecn frame ecn =
    if ltb (length frame) ipv4_min_header_len
    then frame
    else let marked = set frame 1 (get_or frame 1 0 / 4 * 4 + low_bits ecn 2) in
      let zeroed = set (set marked 10 0) 11 0 in
      let csum = checksum (take ipv4_min_header_len zeroed) in
      set (set zeroed 10 (csum / 256)) 11 (csum % 256)

pub data ParseError : Type 0 where
  truncated bad_version bad_header_len fragmented : ParseError

pub data Parsed (A : Type 0) : Type 0 where
  ok : A → Parsed A
  err : ParseError → Parsed A

pub record Ipv4Packet : Type 0 where
  pub buf : List ℕ

abbrev pub byte : Ipv4Packet → ℕ → ℕ
byte p i = get_or p.buf i 0

abbrev pub version : Ipv4Packet → ℕ
version p = shr (byte p 0) 4

abbrev pub header_len : Ipv4Packet → ℕ
header_len p = low_bits (byte p 0) 4 * 4

abbrev pub total_len : Ipv4Packet → ℕ
total_len p = be_u16 (byte p 2) (byte p 3)

abbrev pub ttl : Ipv4Packet → ℕ
ttl p = byte p 8

abbrev pub protocol : Ipv4Packet → ℕ
protocol p = byte p 9

abbrev pub ecn : Ipv4Packet → ℕ
ecn p = low_bits (byte p 1) 2

abbrev pub header_checksum : Ipv4Packet → ℕ
header_checksum p = be_u16 (byte p 10) (byte p 11)

abbrev pub src : Ipv4Packet → Ipv4Addr
src p = record { a = byte p 12; b = byte p 13; c = byte p 14; d = byte p 15 }

abbrev pub dst : Ipv4Packet → Ipv4Addr
dst p = record { a = byte p 16; b = byte p 17; c = byte p 18; d = byte p 19 }

-- Bit 13 of the field, or any of the 13 bits below it.
abbrev pub is_fragment : Ipv4Packet → Bool
is_fragment p =
    let flags_frag = be_u16 (byte p 6) (byte p 7) in
    not (low_bits (shr flags_frag 13) 1 == 0) || not (low_bits flags_frag 13 == 0)

unfoldable pub new_checked : List ℕ → Parsed Ipv4Packet
new_checked buf =
    if ltb (length buf) ipv4_min_header_len
    then err truncated
    else let p : Ipv4Packet = record { buf = buf } in
      if not (version p == 4)
      then err bad_version
      else if not (leb ipv4_min_header_len (header_len p) && leb (header_len p) ipv4_max_header_len)
      then err bad_header_len
      else if ltb (total_len p) (header_len p) || ltb (length buf) (total_len p)
      then err truncated
      else if is_fragment p
      then err fragmented
      else ok p

unfoldable pub checksum_valid : Ipv4Packet → Bool
checksum_valid p = fold (accumulate 0 (take (header_len p) p.buf)) == 0xffff

abbrev pub payload : Ipv4Packet → List ℕ
payload p = take (total_len p - header_len p) (drop (header_len p) p.buf)

pub record Ipv4Repr : Type 0 where
  pub src : Ipv4Addr
  pub dst : Ipv4Addr
  pub protocol : ℕ
  pub payload_len : ℕ
  pub ttl : ℕ
  pub ecn : ℕ

abbrev pub repr_len : Ipv4Repr → ℕ
repr_len r = ipv4_min_header_len + r.payload_len

-- The 20 bytes that `emit` writes, with the given checksum.
abbrev pub header : Ipv4Repr → ℕ → List ℕ
header r csum =
    0x45
    ∷ (low_bits r.ecn 2
        ∷ (u16_bytes (u16 (repr_len r))
            ++ (0
                ∷ (0
                    ∷ (0x40
                        ∷ (0
                            ∷ (r.ttl
                                ∷ (r.protocol
                                    ∷ (u16_bytes csum ++ (octets r.src ++ octets r.dst))))))))))

-- `none` is the panic on a buffer below 20 bytes. The checksum is computed with its field zero.
unfoldable pub emit : Ipv4Repr → List ℕ → Option (ℕ × List ℕ)
emit r buf =
    if ltb (length buf) ipv4_min_header_len
    then none
    else some
        (ipv4_min_header_len, header r (checksum (header r 0)) ++ drop ipv4_min_header_len buf)
