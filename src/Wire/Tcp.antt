-- ===== src/Wire/Tcp.antt =====
-- tcp-core/src/wire/tcp.rs: a checked view of a received segment, its flags and its options. A read
-- outside of the buffer, a panic in the source, reads 0 here; `new_checked` excludes it.
pub mod Emit
pub mod Walk
pub mod Lengths
pub mod RoundTrip
mod Tests
use ferrumnet.Prelude.{
  ℕ, zero, suc, ◌+◌, ◌-◌, ◌*◌, ◌/◌, ◌%◌, Bool, true, false, not, ◌&&◌, ◌||◌, List, [], ◌∷◌, ◌++◌,
  length, get_or, take, drop, Option, some, none, min, be_u16, be_u32, shr, low_bits, ltb, leb,
  ◌==◌, if◌then◌else◌, u8,
}
use ferrumnet.Seq.{SeqNumber}

abbrev pub tcp_min_header_len : ℕ
tcp_min_header_len = 20

abbrev pub tcp_max_header_len : ℕ
tcp_max_header_len = 60

abbrev pub max_sack_blocks : ℕ
max_sack_blocks = 4

pub data ParseError : Type 0 where
  truncated bad_data_offset : ParseError

-- `struct TcpFlags(pub u8)`, and its bits.
abbrev pub TcpFlags : Type 0
TcpFlags = ℕ

abbrev pub flag_fin : ℕ
flag_fin = 0x01

abbrev pub flag_syn : ℕ
flag_syn = 0x02

abbrev pub flag_rst : ℕ
flag_rst = 0x04

abbrev pub flag_psh : ℕ
flag_psh = 0x08

abbrev pub flag_ack : ℕ
flag_ack = 0x10

abbrev pub flag_ece : ℕ
flag_ece = 0x40

abbrev pub flag_cwr : ℕ
flag_cwr = 0x80

-- `self.0 & bit != 0` and `self.0 |= bit`, for a bit that is a power of two.
abbrev pub has : TcpFlags → ℕ → Bool
has flags bit = not (flags / bit % 2 == 0)

abbrev pub with_bit : TcpFlags → ℕ → TcpFlags
with_bit flags bit = if has flags bit then flags else flags + bit

abbrev pub fin : TcpFlags → Bool
fin flags = has flags flag_fin

abbrev pub syn : TcpFlags → Bool
syn flags = has flags flag_syn

abbrev pub rst : TcpFlags → Bool
rst flags = has flags flag_rst

abbrev pub ack_bit : TcpFlags → Bool
ack_bit flags = has flags flag_ack

abbrev pub ece : TcpFlags → Bool
ece flags = has flags flag_ece

abbrev pub cwr : TcpFlags → Bool
cwr flags = has flags flag_cwr

pub record TcpPacket : Type 0 where
  pub buf : List ℕ

-- `Result<TcpPacket, ParseError>`
pub data Checked : Type 0 where
  valid : TcpPacket → Checked
  invalid : ParseError → Checked

abbrev pub octet : TcpPacket → ℕ → ℕ
octet p i = get_or p.buf i 0

abbrev pub src_port : TcpPacket → ℕ
src_port p = be_u16 (octet p 0) (octet p 1)

abbrev pub dst_port : TcpPacket → ℕ
dst_port p = be_u16 (octet p 2) (octet p 3)

abbrev pub seq : TcpPacket → SeqNumber
seq p = be_u32 (octet p 4) (octet p 5) (octet p 6) (octet p 7)

abbrev pub ack : TcpPacket → SeqNumber
ack p = be_u32 (octet p 8) (octet p 9) (octet p 10) (octet p 11)

abbrev pub data_offset : TcpPacket → ℕ
data_offset p = shr (octet p 12) 4 * 4

abbrev pub flags : TcpPacket → TcpFlags
flags p = octet p 13

abbrev pub ae : TcpPacket → Bool
ae p = not (low_bits (octet p 12) 1 == 0)

abbrev pub window : TcpPacket → ℕ
window p = be_u16 (octet p 14) (octet p 15)

abbrev pub segment_checksum : TcpPacket → ℕ
segment_checksum p = be_u16 (octet p 16) (octet p 17)

abbrev pub options : TcpPacket → List ℕ
options p = take (data_offset p - tcp_min_header_len) (drop tcp_min_header_len p.buf)

abbrev pub payload : TcpPacket → List ℕ
payload p = drop (data_offset p) p.buf

unfoldable pub new_checked : List ℕ → Checked
new_checked buf =
    let p : TcpPacket = record { buf = buf } in
    if ltb (length buf) tcp_min_header_len
    then invalid truncated
    else if not (leb tcp_min_header_len (data_offset p) && leb (data_offset p) tcp_max_header_len)
    then invalid bad_data_offset
    else if ltb (length buf) (data_offset p)
    then invalid truncated
    else valid p

-- An option as the walker hands it over: its kind and its value.
abbrev pub Tlv : Type 0
Tlv = ℕ × List ℕ

-- The loop of `for_each_option` on the options from index `i` on, on fuel, as the list of the
-- options it hands over. Each round takes a byte at least.
unfoldable pub walk : ℕ → List ℕ → List Tlv
walk zero opts = []
walk (suc fuel) [] = []
walk (suc fuel) (kind ∷ []) =
    let rest = walk fuel [] in if kind == 0 then [] else if kind == 1 then rest else []
walk (suc fuel) (kind ∷ (len ∷ more)) =
    let skipped = walk fuel (len ∷ more) in
    let rest = (kind, take (len - 2) more) ∷ walk fuel (drop (len - 2) more) in
    if kind == 0
    then []
    else if kind == 1
    then skipped
    else if ltb len 2 || ltb (length more + 2) len
    then []
    else rest

unfoldable pub option_list : TcpPacket → List Tlv
unfolding walk
option_list p = walk (length (options p)) (options p)

-- The closure of each accessor, folded over the options.
abbrev pub for_each {ℓ} : {A : Type ℓ} → (A → Tlv → A) → A → List Tlv → A
for_each f acc [] = acc
for_each f acc (o ∷ os) = for_each f (f acc o) os

abbrev pub or_else {ℓ} : {A : Type ℓ} → Option A → Option A → Option A
or_else none b = b
or_else (some a) b = some a

abbrev pub read_mss : Option ℕ → Tlv → Option ℕ
read_mss mss (kind, v) =
    if kind == 2 && length v == 2
    then or_else mss (some (be_u16 (get_or v 0 0) (get_or v 1 0)))
    else mss

abbrev pub word_at : List ℕ → ℕ → ℕ
word_at v j = be_u32 (get_or v j 0) (get_or v (j + 1) 0) (get_or v (j + 2) 0) (get_or v (j + 3) 0)

abbrev pub read_timestamps : Option (ℕ × ℕ) → Tlv → Option (ℕ × ℕ)
read_timestamps ts (kind, v) =
    if kind == 8 && length v == 8 then or_else ts (some (word_at v 0, word_at v 4)) else ts

abbrev pub read_scale : Option ℕ → Tlv → Option ℕ
read_scale scale (kind, v) =
    if kind == 3 && length v == 1 then or_else scale (some (min (get_or v 0 0) 14)) else scale

abbrev pub read_permitted : Bool → Tlv → Bool
read_permitted permitted (kind, v) = if kind == 4 && length v == 0 then true else permitted

-- The pairs of a SACK option, as many as there is room for.
unfoldable pub read_pairs : ℕ → List ℕ → List (SeqNumber × SeqNumber)
read_pairs zero v = []
read_pairs (suc room) (a ∷ (b ∷ (c ∷ (d ∷ (e ∷ (f ∷ (g ∷ (h ∷ rest)))))))) =
    (be_u32 a b c d, be_u32 e f g h) ∷ read_pairs room rest
read_pairs (suc room) v = []

unfoldable pub read_sack : List (SeqNumber × SeqNumber) → Tlv → List (SeqNumber × SeqNumber)
unfolding read_pairs
read_sack out (kind, v) =
    if kind == 5 then out ++ read_pairs (max_sack_blocks - length out) v else out

unfoldable pub mss_option : TcpPacket → Option ℕ
mss_option p = for_each read_mss none (option_list p)

unfoldable pub timestamps : TcpPacket → Option (ℕ × ℕ)
timestamps p = for_each read_timestamps none (option_list p)

unfoldable pub window_scale : TcpPacket → Option ℕ
window_scale p = for_each read_scale none (option_list p)

unfoldable pub sack_permitted : TcpPacket → Bool
sack_permitted p = for_each read_permitted false (option_list p)

-- The filled part of `out`.
unfoldable pub sack_blocks : TcpPacket → List (SeqNumber × SeqNumber)
sack_blocks p = for_each read_sack [] (option_list p)
