-- ===== src/Wire/Tcp/Emit.antt =====
-- The description of a segment to emit, and `emit`, of tcp-core/src/wire/tcp.rs.
use ferrumnet.Prelude.{
  ℕ, ◌+◌, ◌*◌, ◌/◌, Bool, true, false, List, [], ◌∷◌, ◌++◌, length, set, take, drop, Option, some,
  none, min, u8, u16_bytes, u32_bytes, ltb, is_some, if◌then◌else◌, replicate,
}
use ferrumnet.Seq.{SeqNumber}
use ferrumnet.Wire.Checksum.{Ipv4Addr, tcp_checksum}
use ferrumnet.Wire.Tcp.{TcpFlags, tcp_min_header_len, max_sack_blocks}

pub record SackBlocks : Type 0 where
  pub blocks : List (SeqNumber × SeqNumber)
  pub len : ℕ

-- `SackBlocks::default`
abbrev pub no_blocks : SackBlocks
no_blocks = record { blocks = replicate max_sack_blocks (0, 0); len = 0 }

unfoldable pub push : SackBlocks → SeqNumber → SeqNumber → SackBlocks
push s left right =
    if ltb s.len max_sack_blocks
    then record { blocks = set s.blocks s.len (left, right); len = s.len + 1 }
    else s

pub record TcpRepr : Type 0 where
  pub src_port : ℕ
  pub dst_port : ℕ
  pub seq : SeqNumber
  pub ack : SeqNumber
  pub flags : TcpFlags
  pub window : ℕ
  pub mss : Option ℕ
  pub sack_permitted : Bool
  pub sack : SackBlocks
  pub window_scale : Option ℕ
  pub timestamps : Option (ℕ × ℕ)
  pub ae : Bool

abbrev pub sack_blocks_to_emit : TcpRepr → ℕ
sack_blocks_to_emit r = min r.sack.len (if is_some r.timestamps then 3 else max_sack_blocks)

abbrev pub bit_of : Bool → ℕ
bit_of b = if b then 1 else 0

abbrev pub header_len : TcpRepr → ℕ
header_len r =
    let n = sack_blocks_to_emit r in
    tcp_min_header_len
    + (if is_some r.mss then 4 else 0)
    + (if r.sack_permitted then 4 else 0)
    + (if is_some r.window_scale then 4 else 0)
    + (if is_some r.timestamps then 12 else 0)
    + (if ltb 0 n then 4 + 8 * n else 0)

abbrev pub mss_bytes : Option ℕ → List ℕ
mss_bytes none = []
mss_bytes (some mss) = 2 ∷ (4 ∷ u16_bytes mss)

abbrev pub permitted_bytes : Bool → List ℕ
permitted_bytes false = []
permitted_bytes true = 1 ∷ (1 ∷ (4 ∷ (2 ∷ [])))

abbrev pub scale_bytes : Option ℕ → List ℕ
scale_bytes none = []
scale_bytes (some shift) = 1 ∷ (3 ∷ (3 ∷ (shift ∷ [])))

abbrev pub timestamp_bytes : Option (ℕ × ℕ) → List ℕ
timestamp_bytes none = []
timestamp_bytes (some (tsval, tsecr)) = 1 ∷ (1 ∷ (8 ∷ (10 ∷ (u32_bytes tsval ++ u32_bytes tsecr))))

abbrev pub block_bytes : List (SeqNumber × SeqNumber) → List ℕ
block_bytes [] = []
block_bytes ((left, right) ∷ bs) = u32_bytes left ++ (u32_bytes right ++ block_bytes bs)

-- The SACK option, if there are blocks.
abbrev pub sack_option : Bool → ℕ → List (SeqNumber × SeqNumber) → List ℕ
sack_option false n blocks = []
sack_option true n blocks = 1 ∷ (1 ∷ (5 ∷ (u8 (2 + 8 * n) ∷ block_bytes (take n blocks))))

abbrev pub sack_bytes : ℕ → List (SeqNumber × SeqNumber) → List ℕ
sack_bytes n blocks = sack_option (ltb 0 n) n blocks

-- The options in the order of `emit`.
abbrev pub option_bytes : TcpRepr → List ℕ
option_bytes r =
    mss_bytes r.mss
    ++ (permitted_bytes r.sack_permitted
        ++ (scale_bytes r.window_scale
            ++ (timestamp_bytes r.timestamps ++ sack_bytes (sack_blocks_to_emit r) r.sack.blocks)))

-- The twenty fixed bytes, with the given checksum.
abbrev pub fixed : TcpRepr → ℕ → List ℕ
fixed r csum =
    u16_bytes r.src_port
    ++ (u16_bytes r.dst_port
        ++ (u32_bytes r.seq
            ++ (u32_bytes r.ack
                ++ ((u8 (u8 (header_len r / 4) * 16) + bit_of r.ae)
                    ∷ (r.flags ∷ (u16_bytes r.window ++ (u16_bytes csum ++ (0 ∷ (0 ∷ [])))))))))

-- The header, its options and the payload.
abbrev pub segment : TcpRepr → List ℕ → ℕ → List ℕ
segment r body csum = fixed r csum ++ (option_bytes r ++ body)

-- `none` is the panic on a buffer that is too short.
unfoldable pub emit : TcpRepr → Ipv4Addr → Ipv4Addr → List ℕ → List ℕ → Option (ℕ × List ℕ)
emit r src dst body buf =
    let total = header_len r + length body in
    let csum = tcp_checksum src dst (segment r body 0) in
    if ltb (length buf) total then none else some (total, segment r body csum ++ drop total buf)
