-- ===== src/Wire/Tcp/Lengths.antt =====
-- The lengths of the header and the options that tcp-core/src/wire/tcp.rs emits.
use ferrumnet.Prelude.{
  ℕ, ◌+◌, ◌*◌, ◌%◌, ◌≤◌, ◌≡◌, ◌⊎◌, inl, inr, refl, arith, Bool, true, false, List, [], ◌∷◌, ◌++◌,
  length, length-append, take, length-take, Option, none, some, ltb, is_some, if◌then◌else◌,
}
use ferrumnet.Seq.{SeqNumber}
use ferrumnet.Wire.Tcp.Emit.{
  TcpRepr, header_len, sack_blocks_to_emit, option_bytes, mss_bytes, permitted_bytes, scale_bytes,
  timestamp_bytes, sack_option, sack_bytes, block_bytes, segment,
}

length-mss : (m : Option ℕ) → length (mss_bytes m) ≡ (if is_some m then 4 else 0)
length-mss none = refl
length-mss (some m) = refl

length-permitted : (b : Bool) → length (permitted_bytes b) ≡ (if b then 4 else 0)
length-permitted true = refl
length-permitted false = refl

length-scale : (s : Option ℕ) → length (scale_bytes s) ≡ (if is_some s then 4 else 0)
length-scale none = refl
length-scale (some s) = refl

length-timestamps :
    (t : Option (ℕ × ℕ)) → length (timestamp_bytes t) ≡ (if is_some t then 12 else 0)
length-timestamps none = refl
length-timestamps (some (a, b)) = refl

pub length-blocks : (bs : List (SeqNumber × SeqNumber)) → length (block_bytes bs) ≡ 8 * length bs
length-blocks [] = omega arith
length-blocks ((l, r) ∷ bs) = omega (arith, length-blocks bs)

length-sack :
    (b : Bool) (n : ℕ) (bs : List (SeqNumber × SeqNumber))
    → n ≤ length bs
    → length (sack_option b n bs) ≡ (if b then 4 + 8 * n else 0)
length-sack true n bs h = omega (arith, length-blocks (take n bs), length-take n bs)
length-sack false n bs h = refl

-- The options are as long as `header_len` says, behind the twenty fixed bytes.
pub length-options :
    (r : TcpRepr) → r.sack.len ≤ length r.sack.blocks → length (option_bytes r) + 20 ≡ header_len r
length-options r h =
    let n : ℕ = sack_blocks_to_emit r in
    let e : List ℕ = sack_bytes n r.sack.blocks in
    let d : List ℕ = timestamp_bytes r.timestamps ++ e in
    let c : List ℕ = scale_bytes r.window_scale ++ d in
    let b : List ℕ = permitted_bytes r.sack_permitted ++ c in
    omega (
      arith,
      length-append (mss_bytes r.mss) b,
      length-append (permitted_bytes r.sack_permitted) c,
      length-append (scale_bytes r.window_scale) d,
      length-append (timestamp_bytes r.timestamps) e,
      length-mss r.mss,
      length-permitted r.sack_permitted,
      length-scale r.window_scale,
      length-timestamps r.timestamps,
      length-sack (ltb 0 n) n r.sack.blocks (omega (arith, h)),
    )

-- SACK blocks go out on segments with no option of the handshake.
abbrev pub Exclusive : TcpRepr → Type 0
Exclusive r =
    (r.sack.len ≡ 0) ⊎ ((r.mss ≡ none) × (r.sack_permitted ≡ false) × (r.window_scale ≡ none))

-- SACK blocks on segments with no option of the handshake keep to the sixty bytes.
pub header_len-Exclusive : (r : TcpRepr) → r.sack.len ≤ 4 → Exclusive r → header_len r ≤ 60
header_len-Exclusive r h (inl z) = ground (arith, z)
header_len-Exclusive r h (inr y) = ground (arith, y.0, y.1, y.2, h)

-- The header and its options are a multiple of four, and exactly as many bytes as are written before
-- the payload.
pub header_len_bounds :
    (r : TcpRepr) (body : List ℕ) (csum : ℕ)
    → r.sack.len ≤ 4
    → length r.sack.blocks ≡ 4
    → header_len r ≤ 60
    → (header_len r ≤ 60)
      × (header_len r % 4 ≡ 0)
      × (length (segment r body csum) ≡ header_len r + length body)
header_len_bounds r body csum h l x = (
  x,
  ground arith,
  omega (arith, length-append (option_bytes r) body, length-options r (omega arith)),
)
