-- ===== src/Wire/Tcp/RoundTrip.antt =====
-- The segment that tcp-core/src/wire/tcp.rs emits, read back.
pub mod Options
mod Parts
use ferrumnet.Prelude.{
  ℕ, zero, suc, ◌+◌, ◌-◌, ◌*◌, ◌/◌, ◌%◌, ◌^◌, ◌≤◌, ◌<◌, ◌≡◌, ◌⊎◌, inl, inr, refl, sym, ap, ◌∙◌,
  arith, Bool, true, false, List, [], ◌∷◌, ◌++◌, append-nil, append_assoc, length, length-append,
  take, drop, take-append, drop-append, length-take, Option, none, some, min, u8, u16, u16_bytes,
  u32_bytes, ltb, leb, ◌==◌, is_some, if◌then◌else◌,
}
use ferrumnet.Seq.{SeqNumber}
use ferrumnet.Wire.Checksum.{
  ipproto_tcp, Ipv4Addr, tcp_checksum, tcp_checksum_valid, fold, accumulate, complement,
  pseudo_header,
}
use ferrumnet.Wire.Checksum.Sum.{
  Bytes, words, ones, fold-accumulate, ones-complement, ones-lt, accumulate-lt,
}
use ferrumnet.Wire.Tcp.{
  TcpPacket, Checked, valid, invalid, new_checked, options, payload, data_offset, src_port,
  dst_port, seq, ack, flags, window, ae,
}
use ferrumnet.Wire.Tcp.Emit.{
  TcpRepr, SackBlocks, header_len, sack_blocks_to_emit, option_bytes, mss_bytes, permitted_bytes,
  scale_bytes, timestamp_bytes, sack_option, sack_bytes, block_bytes, fixed, segment, emit, bit_of,
}
use ferrumnet.Wire.Tcp.Lengths.{length-options, header_len_bounds}

-- The fields have the widths of the source's.
pub record Fits (r : TcpRepr) : Type 0 where
  pub src_port_lt : r.src_port < 2 ^ 16
  pub dst_port_lt : r.dst_port < 2 ^ 16
  pub seq_lt : r.seq < 2 ^ 32
  pub ack_lt : r.ack < 2 ^ 32
  pub flags_lt : r.flags < 256
  pub window_lt : r.window < 2 ^ 16
  pub options_Bytes : Bytes (option_bytes r)
  pub len_le : r.sack.len ≤ 4
  pub blocks_len : length r.sack.blocks ≡ 4

-- With options that leave the header at the sixty bytes that its data offset can say, at most
pub record Emitted (r : TcpRepr) : Type 0 where
  pub src_port_lt : r.src_port < 2 ^ 16
  pub dst_port_lt : r.dst_port < 2 ^ 16
  pub seq_lt : r.seq < 2 ^ 32
  pub ack_lt : r.ack < 2 ^ 32
  pub flags_lt : r.flags < 256
  pub window_lt : r.window < 2 ^ 16
  pub options_Bytes : Bytes (option_bytes r)
  pub len_le : r.sack.len ≤ 4
  pub blocks_len : length r.sack.blocks ≡ 4
  pub options_fit : header_len r ≤ 60

pub Emitted-of : (r : TcpRepr) → Fits r → header_len r ≤ 60 → Emitted r
Emitted-of r v h = record {
  src_port_lt = v.src_port_lt;
  dst_port_lt = v.dst_port_lt;
  seq_lt = v.seq_lt;
  ack_lt = v.ack_lt;
  flags_lt = v.flags_lt;
  window_lt = v.window_lt;
  options_Bytes = v.options_Bytes;
  len_le = v.len_le;
  blocks_len = v.blocks_len;
  options_fit = h;
}

Bytes-append : (xs ys : List ℕ) → Bytes xs → Bytes ys → Bytes (xs ++ ys)
Bytes-append [] ys h k = k
Bytes-append (x ∷ xs) ys h k = (h.0, Bytes-append xs ys h.1 k)

-- The segment that `emit` writes.
abbrev pub sent : TcpRepr → Ipv4Addr → Ipv4Addr → List ℕ → List ℕ
sent r src dst body = segment r body (tcp_checksum src dst (segment r body 0))

-- The byte of the data offset and of the AE bit.
offset_byte :
    (hl : ℕ) (b : Bool)
    → hl ≤ 60
    → hl % 4 ≡ 0
    → 20 ≤ hl
    → ((u8 (u8 (hl / 4) * 16) + bit_of b) / 16 * 4 ≡ hl)
      × (u8 (u8 (hl / 4) * 16) + bit_of b < 256)
      × (80 ≤ u8 (u8 (hl / 4) * 16) + bit_of b)
      × ((u8 (u8 (hl / 4) * 16) + bit_of b) % 2 ≡ bit_of b)
offset_byte hl b h k l = ground arith

segment-Bytes :
    (r : TcpRepr) (body : List ℕ) (csum : ℕ)
    → Emitted r
    → Bytes body
    → csum < 2 ^ 16
    → Bytes (segment r body csum)
segment-Bytes r body csum v b c =
    let rest = Bytes-append (option_bytes r) body v.options_Bytes b in
    let hl = header_len_bounds r body csum v.len_le v.blocks_len v.options_fit in
    (
      omega arith,
      (
        omega arith,
        (
          omega arith,
          (
            omega arith,
            (
              omega arith,
              (
                omega arith,
                (
                  omega arith,
                  (
                    omega arith,
                    (
                      omega arith,
                      (
                        omega arith,
                        (
                          omega arith,
                          (
                            omega arith,
                            (
                              (offset_byte (header_len r) r.ae hl.0 hl.1 (omega arith)).1,
                              (
                                v.flags_lt,
                                (
                                  omega arith,
                                  (
                                    omega arith,
                                    (
                                      omega arith,
                                      (omega arith, (omega arith, (omega arith, rest))),
                                    ),
                                  ),
                                ),
                              ),
                            ),
                          ),
                        ),
                      ),
                    ),
                  ),
                ),
              ),
            ),
          ),
        ),
      ),
    )

words-segment :
    (r : TcpRepr) (body : List ℕ) (csum : ℕ)
    → words (segment r body csum) ≡ words (segment r body 0) + csum
unfolding words
words-segment r body csum = omega arith

-- The sum that the segment is checked by, as a sum of words behind that of the pseudo header.
sum_of : TcpRepr → Ipv4Addr → Ipv4Addr → List ℕ → ℕ
sum_of r src dst body =
    pseudo_header src dst ipproto_tcp (u16 (length (segment r body 0))) + words (segment r body 0)

pseudo_header-lt : (src dst : Ipv4Addr) (p l : ℕ) → pseudo_header src dst p l < 2 ^ 32
unfolding pseudo_header
pseudo_header-lt src dst p l = accumulate-lt _ _

length-segment :
    (r : TcpRepr) (body : List ℕ) (csum : ℕ)
    → length (segment r body csum) ≡ length (segment r body 0)
length-segment r body csum = refl

checksum-sent :
    (r : TcpRepr) (src dst : Ipv4Addr) (body : List ℕ)
    → Emitted r
    → Bytes body
    → length body < 2 ^ 16
    → tcp_checksum src dst (segment r body 0) ≡ complement (ones (sum_of r src dst body))
unfolding tcp_checksum sum_of
checksum-sent r src dst body v b l =
    let hl = header_len_bounds r body 0 v.len_le v.blocks_len v.options_fit in
    ap complement (
      fold-accumulate (pseudo_header src dst ipproto_tcp (u16 (length (segment r body 0))))
        (segment r body 0) (segment-Bytes r body 0 v b (omega arith))
        (pseudo_header-lt src dst ipproto_tcp (u16 (length (segment r body 0))))
        (omega (arith, hl.0, hl.2)))

sum_of-pos :
    (r : TcpRepr) (src dst : Ipv4Addr) (body : List ℕ) → Emitted r → 0 < sum_of r src dst body
unfolding sum_of words
sum_of-pos r src dst body v =
    let hl = header_len_bounds r body 0 v.len_le v.blocks_len v.options_fit in
    omega (arith, (offset_byte (header_len r) r.ae hl.0 hl.1 (omega arith)).2)

sum_with :
    (r : TcpRepr) (src dst : Ipv4Addr) (body : List ℕ) (c : ℕ)
    → pseudo_header src dst ipproto_tcp (u16 (length (segment r body 0))) + words (segment r body c)
      ≡ sum_of r src dst body + c
unfolding sum_of
sum_with r src dst body c = omega (arith, words-segment r body c)

sum-sent :
    (r : TcpRepr) (src dst : Ipv4Addr) (body : List ℕ)
    → Emitted r
    → Bytes body
    → length body < 2 ^ 16
    → tcp_checksum_valid src dst (sent r src dst body) ≡ true
unfolding tcp_checksum_valid
sum-sent r src dst body v b l =
    let hl = header_len_bounds r body 0 v.len_le v.blocks_len v.options_fit in
    let c : ℕ = tcp_checksum src dst (segment r body 0) in
    let total : ℕ = sum_of r src dst body in
    let small : c < 2 ^ 16 = omega (arith, checksum-sent r src dst body v b l) in
    let pseudo : ℕ = pseudo_header src dst ipproto_tcp (u16 (length (segment r body 0))) in
    let all : fold (accumulate pseudo (sent r src dst body)) ≡ 65_535 =
      fold-accumulate pseudo (sent r src dst body) (segment-Bytes r body c v b small)
        (pseudo_header-lt src dst ipproto_tcp (u16 (length (segment r body 0))))
        (omega (arith, hl.0, hl.2))
      ∙ ap ones (sum_with r src dst body c)
      ∙ ap (λ n. ones (total + n)) (checksum-sent r src dst body v b l)
      ∙ ones-complement total (sum_of-pos r src dst body v) in
    ground (arith, all)

-- The packet that the peer sees.
abbrev pub packet : TcpRepr → Ipv4Addr → Ipv4Addr → List ℕ → TcpPacket
packet r src dst body = record { buf = sent r src dst body }

data_offset-packet :
    (r : TcpRepr) (src dst : Ipv4Addr) (body : List ℕ)
    → Emitted r
    → data_offset (packet r src dst body) ≡ header_len r
data_offset-packet r src dst body v =
    let hl = header_len_bounds r body 0 v.len_le v.blocks_len v.options_fit in
    (offset_byte (header_len r) r.ae hl.0 hl.1 (omega arith)).0

pub options-packet :
    (r : TcpRepr) (src dst : Ipv4Addr) (body : List ℕ)
    → Emitted r
    → options (packet r src dst body) ≡ option_bytes r
options-packet r src dst body v =
    ap (λ n. take (n - 20) (option_bytes r ++ body)) (data_offset-packet r src dst body v)
    ∙ take-append (header_len r - 20) (option_bytes r) body
        (omega (arith, length-options r (omega (arith, v.len_le, v.blocks_len))))

payload-packet :
    (r : TcpRepr) (src dst : Ipv4Addr) (body : List ℕ)
    → Emitted r
    → payload (packet r src dst body) ≡ body
payload-packet r src dst body v =
    let c : ℕ = tcp_checksum src dst (segment r body 0) in
    ap (λ n. drop n (sent r src dst body)) (data_offset-packet r src dst body v)
    ∙ drop-append (header_len r) (fixed r c ++ option_bytes r) body
        (omega (arith, length-options r (omega (arith, v.len_le, v.blocks_len))))

new_checked-packet :
    (r : TcpRepr) (src dst : Ipv4Addr) (body : List ℕ)
    → Emitted r
    → new_checked (sent r src dst body) ≡ valid (packet r src dst body)
unfolding new_checked
new_checked-packet r src dst body v =
    let hl =
      header_len_bounds r body (tcp_checksum src dst (segment r body 0)) v.len_le v.blocks_len
        v.options_fit in
    ground (arith, data_offset-packet r src dst body v, hl)

-- With fields of their widths, options of at most forty bytes, and a payload below 2 ^ 16 bytes, `emit`
-- into a buffer with room writes a segment that `new_checked` accepts, whose checksum verifies, and
-- whose fields, flags and payload read back.
pub new_checked-sent :
    (r : TcpRepr) (src dst : Ipv4Addr) (body buf : List ℕ)
    → Fits r
    → header_len r ≤ 60
    → Bytes body
    → length body < 2 ^ 16
    → header_len r + length body ≤ length buf
    → (emit r src dst body buf
        ≡ some (
          header_len r + length body,
          sent r src dst body ++ drop (header_len r + length body) buf,
        ))
      × (new_checked (sent r src dst body) ≡ valid (packet r src dst body))
      × (tcp_checksum_valid src dst (sent r src dst body) ≡ true)
      × (payload (packet r src dst body) ≡ body)
      × (seq (packet r src dst body) ≡ r.seq)
      × (ack (packet r src dst body) ≡ r.ack)
      × (src_port (packet r src dst body) ≡ r.src_port)
      × (dst_port (packet r src dst body) ≡ r.dst_port)
      × (window (packet r src dst body) ≡ r.window)
      × (flags (packet r src dst body) ≡ r.flags)
      × (ae (packet r src dst body) ≡ r.ae)
new_checked-sent r src dst body buf fits h b l room =
    let v = Emitted-of r fits h in
    let hl = header_len_bounds r body 0 v.len_le v.blocks_len v.options_fit in
    (
      (unfold emit in ground arith),
      new_checked-packet r src dst body v,
      sum-sent r src dst body v b l,
      payload-packet r src dst body v,
      omega arith,
      omega arith,
      omega arith,
      omega arith,
      omega arith,
      refl,
      ground (arith, (offset_byte (header_len r) r.ae hl.0 hl.1 (omega arith)).3),
    )
