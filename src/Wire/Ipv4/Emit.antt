-- ===== src/Wire/Ipv4/Emit.antt =====
-- The header of tcp-core/src/wire/ipv4.rs, emitted and read back.
use ferrumnet.Prelude.{
  ℕ, ◌+◌, ◌-◌, ◌*◌, ◌/◌, ◌%◌, ◌≤◌, ◌<◌, ◌≡◌, refl, ◌∙◌, ap, arith, true, false, List, ◌∷◌, ◌++◌,
  length, drop, some, take_all, length-drop, u16,
}
use ferrumnet.Wire.Checksum.{octets, checksum, complement, accumulate, fold}
use ferrumnet.Wire.Checksum.Sum.{Bytes, words, ones, fold-accumulate_zero, ones-complement}
use ferrumnet.Wire.Ipv4.{
  Ipv4Repr, Ipv4Packet, ok, header, emit, new_checked, checksum_valid, payload, protocol, ttl, ecn,
  total_len, header_len, version, is_fragment, src, dst, repr_len,
}

-- The fields have the widths of the source's, and the datagram fits its length field.
abbrev pub Fits : Ipv4Repr → Type 0
Fits r =
    Bytes (r.ttl ∷ (r.protocol ∷ (octets r.src ++ octets r.dst)))
    × (r.ecn < 4)
    × (repr_len r < 65_536)

abbrev pub sent : Ipv4Repr → List ℕ
sent r = header r (checksum (header r 0))

header-Bytes : (r : Ipv4Repr) → Fits r → (c : ℕ) → c < 65_536 → Bytes (header r c)
header-Bytes r w c h = ground arith

words-header : (r : Ipv4Repr) (c : ℕ) → words (header r c) ≡ words (header r 0) + c
unfolding words
words-header r c = omega arith

checksum-header :
    (r : Ipv4Repr) → Fits r → checksum (header r 0) ≡ complement (ones (words (header r 0)))
checksum-header r w =
    unfold checksum in
    ap complement
      (fold-accumulate_zero (header r 0) (header-Bytes r w 0 (omega arith)) (omega arith))

-- The sum of a sent header verifies.
sum-sent : (r : Ipv4Repr) → Fits r → fold (accumulate 0 (sent r)) ≡ 65_535
sum-sent r w =
    let c : ℕ = checksum (header r 0) in
    let small : c < 65_536 = omega (arith, checksum-header r w) in
    let nonzero : 0 < words (header r 0) = unfold words in omega arith in
    fold-accumulate_zero (sent r) (header-Bytes r w c small) (omega arith)
    ∙ ap ones (words-header r c ∙ ap (λ n. words (header r 0) + n) (checksum-header r w))
    ∙ ones-complement (words (header r 0)) nonzero

new_checked_ok :
    (buf : List ℕ)
    → 20 ≤ length buf
    → version (record { buf = buf }) ≡ 4
    → header_len (record { buf = buf }) ≡ 20
    → total_len (record { buf = buf }) ≤ length buf
    → 20 ≤ total_len (record { buf = buf })
    → is_fragment (record { buf = buf }) ≡ false
    → new_checked buf ≡ ok (record { buf = buf })
unfolding new_checked
new_checked_ok buf a b c d e f = ground arith

-- The datagram in the buffer after `emit` wrote its header.
abbrev pub datagram : Ipv4Repr → List ℕ → Ipv4Packet
datagram r buf = record { buf = sent r ++ drop 20 buf }

-- On a buffer of the length of the datagram, `emit` writes a header that `new_checked` accepts,
-- whose checksum verifies, and that reads back the fields and the payload behind it.
pub new_checked-emit :
    (r : Ipv4Repr) (buf : List ℕ)
    → Fits r
    → length buf ≡ repr_len r
    → (emit r buf ≡ some (20, (datagram r buf).buf))
      × (new_checked (datagram r buf).buf ≡ ok (datagram r buf))
      × (checksum_valid (datagram r buf) ≡ true)
      × (payload (datagram r buf) ≡ drop 20 buf)
      × (src (datagram r buf) ≡ r.src)
      × (dst (datagram r buf) ≡ r.dst)
      × (protocol (datagram r buf) ≡ r.protocol)
      × (ttl (datagram r buf) ≡ r.ttl)
      × (ecn (datagram r buf) ≡ r.ecn)
new_checked-emit r buf w l =
    let rest : length (drop 20 buf) ≡ r.payload_len = omega (arith, length-drop 20 buf) in
    (
      (unfold emit in ground arith),
      new_checked_ok (sent r ++ drop 20 buf) (omega arith) refl refl (omega arith) (omega arith)
          refl,
      (unfold checksum_valid in ground (arith, sum-sent r w)),
      take_all (u16 (repr_len r) / 256 * 256 + u16 (repr_len r) % 256 - 20) (drop 20 buf)
          (omega arith),
      refl,
      refl,
      refl,
      refl,
      omega arith,
    )
