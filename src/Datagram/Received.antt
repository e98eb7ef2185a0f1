-- ===== src/Datagram/Received.antt =====
-- The datagrams of `build_segment`, tcp-core/src/iface.rs, as the peer's parsers see them.
use ferrumnet.Prelude.{
  ℕ, zero, suc, ◌+◌, ◌^◌, ◌<◌, ◌≤◌, ◌≡◌, sym, ap, ◌∙◌, arith, true, List, ◌++◌, append-nil, length,
  drop, take-append, drop-append, drop-replicate, length-replicate, replicate, some,
}
use ferrumnet.Wire.Checksum.{octets, ipproto_tcp, tcp_checksum_valid}
use ferrumnet.Wire.Checksum.Sum.{Bytes}
use ferrumnet.Wire.Ipv4
use ferrumnet.Wire.Ipv4.{Ipv4Packet, Ipv4Repr, ok, repr_len}
use ferrumnet.Wire.Ipv4.Emit as Ipv4Emit
use ferrumnet.Wire.Ipv4.Emit.{datagram, new_checked-emit, Fits}
use ferrumnet.Wire.Tcp
use ferrumnet.Wire.Tcp.{valid}
use ferrumnet.Wire.Tcp.Emit as TcpEmit
use ferrumnet.Wire.Tcp.Emit.{TcpRepr, header_len}
use ferrumnet.Wire.Tcp.RoundTrip
use ferrumnet.Wire.Tcp.Lengths.{header_len_bounds}
use ferrumnet.Wire.Tcp.RoundTrip.{sent, packet}
use ferrumnet.Datagram.{Endpoint, ip_repr, joined, behind, build_segment}

-- The bytes of a datagram.
abbrev pub datagram_of : Endpoint → Endpoint → TcpRepr → List ℕ → Ipv4Packet
datagram_of local remote tcp body =
    datagram (ip_repr local remote tcp body) (replicate 20 0 ++ sent tcp local.ip remote.ip body)

abbrev blank : ℕ → List ℕ
blank n = replicate n 0

drop-blank : (k n m : ℕ) → m ≡ k + n → drop k (blank m) ≡ blank n
drop-blank zero n m e = ap blank (omega (arith, e))
drop-blank (suc k) n zero e = absurd (omega (arith, e))
drop-blank (suc k) n (suc m) e = drop-blank k n m (omega (arith, e))

-- What `emit` of the segment leaves of a buffer of its length.
emit-exact :
    (r : TcpRepr) (local remote : Endpoint) (body : List ℕ)
    → RoundTrip.Fits r
    → header_len r ≤ 60
    → Bytes body
    → length body < 2 ^ 16
    → TcpEmit.emit r local.ip remote.ip body (replicate (header_len r + length body) 0)
      ≡ some (header_len r + length body, sent r local.ip remote.ip body)
emit-exact r local remote body v h b l =
    let n : ℕ = header_len r + length body in
    (RoundTrip.new_checked-sent r local.ip remote.ip body (replicate n 0) v h b l
      (omega (arith, length-replicate {A = ℕ} n 0))).0
    ∙ ap (λ rest. some (n, sent r local.ip remote.ip body ++ rest)) (drop-replicate {A = ℕ} n 0)
    ∙ ap (λ bytes. some (n, bytes)) (append-nil (sent r local.ip remote.ip body))

-- What `behind` makes of the buffer after the IPv4 header.
behind-emit :
    (local remote : Endpoint) (r : TcpRepr) (body head zeros : List ℕ)
    → length head ≡ 20
    → TcpEmit.emit r local.ip remote.ip body zeros
      ≡ some (header_len r + length body, sent r local.ip remote.ip body)
    → behind local remote r body (some (20, head ++ zeros))
      ≡ some (head ++ sent r local.ip remote.ip body)
behind-emit local remote r body head zeros h e =
    ap (λ b. joined b (TcpEmit.emit r local.ip remote.ip body (drop 20 (head ++ zeros))))
      (take-append 20 head zeros (sym h))
    ∙ ap (λ b. joined head (TcpEmit.emit r local.ip remote.ip body b))
        (drop-append 20 head zeros (sym h))
    ∙ ap (joined head) e

-- A segment with fields of their widths, options of at most forty bytes, and a payload that leaves
-- the datagram below 65536 bytes is sent as one datagram that the peer's parsers accept at both
-- layers: its two checksums verify, its addresses are those of the endpoints, its protocol is TCP,
-- and its segment and payload are those that were sent.
pub build_segment_received :
    (local remote : Endpoint) (r : TcpRepr) (body : List ℕ)
    → RoundTrip.Fits r
    → header_len r ≤ 60
    → Bytes body
    → Bytes (octets local.ip ++ octets remote.ip)
    → header_len r + length body < 65_516
    → (build_segment local remote r body ≡ some (datagram_of local remote r body).buf)
      × (Ipv4.new_checked (datagram_of local remote r body).buf
          ≡ ok (datagram_of local remote r body))
      × (Ipv4.checksum_valid (datagram_of local remote r body) ≡ true)
      × (Ipv4.src (datagram_of local remote r body) ≡ local.ip)
      × (Ipv4.dst (datagram_of local remote r body) ≡ remote.ip)
      × (Ipv4.protocol (datagram_of local remote r body) ≡ ipproto_tcp)
      × (Tcp.new_checked (Ipv4.payload (datagram_of local remote r body))
          ≡ valid (packet r local.ip remote.ip body))
      × (tcp_checksum_valid local.ip remote.ip (Ipv4.payload (datagram_of local remote r body))
          ≡ true)
      × (Tcp.payload (packet r local.ip remote.ip body) ≡ body)
unfolding build_segment
build_segment_received local remote r body v h b w l =
    let ip : Ipv4Repr = ip_repr local remote r body in
    let hl = header_len_bounds r body 0 v.len_le v.blocks_len h in
    let tcp =
      RoundTrip.new_checked-sent r local.ip remote.ip body
        (replicate (header_len r + length body) 0) v h b (omega arith)
        (omega (arith, length-replicate {A = ℕ} (header_len r + length body) 0)) in
    let fits : Fits ip = ((omega arith, (omega arith, w)), omega arith, omega arith) in
    let n : ℕ = header_len r + length body in
    let zeros : drop 20 (blank (repr_len ip)) ≡ blank n =
      drop-blank 20 n (repr_len ip) (omega arith) in
    let header_done =
      new_checked-emit ip (blank (repr_len ip)) fits (length-replicate {A = ℕ} (repr_len ip) 0) in
    let outer =
      new_checked-emit ip (replicate 20 0 ++ sent r local.ip remote.ip body) fits
        (omega (arith, hl.2)) in
    (
      ap (behind local remote r body) header_done.0
          ∙ ap (λ rest. behind local remote r body (some (20, Ipv4Emit.sent ip ++ rest))) zeros
          ∙ behind-emit local remote r body (Ipv4Emit.sent ip) (blank n) (omega arith)
              (emit-exact r local remote body v h b (omega arith)),
      outer.1,
      outer.2,
      outer.4,
      outer.5,
      outer.6,
      ap Tcp.new_checked outer.3 ∙ tcp.1,
      ap (λ bytes. tcp_checksum_valid local.ip remote.ip bytes) outer.3 ∙ tcp.2,
      tcp.3,
    )
