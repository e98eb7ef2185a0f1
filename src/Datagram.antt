-- ===== src/Datagram.antt =====
-- `Endpoint` and `build_segment` of tcp-core/src/iface.rs: a whole IPv4 and TCP datagram.
pub mod Received
mod Tests
use ferrumnet.Prelude.{
  ℕ, ◌+◌, ◌*◌, Bool, true, false, List, [], ◌∷◌, ◌++◌, length, take, drop, replicate, Option, some,
  none, u16, ◌==◌, ◌&&◌, if◌then◌else◌,
}
use ferrumnet.Seq.{SeqNumber}
use ferrumnet.Wire.Checksum.{Ipv4Addr, ipproto_tcp}
use ferrumnet.Wire.Ipv4
use ferrumnet.Wire.Ipv4.{Ipv4Repr, repr_len, ipv4_min_header_len, set_ecn, ecn_ect1}
use ferrumnet.Wire.Tcp.Emit
use ferrumnet.Wire.Tcp.Emit.{TcpRepr, header_len}

pub record Endpoint : Type 0 where
  pub ip : Ipv4Addr
  pub port : ℕ

-- `==` on endpoints
abbrev pub same_ip : Ipv4Addr → Ipv4Addr → Bool
same_ip x y = x.a == y.a && (x.b == y.b && (x.c == y.c && x.d == y.d))

abbrev pub same_endpoint : Endpoint → Endpoint → Bool
same_endpoint x y = same_ip x.ip y.ip && x.port == y.port

abbrev pub ip_repr : Endpoint → Endpoint → TcpRepr → List ℕ → Ipv4Repr
ip_repr local remote tcp body = record {
  src = local.ip;
  dst = remote.ip;
  protocol = ipproto_tcp;
  payload_len = u16 (header_len tcp + length body);
  ttl = 64;
  ecn = 0;
}

-- The first bytes of the buffer, and those that the second emitter left behind them.
abbrev pub joined : List ℕ → Option (ℕ × List ℕ) → Option (List ℕ)
joined head none = none
joined head (some (n, tail)) = some (head ++ tail)

-- The TCP part goes into the buffer behind the IPv4 header.
abbrev pub behind : Endpoint → Endpoint → TcpRepr → List ℕ → Option (ℕ × List ℕ) → Option (List ℕ)
behind local remote tcp body none = none
behind local remote tcp body (some (hlen, buf)) =
    joined (take ipv4_min_header_len buf)
      (Emit.emit tcp local.ip remote.ip body (drop ipv4_min_header_len buf))

-- `none` is a panic of one of the two emitters.
unfoldable pub build_segment : Endpoint → Endpoint → TcpRepr → List ℕ → Option (List ℕ)
build_segment local remote tcp body =
    let ip : Ipv4Repr = ip_repr local remote tcp body in
    behind local remote tcp body (Ipv4.emit ip (replicate (repr_len ip) 0))

-- A datagram that the stack sends, before its bytes are laid out: `marked` is set where `Tcb::build`
-- marks the datagram ECT(1).
pub record Frame : Type 0 where
  pub local : Endpoint
  pub remote : Endpoint
  pub repr : TcpRepr
  pub body : List ℕ
  pub marked : Bool

abbrev pub mark : Bool → Option (List ℕ) → Option (List ℕ)
mark marked none = none
mark marked (some buf) = some (if marked then set_ecn buf ecn_ect1 else buf)

unfoldable pub frame_bytes : Frame → Option (List ℕ)
frame_bytes f = mark f.marked (build_segment f.local f.remote f.repr f.body)
