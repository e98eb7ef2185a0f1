-- ===== src/Iface/Demux.antt =====
-- What a datagram does to the stack of tcp-core/src/iface.rs.
use ferrumnet.Prelude.{
  ℕ, ◌≡◌, ◌⊎◌, inl, inr, refl, arith, Bool, true, false, not, ◌||◌, List, Option, some, none,
  Bool-cases, ◌==◌,
}
use ferrumnet.Time.{Instant}
use ferrumnet.Wire.Checksum.{ipproto_tcp, tcp_checksum_valid}
use ferrumnet.Wire.Ipv4
use ferrumnet.Wire.Ipv4.{Ipv4Packet, protocol, ecn, ecn_ce}
use ferrumnet.Wire.Tcp.{
  TcpPacket, valid, invalid, new_checked, src_port, dst_port, segment_checksum, ParseError,
}
use ferrumnet.Congestion.{CongestionControl}
use ferrumnet.Datagram.{Endpoint, same_endpoint, same_ip}
use ferrumnet.Tcb.{Tcb}
use ferrumnet.Tcb.Segment.{on_segment}
use ferrumnet.Iface.{Stack, find, put, on_recv, on_tcp, demux, on_known, on_stranger, open_passive}
use ferrumnet.Iface.Table.{find-put_other}

-- The segment of a datagram, and the endpoint it came from.
abbrev pub segment_of : Ipv4Packet → TcpPacket
segment_of ip = record { buf = Ipv4.payload ip }

abbrev pub sender : Ipv4Packet → Endpoint
sender ip = record { ip = Ipv4.src ip; port = src_port (segment_of ip) }

abbrev pub IsBroken : Ipv4Packet → Type 0
IsBroken ip =
    (segment_checksum (segment_of ip) == 0 ≡ false)
    × (tcp_checksum_valid (Ipv4.src ip) (Ipv4.dst ip) (Ipv4.payload ip) ≡ false)

-- Not for us, no segment, or damaged.
abbrev pub IsRefused : {C : Type 0} → Stack C → Ipv4Packet → Type 0
IsRefused s ip =
    (protocol ip == ipproto_tcp ≡ false)
    ⊎ ((same_ip (Ipv4.dst ip) s.local.ip ≡ false)
        ⊎ (((e : ParseError) × (new_checked (Ipv4.payload ip) ≡ invalid e)) ⊎ IsBroken ip))

pub record Delivered {C : Type 0} (s : Stack C) (ip : Ipv4Packet) : Type 0 where
  pub tcp_protocol : protocol ip == ipproto_tcp ≡ true
  pub our_address : same_ip (Ipv4.dst ip) s.local.ip ≡ true
  pub parsed : new_checked (Ipv4.payload ip) ≡ valid (segment_of ip)
  pub intact :
      (segment_checksum (segment_of ip) == 0 ≡ true)
      ⊎ (tcp_checksum_valid (Ipv4.src ip) (Ipv4.dst ip) (Ipv4.payload ip) ≡ true)

new_checked_same :
    (buf : List ℕ)
    → ((e : ParseError) × (new_checked buf ≡ invalid e))
      ⊎ (new_checked buf ≡ valid (record { buf = buf }))
unfolding new_checked
new_checked_same buf = ground arith

module _ {C : Type 0} (ops : CongestionControl C) where
  on_tcp_broken :
      (s : Stack C) (now : Instant) (ip : Ipv4Packet)
      → IsBroken ip
      → on_tcp ops s now ip (new_checked (Ipv4.payload ip)) ≡ s
  unfolding on_tcp
  on_tcp_broken s now ip h = elim (new_checked_same (Ipv4.payload ip)) [
    | inl (e, q) ↦ rw q refl
    | inr q ↦ rw (q, h.0, h.1) refl
  ]

  on_tcp_invalid :
      (s : Stack C) (now : Instant) (ip : Ipv4Packet) (e : ParseError)
      → new_checked (Ipv4.payload ip) ≡ invalid e
      → on_tcp ops s now ip (new_checked (Ipv4.payload ip)) ≡ s
  unfolding on_tcp
  on_tcp_invalid s now ip e h = rw h refl

  on_recv-on_tcp :
      (s : Stack C) (now : Instant) (ip : Ipv4Packet)
      → on_tcp ops s now ip (new_checked (Ipv4.payload ip)) ≡ s
      → on_recv ops s now ip ≡ s
  unfolding on_recv
  on_recv-on_tcp s now ip h =
      elim (Bool-cases
        (not (protocol ip == ipproto_tcp) || not (same_ip (Ipv4.dst ip) s.local.ip))) [
          | inl e ↦ rw e refl
          | inr e ↦ rw e h
        ]

  -- A datagram of another protocol or for another address, one whose segment does not parse, and
  -- one with a checksum that is not zero and does not verify change nothing in the stack.
  pub on_recv_refused :
      (s : Stack C) (now : Instant) (ip : Ipv4Packet) → IsRefused s ip → on_recv ops s now ip ≡ s
  unfolding on_recv
  on_recv_refused s now ip (inl h) = rw h refl
  on_recv_refused s now ip (inr (inl h)) = elim (Bool-cases (protocol ip == ipproto_tcp)) [
    | inl e ↦ rw (e, h) refl
    | inr e ↦ rw e refl
  ]
  on_recv_refused s now ip (inr (inr (inl (e, h)))) =
      on_recv-on_tcp s now ip (on_tcp_invalid s now ip e h)
  on_recv_refused s now ip (inr (inr (inr h))) = on_recv-on_tcp s now ip (on_tcp_broken s now ip h)

  module _ (s : Stack C) (remote : Endpoint) (tcp : TcpPacket) (now : Instant) (k : Endpoint)
      (h : same_endpoint remote k ≡ false) where
    kept : (v : Tcb C) → find k (put remote v s.conns) ≡ find k s.conns
    kept v = find-put_other remote k v s.conns h

    others-open : find k (open_passive ops s remote tcp now).conns ≡ find k s.conns
    unfolding open_passive
    others-open = kept _

    others-stranger : find k (on_stranger ops s remote tcp now).conns ≡ find k s.conns
    unfolding on_stranger
    others-stranger = ground (arith, others-open)

    others-known :
        (t : Tcb C) (ce : Bool) → find k (on_known ops s remote t tcp ce now).conns ≡ find k s.conns
    unfolding on_known
    others-known t ce = elim (Bool-cases (dst_port tcp == t.local.port)) [
      | inl e ↦ rw e (kept (on_segment ops t now tcp ce))
      | inr e ↦ rw e refl
    ]

    others-demux :
        (o : Option (Tcb C)) (ce : Bool)
        → find k (demux ops s remote o tcp ce now).conns ≡ find k s.conns
    unfolding demux
    others-demux none ce = others-stranger
    others-demux (some t) ce = others-known t ce

  others-on_tcp :
      (s : Stack C) (now : Instant) (ip : Ipv4Packet) (k : Endpoint)
      → same_endpoint (sender ip) k ≡ false
      → find k (on_tcp ops s now ip (new_checked (Ipv4.payload ip))).conns ≡ find k s.conns
  unfolding on_tcp
  others-on_tcp s now ip k h = elim (new_checked_same (Ipv4.payload ip)) [
    | inl (e, q) ↦ rw q refl
    | inr q ↦
        let d =
          others-demux s (sender ip) (segment_of ip) now k h (find (sender ip) s.conns)
            (ecn ip == ecn_ce) in
        rw q (ground (arith, d))
  ]

  -- Whatever a datagram holds, it leaves every connection but that of its sender as it was.
  pub on_recv_others :
      (s : Stack C) (now : Instant) (ip : Ipv4Packet) (k : Endpoint)
      → same_endpoint (sender ip) k ≡ false
      → find k (on_recv ops s now ip).conns ≡ find k s.conns
  unfolding on_recv
  on_recv_others s now ip k h = ground (arith, others-on_tcp s now ip k h)

  -- An intact segment for us, of a connection and to its port, is processed by that connection and
  -- leaves all else of the stack but its table as it was: nothing is queued and no port is taken.
  pub on_recv_known :
      (s : Stack C) (now : Instant) (ip : Ipv4Packet) (t : Tcb C)
      → Delivered s ip
      → find (sender ip) s.conns ≡ some t
      → dst_port (segment_of ip) == t.local.port ≡ true
      → on_recv ops s now ip ≡ record s {
        conns = put (sender ip) (on_segment ops t now (segment_of ip) (ecn ip == ecn_ce)) s.conns;
      }
  unfolding on_recv on_tcp demux on_known
  on_recv_known s now ip t d f p = elim d.intact [
    | inl e ↦ rw (d.tcp_protocol, d.our_address, d.parsed, e, f, p) refl
    | inr e ↦ elim (Bool-cases (segment_checksum (segment_of ip) == 0)) [
      | inl z ↦ rw (d.tcp_protocol, d.our_address, d.parsed, z, f, p) refl
      | inr z ↦ rw (d.tcp_protocol, d.our_address, d.parsed, z, e, f, p) refl
    ]
  ]
