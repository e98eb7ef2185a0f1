-- ===== src/Iface.antt =====
-- `Stack` of tcp-core/src/iface.rs: the demultiplexing of datagrams to connections. The hash map is
-- the list of its entries; what it does does not depend on their order but for the order of sends.
pub mod Table
pub mod Demux
pub mod Ports
mod Drain
mod Tests
use ferrumnet.Prelude.{
  ℕ, zero, suc, ◌+◌, Bool, true, false, not, ◌&&◌, ◌||◌, List, [], ◌∷◌, ◌++◌, length, Option, some,
  none, u32, ◌==◌, if◌then◌else◌,
}
use ferrumnet.Seq.{SeqNumber, add}
use ferrumnet.Time.{Instant}
use ferrumnet.Wire.Checksum.{Ipv4Addr, ipproto_tcp, tcp_checksum_valid}
use ferrumnet.Wire.Ipv4
use ferrumnet.Wire.Ipv4.{Ipv4Packet, protocol, ecn, ecn_ce}
use ferrumnet.Wire.Tcp
use ferrumnet.Wire.Tcp.{
  TcpPacket, Checked, valid, invalid, flag_rst, flag_ack, new_checked, flags, syn, rst, fin,
  ack_bit, src_port, dst_port, segment_checksum,
}
use ferrumnet.Wire.Tcp.Emit.{TcpRepr, no_blocks, bit_of}
use ferrumnet.Isn
use ferrumnet.Isn.{IsnGenerator, generate}
use ferrumnet.State.{State, closed, same_state}
use ferrumnet.Congestion.{CcKind, reno, CongestionControl}
use ferrumnet.Datagram.{Endpoint, same_ip, same_endpoint, Frame}
use ferrumnet.Tcb.{Tcb, new_syn_sent, set_congestion_control}
use ferrumnet.Tcb.Timers
use ferrumnet.Tcb.Timers.{earlier}
use ferrumnet.Tcb.Open.{new_syn_received}
use ferrumnet.Tcb.Segment.{on_segment}

abbrev pub ephemeral_min : ℕ
ephemeral_min = 49_152

abbrev pub ephemeral_max : ℕ
ephemeral_max = 65_535

-- The reset for a segment of no connection.
unfoldable pub connectionless_reset : Endpoint → Endpoint → TcpPacket → Frame
connectionless_reset local remote tcp =
    let seg_len =
      u32 (length (Tcp.payload tcp)) + bit_of (syn (flags tcp)) + bit_of (fin (flags tcp)) in
    let acks = ack_bit (flags tcp) in
    record {
      local = local;
      remote = remote;
      repr = record {
        src_port = local.port;
        dst_port = remote.port;
        seq = if acks then Tcp.ack tcp else 0;
        ack = if acks then 0 else add (Tcp.seq tcp) seg_len;
        flags = if acks then flag_rst else flag_rst + flag_ack;
        window = 0;
        mss = none;
        sack_permitted = false;
        sack = no_blocks;
        window_scale = none;
        timestamps = none;
        ae = false;
      };
      body = [];
      marked = false;
    }

-- `HashMap<Endpoint, Tcb>`: `get` and `insert`.
module _ {V : Type 0} where
  unfoldable pub find : Endpoint → List (Endpoint × V) → Option V
  find key [] = none
  find key ((k, v) ∷ rest) =
      let next = find key rest in if same_endpoint k key then some v else next

  unfoldable pub put : Endpoint → V → List (Endpoint × V) → List (Endpoint × V)
  put key value [] = (key, value) ∷ []
  put key value ((k, v) ∷ rest) =
      let next = put key value rest in
      if same_endpoint k key then (k, value) ∷ rest else (k, v) ∷ next

pub record Stack (C : Type 0) : Type 0 where
  pub local : Endpoint
  pub isn : IsnGenerator
  pub conns : List (Endpoint × Tcb C)
  pub pending : List Frame
  pub mss_advertise : ℕ
  pub ephemeral_next : ℕ
  pub cc_kind : CcKind

abbrev pub next_cursor : ℕ → ℕ
next_cursor p = if p == ephemeral_max then ephemeral_min else p + 1

-- The loop of `next_ephemeral_port` on fuel, with the cursor: two rounds are enough.
unfoldable pub port_from : ℕ → ℕ → ℕ → ℕ × ℕ
port_from zero listen_port cursor = (cursor, next_cursor cursor)
port_from (suc fuel) listen_port cursor =
    let rest = port_from fuel listen_port (next_cursor cursor) in
    if not (cursor == listen_port) then (cursor, next_cursor cursor) else rest

module _ {C : Type 0} where
  unfoldable pub next_ephemeral_port : Stack C → ℕ × Stack C
  unfolding port_from
  next_ephemeral_port s =
      let found = port_from 2 s.local.port s.ephemeral_next in
      (found.0, record s { ephemeral_next = found.1 })

  unfoldable pub set_cc_kind : Stack C → CcKind → Stack C
  set_cc_kind s kind = record s { cc_kind = kind }

  abbrev pub connection_count : Stack C → ℕ
  connection_count s = length s.conns

  abbrev pub connection : Stack C → Endpoint → Option (Tcb C)
  connection s remote = find remote s.conns

  abbrev pub earliest_of : List (Endpoint × Tcb C) → Option Instant
  earliest_of [] = none
  earliest_of ((k, t) ∷ rest) = earlier (Timers.poll_at t) (earliest_of rest)

  unfoldable pub poll_at : Stack C → Option Instant
  poll_at s = earliest_of s.conns

module _ {C : Type 0} (ops : CongestionControl C) where
  unfoldable pub new : Endpoint → List ℕ → ℕ → Stack C
  new local isn_secret mss_advertise = record {
    local = local;
    isn = Isn.new isn_secret;
    conns = [];
    pending = [];
    mss_advertise = mss_advertise;
    ephemeral_next = ephemeral_min;
    cc_kind = reno;
  }

  unfoldable pub connect : Stack C → Endpoint → Instant → Endpoint × Stack C
  unfolding next_ephemeral_port
  connect s remote now =
      let picked = next_ephemeral_port s in
      let local : Endpoint = record { ip = s.local.ip; port = picked.0 } in
      let iss = generate s.isn local.ip picked.0 remote.ip remote.port now.micros in
      let tcb = new_syn_sent ops local remote iss now s.mss_advertise in
      (
        remote,
        record picked.1 { conns = put remote (set_congestion_control ops tcb s.cc_kind) s.conns },
      )

  -- A SYN to the listening port.
  unfoldable pub open_passive : Stack C → Endpoint → TcpPacket → Instant → Stack C
  open_passive s remote tcp now =
      let iss = generate s.isn s.local.ip s.local.port remote.ip remote.port now.micros in
      let tcb = new_syn_received ops s.local remote tcp iss now s.mss_advertise in
      record s { conns = put remote (set_congestion_control ops tcb s.cc_kind) s.conns }

  -- A segment of no connection.
  unfoldable pub on_stranger : Stack C → Endpoint → TcpPacket → Instant → Stack C
  unfolding open_passive connectionless_reset
  on_stranger s remote tcp now =
      if not (dst_port tcp == s.local.port)
      then s
      else if syn (flags tcp) && (not (ack_bit (flags tcp)) && not (rst (flags tcp)))
      then open_passive s remote tcp now
      else if not (rst (flags tcp))
      then record s { pending = s.pending ++ (connectionless_reset s.local remote tcp ∷ []) }
      else s

  -- A segment of the connection `t`, which must be addressed to its port.
  unfoldable pub on_known : Stack C → Endpoint → Tcb C → TcpPacket → Bool → Instant → Stack C
  on_known s remote t tcp ce now =
      if dst_port tcp == t.local.port
      then record s { conns = put remote (on_segment ops t now tcp ce) s.conns }
      else s

  unfoldable pub demux : Stack C → Endpoint → Option (Tcb C) → TcpPacket → Bool → Instant → Stack C
  unfolding on_known on_stranger
  demux s remote (some t) tcp ce now = on_known s remote t tcp ce now
  demux s remote none tcp ce now = on_stranger s remote tcp now

  unfoldable pub on_tcp : Stack C → Instant → Ipv4Packet → Checked → Stack C
  unfolding demux
  on_tcp s now ip (invalid e) = s
  on_tcp s now ip (valid tcp) =
      let remote : Endpoint = record { ip = Ipv4.src ip; port = src_port tcp } in
      if not (segment_checksum tcp == 0)
        && not (tcp_checksum_valid (Ipv4.src ip) (Ipv4.dst ip) tcp.buf)
      then s
      else demux s remote (find remote s.conns) tcp (ecn ip == ecn_ce) now

  unfoldable pub on_recv : Stack C → Instant → Ipv4Packet → Stack C
  unfolding on_tcp
  on_recv s now ip =
      if not (protocol ip == ipproto_tcp) || not (same_ip (Ipv4.dst ip) s.local.ip)
      then s
      else on_tcp s now ip (new_checked (Ipv4.payload ip))

  abbrev pub fire_all : List (Endpoint × Tcb C) → Instant → List (Endpoint × Tcb C)
  fire_all [] now = []
  fire_all ((k, t) ∷ rest) now = (k, Timers.on_timer ops t now) ∷ fire_all rest now

  unfoldable pub on_timer : Stack C → Instant → Stack C
  on_timer s now = record s { conns = fire_all s.conns now }
