-- ===== src/Datagram/Tests.antt =====
-- A datagram of tcp-core/src/iface.rs on concrete bytes.
use ferrumnet.Prelude.{ℕ, ◌≡◌, refl, arith, true, false, List, [], ◌∷◌, none, some}
use ferrumnet.Wire.Checksum.{ipproto_tcp, tcp_checksum_valid}
use ferrumnet.Wire.Ipv4
use ferrumnet.Wire.Ipv4.{ok}
use ferrumnet.Wire.Tcp
use ferrumnet.Wire.Tcp.{valid}
use ferrumnet.Wire.Tcp.Emit.{TcpRepr, no_blocks}
use ferrumnet.Wire.Tcp.RoundTrip.{Fits, packet}
use ferrumnet.Datagram.{Endpoint, build_segment}
use ferrumnet.Datagram.Received.{datagram_of, build_segment_received}

abbrev near : Endpoint
near = record { ip = record { a = 10; b = 0; c = 0; d = 1 }; port = 80 }

abbrev far : Endpoint
far = record { ip = record { a = 10; b = 0; c = 0; d = 2 }; port = 4_000 }

abbrev data_segment : TcpRepr
data_segment = record {
  src_port = 80;
  dst_port = 4_000;
  seq = 1_000;
  ack = 7;
  flags = 24;
  window = 1_024;
  mss = none;
  sack_permitted = false;
  sack = no_blocks;
  window_scale = none;
  timestamps = some (5, 6);
  ae = false;
}

data_segment-Fits : Fits data_segment
data_segment-Fits = record {
  src_port_lt = omega arith;
  dst_port_lt = omega arith;
  seq_lt = omega arith;
  ack_lt = omega arith;
  flags_lt = omega arith;
  window_lt = omega arith;
  options_Bytes = ground arith;
  len_le = omega arith;
  blocks_len = refl;
}

abbrev two : List ℕ
two = 104 ∷ (105 ∷ [])

build_segment_received_example :
    (build_segment near far data_segment two ≡ some (datagram_of near far data_segment two).buf)
    × (Ipv4.new_checked (datagram_of near far data_segment two).buf
        ≡ ok (datagram_of near far data_segment two))
    × (Ipv4.checksum_valid (datagram_of near far data_segment two) ≡ true)
    × (Ipv4.src (datagram_of near far data_segment two) ≡ near.ip)
    × (Ipv4.dst (datagram_of near far data_segment two) ≡ far.ip)
    × (Ipv4.protocol (datagram_of near far data_segment two) ≡ ipproto_tcp)
    × (Tcp.new_checked (Ipv4.payload (datagram_of near far data_segment two))
        ≡ valid (packet data_segment near.ip far.ip two))
    × (tcp_checksum_valid near.ip far.ip (Ipv4.payload (datagram_of near far data_segment two))
        ≡ true)
    × (Tcp.payload (packet data_segment near.ip far.ip two) ≡ two)
build_segment_received_example =
    build_segment_received near far data_segment two data_segment-Fits (omega arith) (ground arith)
      (ground arith) (omega arith)
