-- ===== src/Iface/Tests.antt =====
-- The stack of tcp-core/src/iface.rs on concrete datagrams.
use ferrumnet.Prelude.{◌≢◌, ◌≡◌, inr, refl, arith, [], ◌∷◌}
use ferrumnet.Wire.Checksum.{
  tcp_checksum_valid, pseudo_header, fold, accumulate, fold_u32, fold_u64, sum_octets, sum_pairs,
}
use ferrumnet.Wire.Ipv4.{Ipv4Packet}
use ferrumnet.Congestion.{reno}
use ferrumnet.Congestion.Reno.{Reno}
use ferrumnet.Datagram.{Endpoint}
use ferrumnet.Tcb.Tests.{ops, address, now, receiving}
use ferrumnet.Iface.{Stack, find, port_from, next_ephemeral_port, on_recv}
use ferrumnet.Iface.Ports.{IsEphemeral, next_ephemeral_port_fresh}
use ferrumnet.Iface.Demux.{on_recv_refused, on_recv_others}

abbrev peer : Endpoint
peer = record { ip = record { a = 10; b = 0; c = 0; d = 2 }; port = 4_000 }

-- The listening port is the last of the ephemeral ones, and the cursor stands there.
abbrev stack : Stack Reno
stack = record {
  local = record { ip = address; port = 65_535 };
  isn = record { k0 = 1; k1 = 2 };
  conns = (peer, receiving) ∷ [];
  pending = [];
  mss_advertise = 1_460;
  ephemeral_next = 65_535;
  cc_kind = reno;
}

next_ephemeral_port_fresh_example :
    IsEphemeral (next_ephemeral_port stack).0
    × ((next_ephemeral_port stack).0 ≢ 65_535)
    × IsEphemeral (next_ephemeral_port stack).1.ephemeral_next
    × ((next_ephemeral_port stack).1.ephemeral_next ≢ (next_ephemeral_port stack).0)
    × (port_from 7 65_535 65_535
        ≡ ((next_ephemeral_port stack).0, (next_ephemeral_port stack).1.ephemeral_next))
next_ephemeral_port_fresh_example = next_ephemeral_port_fresh stack 5 (omega arith, omega arith)

-- A datagram with a segment of another peer, whose checksum is wrong.
abbrev damaged : Ipv4Packet
damaged = record {
  buf =
      69
      ∷ (0
          ∷ (0
              ∷ (40
                  ∷ (0
                      ∷ (0
                          ∷ (0
                              ∷ (0
                                  ∷ (64
                                      ∷ (6
                                          ∷ (0
                                              ∷ (0
                                                  ∷ (10
                                                      ∷ (0
                                                          ∷ (0
                                                            ∷ (3
                                                            ∷ (10
                                                            ∷ (0
                                                            ∷ (0
                                                            ∷ (1
                                                            ∷ (0
                                                            ∷ (80
                                                            ∷ (255
                                                            ∷ (255
                                                            ∷ (0
                                                            ∷ (0
                                                            ∷ (0
                                                            ∷ (1
                                                            ∷ (0
                                                            ∷ (0
                                                            ∷ (0
                                                            ∷ (0
                                                            ∷ (80
                                                            ∷ (2
                                                            ∷ (0
                                                            ∷ (9
                                                            ∷ (1
                                                            ∷ (2
                                                            ∷ (0
                                                            ∷ (0
                                                            ∷ [])))))))))))))))))))))))))))))))))))))));
}

on_recv_refused_example : on_recv ops stack now damaged ≡ stack
unfolding tcp_checksum_valid pseudo_header fold accumulate fold_u32 fold_u64 sum_octets sum_pairs
on_recv_refused_example = on_recv_refused ops stack now damaged (inr (inr (inr (refl, refl))))

on_recv_others_example : find peer (on_recv ops stack now damaged).conns ≡ find peer stack.conns
on_recv_others_example = on_recv_others ops stack now damaged peer refl
