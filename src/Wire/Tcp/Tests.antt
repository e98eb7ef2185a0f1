-- ===== src/Wire/Tcp/Tests.antt =====
-- The segments of tcp-core/src/wire/tcp.rs on concrete bytes.
use ferrumnet.Prelude.{ℕ, ◌≤◌, ◌≡◌, refl, arith, true, List, [], ◌∷◌, ◌++◌, drop, replicate, some}
use ferrumnet.Wire.Checksum.{Ipv4Addr, tcp_checksum_valid}
use ferrumnet.Wire.Tcp.{
  valid, new_checked, payload, seq, ack, src_port, dst_port, window, flags, ae, walk, mss_option,
  window_scale, timestamps, sack_permitted, sack_blocks,
}
use ferrumnet.Wire.Tcp.Emit.{TcpRepr, no_blocks, emit}
use ferrumnet.Wire.Tcp.Walk.{size, Holds, walk_ends}
use ferrumnet.Wire.Tcp.RoundTrip.{Fits, sent, packet, new_checked-sent}
use ferrumnet.Wire.Tcp.RoundTrip.Options.{accessors-emit}

-- A SYN and ACK with every option of a handshake.
abbrev reply : TcpRepr
reply = record {
  src_port = 80;
  dst_port = 4_000;
  seq = 4_000_000_000;
  ack = 7;
  flags = 18;
  window = 65_535;
  mss = some 1_460;
  sack_permitted = true;
  sack = no_blocks;
  window_scale = some 15;
  timestamps = some (5, 6);
  ae = true;
}

reply-Fits : Fits reply
reply-Fits = record {
  src_port_lt = omega arith;
  dst_port_lt = omega arith;
  seq_lt = omega arith;
  ack_lt = omega arith;
  flags_lt = omega arith;
  window_lt = omega arith;
  options_Bytes = ground arith;
  len_le = omega arith;
  blocks_len = refl;
}

abbrev here : Ipv4Addr
here = record { a = 10; b = 0; c = 0; d = 1 }

abbrev there : Ipv4Addr
there = record { a = 10; b = 0; c = 0; d = 2 }

abbrev three : List ℕ
three = 1 ∷ (2 ∷ (255 ∷ []))

abbrev buffer : List ℕ
buffer = replicate 60 0

new_checked-sent_example :
    (emit reply here there three buffer ≡ some (47, sent reply here there three ++ drop 47 buffer))
    × (new_checked (sent reply here there three) ≡ valid (packet reply here there three))
    × (tcp_checksum_valid here there (sent reply here there three) ≡ true)
    × (payload (packet reply here there three) ≡ three)
    × (seq (packet reply here there three) ≡ 4_000_000_000)
    × (ack (packet reply here there three) ≡ 7)
    × (src_port (packet reply here there three) ≡ 80)
    × (dst_port (packet reply here there three) ≡ 4_000)
    × (window (packet reply here there three) ≡ 65_535)
    × (flags (packet reply here there three) ≡ 18)
    × (ae (packet reply here there three) ≡ true)
new_checked-sent_example =
    new_checked-sent reply here there three buffer reply-Fits (omega arith) (ground arith)
      (omega arith) (omega arith)

accessors-emit_example :
    (mss_option (packet reply here there three) ≡ some 1_460)
    × (window_scale (packet reply here there three) ≡ some 14)
    × (timestamps (packet reply here there three) ≡ some (5, 6))
    × (sack_permitted (packet reply here there three) ≡ true)
    × (sack_blocks (packet reply here there three) ≡ [])
accessors-emit_example = accessors-emit reply here there three reply-Fits (omega arith)

-- An option that claims more bytes than there are ends the walk.
abbrev cut_short : List ℕ
cut_short = 2 ∷ (4 ∷ (5 ∷ (180 ∷ (1 ∷ (3 ∷ (9 ∷ (7 ∷ [])))))))

walk_ends_example :
    Holds cut_short (walk 12 cut_short)
    × (walk 12 cut_short ≡ walk 8 cut_short)
    × (size (walk 12 cut_short) ≤ 8)
walk_ends_example = walk_ends 12 cut_short (omega arith)
