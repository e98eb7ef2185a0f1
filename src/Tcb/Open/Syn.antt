-- ===== src/Tcb/Open/Syn.antt =====
-- The segments of the handshake of tcp-core/src/tcb.rs, as their bytes are read back.
use ferrumnet.Prelude.{
  ℕ, zero, suc, ◌+◌, ◌^◌, ◌<◌, ◌≤◌, ◌≡◌, inl, refl, ap, ◌∙◌, arith, Bool, true, false, ◌&&◌, ◌==◌,
  List, [], ◌∷◌, ◌++◌, length, Option, some, none, u32, if◌then◌else◌, replicate, length-replicate,
}
use ferrumnet.Seq.{SeqNumber, add}
use ferrumnet.Time.{Instant}
use ferrumnet.State.{syn_sent}
use ferrumnet.Congestion.{reno, CongestionControl}
use ferrumnet.Wire.Checksum.{Ipv4Addr}
use ferrumnet.Wire.Checksum.Sum.{Bytes}
use ferrumnet.Wire.Tcp.{
  TcpPacket, seq, ack, flags, mss_option, sack_permitted, window_scale, timestamps, flag_syn,
  flag_ack,
}
use ferrumnet.Wire.Tcp.Emit.{
  TcpRepr, header_len, no_blocks, mss_bytes, permitted_bytes, scale_bytes, timestamp_bytes,
  sack_bytes, sack_blocks_to_emit,
}
use ferrumnet.Wire.Tcp.Lengths.{header_len-Exclusive}
use ferrumnet.Wire.Tcp.RoundTrip.{Fits, packet, new_checked-sent}
use ferrumnet.Wire.Tcp.RoundTrip.Options.{accessors-emit, clamped}
use ferrumnet.Tcb.{Tcb, wscale_for, wscale_from}
use ferrumnet.Tcb.Timers.{start_rtx}
use ferrumnet.Tcb.Build.{build, build_syn, rcv_wscale}
use ferrumnet.Tcb.Transmit.{Sent}
use ferrumnet.Tcb.Poll.{poll_transmit, poll_reset, poll_state, poll_syn_sent, poll_syn_received}

-- The segment that a step sends, as the peer sees it; a step that sends nothing gives no bytes.
abbrev pub sent_packet : {C : Type 0} → Sent C → TcpPacket
sent_packet (none, t) = record { buf = [] }
sent_packet (some f, t) = packet f.repr f.local.ip f.remote.ip f.body

Bytes-append : (xs ys : List ℕ) → Bytes xs → Bytes ys → Bytes (xs ++ ys)
Bytes-append [] ys h k = k
Bytes-append (x ∷ xs) ys h k = (h.0, Bytes-append xs ys h.1 k)

abbrev pub Fits16 : Option ℕ → Type 0
Fits16 none = Unit
Fits16 (some n) = n < 2 ^ 16

mss-Bytes : (m : Option ℕ) → Fits16 m → Bytes (mss_bytes m)
mss-Bytes none h = tt
mss-Bytes (some m) h = ground arith

permitted-Bytes : (b : Bool) → Bytes (permitted_bytes b)
permitted-Bytes false = tt
permitted-Bytes true = ground arith

abbrev pub Fits8 : Option ℕ → Type 0
Fits8 none = Unit
Fits8 (some n) = n < 256

scale-Bytes : (m : Option ℕ) → Fits8 m → Bytes (scale_bytes m)
scale-Bytes none h = tt
scale-Bytes (some m) h = ground arith

abbrev pub FitsStamps : Option (ℕ × ℕ) → Type 0
FitsStamps none = Unit
FitsStamps (some (a, b)) = (a < 2 ^ 32) × (b < 2 ^ 32)

stamp-Bytes : (m : Option (ℕ × ℕ)) → FitsStamps m → Bytes (timestamp_bytes m)
stamp-Bytes none h = tt
stamp-Bytes (some (a, b)) h = ground arith

sack-Bytes : (n : ℕ) (bs : List (SeqNumber × SeqNumber)) → n ≡ 0 → Bytes (sack_bytes n bs)
sack-Bytes zero bs h = tt
sack-Bytes (suc n) bs h = absurd (omega (arith, h))

-- The fields have their widths, and the options keep to their forty bytes.
abbrev pub Plain : TcpRepr → Type 0
Plain r = Fits r × (header_len r ≤ 60)

-- A segment without blocks is such.
pub Plain-fields :
    (r : TcpRepr)
    → r.src_port < 2 ^ 16
    → r.dst_port < 2 ^ 16
    → r.seq < 2 ^ 32
    → r.ack < 2 ^ 32
    → r.flags < 256
    → r.window < 2 ^ 16
    → Fits16 r.mss
    → Fits8 r.window_scale
    → FitsStamps r.timestamps
    → r.sack ≡ no_blocks
    → Plain r
Plain-fields r a b c d e f m s t z = (
  record {
    src_port_lt = a;
    dst_port_lt = b;
    seq_lt = c;
    ack_lt = d;
    flags_lt = e;
    window_lt = f;
    options_Bytes = Bytes-append (mss_bytes r.mss) _ (mss-Bytes r.mss m) (
        Bytes-append (permitted_bytes r.sack_permitted) _ (permitted-Bytes r.sack_permitted) (
          Bytes-append (scale_bytes r.window_scale) _ (scale-Bytes r.window_scale s) (
            Bytes-append (timestamp_bytes r.timestamps) _ (stamp-Bytes r.timestamps t) (
              sack-Bytes (sack_blocks_to_emit r) r.sack.blocks
                (omega (arith, ap (λ x. x.len) z))))));
    len_le = omega (arith, ap (λ x. x.len) z);
    blocks_len = ap (λ x. length x.blocks) z;
  },
  header_len-Exclusive r (omega (arith, ap (λ x. x.len) z)) (inl (ap (λ x. x.len) z)),
)

module _ {C : Type 0} where
  syn_first :
      (t : Tcb C) (now : Instant)
      → t.snd_nxt ≡ t.iss
      → poll_syn_sent t now
        ≡ (some (build_syn t), start_rtx (record t { snd_nxt = add t.iss 1 }) now)
  unfolding poll_syn_sent
  syn_first t now e = let b : t.snd_nxt == t.iss ≡ true = ground (arith, e) in rw b refl

  pub syn_ack_first :
      (t : Tcb C) (now : Instant)
      → t.snd_nxt ≡ t.iss
      → poll_syn_received t now ≡ (
        some (build t t.iss flag_syn []).0,
        start_rtx (record (build t t.iss flag_syn []).1 { snd_nxt = add t.iss 1 }) now,
      )
  unfolding poll_syn_received
  syn_ack_first t now e = let b : t.snd_nxt == t.iss ≡ true = ground (arith, e) in rw b refl

module _ {C : Type 0} (ops : CongestionControl C) where
  pub poll-syn_sent :
      (t : Tcb C) (now : Instant)
      → t.state ≡ syn_sent
      → t.pending_reset ≡ none
      → t.snd_nxt ≡ t.iss
      → let u : Tcb C = record t { cur_tsval = u32 now.micros } in
        poll_transmit ops t now
        ≡ (some (build_syn u), start_rtx (record u { snd_nxt = add t.iss 1 }) now)
  unfolding poll_transmit poll_reset poll_state poll_syn_sent
  poll-syn_sent t now s p e =
      let u : Tcb C = record t { cur_tsval = u32 now.micros } in
      ap (λ o. poll_reset ops o u now) p ∙ ap (λ x. poll_state ops x u now) s ∙ syn_first u now e

-- A SYN without a payload as its peer reads it.
pub record Read (r : TcpRepr) (p : TcpPacket) : Type 0 where
  pub seq_read : seq p ≡ r.seq
  pub ack_read : ack p ≡ r.ack
  pub flags_read : flags p ≡ r.flags
  pub mss_read : mss_option p ≡ r.mss
  pub scale_read : window_scale p ≡ clamped r.window_scale
  pub stamps_read : timestamps p ≡ r.timestamps
  pub permitted_read : sack_permitted p ≡ r.sack_permitted

pub Read-packet : (r : TcpRepr) (src dst : Ipv4Addr) → Plain r → Read r (packet r src dst [])
Read-packet r src dst v =
    let fields =
      new_checked-sent r src dst [] (replicate (header_len r) 0) v.0 v.1 tt (omega arith)
        (omega (arith, length-replicate {A = ℕ} (header_len r) 0)) in
    let options = accessors-emit r src dst [] v.0 v.1 in
    record {
      seq_read = fields.4;
      ack_read = fields.5;
      flags_read = fields.9;
      mss_read = options.0;
      scale_read = options.1;
      stamps_read = options.2;
      permitted_read = options.3;
    }

-- The fields of the segment that answers a SYN, as long as the controller takes no ECN marks.
pub record SynAck {C : Type 0} (t : Tcb C) (r : TcpRepr) : Type 0 where
  pub answer_flags : r.flags ≡ flag_syn + flag_ack
  pub answer_seq : r.seq ≡ t.iss
  pub answer_ack : r.ack ≡ t.rcv_nxt
  pub answer_sack : r.sack ≡ no_blocks
  pub answer_permitted : r.sack_permitted ≡ t.sack_enabled
  pub answer_mss : r.mss ≡ some t.mss_advertise
  pub answer_scale : r.window_scale ≡ (if t.window_scaling then some t.rcv_wscale else none)
  pub answer_stamps :
      r.timestamps ≡ (if t.ts_enabled then some (t.cur_tsval, t.ts_recent) else none)
  pub answer_window : r.window < 2 ^ 16

never : {A : Type 0} → (b : Bool) (x y : A) → (if b && false then x else y) ≡ y
never true x y = refl
never false x y = refl

pub SynAck-build :
    {C : Type 0} → (t : Tcb C) → t.cc_kind ≡ reno → SynAck t (build t t.iss flag_syn []).0.repr
unfolding build
SynAck-build t e = record {
  answer_flags = rw e refl;
  answer_seq = refl;
  answer_ack = refl;
  answer_sack = rw e (never t.sack_enabled _ no_blocks);
  answer_permitted = rw e refl;
  answer_mss = rw e refl;
  answer_scale = rw e refl;
  answer_stamps = refl;
  answer_window = rw e (omega arith);
}

pub rcv_wscale_lem : rcv_wscale ≡ 3
unfolding rcv_wscale wscale_for wscale_from
rcv_wscale_lem = refl

pub build_syn-Plain :
    {C : Type 0}
    → (t : Tcb C) → t.local.port < 2 ^ 16
    → t.remote.port < 2 ^ 16
    → t.iss < 2 ^ 32
    → t.mss_advertise < 2 ^ 16
    → t.cur_tsval < 2 ^ 32
    → Plain (build_syn t).repr
unfolding build_syn
build_syn-Plain t a b c d e =
    Plain-fields _ a b c (omega arith) (omega arith) (omega arith) d (omega (arith, rcv_wscale_lem))
      (e, omega arith) refl

-- What the SYN tells the other end.
pub record Announced (iss mss tsval : ℕ) (p : TcpPacket) : Type 0 where
  pub announced_seq : seq p ≡ iss
  pub announced_flags : flags p ≡ flag_syn
  pub announced_mss : mss_option p ≡ some mss
  pub announced_scale : window_scale p ≡ some rcv_wscale
  pub announced_stamps : timestamps p ≡ some (tsval, 0)
  pub announced_sack : sack_permitted p ≡ true

pub build_syn-Announced :
    {C : Type 0}
    → (t : Tcb C) (p : TcpPacket) → Read (build_syn t).repr p
    → Announced t.iss t.mss_advertise t.cur_tsval p
unfolding build_syn
build_syn-Announced t p r = record {
  announced_seq = r.seq_read;
  announced_flags = r.flags_read;
  announced_mss = r.mss_read;
  announced_scale = r.scale_read ∙ ap some (omega (arith, rcv_wscale_lem));
  announced_stamps = r.stamps_read;
  announced_sack = r.permitted_read;
}
