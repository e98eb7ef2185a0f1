-- ===== src/Tcb/Build.antt =====
-- What tcp-core/src/tcb.rs sends: the advertised window, and the segments that `build` and its kin
-- describe. Their bytes are those of `frame_bytes`.
pub mod Edge
pub mod Size
use ferrumnet.Prelude.{
  ℕ, ◌+◌, ◌-◌, ◌*◌, ◌/◌, ◌%◌, ◌^◌, Bool, true, false, not, ◌&&◌, ◌||◌, List, [], ◌∷◌, length,
  Option, some, none, min, u16, u32, ltb, ◌==◌, shr, if◌then◌else◌,
}
use ferrumnet.Seq.{SeqNumber, lt, add, offset_from, smaller}
use ferrumnet.Buffers.{len}
use ferrumnet.Reasm.{Reasm, buffered, report, is_empty}
use ferrumnet.Wire.Tcp.{
  TcpFlags, flag_syn, flag_rst, flag_ack, flag_ece, flag_cwr, has, with_bit, max_sack_blocks,
}
use ferrumnet.Wire.Tcp.Emit.{TcpRepr, SackBlocks, no_blocks, push}
use ferrumnet.Datagram.{Frame}
use ferrumnet.Tcb.{Tcb, rx_buffer, wscale_for, ecn_enabled}

-- `RCV_WSCALE`
unfoldable pub rcv_wscale : ℕ
rcv_wscale = wscale_for rx_buffer

-- The blocks that are reported, pushed one by one.
abbrev pub push_all : SackBlocks → List (SeqNumber × SeqNumber) → SackBlocks
push_all s [] = s
push_all s ((l, r) ∷ bs) = push_all (push s l r) bs

module _ {C : Type 0} where
  unfoldable pub advertised_window : Tcb C → ℕ × Tcb C
  advertised_window t =
      let occupied = len t.rx + buffered t.reasm in
      let max_window = 0xffff * 2 ^ t.rcv_wscale in
      let candidate_right = add t.rcv_nxt (u32 (min (rx_buffer - occupied) max_window)) in
      let right = if lt candidate_right t.rcv_adv then t.rcv_adv else candidate_right in
      (offset_from right t.rcv_nxt, record t { rcv_adv = right })

  unfoldable pub reasm_right_edge : Tcb C → SeqNumber
  reasm_right_edge t =
      let budget = rx_buffer - (len t.rx + buffered t.reasm) in
      smaller (add t.rcv_nxt (u32 (min budget 0xffff))) t.rcv_adv

  unfoldable pub max_segment_payload : Tcb C → ℕ
  max_segment_payload t =
      let n = length (report t.reasm max_sack_blocks) in
      let fits = if t.ts_enabled then min n 3 else n in
      let blocks =
        if t.sack_enabled && (not (is_empty t.reasm) && ltb 0 fits) then 4 + 8 * fits else 0 in
      t.snd_mss - ((if t.ts_enabled then 12 else 0) + blocks)

  -- The ACE field of a segment without SYN: the bits that the two flags carry, and AE.
  abbrev pub ace_flags : Tcb C → ℕ → TcpFlags
  ace_flags t flag_bits =
      let low = if has t.accecn_cep 1 then with_bit flag_bits flag_ece else flag_bits in
      if has t.accecn_cep 2 then with_bit low flag_cwr else low

  unfoldable pub build : Tcb C → SeqNumber → ℕ → List ℕ → Frame × Tcb C
  unfolding advertised_window
  build t seq extra_flags body =
      let flag_bits = with_bit extra_flags flag_ack in
      let counts = ecn_enabled t && not (has flag_bits flag_syn) in
      let flags = if counts then ace_flags t flag_bits else flag_bits in
      let is_syn = has flags flag_syn in
      let adv = advertised_window t in
      let sack =
        if t.sack_enabled && (not is_syn && not (is_empty t.reasm))
        then push_all no_blocks (report t.reasm max_sack_blocks)
        else no_blocks in
      let repr : TcpRepr = record {
        src_port = t.local.port;
        dst_port = t.remote.port;
        seq = seq;
        ack = t.rcv_nxt;
        flags = flags;
        window = if is_syn then min adv.0 0xffff else min (shr adv.0 t.rcv_wscale) 0xffff;
        mss = if is_syn then some t.mss_advertise else none;
        sack_permitted = is_syn && t.sack_enabled;
        sack = sack;
        window_scale = if is_syn && t.window_scaling then some t.rcv_wscale else none;
        timestamps = if t.ts_enabled then some (t.cur_tsval, t.ts_recent) else none;
        ae = counts && has t.accecn_cep 4;
      } in
      (
        record {
          local = t.local;
          remote = t.remote;
          repr = repr;
          body = body;
          marked = ecn_enabled t && not (length body == 0);
        },
        record t { delayed_ack_deadline = none; unacked_segs = 0; rcv_adv = adv.1.rcv_adv },
      )

  unfoldable pub build_syn : Tcb C → Frame
  unfolding rcv_wscale
  build_syn t = record {
    local = t.local;
    remote = t.remote;
    repr = record {
      src_port = t.local.port;
      dst_port = t.remote.port;
      seq = t.iss;
      ack = 0;
      flags = flag_syn;
      window = min rx_buffer 0xffff;
      mss = some t.mss_advertise;
      sack_permitted = true;
      sack = no_blocks;
      window_scale = some rcv_wscale;
      timestamps = some (t.cur_tsval, 0);
      ae = false;
    };
    body = [];
    marked = false;
  }

  unfoldable pub build_rst : Tcb C → SeqNumber → Frame
  build_rst t seq = record {
    local = t.local;
    remote = t.remote;
    repr = record {
      src_port = t.local.port;
      dst_port = t.remote.port;
      seq = seq;
      ack = 0;
      flags = flag_rst;
      window = 0;
      mss = none;
      sack_permitted = false;
      sack = no_blocks;
      window_scale = none;
      timestamps = none;
      ae = false;
    };
    body = [];
    marked = false;
  }
