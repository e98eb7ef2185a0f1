-- ===== src/Tcb/Segment.antt =====
-- `on_segment` of tcp-core/src/tcb.rs: the steps of Tcb/Receive in their order.
pub mod Guards
mod Same
use ferrumnet.Prelude.{
  ℕ, ◌+◌, ◌*◌, Bool, true, false, not, ◌&&◌, ◌||◌, List, [], length, Option, some, none, u32, ◌==◌,
  is_some, if◌then◌else◌,
}
use ferrumnet.Seq.{SeqNumber, le, add, offset_from}
use ferrumnet.Time.{Instant}
use ferrumnet.Sack.{update, in_recovery, begin_recovery, is_lost}
use ferrumnet.State.{syn_sent, syn_received, time_wait, same_state}
use ferrumnet.Congestion.{CongestionControl}
use ferrumnet.Wire.Tcp.{
  TcpPacket, seq, ack, flags, fin, syn, rst, ack_bit, ece, cwr, ae, window, payload, timestamps,
  sack_blocks,
}
use ferrumnet.Wire.Tcp.Emit.{bit_of}
use ferrumnet.Tcb.{Tcb}
use ferrumnet.Tcb.Window.{segment_acceptable}
use ferrumnet.Tcb.Closing.{recompute_closing_state, arm_time_wait}
use ferrumnet.Tcb.Timers.{restart_rtx}
use ferrumnet.Tcb.Ack.{process_ack}
use ferrumnet.Tcb.Open.{on_segment_syn_sent}
use ferrumnet.Tcb.Receive.{
  predates, recent_of, echo_of, on_rst, on_syn, ack_our_syn, take_data, take_fin, take_pending_fin,
}

abbrev pub seg_len : TcpPacket → ℕ
seg_len tcp = u32 (length (payload tcp)) + bit_of (syn (flags tcp)) + bit_of (fin (flags tcp))

abbrev pub ace_of : TcpPacket → ℕ
ace_of tcp = bit_of (ae tcp) * 4 + bit_of (cwr (flags tcp)) * 2 + bit_of (ece (flags tcp))

module _ {C : Type 0} where
  abbrev pub seg_ts : Tcb C → TcpPacket → Option (ℕ × ℕ)
  seg_ts t tcp = if t.ts_enabled then timestamps tcp else none

  abbrev pub is_dup : Tcb C → TcpPacket → Bool
  is_dup t tcp =
      length (payload tcp) == 0
      && (not (fin (flags tcp))
          && (not (syn (flags tcp)) && (ack tcp == t.snd_una && not (t.snd_una == t.snd_nxt))))

  -- (7), (7b) and (8)
  unfoldable pub finish : Tcb C → TcpPacket → Instant → Tcb C
  finish t tcp now =
      let fin_at = add (seq tcp) (u32 (length (payload tcp))) in
      let u : Tcb C = if fin (flags tcp) then take_fin t fin_at else t in
      recompute_closing_state (take_pending_fin u) now

module _ {C : Type 0} (ops : CongestionControl C) where
  -- The entry into a recovery, with what the third duplicate told the controller.
  unfoldable pub enter_recovery : Tcb C → Bool × C → Instant → Tcb C
  enter_recovery t third now =
      let flight = offset_from t.snd_nxt t.snd_una in
      if third.0 || is_lost t.scoreboard t.snd_una t.snd_mss
      then restart_rtx
          (record t {
            cc = if third.0 then third.1 else ops.enter_recovery third.1 now flight;
            scoreboard = begin_recovery t.scoreboard t.snd_nxt;
            retransmitted = true;
            rtt_sample = none;
          })
          now
      else record t { cc = third.1 }

  unfoldable pub take_blocks : Tcb C → TcpPacket → Bool → Instant → Tcb C
  unfolding enter_recovery
  take_blocks t tcp dup now =
      let flight = offset_from t.snd_nxt t.snd_una in
      let u : Tcb C = record t {
        scoreboard = update t.scoreboard t.snd_una t.snd_nxt (sack_blocks tcp);
      } in
      let third : Bool × C = if dup then ops.on_dup_ack t.cc now flight else (false, t.cc) in
      if not (in_recovery u.scoreboard) && not (is_some t.gbn_recover)
      then enter_recovery u third now
      else u

  unfoldable pub fast_retransmit : Tcb C → Instant → Tcb C
  fast_retransmit t now =
      let third = ops.on_dup_ack t.cc now (offset_from t.snd_nxt t.snd_una) in
      let u : Tcb C = record t { cc = third.1 } in
      if third.0
      then restart_rtx (record u { retransmit = true; retransmitted = true; rtt_sample = none }) now
      else u

  -- The part of (5) behind `process_ack`
  unfoldable pub after_ack : Tcb C → TcpPacket → Bool → Instant → Tcb C
  unfolding take_blocks fast_retransmit
  after_ack t tcp dup now =
      if t.sack_enabled then take_blocks t tcp dup now else if dup then fast_retransmit t now else t

  -- (5)
  unfoldable pub take_ack : Tcb C → TcpPacket → Instant → Bool × Tcb C
  unfolding after_ack
  take_ack t tcp now =
      let done =
        process_ack ops t (seq tcp) (ack tcp) (window tcp) (echo_of (seg_ts t tcp)) (ace_of tcp)
          now in
      if same_state t.state syn_received
      then ack_our_syn t (seq tcp) (ack tcp) (window tcp)
      else if done.0
      then (true, after_ack done.1 tcp (is_dup t tcp) now)
      else done

  -- What follows the guards, on an acceptable segment.
  unfoldable pub accept : Tcb C → TcpPacket → Bool → Instant → Tcb C
  unfolding take_ack finish
  accept t tcp ce now =
      let stamped : Tcb C = record t {
        ts_recent =
            if le (seq tcp) t.rcv_nxt then recent_of (seg_ts t tcp) t.ts_recent else t.ts_recent;
      } in
      let acked = take_ack stamped tcp now in
      if not (ack_bit (flags tcp))
      then stamped
      else if acked.0
      then finish (take_data acked.1 (seq tcp) (payload tcp) ce now) tcp now
      else acked.1

  unfoldable pub on_segment : Tcb C → Instant → TcpPacket → Bool → Tcb C
  unfolding accept
  on_segment t now tcp ce =
      if same_state t.state syn_sent
      then on_segment_syn_sent ops t tcp
      else if rst (flags tcp)
      then on_rst t (seq tcp) now
      else if same_state t.state time_wait
      then arm_time_wait (record t { needs_ack = true }) now
      else if syn (flags tcp)
      then on_syn t (seq tcp) now
      else if predates (seg_ts t tcp) t.ts_recent
      then record t { needs_ack = true }
      else if not (segment_acceptable t (seq tcp) (seg_len tcp))
      then record t { needs_ack = true }
      else accept t tcp ce now
