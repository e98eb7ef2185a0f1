-- ===== src/Tcb/Receive.antt =====
-- `on_segment` of tcp-core/src/tcb.rs, by the numbered steps of its comments.
pub mod Deliver
pub mod Drain
pub mod Grown
use ferrumnet.Prelude.{
  ℕ, zero, suc, ◌+◌, ◌-◌, ◌*◌, ◌^◌, Bool, true, false, not, ◌&&◌, ◌||◌, List, [], ◌∷◌, length, drop,
  Option, some, none, min, u8, u8_max, u32, ltb, leb, ◌==◌, wrapping_sub, is_some, if◌then◌else◌,
}
use ferrumnet.Seq.{SeqNumber, lt, le, gt, add, offset_from}
use ferrumnet.Time.{Instant}
use ferrumnet.Buffers.{write, len}
use ferrumnet.Reasm
use ferrumnet.Reasm.{Reasm, buffered, insert, discard_below, pop_contiguous, reinsert_front}
use ferrumnet.Sack.{Scoreboard, update, in_recovery, begin_recovery, is_lost}
use ferrumnet.State.{State, closed, syn_sent, syn_received, established, time_wait, same_state}
use ferrumnet.Congestion.{CongestionControl}
use ferrumnet.Wire.Tcp.{
  TcpPacket, seq, ack, flags, fin, syn, rst, ack_bit, ece, cwr, ae, window, payload, timestamps,
  sack_blocks,
}
use ferrumnet.Wire.Tcp.Emit.{bit_of}
use ferrumnet.Tcb.{Tcb, ecn_enabled}
use ferrumnet.Tcb.Window.{seq_in_window, segment_acceptable, update_window, challenge_ack}
use ferrumnet.Tcb.Closing.{recompute_closing_state, arm_time_wait}
use ferrumnet.Tcb.Timers.{restart_rtx, arm_delayed_ack}
use ferrumnet.Tcb.Ack.{process_ack}
use ferrumnet.Tcb.Build.{reasm_right_edge}
use ferrumnet.Tcb.Open.{on_segment_syn_sent}

-- (2b) `seg_tsval - ts_recent` is negative as an `i32`.
abbrev pub predates : Option (ℕ × ℕ) → ℕ → Bool
predates none ts_recent = false
predates (some (tsval, tsecr)) ts_recent = leb (2 ^ 31) (wrapping_sub tsval ts_recent)

abbrev pub recent_of : Option (ℕ × ℕ) → ℕ → ℕ
recent_of none ts_recent = ts_recent
recent_of (some (tsval, tsecr)) ts_recent = tsval

abbrev pub echo_of : Option (ℕ × ℕ) → Option ℕ
echo_of none = none
echo_of (some (tsval, tsecr)) = some tsecr

-- The bytes of a segment that are new, and the number of the first.
unfoldable pub left_trim : SeqNumber → SeqNumber → List ℕ → SeqNumber × List ℕ
left_trim rcv_nxt seg_seq body =
    if lt seg_seq rcv_nxt
    then (rcv_nxt, drop (min (offset_from rcv_nxt seg_seq) (length body)) body)
    else (seg_seq, body)

abbrev pub is_at : Option SeqNumber → SeqNumber → Bool
is_at none s = false
is_at (some x) s = x == s

module _ {C : Type 0} where
  -- (1) A reset counts only in the window, and closes only at `rcv_nxt`.
  unfoldable pub on_rst : Tcb C → SeqNumber → Instant → Tcb C
  on_rst t seg_seq now =
      if seq_in_window t seg_seq
      then (if seg_seq == t.rcv_nxt
          then record t { state = closed; reset = true }
          else challenge_ack t now)
      else t

  -- (2)
  unfoldable pub on_syn : Tcb C → SeqNumber → Instant → Tcb C
  on_syn t seg_seq now =
      if same_state t.state syn_received && seg_seq == t.irs
      then record t { snd_nxt = t.iss }
      else if seq_in_window t seg_seq
      then challenge_ack t now
      else t

  -- (5) in SYN-RECEIVED; the flag tells whether the segment is processed further.
  unfoldable pub ack_our_syn : Tcb C → SeqNumber → SeqNumber → ℕ → Bool × Tcb C
  ack_our_syn t seg_seq seg_ack seg_wnd =
      if gt seg_ack t.snd_una && le seg_ack t.snd_nxt
      then (
        true,
        record (update_window (record t { snd_una = seg_ack }) seg_seq seg_ack seg_wnd) {
          state = established;
          rtx_deadline = none;
          retransmit = false;
        },
      )
      else (false, record t { pending_reset = some seg_ack; state = closed })

  -- The loop that moves the runs that became contiguous, on fuel: each round but the last takes a
  -- run away.
  unfoldable pub drain_runs : ℕ → Tcb C → Tcb C
  drain_runs zero t = t
  drain_runs (suc fuel) t =
      let popped = pop_contiguous t.reasm t.rcv_nxt in
      let written = write t.rx popped.0 in
      let rcv_nxt = add t.rcv_nxt (u32 written.0) in
      let moved : Tcb C = record t { reasm = popped.1; rx = written.1; rcv_nxt = rcv_nxt } in
      let rest = drain_runs fuel moved in
      if length popped.0 == 0
      then record t { reasm = popped.1 }
      else if ltb written.0 (length popped.0)
      then record moved { reasm = reinsert_front popped.1 rcv_nxt (drop written.0 popped.0) }
      else rest

  -- (6) The bytes at `rcv_nxt`.
  unfoldable pub take_in_order : Tcb C → List ℕ → Tcb C
  unfolding drain_runs
  take_in_order t body =
      let written = write t.rx body in
      let rcv_nxt = add t.rcv_nxt (u32 written.0) in
      let u : Tcb C = record t { rx = written.1; rcv_nxt = rcv_nxt } in
      let kept = discard_below t.reasm rcv_nxt in
      if t.sack_enabled then drain_runs (suc (length kept.runs)) (record u { reasm = kept }) else u

  unfoldable pub take_bytes : Tcb C → SeqNumber → List ℕ → Tcb C
  unfolding take_in_order
  take_bytes t data_seq body =
      if length body == 0
      then t
      else if data_seq == t.rcv_nxt
      then take_in_order t body
      else if t.sack_enabled
      then record t { reasm = insert t.reasm t.rcv_nxt (reasm_right_edge t) data_seq body }
      else t

  -- The CE mark of a segment that brought bytes in.
  unfoldable pub count_mark : Tcb C → Tcb C → Bool → Tcb C
  count_mark before t ce =
      let accepted =
        not (t.rcv_nxt == before.rcv_nxt) || ltb (buffered before.reasm) (buffered t.reasm) in
      record t {
        accecn_cep =
            if ecn_enabled t && (ce && accepted) then u8 (t.accecn_cep + 1) else t.accecn_cep;
      }

  -- Every second clean segment is acknowledged at once, any other that is not clean too.
  unfoldable pub schedule_ack : Tcb C → Bool → Instant → Tcb C
  schedule_ack t clean_in_order now =
      let count = min (t.unacked_segs + 1) u8_max in
      if not clean_in_order
      then record t { needs_ack = true }
      else if leb 2 count
      then record t { needs_ack = true; unacked_segs = 0 }
      else arm_delayed_ack (record t { unacked_segs = count }) now

  -- Whether the new bytes are at `rcv_nxt`, fit the buffer, and none are held.
  unfoldable pub clean_in_order : Tcb C → SeqNumber × List ℕ → Bool
  clean_in_order t (data_seq, body) =
      let in_order = not (length body == 0) && data_seq == t.rcv_nxt in
      let no_room = in_order && ltb (write t.rx body).0 (length body) in
      in_order && (not no_room && buffered t.reasm == 0)

  unfoldable pub take_data : Tcb C → SeqNumber → List ℕ → Bool → Instant → Tcb C
  unfolding left_trim take_bytes count_mark schedule_ack clean_in_order
  take_data t seg_seq body ce now =
      let fresh = left_trim t.rcv_nxt seg_seq body in
      let clean = clean_in_order t fresh in
      if length body == 0
      then t
      else schedule_ack (count_mark t (take_bytes t fresh.0 fresh.1) ce) clean now

  -- (7) The FIN, at its number or for later.
  unfoldable pub take_fin : Tcb C → SeqNumber → Tcb C
  take_fin t fin_at =
      let here = fin_at == t.rcv_nxt && not t.peer_fin_seen in
      record t {
        rcv_nxt = if here then add t.rcv_nxt 1 else t.rcv_nxt;
        peer_fin_seen = if here then true else t.peer_fin_seen;
        pending_fin =
            if here then t.pending_fin else if t.peer_fin_seen then t.pending_fin else some fin_at;
        needs_ack = true;
      }

  -- (7b)
  unfoldable pub take_pending_fin : Tcb C → Tcb C
  take_pending_fin t =
      if is_at t.pending_fin t.rcv_nxt && not t.peer_fin_seen
      then record t {
        rcv_nxt = add t.rcv_nxt 1;
        peer_fin_seen = true;
        pending_fin = none;
        needs_ack = true;
      }
      else t
