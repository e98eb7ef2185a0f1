-- ===== src/Tcb/Open.antt =====
-- The two opens of tcp-core/src/tcb.rs: `new_syn_received`, and the segments in SYN-SENT.
pub mod Handshake
pub mod Agree
mod Syn
mod Steps
use ferrumnet.Prelude.{
  ℕ, ◌+◌, Bool, true, false, not, ◌&&◌, ◌||◌, Option, some, none, min, is_some, if◌then◌else◌,
}
use ferrumnet.Seq.{SeqNumber, gt, le, add}
use ferrumnet.Time.{Instant}
use ferrumnet.Buffers.{with_capacity}
use ferrumnet.Rtt
use ferrumnet.Sack
use ferrumnet.Reasm
use ferrumnet.State.{State, closed, syn_received, established}
use ferrumnet.Congestion.{CcKind, reno, CongestionControl}
use ferrumnet.Datagram.{Endpoint}
use ferrumnet.Wire.Tcp.{
  TcpPacket, seq, ack, flags, syn, rst, ack_bit, window, mss_option, sack_permitted, window_scale,
  timestamps,
}
use ferrumnet.Tcb.{Tcb, mss_default, tx_buffer, rx_buffer, persist_min_millis, ace_init}
use ferrumnet.Tcb.Build.{rcv_wscale}

abbrev pub unwrap_or : Option ℕ → ℕ → ℕ
unwrap_or none b = b
unwrap_or (some a) b = a

abbrev pub tsval_of : Option (ℕ × ℕ) → ℕ → ℕ
tsval_of none old = old
tsval_of (some (tsval, tsecr)) old = tsval

module _ {C : Type 0} (ops : CongestionControl C) where
  unfoldable pub new_syn_received :
      Endpoint → Endpoint → TcpPacket → SeqNumber → Instant → ℕ → Tcb C
  unfolding rcv_wscale
  new_syn_received local remote syn_packet iss now mss_advertise =
      let snd_mss = min (unwrap_or (mss_option syn_packet) mss_default) mss_advertise in
      let irs = seq syn_packet in
      let rcv_nxt = add irs 1 in
      record {
        state = syn_received;
        local = local;
        remote = remote;
        iss = iss;
        snd_una = iss;
        snd_nxt = iss;
        snd_wnd = window syn_packet;
        snd_wl1 = irs;
        snd_wl2 = iss;
        snd_mss = snd_mss;
        window_scaling = is_some (window_scale syn_packet);
        snd_wscale = unwrap_or (window_scale syn_packet) 0;
        rcv_wscale = if is_some (window_scale syn_packet) then rcv_wscale else 0;
        ts_enabled = is_some (timestamps syn_packet);
        ts_recent = tsval_of (timestamps syn_packet) 0;
        cur_tsval = 0;
        accecn_cep = ace_init;
        accecn_ace_seen = ace_init;
        irs = irs;
        rcv_nxt = rcv_nxt;
        rcv_adv = add rcv_nxt (min rx_buffer 0xffff);
        tx = with_capacity tx_buffer;
        rx = with_capacity rx_buffer;
        rtt = Rtt.new;
        cc = ops.start reno snd_mss;
        cc_kind = reno;
        rtt_sample = none;
        retransmitted = false;
        retransmit = false;
        gbn_recover = none;
        rtx_deadline = none;
        persist_deadline = none;
        persist_backoff = persist_min_millis;
        time_wait_deadline = none;
        delayed_ack_deadline = none;
        unacked_segs = 0;
        pace_tokens = 0;
        pace_last = now;
        pace_deadline = none;
        fin_queued = false;
        fin_seq = none;
        fin_acked = false;
        peer_fin_seen = false;
        reset = false;
        needs_ack = false;
        send_probe = false;
        pending_reset = none;
        syn_retries = 0;
        challenge_window_start = now;
        challenge_count = 0;
        sack_enabled = sack_permitted syn_packet;
        reasm = Reasm.new;
        scoreboard = Sack.new;
        pending_fin = none;
        mss_advertise = mss_advertise;
      }

  -- `on_segment_syn_sent`, the branch for a SYN.
  unfoldable pub take_syn : Tcb C → TcpPacket → Bool → Tcb C
  unfolding rcv_wscale
  take_syn t tcp ack_acceptable =
      let seg_seq = seq tcp in
      let rcv_nxt = add seg_seq 1 in
      let snd_mss = min (unwrap_or (mss_option tcp) mss_default) t.mss_advertise in
      record t {
        irs = seg_seq;
        rcv_nxt = rcv_nxt;
        rcv_adv = add rcv_nxt (min rx_buffer 0xffff);
        snd_mss = snd_mss;
        cc = ops.start t.cc_kind snd_mss;
        sack_enabled = sack_permitted tcp;
        window_scaling = is_some (window_scale tcp);
        snd_wscale = unwrap_or (window_scale tcp) 0;
        rcv_wscale = if is_some (window_scale tcp) then rcv_wscale else 0;
        ts_enabled = is_some (timestamps tcp);
        ts_recent = tsval_of (timestamps tcp) t.ts_recent;
        snd_wnd = window tcp;
        snd_wl1 = seg_seq;
        snd_una = if ack_acceptable then ack tcp else t.snd_una;
        snd_wl2 = if ack_acceptable then ack tcp else t.iss;
        state = if ack_acceptable then established else syn_received;
        rtx_deadline = if ack_acceptable then none else t.rtx_deadline;
        needs_ack = if ack_acceptable then true else t.needs_ack;
        retransmit = not ack_acceptable;
      }

  unfoldable pub on_segment_syn_sent : Tcb C → TcpPacket → Tcb C
  unfolding take_syn
  on_segment_syn_sent t tcp =
      let ack_present = ack_bit (flags tcp) in
      let ack_acceptable = ack_present && (gt (ack tcp) t.iss && le (ack tcp) t.snd_nxt) in
      if ack_present && not ack_acceptable
      then (if rst (flags tcp) then t else record t { pending_reset = some (ack tcp) })
      else if rst (flags tcp)
      then (if ack_acceptable then record t { state = closed; reset = true } else t)
      else if syn (flags tcp)
      then take_syn t tcp ack_acceptable
      else t
