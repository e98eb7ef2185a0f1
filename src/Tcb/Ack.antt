-- ===== src/Tcb/Ack.antt =====
-- `process_ack` of tcp-core/src/tcb.rs, in the order of its parts.
pub mod Advance
use ferrumnet.Prelude.{
  ℕ, ◌+◌, ◌-◌, ◌*◌, ◌%◌, ◌^◌, Bool, true, false, not, ◌&&◌, ◌||◌, Option, none, some, min, max, ltb,
  ◌==◌, u32, u32_max, wrapping_sub, if◌then◌else◌,
}
use ferrumnet.Seq.{SeqNumber, lt, gt, ge, offset_from}
use ferrumnet.Time.{Instant, saturating_micros_since}
use ferrumnet.Buffers.{consume, len}
use ferrumnet.Rtt.{RttEstimator, on_sample, on_clean_ack, srtt_micros}
use ferrumnet.Sack.{pipe, trim, in_recovery, recovery_reached, exit_recovery}
use ferrumnet.Congestion.{CongestionControl}
use ferrumnet.Tcb.{Tcb, ecn_enabled}
use ferrumnet.Tcb.Timers.{restart_rtx}
use ferrumnet.Tcb.Window.{update_window}

abbrev pub fin_covered : Option SeqNumber → SeqNumber → Bool
fin_covered none seg_ack = false
fin_covered (some fin_seq) seg_ack = gt seg_ack fin_seq

-- Whether the go-back-N drain goes on, at the new `snd_una`.
abbrev pub drains : Option SeqNumber → SeqNumber → SeqNumber → Bool
drains none snd_una snd_nxt = false
drains (some high) snd_una snd_nxt = lt snd_una high && not (snd_una == snd_nxt)

-- The RTT sample of an echoed timestamp: `elapsed as i32 >= 0` is a number below 2 ^ 31.
abbrev pub sample_echo : RttEstimator → Option ℕ → Instant → RttEstimator
sample_echo rtt none now = rtt
sample_echo rtt (some tsecr) now =
    let elapsed = wrapping_sub (u32 now.micros) tsecr in
    if ltb elapsed (2 ^ 31) then on_sample rtt (max elapsed 1) else rtt

-- Whether the segment that is timed is acknowledged, and its sample.
abbrev pub timed : Option (Instant × SeqNumber) → SeqNumber → Bool
timed none seg_ack = false
timed (some (sent_at, seq_end)) seg_ack = ge seg_ack seq_end

abbrev pub sample_timed : RttEstimator → Option (Instant × SeqNumber) → Instant → RttEstimator
sample_timed rtt none now = rtt
sample_timed rtt (some (sent_at, seq_end)) now =
    on_sample rtt (max (min (saturating_micros_since now sent_at) u32_max) 1)

module _ {C : Type 0} (ops : CongestionControl C) where
  abbrev pub recovering : Tcb C → Bool
  recovering t = t.sack_enabled && in_recovery t.scoreboard

  -- The bytes, the FIN and `snd_una`, and the samples of the controller.
  unfoldable pub take_acked : Tcb C → SeqNumber → ℕ → Instant → Tcb C
  take_acked t seg_ack data_acked now =
      let held = recovering t in
      let grown = if held then t.cc else ops.on_ack t.cc now (u32 data_acked) in
      let inflight = offset_from t.snd_nxt seg_ack in
      let cc_pipe =
        if t.sack_enabled then pipe t.scoreboard seg_ack t.snd_nxt t.snd_mss else inflight in
      record t {
        tx = (consume t.tx data_acked).1;
        fin_acked = fin_covered t.fin_seq seg_ack || t.fin_acked;
        snd_una = seg_ack;
        cc = ops.on_ack_sample grown now seg_ack inflight (u32 data_acked) cc_pipe held;
      }

  -- The CE marks that the ACE field reports since the last ACK.
  unfoldable pub take_marks : Tcb C → ℕ → ℕ → Bool → Instant → Tcb C
  take_marks t ace data_acked held now =
      let delta = (ace + 256 - t.accecn_ace_seen) % 256 % 8 in
      let marked = min (min (delta * t.snd_mss) u32_max) (u32 data_acked) in
      record t {
        accecn_ace_seen = if ecn_enabled t then ace % 8 else t.accecn_ace_seen;
        cc =
            if ecn_enabled t && not held then ops.on_ecn t.cc now (u32 data_acked) marked else t.cc;
      }

  -- The scoreboard, and the end of a recovery.
  unfoldable pub trim_board : Tcb C → Instant → Tcb C
  trim_board t now =
      let trimmed = trim t.scoreboard t.snd_una in
      let over = t.sack_enabled && recovery_reached trimmed t.snd_una in
      record t {
        scoreboard =
            if t.sack_enabled
            then (if over then exit_recovery trimmed else trimmed)
            else t.scoreboard;
        cc = if over then ops.on_ack t.cc now 0 else t.cc;
        retransmitted = if over then false else t.retransmitted;
      }

  unfoldable pub drain : Tcb C → Tcb C
  drain t =
      let on = drains t.gbn_recover t.snd_una t.snd_nxt in
      record t {
        retransmit = if on then true else t.retransmit;
        gbn_recover = if on then t.gbn_recover else none;
      }

  -- The RTT sample, the end of the backoff, and the smoothed RTT for the controller.
  abbrev pub hear_rtt : C → Option ℕ → C
  hear_rtt cc none = cc
  hear_rtt cc (some srtt) = ops.on_rtt_sample cc srtt

  unfoldable pub measure_rtt : Tcb C → SeqNumber → Option ℕ → Instant → Tcb C
  measure_rtt t seg_ack seg_tsecr now =
      let by_sample = not t.ts_enabled && (not t.retransmitted && timed t.rtt_sample seg_ack) in
      let sampled =
        if t.ts_enabled
        then sample_echo t.rtt seg_tsecr now
        else if by_sample
        then sample_timed t.rtt t.rtt_sample now
        else t.rtt in
      let cleared = on_clean_ack sampled in
      record t {
        rtt = cleared;
        rtt_sample = if by_sample then none else t.rtt_sample;
        cc = hear_rtt t.cc (srtt_micros cleared);
      }

  unfoldable pub rearm : Tcb C → Instant → Tcb C
  rearm t now =
      let empty = t.snd_una == t.snd_nxt in
      record t {
        rtx_deadline = if empty then none else (restart_rtx t now).rtx_deadline;
        retransmitted = if empty then false else t.retransmitted;
        rtt_sample = if empty then none else t.rtt_sample;
      }

  -- The body of `if seg_ack.gt(self.snd_una)`
  unfoldable pub advance : Tcb C → SeqNumber → Option ℕ → ℕ → Instant → Tcb C
  unfolding take_acked take_marks trim_board drain measure_rtt rearm
  advance t seg_ack seg_tsecr ace now =
      let data_acked = min (offset_from seg_ack t.snd_una) (len t.tx) in
      let t1 : Tcb C = take_acked t seg_ack data_acked now in
      let t2 : Tcb C = take_marks t1 ace data_acked (recovering t) now in
      let t3 : Tcb C = drain (trim_board t2 now) in rearm (measure_rtt t3 seg_ack seg_tsecr now) now

  unfoldable pub process_ack :
      Tcb C → SeqNumber → SeqNumber → ℕ → Option ℕ → ℕ → Instant → Bool × Tcb C
  process_ack t seg_seq seg_ack seg_wnd seg_tsecr ace now =
      if gt seg_ack t.snd_nxt
      then (false, record t { needs_ack = true })
      else if gt seg_ack t.snd_una
      then (true, update_window (advance t seg_ack seg_tsecr ace now) seg_seq seg_ack seg_wnd)
      else (true, update_window t seg_seq seg_ack seg_wnd)
