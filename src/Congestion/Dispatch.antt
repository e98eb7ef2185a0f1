-- ===== src/Congestion/Dispatch.antt =====
-- The choice of a controller by tcp-core/src/congestion.rs: `Cc`, which hands every call to the
-- controller that it holds. CUBIC is any implementation of the contract.
use ferrumnet.Prelude.{ℕ, Bool, Option, u32_max}
use ferrumnet.Seq.{SeqNumber}
use ferrumnet.Time.{Instant}
use ferrumnet.Bbr.Model
use ferrumnet.Bbr.Model.{Bbr}
use ferrumnet.Bbr.Model.Ack.{on_ack_sample}
use ferrumnet.Congestion.{
  CcKind, CongestionControl, reno, cubic, bbr, dctcp, learned, prague, synth,
}
use ferrumnet.Congestion.Float.{Float}
use ferrumnet.Congestion.Scalable.{Window}
use ferrumnet.Congestion.Reno.{Reno, reno_control}
use ferrumnet.Congestion.Dctcp.{dctcp_control}
use ferrumnet.Congestion.Prague.{Prague, prague_control}
use ferrumnet.Congestion.Learned.{LearnedParams, Learned, learned_control}
use ferrumnet.Congestion.Machine.{ControlProgram}
use ferrumnet.Congestion.Synth.{Synth, synth_control}

-- `impl CongestionControl for Bbr`; the threshold is the largest number, and the methods that it
-- leaves out do nothing.
abbrev pub bbr_control : {F : Type 0} ⦃fl : Float F⦄ → CongestionControl (Bbr F)
bbr_control = record {
  start = λ kind mss. Model.new mss;
  cwnd = λ b. b.cwnd;
  ssthresh = λ b. u32_max;
  on_ack = λ b now acked. Model.on_ack b;
  on_dup_ack = λ b now flight_size. Model.on_dup_ack b;
  enter_recovery = λ b now flight_size. Model.enter_recovery b;
  on_rto = λ b now flight_size. Model.on_rto b;
  set_mss = λ b mss. Model.set_mss b mss;
  pacing_rate = λ b. Model.pacing_rate_of b;
  on_transmit = λ b now seq_end bytes inflight app_limited.
      Model.on_transmit b now seq_end bytes inflight app_limited;
  on_ack_sample = λ b now snd_una inflight acked pipe in_recovery.
      on_ack_sample b now snd_una inflight acked pipe in_recovery;
  on_ecn = λ b now acked marked. b;
  on_rtt_sample = λ b srtt_us. b;
}

pub data Cc (F K : Type 0) : Type 0 where
  of_reno : Reno → Cc F K
  of_cubic : K → Cc F K
  of_bbr : Bbr F → Cc F K
  of_dctcp : Window F → Cc F K
  of_learned : Learned F → Cc F K
  of_prague : Prague F → Cc F K
  of_synth : Synth F → Cc F K

module _ {F K : Type 0} ⦃fl : Float F⦄ (cubic_ops : CongestionControl K)
    (training : Option (LearnedParams F)) (search : Option ControlProgram) where
  -- `Cc::new`, with the overrides of the training and of the search
  unfoldable pub new : CcKind → ℕ → Cc F K
  new reno mss = of_reno (reno_control.start reno mss)
  new cubic mss = of_cubic (cubic_ops.start cubic mss)
  new bbr mss = of_bbr (bbr_control.start bbr mss)
  new dctcp mss = of_dctcp (dctcp_control.start dctcp mss)
  new learned mss = of_learned ((learned_control training).start learned mss)
  new prague mss = of_prague (prague_control.start prague mss)
  new synth mss = of_synth ((synth_control search).start synth mss)

  unfoldable pub cc_cwnd : Cc F K → ℕ
  cc_cwnd (of_reno c) = reno_control.cwnd c
  cc_cwnd (of_cubic c) = cubic_ops.cwnd c
  cc_cwnd (of_bbr c) = bbr_control.cwnd c
  cc_cwnd (of_dctcp c) = dctcp_control.cwnd c
  cc_cwnd (of_learned c) = (learned_control training).cwnd c
  cc_cwnd (of_prague c) = prague_control.cwnd c
  cc_cwnd (of_synth c) = (synth_control search).cwnd c

  unfoldable pub cc_ssthresh : Cc F K → ℕ
  cc_ssthresh (of_reno c) = reno_control.ssthresh c
  cc_ssthresh (of_cubic c) = cubic_ops.ssthresh c
  cc_ssthresh (of_bbr c) = bbr_control.ssthresh c
  cc_ssthresh (of_dctcp c) = dctcp_control.ssthresh c
  cc_ssthresh (of_learned c) = (learned_control training).ssthresh c
  cc_ssthresh (of_prague c) = prague_control.ssthresh c
  cc_ssthresh (of_synth c) = (synth_control search).ssthresh c

  unfoldable pub cc_on_ack : Cc F K → Instant → ℕ → Cc F K
  cc_on_ack (of_reno c) now acked = of_reno (reno_control.on_ack c now acked)
  cc_on_ack (of_cubic c) now acked = of_cubic (cubic_ops.on_ack c now acked)
  cc_on_ack (of_bbr c) now acked = of_bbr (bbr_control.on_ack c now acked)
  cc_on_ack (of_dctcp c) now acked = of_dctcp (dctcp_control.on_ack c now acked)
  cc_on_ack (of_learned c) now acked = of_learned ((learned_control training).on_ack c now acked)
  cc_on_ack (of_prague c) now acked = of_prague (prague_control.on_ack c now acked)
  cc_on_ack (of_synth c) now acked = of_synth ((synth_control search).on_ack c now acked)

  unfoldable pub cc_on_dup_ack : Cc F K → Instant → ℕ → Bool × Cc F K
  cc_on_dup_ack (of_reno c) now flight_size =
      let (lost, next) = reno_control.on_dup_ack c now flight_size in (lost, of_reno next)
  cc_on_dup_ack (of_cubic c) now flight_size =
      let (lost, next) = cubic_ops.on_dup_ack c now flight_size in (lost, of_cubic next)
  cc_on_dup_ack (of_bbr c) now flight_size =
      let (lost, next) = bbr_control.on_dup_ack c now flight_size in (lost, of_bbr next)
  cc_on_dup_ack (of_dctcp c) now flight_size =
      let (lost, next) = dctcp_control.on_dup_ack c now flight_size in (lost, of_dctcp next)
  cc_on_dup_ack (of_learned c) now flight_size =
      let (lost, next) = (learned_control training).on_dup_ack c now flight_size in
      (lost, of_learned next)
  cc_on_dup_ack (of_prague c) now flight_size =
      let (lost, next) = prague_control.on_dup_ack c now flight_size in (lost, of_prague next)
  cc_on_dup_ack (of_synth c) now flight_size =
      let (lost, next) = (synth_control search).on_dup_ack c now flight_size in
      (lost, of_synth next)

  unfoldable pub cc_enter_recovery : Cc F K → Instant → ℕ → Cc F K
  cc_enter_recovery (of_reno c) now flight_size =
      of_reno (reno_control.enter_recovery c now flight_size)
  cc_enter_recovery (of_cubic c) now flight_size =
      of_cubic (cubic_ops.enter_recovery c now flight_size)
  cc_enter_recovery (of_bbr c) now flight_size =
      of_bbr (bbr_control.enter_recovery c now flight_size)
  cc_enter_recovery (of_dctcp c) now flight_size =
      of_dctcp (dctcp_control.enter_recovery c now flight_size)
  cc_enter_recovery (of_learned c) now flight_size =
      of_learned ((learned_control training).enter_recovery c now flight_size)
  cc_enter_recovery (of_prague c) now flight_size =
      of_prague (prague_control.enter_recovery c now flight_size)
  cc_enter_recovery (of_synth c) now flight_size =
      of_synth ((synth_control search).enter_recovery c now flight_size)

  unfoldable pub cc_on_rto : Cc F K → Instant → ℕ → Cc F K
  cc_on_rto (of_reno c) now flight_size = of_reno (reno_control.on_rto c now flight_size)
  cc_on_rto (of_cubic c) now flight_size = of_cubic (cubic_ops.on_rto c now flight_size)
  cc_on_rto (of_bbr c) now flight_size = of_bbr (bbr_control.on_rto c now flight_size)
  cc_on_rto (of_dctcp c) now flight_size = of_dctcp (dctcp_control.on_rto c now flight_size)
  cc_on_rto (of_learned c) now flight_size =
      of_learned ((learned_control training).on_rto c now flight_size)
  cc_on_rto (of_prague c) now flight_size = of_prague (prague_control.on_rto c now flight_size)
  cc_on_rto (of_synth c) now flight_size =
      of_synth ((synth_control search).on_rto c now flight_size)

  unfoldable pub cc_set_mss : Cc F K → ℕ → Cc F K
  cc_set_mss (of_reno c) mss = of_reno (reno_control.set_mss c mss)
  cc_set_mss (of_cubic c) mss = of_cubic (cubic_ops.set_mss c mss)
  cc_set_mss (of_bbr c) mss = of_bbr (bbr_control.set_mss c mss)
  cc_set_mss (of_dctcp c) mss = of_dctcp (dctcp_control.set_mss c mss)
  cc_set_mss (of_learned c) mss = of_learned ((learned_control training).set_mss c mss)
  cc_set_mss (of_prague c) mss = of_prague (prague_control.set_mss c mss)
  cc_set_mss (of_synth c) mss = of_synth ((synth_control search).set_mss c mss)

  unfoldable pub cc_pacing_rate : Cc F K → Option ℕ
  cc_pacing_rate (of_reno c) = reno_control.pacing_rate c
  cc_pacing_rate (of_cubic c) = cubic_ops.pacing_rate c
  cc_pacing_rate (of_bbr c) = bbr_control.pacing_rate c
  cc_pacing_rate (of_dctcp c) = dctcp_control.pacing_rate c
  cc_pacing_rate (of_learned c) = (learned_control training).pacing_rate c
  cc_pacing_rate (of_prague c) = prague_control.pacing_rate c
  cc_pacing_rate (of_synth c) = (synth_control search).pacing_rate c

  unfoldable pub cc_on_transmit : Cc F K → Instant → SeqNumber → ℕ → ℕ → Bool → Cc F K
  cc_on_transmit (of_reno c) now seq_end bytes inflight app_limited =
      of_reno (reno_control.on_transmit c now seq_end bytes inflight app_limited)
  cc_on_transmit (of_cubic c) now seq_end bytes inflight app_limited =
      of_cubic (cubic_ops.on_transmit c now seq_end bytes inflight app_limited)
  cc_on_transmit (of_bbr c) now seq_end bytes inflight app_limited =
      of_bbr (bbr_control.on_transmit c now seq_end bytes inflight app_limited)
  cc_on_transmit (of_dctcp c) now seq_end bytes inflight app_limited =
      of_dctcp (dctcp_control.on_transmit c now seq_end bytes inflight app_limited)
  cc_on_transmit (of_learned c) now seq_end bytes inflight app_limited =
      of_learned ((learned_control training).on_transmit c now seq_end bytes inflight app_limited)
  cc_on_transmit (of_prague c) now seq_end bytes inflight app_limited =
      of_prague (prague_control.on_transmit c now seq_end bytes inflight app_limited)
  cc_on_transmit (of_synth c) now seq_end bytes inflight app_limited =
      of_synth ((synth_control search).on_transmit c now seq_end bytes inflight app_limited)

  unfoldable pub cc_on_ack_sample : Cc F K → Instant → SeqNumber → ℕ → ℕ → ℕ → Bool → Cc F K
  cc_on_ack_sample (of_reno c) now snd_una inflight acked pipe in_recovery =
      of_reno (reno_control.on_ack_sample c now snd_una inflight acked pipe in_recovery)
  cc_on_ack_sample (of_cubic c) now snd_una inflight acked pipe in_recovery =
      of_cubic (cubic_ops.on_ack_sample c now snd_una inflight acked pipe in_recovery)
  cc_on_ack_sample (of_bbr c) now snd_una inflight acked pipe in_recovery =
      of_bbr (bbr_control.on_ack_sample c now snd_una inflight acked pipe in_recovery)
  cc_on_ack_sample (of_dctcp c) now snd_una inflight acked pipe in_recovery =
      of_dctcp (dctcp_control.on_ack_sample c now snd_una inflight acked pipe in_recovery)
  cc_on_ack_sample (of_learned c) now snd_una inflight acked pipe in_recovery =
      of_learned
        ((learned_control training).on_ack_sample c now snd_una inflight acked pipe in_recovery)
  cc_on_ack_sample (of_prague c) now snd_una inflight acked pipe in_recovery =
      of_prague (prague_control.on_ack_sample c now snd_una inflight acked pipe in_recovery)
  cc_on_ack_sample (of_synth c) now snd_una inflight acked pipe in_recovery =
      of_synth ((synth_control search).on_ack_sample c now snd_una inflight acked pipe in_recovery)

  unfoldable pub cc_on_ecn : Cc F K → Instant → ℕ → ℕ → Cc F K
  cc_on_ecn (of_reno c) now acked marked = of_reno (reno_control.on_ecn c now acked marked)
  cc_on_ecn (of_cubic c) now acked marked = of_cubic (cubic_ops.on_ecn c now acked marked)
  cc_on_ecn (of_bbr c) now acked marked = of_bbr (bbr_control.on_ecn c now acked marked)
  cc_on_ecn (of_dctcp c) now acked marked = of_dctcp (dctcp_control.on_ecn c now acked marked)
  cc_on_ecn (of_learned c) now acked marked =
      of_learned ((learned_control training).on_ecn c now acked marked)
  cc_on_ecn (of_prague c) now acked marked = of_prague (prague_control.on_ecn c now acked marked)
  cc_on_ecn (of_synth c) now acked marked =
      of_synth ((synth_control search).on_ecn c now acked marked)

  unfoldable pub cc_on_rtt_sample : Cc F K → ℕ → Cc F K
  cc_on_rtt_sample (of_reno c) srtt_us = of_reno (reno_control.on_rtt_sample c srtt_us)
  cc_on_rtt_sample (of_cubic c) srtt_us = of_cubic (cubic_ops.on_rtt_sample c srtt_us)
  cc_on_rtt_sample (of_bbr c) srtt_us = of_bbr (bbr_control.on_rtt_sample c srtt_us)
  cc_on_rtt_sample (of_dctcp c) srtt_us = of_dctcp (dctcp_control.on_rtt_sample c srtt_us)
  cc_on_rtt_sample (of_learned c) srtt_us =
      of_learned ((learned_control training).on_rtt_sample c srtt_us)
  cc_on_rtt_sample (of_prague c) srtt_us = of_prague (prague_control.on_rtt_sample c srtt_us)
  cc_on_rtt_sample (of_synth c) srtt_us = of_synth ((synth_control search).on_rtt_sample c srtt_us)

  -- `impl CongestionControl for Cc`
  abbrev pub cc_control : CongestionControl (Cc F K)
  cc_control = record {
    start = new;
    cwnd = cc_cwnd;
    ssthresh = cc_ssthresh;
    on_ack = cc_on_ack;
    on_dup_ack = cc_on_dup_ack;
    enter_recovery = cc_enter_recovery;
    on_rto = cc_on_rto;
    set_mss = cc_set_mss;
    pacing_rate = cc_pacing_rate;
    on_transmit = cc_on_transmit;
    on_ack_sample = cc_on_ack_sample;
    on_ecn = cc_on_ecn;
    on_rtt_sample = cc_on_rtt_sample;
  }
