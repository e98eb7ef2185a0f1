-- ===== src/Bbr/Model/Ack.antt =====
-- `on_ack_sample` of tcp-core/src/bbr.rs: an ACK that advances, step by step.
pub mod Recovery
pub mod Modes
mod Tests
use ferrumnet.Prelude.{
  ℕ, ◌+◌, ◌*◌, Bool, true, false, not, ◌&&◌, ◌||◌, Option, some, none, max, min, u32_max, u64, ltb,
  leb, ◌==◌, if◌then◌else◌,
}
use ferrumnet.Seq.{SeqNumber}
use ferrumnet.Time.{Instant, saturating_micros_since}
use ferrumnet.Congestion.Float.{Float, ◌⊗◌}
use ferrumnet.Bbr.{RateSample, RateSampler, sample_ack, filter_update}
use ferrumnet.Bbr.Model.{
  Bbr, min_cwnd, no_model, bdp, is_probe_rtt, min_rtt_window_us, update_ack_aggregation,
  cut_inflight_bounds, raise_inflight_bounds, update_mode,
}

module _ {F : Type 0} where
  -- A round ends when the data outstanding at its start is delivered.
  unfoldable pub count_round : Bbr F → RateSample → Bbr F
  count_round b sample =
      if leb b.next_round_delivered sample.prior_delivered
      then record b {
        round_count = u64 (b.round_count + 1);
        next_round_delivered = b.sampler.delivered;
        round_start = true;
      }
      else record b { round_start = false }

  unfoldable pub min_rtt_expired : Bbr F → Instant → Bool
  min_rtt_expired b now =
      not (b.min_rtt_us == u32_max)
      && ltb min_rtt_window_us (saturating_micros_since now b.min_rtt_stamp)

  unfoldable pub take_rtt : Bbr F → Instant → RateSample → Bool → Bbr F
  take_rtt b now sample expired =
      if ltb 0 sample.rtt_us && (ltb sample.rtt_us b.min_rtt_us || expired)
      then record b { min_rtt_us = sample.rtt_us; min_rtt_stamp = now }
      else b

  unfoldable pub take_rate : Bbr F → RateSample → Bbr F
  unfolding filter_update
  take_rate b sample =
      let (most, filter) = filter_update b.btlbw_filter b.round_count sample.delivery_rate in
      if ltb 0 sample.delivery_rate
        && leb b.min_rtt_us sample.interval_us
        && (not sample.sample_is_limited || leb b.btlbw sample.delivery_rate)
      then record b { btlbw_filter = filter; btlbw = most }
      else b

  -- The end of a round raises the bounds, if it saw no loss, and starts the peak anew.
  unfoldable pub end_round : Bbr F → ℕ → Bool → Bbr F
  unfolding raise_inflight_bounds
  end_round b inflight in_recovery =
      let raised : Bbr F =
        if not b.loss_in_round && not in_recovery then raise_inflight_bounds b else b in
      if b.round_start
      then record raised { loss_in_round = false; inflight_latest = inflight }
      else b

module _ {F : Type 0} ⦃fl : Float F⦄ where
  -- The first sample of a recovery cuts the bound.
  unfoldable pub cut_on_loss : Bbr F → Bool → Bbr F
  unfolding cut_inflight_bounds
  cut_on_loss b in_recovery =
      if in_recovery && not b.was_in_recovery
      then record (cut_inflight_bounds b) { loss_in_round = true }
      else b

  -- The inflight bounds, with the peak of the round
  unfoldable pub bound_inflight : Bbr F → ℕ → Bool → Bbr F
  unfolding cut_on_loss end_round
  bound_inflight b inflight in_recovery =
      let peak : Bbr F = record b { inflight_latest = max b.inflight_latest inflight } in
      record (end_round (cut_on_loss peak in_recovery) inflight in_recovery) {
        was_in_recovery = in_recovery;
      }

  -- The window that the model aims at.
  unfoldable pub model_target : Bbr F → ℕ
  unfolding bdp
  model_target b =
      let extra = if b.filled_pipe then b.extra_acked else 0 in
      max (u64 (fl.to_u64 (fl.of_nat (bdp b) ⊗ b.cwnd_gain) + extra)) (min_cwnd b)

  unfoldable pub model_cwnd : Bbr F → ℕ → ℕ → Bool → ℕ
  unfolding model_target
  model_cwnd b acked pipe in_recovery =
      let bounded = min (model_target b) (min b.inflight_hi b.inflight_lo) in
      if in_recovery
      then max (max bounded (pipe + 3 * b.mss)) (min_cwnd b)
      else max (min (b.cwnd + acked) bounded) (min_cwnd b)

  unfoldable pub set_pacing_and_cwnd : Bbr F → ℕ → ℕ → Bool → Bbr F
  unfolding model_cwnd
  set_pacing_and_cwnd b acked pipe in_recovery =
      let cwnd = model_cwnd b acked pipe in_recovery in
      let held = if is_probe_rtt b.mode && not in_recovery then min cwnd (min_cwnd b) else cwnd in
      if no_model b then record b { pacing_rate = 0 } else record b {
        pacing_rate = fl.to_u64 (fl.of_nat b.btlbw ⊗ b.pacing_gain);
        cwnd = min held u32_max;
      }

  -- What a sample does before the mode and the window follow it.
  unfoldable pub take_sample : Bbr F → Instant → RateSample → ℕ → ℕ → Bool → Bbr F
  unfolding count_round min_rtt_expired take_rtt take_rate update_ack_aggregation bound_inflight
  take_sample b now sample inflight acked in_recovery =
      let counted : Bbr F = count_round b sample in
      let timed : Bbr F = take_rtt counted now sample (min_rtt_expired counted now) in
      let rated : Bbr F = take_rate timed sample in
      bound_inflight (update_ack_aggregation rated now acked) inflight in_recovery

  unfoldable pub on_sample : Bbr F → Instant → Option RateSample → ℕ → ℕ → ℕ → Bool → Bbr F
  unfolding take_sample update_mode set_pacing_and_cwnd min_rtt_expired count_round
  on_sample b now none inflight acked pipe in_recovery = b
  on_sample b now (some sample) inflight acked pipe in_recovery =
      set_pacing_and_cwnd
        (update_mode (take_sample b now sample inflight acked in_recovery) now inflight
          (min_rtt_expired b now))
        acked pipe in_recovery

  unfoldable pub on_ack_sample : Bbr F → Instant → SeqNumber → ℕ → ℕ → ℕ → Bool → Bbr F
  unfolding sample_ack on_sample
  on_ack_sample b now snd_una inflight acked pipe in_recovery =
      let (sample, sampler) = sample_ack b.sampler now snd_una in
      on_sample (record b { sampler = sampler }) now sample inflight acked pipe in_recovery
