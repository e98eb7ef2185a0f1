-- ===== src/Bbr/Model.antt =====
-- The model of tcp-core/src/bbr.rs over the sampler and the filter: `Bbr` and its methods.
pub mod Ack
use ferrumnet.Prelude.{
  ℕ, ◌+◌, ◌-◌, ◌*◌, ◌/◌, ◌%◌, Bool, true, false, not, ◌&&◌, ◌||◌, Option, some, none, List, [], ◌∷◌,
  max, min, get_or, u32, u64, u32_max, u8_max, ltb, leb, ◌==◌, if◌then◌else◌, saturating_add,
  saturating_add_u64, saturating_mul_u64,
}
use ferrumnet.Seq.{SeqNumber}
use ferrumnet.Time.{Instant, zero_instant, saturating_micros_since, plus_micros}
use ferrumnet.Congestion.{initial_window}
use ferrumnet.Congestion.Float.{Float, ◌⊖◌, ◌⊗◌}
use ferrumnet.Bbr.{
  RateSampler, new_sampler, WindowedMax, new_filter, filter_update, record_sent, reset_in_flight,
}

pub data Mode : Type 0 where
  startup drain probe_bw probe_rtt : Mode

abbrev pub is_probe_rtt : Mode → Bool
is_probe_rtt probe_rtt = true
is_probe_rtt startup = false
is_probe_rtt drain = false
is_probe_rtt probe_bw = false

pub record Bbr (F : Type 0) : Type 0 where
  pub mss : ℕ
  pub cwnd : ℕ
  pub mode : Mode
  pub sampler : RateSampler
  pub btlbw_filter : WindowedMax
  pub btlbw : ℕ
  pub min_rtt_us : ℕ
  pub min_rtt_stamp : Instant
  pub pacing_gain : F
  pub cwnd_gain : F
  pub pacing_rate : ℕ
  pub round_count : ℕ
  pub next_round_delivered : ℕ
  pub round_start : Bool
  pub full_bw : ℕ
  pub full_bw_count : ℕ
  pub filled_pipe : Bool
  pub cycle_index : ℕ
  pub cycle_stamp : Instant
  pub probe_rtt_done_stamp : Option Instant
  pub prior_cwnd : ℕ
  pub inflight_hi : ℕ
  pub inflight_lo : ℕ
  pub loss_in_round : Bool
  pub was_in_recovery : Bool
  pub inflight_latest : ℕ
  pub extra_acked_filter : WindowedMax
  pub extra_acked : ℕ
  pub ack_epoch_stamp : Instant
  pub ack_epoch_acked : ℕ
  pub dup_acks : ℕ

abbrev pub full_bw_rounds : ℕ
full_bw_rounds = 3

abbrev pub min_rtt_window_us : ℕ
min_rtt_window_us = 10_000_000

abbrev pub probe_rtt_duration_us : ℕ
probe_rtt_duration_us = 200_000

module _ {F : Type 0} where
  abbrev pub min_cwnd : Bbr F → ℕ
  min_cwnd b = u32 (4 * b.mss)

  -- No bandwidth or no round-trip time is known.
  abbrev pub no_model : Bbr F → Bool
  no_model b = b.btlbw == 0 || b.min_rtt_us == u32_max

  unfoldable pub bdp : Bbr F → ℕ
  bdp b = if no_model b then 0 else saturating_mul_u64 b.btlbw b.min_rtt_us / 1_000_000

  unfoldable pub raise_inflight_bounds : Bbr F → Bbr F
  raise_inflight_bounds b =
      let hi =
        if b.inflight_hi == u32_max then b.inflight_hi else saturating_add b.inflight_hi b.mss in
      let lo = saturating_add b.inflight_lo b.mss in
      record b {
        inflight_hi = hi;
        inflight_lo =
            if b.inflight_lo == u32_max then u32_max else (if leb hi lo then u32_max else lo);
      }

  unfoldable pub update_ack_aggregation : Bbr F → Instant → ℕ → Bbr F
  unfolding bdp filter_update
  update_ack_aggregation b now acked =
      let epoch_us = saturating_micros_since now b.ack_epoch_stamp in
      let grown = saturating_mul_u64 b.btlbw epoch_us / 1_000_000 in
      let anew = leb b.ack_epoch_acked grown in
      let expected = if anew then 0 else grown in
      let acked_now = saturating_add_u64 (if anew then 0 else b.ack_epoch_acked) acked in
      let extra = min (acked_now - expected) (max (bdp b) (min_cwnd b)) in
      let (most, filter) = filter_update b.extra_acked_filter b.round_count extra in
      if b.btlbw == 0 || acked == 0 then b else record b {
        ack_epoch_acked = acked_now;
        ack_epoch_stamp = if anew then now else b.ack_epoch_stamp;
        extra_acked_filter = filter;
        extra_acked = min most u32_max;
      }

  unfoldable pub on_ack : Bbr F → Bbr F
  on_ack b = record b { dup_acks = 0 }

  unfoldable pub on_dup_ack : Bbr F → Bool × Bbr F
  on_dup_ack b =
      let count = min (b.dup_acks + 1) u8_max in
      if count == 3
      then (true, record b { dup_acks = count; loss_in_round = true })
      else (false, record b { dup_acks = count })

  unfoldable pub enter_recovery : Bbr F → Bbr F
  enter_recovery b = record b { loss_in_round = true }

  unfoldable pub set_mss : Bbr F → ℕ → Bbr F
  set_mss b mss = record b { mss = mss; cwnd = max b.cwnd (u32 (4 * mss)) }

  unfoldable pub pacing_rate_of : Bbr F → Option ℕ
  pacing_rate_of b = if b.pacing_rate == 0 then none else some b.pacing_rate

  unfoldable pub on_transmit : Bbr F → Instant → SeqNumber → ℕ → ℕ → Bool → Bbr F
  unfolding record_sent
  on_transmit b now seq_end bytes inflight app_limited = record b {
    sampler = record_sent b.sampler now seq_end bytes inflight app_limited;
  }

module _ {F : Type 0} ⦃fl : Float F⦄ where
  -- `HIGH_GAIN`, `DRAIN_GAIN`, `CWND_GAIN`, `PROBE_BW_GAINS`
  abbrev pub high_gain : F
  high_gain = fl.decimal 2_885 3

  abbrev pub drain_gain : F
  drain_gain = fl.decimal 346 3

  abbrev pub probe_bw_gain : ℕ → F
  probe_bw_gain i = get_or (fl.decimal 125 2 ∷ (fl.decimal 75 2 ∷ [])) i (fl.decimal 10 1)

  unfoldable pub new : ℕ → Bbr F
  unfolding initial_window
  new mss = record {
    mss = mss;
    cwnd = initial_window mss;
    mode = startup;
    sampler = new_sampler;
    btlbw_filter = new_filter 10;
    btlbw = 0;
    min_rtt_us = u32_max;
    min_rtt_stamp = zero_instant;
    pacing_gain = high_gain;
    cwnd_gain = high_gain;
    pacing_rate = 0;
    round_count = 0;
    next_round_delivered = 0;
    round_start = false;
    full_bw = 0;
    full_bw_count = 0;
    filled_pipe = false;
    cycle_index = 0;
    cycle_stamp = zero_instant;
    probe_rtt_done_stamp = none;
    prior_cwnd = 0;
    inflight_hi = u32_max;
    inflight_lo = u32_max;
    loss_in_round = false;
    was_in_recovery = false;
    inflight_latest = 0;
    extra_acked_filter = new_filter 10;
    extra_acked = 0;
    ack_epoch_stamp = zero_instant;
    ack_epoch_acked = 0;
    dup_acks = 0;
  }

  unfoldable pub check_full_pipe : Bbr F → Bbr F
  check_full_pipe b =
      let count = u32 (b.full_bw_count + 1) in
      if b.filled_pipe || not b.round_start
      then b
      else if fl.at_most (fl.of_nat b.full_bw ⊗ fl.decimal 125 2) (fl.of_nat b.btlbw)
      then record b { full_bw = b.btlbw; full_bw_count = 0 }
      else record b {
        full_bw_count = count;
        filled_pipe = b.filled_pipe || leb full_bw_rounds count;
      }

  unfoldable pub enter_probe_bw : Bbr F → Instant → Bbr F
  enter_probe_bw b now = record b {
    mode = probe_bw;
    cwnd_gain = fl.decimal 20 1;
    cycle_index = 2;
    pacing_gain = probe_bw_gain 2;
    cycle_stamp = now;
  }

  unfoldable pub advance_probe_bw : Bbr F → Instant → Bbr F
  advance_probe_bw b now =
      let next = (b.cycle_index + 1) % 8 in
      if leb b.min_rtt_us (saturating_micros_since now b.cycle_stamp)
      then record b { cycle_index = next; pacing_gain = probe_bw_gain next; cycle_stamp = now }
      else b

  unfoldable pub maybe_enter_probe_rtt : Bbr F → Bool → Bbr F
  maybe_enter_probe_rtt b expired =
      if expired && not (is_probe_rtt b.mode)
      then record b {
        mode = probe_rtt;
        pacing_gain = fl.decimal 10 1;
        cwnd_gain = fl.decimal 10 1;
        prior_cwnd = b.cwnd;
        probe_rtt_done_stamp = none;
      }
      else b

  -- The mode after a probe of the round-trip time, and the end of the probe.
  unfoldable pub resume_mode : Bbr F → Instant → Bbr F
  unfolding enter_probe_bw
  resume_mode b now =
      if b.filled_pipe
      then enter_probe_bw b now
      else record b { mode = startup; pacing_gain = high_gain; cwnd_gain = high_gain }

  unfoldable pub leave_probe_rtt : Bbr F → Instant → Bbr F
  unfolding resume_mode
  leave_probe_rtt b now =
      let r : Bbr F = record b { min_rtt_stamp = now; probe_rtt_done_stamp = none } in
      let m : Bbr F = resume_mode r now in record m { cwnd = max m.cwnd m.prior_cwnd }

  unfoldable pub probe_from : Bbr F → Instant → ℕ → Option Instant → Bbr F
  unfolding leave_probe_rtt
  probe_from b now inflight none =
      if leb inflight (min_cwnd b)
      then record b { probe_rtt_done_stamp = some (plus_micros now probe_rtt_duration_us) }
      else b
  probe_from b now inflight (some done) =
      if leb done.micros now.micros then leave_probe_rtt b now else b

  unfoldable pub handle_probe_rtt : Bbr F → Instant → ℕ → Bbr F
  unfolding probe_from
  handle_probe_rtt b now inflight = probe_from b now inflight b.probe_rtt_done_stamp

  unfoldable pub leave_startup : Bbr F → Bbr F
  leave_startup b =
      if b.filled_pipe
      then record b { mode = drain; pacing_gain = drain_gain; cwnd_gain = high_gain }
      else b

  unfoldable pub mode_step : Mode → Bbr F → Instant → ℕ → Bbr F
  unfolding check_full_pipe leave_startup bdp enter_probe_bw advance_probe_bw handle_probe_rtt
  mode_step startup b now inflight = leave_startup (check_full_pipe b)
  mode_step drain b now inflight = if leb inflight (bdp b) then enter_probe_bw b now else b
  mode_step probe_bw b now inflight = advance_probe_bw b now
  mode_step probe_rtt b now inflight = handle_probe_rtt b now inflight

  unfoldable pub update_mode : Bbr F → Instant → ℕ → Bool → Bbr F
  unfolding maybe_enter_probe_rtt mode_step
  update_mode b now inflight min_rtt_expired =
      let entered : Bbr F = maybe_enter_probe_rtt b min_rtt_expired in
      mode_step entered.mode entered now inflight

  unfoldable pub cut_inflight_bounds : Bbr F → Bbr F
  cut_inflight_bounds b =
      let floor = min_cwnd b in
      let latest = max b.inflight_latest floor in
      record b {
        inflight_lo =
            if b.inflight_lo == u32_max
            then max (fl.to_u32 (fl.of_nat latest ⊗ fl.decimal 5 1)) floor
            else max (fl.to_u32 (fl.of_nat b.inflight_lo ⊗ (fl.decimal 10 1 ⊖ fl.decimal 3 1)))
                floor;
      }

  unfoldable pub on_rto : Bbr F → Bbr F
  unfolding reset_in_flight
  on_rto b =
      let floor = min_cwnd b in
      let half = max (fl.to_u32 (fl.of_nat (max b.inflight_latest floor) ⊗ fl.decimal 5 1)) floor in
      record b {
        sampler = reset_in_flight b.sampler;
        cwnd = b.mss;
        dup_acks = 0;
        loss_in_round = true;
        inflight_hi = if b.inflight_hi == u32_max then half else max (b.inflight_hi / 2) floor;
        inflight_lo = if b.inflight_lo == u32_max then half else max (b.inflight_lo / 2) floor;
      }
