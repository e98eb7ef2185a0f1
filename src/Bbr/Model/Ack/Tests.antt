-- ===== src/Bbr/Model/Ack/Tests.antt =====
-- The model of tcp-core/src/bbr.rs on concrete ACKs.
use ferrumnet.Prelude.{ℕ, ◌+◌, ◌*◌, ◌≤◌, ◌≡◌, refl, arith, true, false, some}
use ferrumnet.Seq.{le, distance}
use ferrumnet.Time.{from_micros, saturating_micros_since}
use ferrumnet.Congestion.Fixed.{fixed}
use ferrumnet.Bbr.{
  RateSample, sample_ack, record_sent, restart_interval, pop_acked, finish_sample, sample_of,
}
use ferrumnet.Bbr.Model.{Bbr, new, on_transmit, no_model}
use ferrumnet.Bbr.Model.Ack.{on_ack_sample}
use ferrumnet.Bbr.Model.Ack.Recovery.{headroom-on_ack_sample}
use ferrumnet.Bbr.Model.Ack.Modes.{Arc, IsFull, on_ack_sample-Moves}

-- A thousand bytes are sent, and acknowledged after 40 milliseconds.
abbrev sent : Bbr ℕ
sent = on_transmit (new 1_460) (from_micros 0) 1_000 1_000 0 false

abbrev acked : Bbr ℕ
acked = on_ack_sample sent (from_micros 40_000) 1_000 0 1_000 20_000 true

sampled : (s : RateSample) × ((sample_ack sent.sampler (from_micros 40_000) 1_000).0 ≡ some s)
unfolding on_transmit new sample_ack record_sent restart_interval pop_acked finish_sample sample_of
    le distance saturating_micros_since
sampled = (
  record {
    delivery_rate = 25_000;
    rtt_us = 40_000;
    interval_us = 40_000;
    sample_is_limited = false;
    prior_delivered = 0;
  },
  refl,
)

known : no_model acked ≡ false
unfolding on_ack_sample on_transmit new sample_ack record_sent restart_interval pop_acked
    finish_sample sample_of le distance saturating_micros_since
known = refl

mss_known : acked.mss ≡ 1_460
unfolding on_ack_sample on_transmit new sample_ack record_sent restart_interval pop_acked
    finish_sample sample_of le distance saturating_micros_since
mss_known = refl

sent-IsFull : IsFull sent
unfolding on_transmit new
sent-IsFull = refl

fits : (n : ℕ) → n ≡ 1_460 → 20_000 + 3 * n ≤ 4_294_967_295
fits n e = rw e (omega arith)

headroom-on_ack_sample_example : 20_000 + 3 * acked.mss ≤ acked.cwnd
headroom-on_ack_sample_example =
    headroom-on_ack_sample sent (from_micros 40_000) 1_000 0 1_000 20_000 sampled.1 known
      (fits acked.mss mss_known)

on_ack_sample-Moves_example : Arc acked.filled_pipe sent.mode acked.mode × IsFull acked
on_ack_sample-Moves_example =
    on_ack_sample-Moves sent (from_micros 40_000) 1_000 0 1_000 20_000 true sent-IsFull
