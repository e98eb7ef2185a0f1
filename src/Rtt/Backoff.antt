-- ===== src/Rtt/Backoff.antt =====
-- The exponential backoff of tcp-core/src/rtt.rs.
use ferrumnet.Prelude.{ℕ, zero, suc, ◌+◌, ◌*◌, ◌/◌, ◌^◌, ◌≤◌, ◌<◌, ◌≡◌, refl, ap, arith, min, none}
use native.Mathlib.Nat.{pow-suc}
use ferrumnet.Rtt.{
  RttEstimator, on_sample, on_clean_ack, on_timeout, srtt_micros, max_rto, rebootstrap_after,
}
use ferrumnet.Rtt.Bounds.{IsValid}

-- `n` timeouts in a row
pub timeouts : ℕ → RttEstimator → RttEstimator
timeouts zero e = e
timeouts (suc n) e = on_timeout (timeouts n e)

-- After `n` timeouts in a row the timeout is the old one times 2 ^ n, cut at 60 s, and the timeout
-- without backoff is the old one still; a clean ACK then restores that.
pub timeouts_rto :
    (n : ℕ) (e : RttEstimator)
    → IsValid e
    → ((timeouts n e).rto ≡ min (e.rto * 2 ^ n) max_rto)
      × ((timeouts n e).base_rto ≡ e.base_rto)
      × ((on_clean_ack (timeouts n e)).rto ≡ e.base_rto)
unfolding timeouts on_timeout on_clean_ack
timeouts_rto zero e v = (omega arith, refl, refl)
timeouts_rto (suc n) e v =
    ground (arith, timeouts_rto n e v, pow-suc 2 n, ap (λ (t : ℕ). e.rto * t) (pow-suc 2 n))

timeouts_count :
    (n : ℕ) (e : RttEstimator)
    → e.consecutive_timeouts + n < 2 ^ 32
    → (timeouts n e).consecutive_timeouts ≡ e.consecutive_timeouts + n
unfolding timeouts on_timeout
timeouts_count zero e h = omega arith
timeouts_count (suc n) e h = ground (arith, timeouts_count n e (omega arith))

-- Three timeouts in a row, fewer than 2 ^ 32 counted, drop the measurement, and the next sample
-- starts afresh: the smoothed time is the sample, cut at 60 s, and the variation half of it.
pub timeouts_rebootstrap :
    (n : ℕ) (e : RttEstimator) (r : ℕ)
    → rebootstrap_after ≤ e.consecutive_timeouts + suc n
    → e.consecutive_timeouts + suc n < 2 ^ 32
    → (srtt_micros (timeouts (suc n) e) ≡ none)
      × ((on_sample (timeouts (suc n) e) r).srtt ≡ min r max_rto)
      × ((on_sample (timeouts (suc n) e) r).rttvar ≡ min r max_rto / 2)
unfolding timeouts on_timeout srtt_micros on_sample
timeouts_rebootstrap n e r h k = ground (arith, timeouts_count n e (omega arith))
